-- ===== src/Types/Meta.antt =====
-- What every object of the desired state has, and a secret (api/types/desiredstate.go). A time is a natural
-- number, the zero time 0.
use hyperv_control_plane.Prelude.{ℕ, ℤ, pos, Bool, List, [], Text}

pub record ObjectMeta : Type 0 where
  pub name : Text
  pub uid : Text
  pub generation : ℤ  -- int64
  pub labels : List (Text × Text)
  pub annotations : List (Text × Text)
  pub created_at : ℕ
  pub updated_at : ℕ

abbrev pub zero_meta : ObjectMeta
zero_meta = record {
  name = [];
  uid = [];
  generation = pos 0;
  labels = [];
  annotations = [];
  created_at = 0;
  updated_at = 0;
}

pub record Condition : Type 0 where
  pub condition_type : Text
  pub status : Bool
  pub reason : Text
  pub message : Text
  pub last_transition_time : ℕ

pub record Secret : Type 0 where
  pub name : Text
  pub secret_type : Text
  pub data_ : List (Text × Text)

abbrev pub zero_secret : Secret
zero_secret = record { name = []; secret_type = []; data_ = [] }
