-- ===== src/Wire/Meta.antt =====
-- What every object has, and a secret on the wire: the messages, and the conversions of
-- api/proto/convert.go to and from them.
pub mod RoundTrip
use hyperv_control_plane.Prelude.{
  ℕ, ◌≡◌, refl, sym, ap, ◌∙◌, ◌⊎◌, inl, inr, ℤ, pos, Bool, true, false, Option, none, some, List,
  [], ◌∷◌, map, All, Text, codes, text_eq, if◌then◌else◌,
}
use hyperv_control_plane.Wire.{
  int32, IsInt32, int32_lem, option_int32, map_option, AllOption, or_zero, at_constant, option_back,
  option_back_always, option_onto, list_back, list_back_always, list_onto,
}
use hyperv_control_plane.Wire.Library.{
  Codec, Library, IsDocumented, IsJson, IsWhole, ts_to_proto, ts_from_proto, created_to_proto,
  created_from_proto, marshal_observed, unmarshal_observed, marshal_list, unmarshal_list,
  ts_from_proto-ts_to_proto, created_from_proto-created_to_proto,
  unmarshal_observed-marshal_observed, unmarshal_list-marshal_list,
}
use hyperv_control_plane.Types.Meta.{ObjectMeta, zero_meta, Condition, Secret, zero_secret}

pub record ObjectMetaPb (stamp : Type 0) : Type 0 where
  pub name : Text
  pub uid : Text
  pub generation : ℤ  -- int64
  pub labels : List (Text × Text)
  pub created_at : Option stamp
  pub updated_at : Option stamp

pub record ConditionPb (stamp : Type 0) : Type 0 where
  pub condition_type : Text
  pub status : Bool
  pub reason : Text
  pub message : Text
  pub last_transition_time : Option stamp

pub record SecretPb : Type 0 where
  pub name : Text
  pub secret_type : Text
  pub data_ : List (Text × Text)

unfoldable pub meta_to_proto : {stamp : Type 0} → Library stamp → ObjectMeta → ObjectMetaPb stamp
meta_to_proto lib s = record {
  name = s.name;
  uid = s.uid;
  generation = s.generation;
  labels = s.labels;
  created_at = ts_to_proto lib s.created_at;
  updated_at = ts_to_proto lib s.updated_at;
}

unfoldable pub meta_from_proto :
    {stamp : Type 0} → Library stamp → Option (ObjectMetaPb stamp) → ObjectMeta
meta_from_proto lib none = zero_meta
meta_from_proto lib (some m) = record {
  name = m.name;
  uid = m.uid;
  generation = m.generation;
  labels = m.labels;
  annotations = [];
  created_at = ts_from_proto lib m.created_at;
  updated_at = ts_from_proto lib m.updated_at;
}

unfoldable pub condition_to_proto : {stamp : Type 0} → Library stamp → Condition → ConditionPb stamp
condition_to_proto lib s = record {
  condition_type = s.condition_type;
  status = s.status;
  reason = s.reason;
  message = s.message;
  last_transition_time = ts_to_proto lib s.last_transition_time;
}

unfoldable pub condition_from_proto :
    {stamp : Type 0} → Library stamp → ConditionPb stamp → Condition
condition_from_proto lib m = record {
  condition_type = m.condition_type;
  status = m.status;
  reason = m.reason;
  message = m.message;
  last_transition_time = ts_from_proto lib m.last_transition_time;
}

unfoldable pub secret_to_proto : Secret → SecretPb
secret_to_proto s = record { name = s.name; secret_type = s.secret_type; data_ = s.data_ }

unfoldable pub secret_from_proto : Option SecretPb → Secret
secret_from_proto none = zero_secret
secret_from_proto (some m) = record { name = m.name; secret_type = m.secret_type; data_ = m.data_ }
