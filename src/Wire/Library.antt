-- ===== src/Wire/Library.antt =====
-- What api/proto/convert.go uses of timestamppb, time and encoding/json: a parameter, with what these
-- document, and the conversions around it.
use hyperv_control_plane.Prelude.{
  ℕ, ◌≡◌, refl, ◌⊎◌, inl, inr, arith, ◌==◌, Bool-cases, Option, none, some, List, [], ◌∷◌, All,
  Text, if◌then◌else◌,
}
use hyperv_control_plane.Types.VmStatus.{ObservedVm, VmObserved}
use hyperv_control_plane.Types.HostStatus.{MigrationPassResult}
use hyperv_control_plane.Wire.{AllOption}

-- json.Marshal and json.Unmarshal at a type; `none` is an error.
pub record Codec (A : Type 0) : Type 0 where
  pub encode : A → Option Text
  pub decode : Text → Option A

-- `stamp` is the message timestamppb.Timestamp; `format` and `parse` are of time.RFC3339.
pub record Library (stamp : Type 0) : Type 0 where
  pub new_stamp : ℕ → stamp
  pub as_time : stamp → ℕ
  pub format : ℕ → Text
  pub parse : Text → Option ℕ
  pub vms : Codec ObservedVm
  pub passes : Codec MigrationPassResult
  pub observed : Codec VmObserved

-- A timestamp is the time it was made from, and an empty text is no time.
pub record IsDocumented {stamp : Type 0} (lib : Library stamp) : Type 0 where
  pub same_time : (t : ℕ) → lib.as_time (lib.new_stamp t) ≡ t
  pub nothing_parsed : lib.parse [] ≡ none

-- A value whose JSON, which is not empty, is read back as the value.
abbrev pub IsJson : {A : Type 0} → Codec A → A → Type 0
IsJson c a =
    (x : ℕ) × (text : Text) × (c.encode a ≡ some (x ∷ text)) × (c.decode (x ∷ text) ≡ some a)

-- The zero time, or one that is read back from RFC 3339, which keeps whole seconds.
abbrev pub IsWhole : {stamp : Type 0} → Library stamp → ℕ → Type 0
IsWhole lib t = (t ≡ 0) ⊎ (lib.parse (lib.format t) ≡ some t)

unfoldable pub ts_to_proto : {stamp : Type 0} → Library stamp → ℕ → Option stamp
ts_to_proto lib t = if t == 0 then none else some (lib.new_stamp t)

unfoldable pub ts_from_proto : {stamp : Type 0} → Library stamp → Option stamp → ℕ
ts_from_proto lib none = 0
ts_from_proto lib (some s) = lib.as_time s

unfoldable pub created_to_proto : {stamp : Type 0} → Library stamp → ℕ → Text
created_to_proto lib t = if t == 0 then [] else lib.format t

abbrev or_zero_time : Option ℕ → ℕ
or_zero_time none = 0
or_zero_time (some t) = t

unfoldable pub created_from_proto : {stamp : Type 0} → Library stamp → Text → ℕ
created_from_proto lib s = or_zero_time (lib.parse s)

abbrev or_empty : Option Text → Text
or_empty none = []
or_empty (some s) = s

unfoldable pub marshal_observed : {A : Type 0} → Codec A → Option A → Text
marshal_observed c none = []
marshal_observed c (some a) = or_empty (c.encode a)

unfoldable pub unmarshal_observed : {A : Type 0} → Codec A → Text → Option A
unmarshal_observed c [] = none
unmarshal_observed c (x ∷ s) = c.decode (x ∷ s)

-- An element with an error is left out.
abbrev keep : {B : Type 0} → Option B → List B → List B
keep none ys = ys
keep (some y) ys = y ∷ ys

unfoldable pub marshal_list : {A : Type 0} → Codec A → List A → List Text
marshal_list c [] = []
marshal_list c (a ∷ xs) = keep (c.encode a) (marshal_list c xs)

unfoldable pub unmarshal_list : {A : Type 0} → Codec A → List Text → List A
unmarshal_list c [] = []
unmarshal_list c (s ∷ ss) = keep (c.decode s) (unmarshal_list c ss)

pub ts_from_proto-ts_to_proto :
    {stamp : Type 0} (lib : Library stamp)
    → IsDocumented lib
    → (t : ℕ) → ts_from_proto lib (ts_to_proto lib t) ≡ t
unfolding ts_from_proto ts_to_proto
ts_from_proto-ts_to_proto lib doc t = elim (Bool-cases (t == 0)) [
  | inl y ↦ rw y (ground (arith, y))
  | inr n ↦ rw n (doc.same_time t)
]

pub created_from_proto-created_to_proto :
    {stamp : Type 0} (lib : Library stamp)
    → IsDocumented lib
    → (t : ℕ) → IsWhole lib t
    → created_from_proto lib (created_to_proto lib t) ≡ t
unfolding created_from_proto created_to_proto
created_from_proto-created_to_proto lib doc t (inl z) = rw (z, doc.nothing_parsed) refl
created_from_proto-created_to_proto lib doc t (inr e) = elim (Bool-cases (t == 0)) [
  | inl y ↦ rw (y, doc.nothing_parsed) (ground (arith, y))
  | inr n ↦ rw (n, e) refl
]

pub unmarshal_observed-marshal_observed :
    {A : Type 0} (c : Codec A) (o : Option A)
    → AllOption (IsJson c) o
    → unmarshal_observed c (marshal_observed c o) ≡ o
unfolding unmarshal_observed marshal_observed
unmarshal_observed-marshal_observed c none h = refl
unmarshal_observed-marshal_observed c (some a) (x, s, e, d) = rw (e, d) refl

pub unmarshal_list-marshal_list :
    {A : Type 0} (c : Codec A) (xs : List A)
    → All (IsJson c) xs
    → unmarshal_list c (marshal_list c xs) ≡ xs
unfolding unmarshal_list marshal_list
unmarshal_list-marshal_list c [] h = refl
unmarshal_list-marshal_list c (a ∷ xs) ((x, s, e, d), hs) =
    rw (e, d, unmarshal_list-marshal_list c xs hs) refl
