-- ===== src/Wire/Meta/RoundTrip.antt =====
-- What every object has, and a secret that is sent and read back (api/proto/convert.go).
use hyperv_control_plane.Prelude.{◌≡◌, refl, some, []}
use hyperv_control_plane.Wire.Library.{Library, IsDocumented, ts_from_proto-ts_to_proto}
use hyperv_control_plane.Types.Meta.{ObjectMeta, Condition, Secret}
use hyperv_control_plane.Wire.Meta.{
  meta_to_proto, meta_from_proto, condition_to_proto, condition_from_proto, secret_to_proto,
  secret_from_proto,
}

-- What is left of one without the fields that are not sent.
abbrev pub meta_on_wire : ObjectMeta → ObjectMeta
meta_on_wire s = record s { annotations = [] }

pub meta_from_proto-meta_to_proto :
    {stamp : Type 0} (lib : Library stamp)
    → IsDocumented lib
    → (s : ObjectMeta) → meta_from_proto lib (some (meta_to_proto lib s)) ≡ meta_on_wire s
unfolding meta_to_proto meta_from_proto
meta_from_proto-meta_to_proto lib doc s =
    rw
      (
        ts_from_proto-ts_to_proto lib doc s.created_at,
        ts_from_proto-ts_to_proto lib doc s.updated_at,
      )
      refl

pub condition_from_proto-condition_to_proto :
    {stamp : Type 0} (lib : Library stamp)
    → IsDocumented lib
    → (s : Condition) → condition_from_proto lib (condition_to_proto lib s) ≡ s
unfolding condition_to_proto condition_from_proto
condition_from_proto-condition_to_proto lib doc s =
    rw (ts_from_proto-ts_to_proto lib doc s.last_transition_time) refl

pub secret_from_proto-secret_to_proto :
    (s : Secret) → secret_from_proto (some (secret_to_proto s)) ≡ s
unfolding secret_to_proto secret_from_proto
secret_from_proto-secret_to_proto s = refl
