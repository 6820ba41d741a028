-- ===== src/Wire/Witness.antt =====
-- The two declarations of a witness that WitnessType in api/types/desiredstate.go tells apart, none
-- and nothing declared, on the wire (api/proto/convert.go).
use hyperv_control_plane.Prelude.{◌≡◌, refl, Text, codes, []}
use hyperv_control_plane.Types.Cluster.{ClusterSpec}
use hyperv_control_plane.Wire.Enums.{witness_type_to_proto}
use hyperv_control_plane.Wire.Cluster.{cluster_spec_to_proto, witness_spec_to_proto}

abbrev pub witness_none : Text
witness_none = codes "None"

-- A cluster with its witness declared to be of a type.
abbrev pub declare_witness : Text → ClusterSpec → ClusterSpec
declare_witness t s = record s { witness = record s.witness { type_ = t } }

same_number : witness_type_to_proto witness_none ≡ witness_type_to_proto []
unfolding witness_type_to_proto
same_number = refl

-- A cluster that declares that it has no witness, and the same cluster with nothing declared about
-- its witness, are sent as the same message.
pub cluster_spec_to_proto-witness_none :
    (s : ClusterSpec)
    → cluster_spec_to_proto (declare_witness witness_none s)
      ≡ cluster_spec_to_proto (declare_witness [] s)
unfolding cluster_spec_to_proto witness_spec_to_proto
cluster_spec_to_proto-witness_none s = rw same_number refl
