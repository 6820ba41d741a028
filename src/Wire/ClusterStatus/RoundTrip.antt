-- ===== src/Wire/ClusterStatus/RoundTrip.antt =====
-- A cluster and its status that is sent and read back (api/proto/convert.go).
use hyperv_control_plane.Prelude.{◌≡◌, refl, pos, false, some, [], All}
use hyperv_control_plane.Wire.{IsInt32, int32_lem, AllOption, list_back, list_back_always}
use hyperv_control_plane.Wire.Library.{Library, IsDocumented}
use hyperv_control_plane.Wire.Phase.RoundTrip.{IsPhase, phase_from_proto-phase_to_proto}
use hyperv_control_plane.Types.ClusterStatus.{ClusterStatus, Cluster}
use hyperv_control_plane.Wire.Meta.{condition_to_proto, condition_from_proto}
use hyperv_control_plane.Wire.Meta.RoundTrip.{
  meta_on_wire, meta_from_proto-meta_to_proto, condition_from_proto-condition_to_proto,
}
use hyperv_control_plane.Wire.Cluster.RoundTrip.{
  cluster_spec_on_wire, IsWireClusterSpec, cluster_spec_from_proto-cluster_spec_to_proto,
}
use hyperv_control_plane.Wire.Iscsi.{iscsi_status_to_proto, iscsi_status_from_proto}
use hyperv_control_plane.Wire.Iscsi.RoundTrip.{
  IsWireIscsiStatus, iscsi_status_from_proto-iscsi_status_to_proto,
}
use hyperv_control_plane.Wire.Quorum.{cluster_network_to_proto, cluster_network_from_proto}
use hyperv_control_plane.Wire.Quorum.RoundTrip.{
  cluster_broker_from_proto-cluster_broker_to_proto, IsWireClusterWitnessStatus,
  cluster_witness_from_proto-cluster_witness_to_proto, IsWireClusterNetworkStatus,
  cluster_network_from_proto-cluster_network_to_proto, IsWireClusterPoolStatus,
  cluster_pool_from_proto-cluster_pool_to_proto,
}
use hyperv_control_plane.Wire.Groups.{
  cluster_node_to_proto, cluster_node_from_proto, cluster_vm_to_proto, cluster_vm_from_proto,
  cluster_group_to_proto, cluster_group_from_proto, cluster_csv_to_proto, cluster_csv_from_proto,
}
use hyperv_control_plane.Wire.Groups.RoundTrip.{
  cluster_node_from_proto-cluster_node_to_proto, cluster_vm_from_proto-cluster_vm_to_proto,
  cluster_group_from_proto-cluster_group_to_proto, cluster_csv_from_proto-cluster_csv_to_proto,
}
use hyperv_control_plane.Wire.ClusterStatus.{
  cluster_status_to_proto, cluster_status_from_proto, cluster_to_proto, cluster_from_proto,
}

-- What is left of one without the fields that are not sent.
abbrev pub cluster_status_on_wire : ClusterStatus → ClusterStatus
cluster_status_on_wire s = record s {
  observed_at = 0;
  no_member_reporting = false;
  last_member_contact = 0;
  member_count = pos 0;
  members_online = pos 0;
  shut_down_from_ballast = false;
  shut_down_at = 0;
  shut_down_by = [];
}

abbrev pub IsWireClusterStatus : {stamp : Type 0} → Library stamp → ClusterStatus → Type 0
IsWireClusterStatus lib s =
    (IsPhase s.phase)
    × (AllOption IsWireClusterPoolStatus s.pool)
    × (All IsWireClusterNetworkStatus s.networks)
    × (AllOption IsWireClusterWitnessStatus s.witness)
    × (All IsWireIscsiStatus s.iscsi)
    × (IsInt32 s.functional_level)
    × (IsInt32 s.node_os_build)

pub cluster_status_from_proto-cluster_status_to_proto :
    {stamp : Type 0} (lib : Library stamp)
    → IsDocumented lib
    → (s : ClusterStatus) → IsWireClusterStatus lib s
    → cluster_status_from_proto lib (some (cluster_status_to_proto lib s))
      ≡ cluster_status_on_wire s
unfolding cluster_status_to_proto cluster_status_from_proto
cluster_status_from_proto-cluster_status_to_proto lib doc s h =
    rw
      (
        phase_from_proto-phase_to_proto s.phase h.0,
        list_back_always (condition_to_proto lib) (condition_from_proto lib)
            (condition_from_proto-condition_to_proto lib doc) s.conditions,
        list_back_always cluster_group_to_proto cluster_group_from_proto
            cluster_group_from_proto-cluster_group_to_proto s.groups,
        list_back_always cluster_csv_to_proto cluster_csv_from_proto
            cluster_csv_from_proto-cluster_csv_to_proto s.csvs,
        list_back_always cluster_vm_to_proto cluster_vm_from_proto
            cluster_vm_from_proto-cluster_vm_to_proto s.vms,
        list_back_always cluster_node_to_proto cluster_node_from_proto
            cluster_node_from_proto-cluster_node_to_proto s.nodes,
        cluster_pool_from_proto-cluster_pool_to_proto s.pool h.1,
        list_back IsWireClusterNetworkStatus cluster_network_to_proto cluster_network_from_proto
            cluster_network_from_proto-cluster_network_to_proto s.networks h.2,
        cluster_witness_from_proto-cluster_witness_to_proto s.witness h.3,
        list_back IsWireIscsiStatus iscsi_status_to_proto iscsi_status_from_proto
            iscsi_status_from_proto-iscsi_status_to_proto s.iscsi h.4,
        cluster_broker_from_proto-cluster_broker_to_proto s.replica_broker,
        int32_lem s.functional_level h.5,
        int32_lem s.node_os_build h.6,
      )
      refl

-- What is left of one without the fields that are not sent.
abbrev pub cluster_on_wire : Cluster → Cluster
cluster_on_wire s = record s {
  meta = meta_on_wire s.meta;
  spec = cluster_spec_on_wire s.spec;
  status = cluster_status_on_wire s.status;
}

abbrev pub IsWireCluster : {stamp : Type 0} → Library stamp → Cluster → Type 0
IsWireCluster lib s = (IsWireClusterSpec s.spec) × (IsWireClusterStatus lib s.status)

-- A cluster is read as it was sent, but for what is not sent: its annotations, its switches, its
-- default storage path and what the centre derives for its status. Given what is documented of the
-- libraries, where the numbers sent as int32 fit one, and the constants, the types of the declared and
-- of the observed witness among them, are empty or have a number of their own.
pub cluster_from_proto-cluster_to_proto :
    {stamp : Type 0} (lib : Library stamp)
    → IsDocumented lib
    → (s : Cluster) → IsWireCluster lib s
    → cluster_from_proto lib (some (cluster_to_proto lib s)) ≡ cluster_on_wire s
unfolding cluster_to_proto cluster_from_proto
cluster_from_proto-cluster_to_proto lib doc s h =
    rw
      (
        meta_from_proto-meta_to_proto lib doc s.meta,
        cluster_spec_from_proto-cluster_spec_to_proto s.spec h.0,
        cluster_status_from_proto-cluster_status_to_proto lib doc s.status h.1,
      )
      refl
