-- ===== src/Wire/Quorum/RoundTrip.antt =====
-- What is observed of the quorum and the pool of a cluster that is sent and read back (api/proto/convert.go).
use hyperv_control_plane.Prelude.{◌≡◌, refl, Option, none, some}
use hyperv_control_plane.Wire.{IsInt32, int32_lem, AllOption}
use hyperv_control_plane.Wire.Enums.RoundTrip.{
  IsSentWitness, witness_type_from_proto-witness_type_to_proto,
}
use hyperv_control_plane.Types.ClusterStatus.{
  ClusterReplicaBrokerStatus, ClusterWitnessStatus, ClusterNetworkStatus, ClusterPoolStatus,
}
use hyperv_control_plane.Wire.Quorum.{
  cluster_broker_to_proto, cluster_broker_from_proto, cluster_witness_to_proto,
  cluster_witness_from_proto, cluster_network_to_proto, cluster_network_from_proto,
  cluster_pool_to_proto, cluster_pool_from_proto,
}

pub cluster_broker_from_proto-cluster_broker_to_proto :
    (o : Option ClusterReplicaBrokerStatus)
    → cluster_broker_from_proto (cluster_broker_to_proto o) ≡ o
unfolding cluster_broker_to_proto cluster_broker_from_proto
cluster_broker_from_proto-cluster_broker_to_proto none = refl
cluster_broker_from_proto-cluster_broker_to_proto (some s) = refl

abbrev pub IsWireClusterWitnessStatus : ClusterWitnessStatus → Type 0
IsWireClusterWitnessStatus s = IsSentWitness s.type_

pub cluster_witness_from_proto-cluster_witness_to_proto :
    (o : Option ClusterWitnessStatus)
    → AllOption IsWireClusterWitnessStatus o
    → cluster_witness_from_proto (cluster_witness_to_proto o) ≡ o
unfolding cluster_witness_to_proto cluster_witness_from_proto
cluster_witness_from_proto-cluster_witness_to_proto none h = refl
cluster_witness_from_proto-cluster_witness_to_proto (some s) h =
    rw (witness_type_from_proto-witness_type_to_proto s.type_ h) refl

abbrev pub IsWireClusterNetworkStatus : ClusterNetworkStatus → Type 0
IsWireClusterNetworkStatus s = IsInt32 s.metric

pub cluster_network_from_proto-cluster_network_to_proto :
    (s : ClusterNetworkStatus)
    → IsWireClusterNetworkStatus s
    → cluster_network_from_proto (cluster_network_to_proto s) ≡ s
unfolding cluster_network_to_proto cluster_network_from_proto
cluster_network_from_proto-cluster_network_to_proto s h = rw (int32_lem s.metric h) refl

abbrev pub IsWireClusterPoolStatus : ClusterPoolStatus → Type 0
IsWireClusterPoolStatus s =
    (IsInt32 s.unhealthy_disks)
    × (IsInt32 s.disks_in_maintenance)
    × (IsInt32 s.total_disks)
    × (IsInt32 s.resync_percent)

pub cluster_pool_from_proto-cluster_pool_to_proto :
    (o : Option ClusterPoolStatus)
    → AllOption IsWireClusterPoolStatus o
    → cluster_pool_from_proto (cluster_pool_to_proto o) ≡ o
unfolding cluster_pool_to_proto cluster_pool_from_proto
cluster_pool_from_proto-cluster_pool_to_proto none h = refl
cluster_pool_from_proto-cluster_pool_to_proto (some s) h =
    rw
      (
        int32_lem s.unhealthy_disks h.0,
        int32_lem s.disks_in_maintenance h.1,
        int32_lem s.total_disks h.2,
        int32_lem s.resync_percent h.3,
      )
      refl
