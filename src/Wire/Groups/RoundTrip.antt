-- ===== src/Wire/Groups/RoundTrip.antt =====
-- What is observed of the nodes, groups and volumes of a cluster that is sent and read back (api/proto/convert.go).
use hyperv_control_plane.Prelude.{◌≡◌, refl}
use hyperv_control_plane.Wire.{list_back_always}
use hyperv_control_plane.Types.ClusterStatus.{
  ClusterNodeStatus, ClusterVmStatus, ClusterResourceStatus, ClusterGroupStatus, CsvStatus,
}
use hyperv_control_plane.Wire.Groups.{
  cluster_node_to_proto, cluster_node_from_proto, cluster_vm_to_proto, cluster_vm_from_proto,
  cluster_resource_to_proto, cluster_resource_from_proto, cluster_group_to_proto,
  cluster_group_from_proto, cluster_csv_to_proto, cluster_csv_from_proto,
}

pub cluster_node_from_proto-cluster_node_to_proto :
    (s : ClusterNodeStatus) → cluster_node_from_proto (cluster_node_to_proto s) ≡ s
unfolding cluster_node_to_proto cluster_node_from_proto
cluster_node_from_proto-cluster_node_to_proto s = refl

pub cluster_vm_from_proto-cluster_vm_to_proto :
    (s : ClusterVmStatus) → cluster_vm_from_proto (cluster_vm_to_proto s) ≡ s
unfolding cluster_vm_to_proto cluster_vm_from_proto
cluster_vm_from_proto-cluster_vm_to_proto s = refl

pub cluster_resource_from_proto-cluster_resource_to_proto :
    (s : ClusterResourceStatus) → cluster_resource_from_proto (cluster_resource_to_proto s) ≡ s
unfolding cluster_resource_to_proto cluster_resource_from_proto
cluster_resource_from_proto-cluster_resource_to_proto s = refl

pub cluster_group_from_proto-cluster_group_to_proto :
    (s : ClusterGroupStatus) → cluster_group_from_proto (cluster_group_to_proto s) ≡ s
unfolding cluster_group_to_proto cluster_group_from_proto
cluster_group_from_proto-cluster_group_to_proto s =
    rw
      (list_back_always cluster_resource_to_proto cluster_resource_from_proto
        cluster_resource_from_proto-cluster_resource_to_proto s.resources)
      refl

pub cluster_csv_from_proto-cluster_csv_to_proto :
    (s : CsvStatus) → cluster_csv_from_proto (cluster_csv_to_proto s) ≡ s
unfolding cluster_csv_to_proto cluster_csv_from_proto
cluster_csv_from_proto-cluster_csv_to_proto s = refl
