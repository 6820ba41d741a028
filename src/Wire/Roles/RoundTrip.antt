-- ===== src/Wire/Roles/RoundTrip.antt =====
-- What a host joins, serves and runs that is sent and read back (api/proto/convert.go).
use hyperv_control_plane.Prelude.{◌≡◌, refl, Option, none, some, []}
use hyperv_control_plane.Wire.{IsInt32, int32_lem, map_option}
use hyperv_control_plane.Types.Host.{
  WindowsLicenceSpec, ClusterMembershipSpec, DomainJoinSpec, BmcSpec, ReplicaServerSpec,
  MaintenanceSpec,
}
use hyperv_control_plane.Wire.Roles.{
  windows_licence_spec_to_proto, windows_licence_spec_from_proto, cluster_membership_spec_to_proto,
  cluster_membership_spec_from_proto, domain_join_spec_to_proto, domain_join_spec_from_proto,
  bmc_spec_to_proto, bmc_spec_from_proto, replica_server_spec_to_proto,
  replica_server_spec_from_proto, maintenance_spec_to_proto, maintenance_spec_from_proto,
}

-- What is left of one without the fields that are not sent.
abbrev pub windows_licence_spec_on_wire : WindowsLicenceSpec → WindowsLicenceSpec
windows_licence_spec_on_wire s = record s { target_editions = [] }

pub windows_licence_spec_from_proto-windows_licence_spec_to_proto :
    (o : Option WindowsLicenceSpec)
    → windows_licence_spec_from_proto (windows_licence_spec_to_proto o)
      ≡ map_option windows_licence_spec_on_wire o
unfolding windows_licence_spec_to_proto windows_licence_spec_from_proto
windows_licence_spec_from_proto-windows_licence_spec_to_proto none = refl
windows_licence_spec_from_proto-windows_licence_spec_to_proto (some s) = refl

pub cluster_membership_spec_from_proto-cluster_membership_spec_to_proto :
    (s : ClusterMembershipSpec)
    → cluster_membership_spec_from_proto (cluster_membership_spec_to_proto s) ≡ s
unfolding cluster_membership_spec_to_proto cluster_membership_spec_from_proto
cluster_membership_spec_from_proto-cluster_membership_spec_to_proto s = refl

pub domain_join_spec_from_proto-domain_join_spec_to_proto :
    (s : DomainJoinSpec) → domain_join_spec_from_proto (domain_join_spec_to_proto s) ≡ s
unfolding domain_join_spec_to_proto domain_join_spec_from_proto
domain_join_spec_from_proto-domain_join_spec_to_proto s = refl

pub bmc_spec_from_proto-bmc_spec_to_proto :
    (s : BmcSpec) → bmc_spec_from_proto (bmc_spec_to_proto s) ≡ s
unfolding bmc_spec_to_proto bmc_spec_from_proto
bmc_spec_from_proto-bmc_spec_to_proto s = refl

abbrev pub IsWireReplicaServerSpec : ReplicaServerSpec → Type 0
IsWireReplicaServerSpec s = IsInt32 s.port

pub replica_server_spec_from_proto-replica_server_spec_to_proto :
    (s : ReplicaServerSpec)
    → IsWireReplicaServerSpec s
    → replica_server_spec_from_proto (replica_server_spec_to_proto s) ≡ s
unfolding replica_server_spec_to_proto replica_server_spec_from_proto
replica_server_spec_from_proto-replica_server_spec_to_proto s h = rw (int32_lem s.port h) refl

pub maintenance_spec_from_proto-maintenance_spec_to_proto :
    (s : MaintenanceSpec) → maintenance_spec_from_proto (maintenance_spec_to_proto s) ≡ s
unfolding maintenance_spec_to_proto maintenance_spec_from_proto
maintenance_spec_from_proto-maintenance_spec_to_proto s = refl
