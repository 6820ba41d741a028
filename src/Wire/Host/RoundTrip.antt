-- ===== src/Wire/Host/RoundTrip.antt =====
-- The desired state of a host that is sent and read back (api/proto/convert.go).
use hyperv_control_plane.Prelude.{◌≡◌, refl, some}
use hyperv_control_plane.Wire.{map_option, AllOption, option_back, option_back_always}
use hyperv_control_plane.Wire.Enums.RoundTrip.{
  IsRebootPolicy, reboot_policy_from_proto-reboot_policy_to_proto,
}
use hyperv_control_plane.Types.Host.{HostStorageSpec, HostSpec}
use hyperv_control_plane.Wire.Storage.{live_migration_spec_to_proto, live_migration_spec_from_proto}
use hyperv_control_plane.Wire.Storage.RoundTrip.{
  IsWireLiveMigrationSpec, live_migration_spec_from_proto-live_migration_spec_to_proto,
  iso_library_spec_from_proto-iso_library_spec_to_proto, iscsi_spec_from_proto-iscsi_spec_to_proto,
}
use hyperv_control_plane.Wire.Networking.{nic_config_to_proto, nic_config_from_proto}
use hyperv_control_plane.Wire.Networking.RoundTrip.{
  nic_config_from_proto-nic_config_to_proto, IsWireHostNetworkingSpec,
  networking_from_proto-networking_to_proto,
}
use hyperv_control_plane.Wire.Roles.{
  cluster_membership_spec_to_proto, cluster_membership_spec_from_proto, domain_join_spec_to_proto,
  domain_join_spec_from_proto, bmc_spec_to_proto, bmc_spec_from_proto, replica_server_spec_to_proto,
  replica_server_spec_from_proto, maintenance_spec_to_proto, maintenance_spec_from_proto,
}
use hyperv_control_plane.Wire.Roles.RoundTrip.{
  windows_licence_spec_on_wire, windows_licence_spec_from_proto-windows_licence_spec_to_proto,
  cluster_membership_spec_from_proto-cluster_membership_spec_to_proto,
  domain_join_spec_from_proto-domain_join_spec_to_proto, bmc_spec_from_proto-bmc_spec_to_proto,
  IsWireReplicaServerSpec, replica_server_spec_from_proto-replica_server_spec_to_proto,
  maintenance_spec_from_proto-maintenance_spec_to_proto,
}
use hyperv_control_plane.Wire.Host.{
  storage_to_proto, storage_from_proto, spec_to_proto, spec_from_proto,
}

pub storage_from_proto-storage_to_proto :
    (s : HostStorageSpec) → storage_from_proto (some (storage_to_proto s)) ≡ s
unfolding storage_to_proto storage_from_proto
storage_from_proto-storage_to_proto s = rw (iscsi_spec_from_proto-iscsi_spec_to_proto s.iscsi) refl

-- What is left of one without the fields that are not sent.
abbrev pub spec_on_wire : HostSpec → HostSpec
spec_on_wire s = record s {
  windows_licence = map_option windows_licence_spec_on_wire s.windows_licence;
}

abbrev pub IsWireHostSpec : HostSpec → Type 0
IsWireHostSpec s =
    (IsWireHostNetworkingSpec s.networking)
    × (IsRebootPolicy s.reboot_policy)
    × (AllOption IsWireLiveMigrationSpec s.live_migration)
    × (AllOption IsWireReplicaServerSpec s.replica_server)

-- A host's desired state is read as it was sent, but for the target editions of its Windows licence,
-- which are not sent: where the numbers sent as int32 fit one, and the reboot policy and each
-- switch's teaming mode and load balancing are empty or of the constants that have a number.
pub spec_from_proto-spec_to_proto :
    (s : HostSpec) → IsWireHostSpec s → spec_from_proto (some (spec_to_proto s)) ≡ spec_on_wire s
unfolding spec_to_proto spec_from_proto
spec_from_proto-spec_to_proto s h =
    rw
      (
        option_back_always nic_config_to_proto nic_config_from_proto
            nic_config_from_proto-nic_config_to_proto s.management_nic,
        option_back_always bmc_spec_to_proto bmc_spec_from_proto
            bmc_spec_from_proto-bmc_spec_to_proto s.bmc,
        option_back_always domain_join_spec_to_proto domain_join_spec_from_proto
            domain_join_spec_from_proto-domain_join_spec_to_proto s.domain_join,
        networking_from_proto-networking_to_proto s.networking h.0,
        storage_from_proto-storage_to_proto s.storage,
        windows_licence_spec_from_proto-windows_licence_spec_to_proto s.windows_licence,
        option_back_always cluster_membership_spec_to_proto cluster_membership_spec_from_proto
            cluster_membership_spec_from_proto-cluster_membership_spec_to_proto
            s.cluster_membership,
        reboot_policy_from_proto-reboot_policy_to_proto s.reboot_policy h.1,
        option_back IsWireLiveMigrationSpec live_migration_spec_to_proto
            live_migration_spec_from_proto
            live_migration_spec_from_proto-live_migration_spec_to_proto s.live_migration h.2,
        option_back IsWireReplicaServerSpec replica_server_spec_to_proto
            replica_server_spec_from_proto
            replica_server_spec_from_proto-replica_server_spec_to_proto s.replica_server h.3,
        option_back_always maintenance_spec_to_proto maintenance_spec_from_proto
            maintenance_spec_from_proto-maintenance_spec_to_proto s.maintenance,
        iso_library_spec_from_proto-iso_library_spec_to_proto s.iso_library,
      )
      refl
