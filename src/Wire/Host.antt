-- ===== src/Wire/Host.antt =====
-- The desired state of a host on the wire: the messages, and the conversions of
-- api/proto/convert.go to and from them.
pub mod RoundTrip
use hyperv_control_plane.Prelude.{
  ℕ, ◌≡◌, refl, sym, ap, ◌∙◌, ◌⊎◌, inl, inr, ℤ, pos, Bool, true, false, Option, none, some, List,
  [], ◌∷◌, map, All, Text, codes, text_eq, if◌then◌else◌,
}
use hyperv_control_plane.Wire.{
  int32, IsInt32, int32_lem, option_int32, map_option, AllOption, or_zero, at_constant, option_back,
  option_back_always, option_onto, list_back, list_back_always, list_onto,
}
use hyperv_control_plane.Wire.Enums.{
  RebootPolicyPb, reboot_never, reboot_if_needed, reboot_policy_to_proto, reboot_policy_from_proto,
  SetTeamingModePb, set_switch_independent, teaming_mode_to_proto, teaming_mode_from_proto,
  SetLoadBalancingPb, set_hyperv_port, set_dynamic, load_balancing_to_proto,
  load_balancing_from_proto, WitnessTypePb, witness_file_share, witness_cloud, witness_disk,
  witness_type_to_proto, witness_type_from_proto, ClusterStorageKindPb, storage_kind_s2d,
  storage_kind_iscsi, storage_kind_to_proto, storage_kind_from_proto, VmPowerStatePb,
  vm_power_running, vm_power_off, vm_power_paused, vm_power_saved, vm_power_state_to_proto,
  vm_power_state_from_proto, VmStartActionPb, vm_start_nothing, vm_start_if_was_running,
  vm_start_always, vm_start_action_to_proto, vm_start_action_from_proto, reboot_policy_unspecified,
  reboot_policy_never, reboot_policy_if_needed, set_teaming_mode_unspecified,
  set_teaming_mode_switch_independent, set_load_balancing_unspecified,
  set_load_balancing_hyperv_port, set_load_balancing_dynamic, witness_type_unspecified,
  witness_type_none, witness_type_file_share, witness_type_cloud, witness_type_disk,
  cluster_storage_kind_unspecified, cluster_storage_kind_s2d, cluster_storage_kind_iscsi,
  vm_power_state_unspecified, vm_power_state_running, vm_power_state_off, vm_power_state_paused,
  vm_power_state_saved, vm_start_action_unspecified, vm_start_action_nothing,
  vm_start_action_start_if_running, vm_start_action_start,
}
use hyperv_control_plane.Types.Storage.{
  LiveMigrationSpec, IsoLibrarySpec, CsvSourceSpec, IscsiStorageSpec,
}
use hyperv_control_plane.Types.Networking.{
  IpConfig, VirtualSwitchSpec, ManagementVnicSpec, PhysicalNicConfig, HostNetworkingSpec,
}
use hyperv_control_plane.Types.Host.{
  zero_networking, HostStorageSpec, zero_storage, WindowsLicenceSpec, ClusterMembershipSpec,
  DomainJoinSpec, BmcSpec, ReplicaServerSpec, MaintenanceSpec, HostSpec, zero_spec,
}
use hyperv_control_plane.Wire.Storage.{
  LiveMigrationSpecPb, IsoLibrarySpecPb, CsvSourceSpecPb, IscsiStorageSpecPb,
  live_migration_spec_to_proto, live_migration_spec_from_proto, iso_library_spec_to_proto,
  iso_library_spec_from_proto, csv_source_to_proto, csv_source_from_proto, iscsi_spec_to_proto,
  iscsi_spec_from_proto,
}
use hyperv_control_plane.Wire.Networking.{
  zero_ip_config, IpConfigPb, VirtualSwitchSpecPb, ManagementVnicSpecPb, PhysicalNicConfigPb,
  HostNetworkingSpecPb, ip_config_to_proto, ip_config_from_proto, virtual_switch_to_proto,
  virtual_switch_from_proto, mgmt_vnic_to_proto, mgmt_vnic_from_proto, nic_config_to_proto,
  nic_config_from_proto, networking_to_proto, networking_from_proto,
}
use hyperv_control_plane.Wire.Roles.{
  WindowsLicenceSpecPb, ClusterMembershipSpecPb, DomainJoinSpecPb, BmcSpecPb, ReplicaServerSpecPb,
  MaintenanceSpecPb, windows_licence_spec_to_proto, windows_licence_spec_from_proto,
  cluster_membership_spec_to_proto, cluster_membership_spec_from_proto, domain_join_spec_to_proto,
  domain_join_spec_from_proto, bmc_spec_to_proto, bmc_spec_from_proto, replica_server_spec_to_proto,
  replica_server_spec_from_proto, maintenance_spec_to_proto, maintenance_spec_from_proto,
}

pub record HostStorageSpecPb : Type 0 where
  pub contribute_to_s2d : Bool
  pub eligible_disk_selector : List (Text × Text)
  pub default_vm_path : Text
  pub default_vhd_path : Text
  pub iscsi : Option IscsiStorageSpecPb

pub record HostSpecPb : Type 0 where
  pub fqdn : Text
  pub computer_name : Text
  pub management_nic : Option PhysicalNicConfigPb
  pub bmc : Option BmcSpecPb
  pub domain_join : Option DomainJoinSpecPb
  pub enable_hyperv_role : Bool
  pub networking : Option HostNetworkingSpecPb
  pub storage : Option HostStorageSpecPb
  pub windows_licence : Option WindowsLicenceSpecPb
  pub cluster_membership : Option ClusterMembershipSpecPb
  pub reboot_policy : RebootPolicyPb
  pub live_migration : Option LiveMigrationSpecPb
  pub replica_server : Option ReplicaServerSpecPb
  pub maintenance : Option MaintenanceSpecPb
  pub iso_library : Option IsoLibrarySpecPb

unfoldable pub storage_to_proto : HostStorageSpec → HostStorageSpecPb
storage_to_proto s = record {
  contribute_to_s2d = s.contribute_to_s2d;
  eligible_disk_selector = s.eligible_disk_selector;
  default_vm_path = s.default_vm_path;
  default_vhd_path = s.default_vhd_path;
  iscsi = iscsi_spec_to_proto s.iscsi;
}

unfoldable pub storage_from_proto : Option HostStorageSpecPb → HostStorageSpec
storage_from_proto none = zero_storage
storage_from_proto (some m) = record {
  contribute_to_s2d = m.contribute_to_s2d;
  eligible_disk_selector = m.eligible_disk_selector;
  default_vm_path = m.default_vm_path;
  default_vhd_path = m.default_vhd_path;
  iscsi = iscsi_spec_from_proto m.iscsi;
}

unfoldable pub spec_to_proto : HostSpec → HostSpecPb
spec_to_proto s = record {
  fqdn = s.fqdn;
  computer_name = s.computer_name;
  management_nic = map_option nic_config_to_proto s.management_nic;
  bmc = map_option bmc_spec_to_proto s.bmc;
  domain_join = map_option domain_join_spec_to_proto s.domain_join;
  enable_hyperv_role = s.enable_hyperv_role;
  networking = some (networking_to_proto s.networking);
  storage = some (storage_to_proto s.storage);
  windows_licence = windows_licence_spec_to_proto s.windows_licence;
  cluster_membership = map_option cluster_membership_spec_to_proto s.cluster_membership;
  reboot_policy = reboot_policy_to_proto s.reboot_policy;
  live_migration = map_option live_migration_spec_to_proto s.live_migration;
  replica_server = map_option replica_server_spec_to_proto s.replica_server;
  maintenance = map_option maintenance_spec_to_proto s.maintenance;
  iso_library = iso_library_spec_to_proto s.iso_library;
}

unfoldable pub spec_from_proto : Option HostSpecPb → HostSpec
spec_from_proto none = zero_spec
spec_from_proto (some m) = record {
  fqdn = m.fqdn;
  computer_name = m.computer_name;
  management_nic = map_option nic_config_from_proto m.management_nic;
  bmc = map_option bmc_spec_from_proto m.bmc;
  domain_join = map_option domain_join_spec_from_proto m.domain_join;
  enable_hyperv_role = m.enable_hyperv_role;
  networking = networking_from_proto m.networking;
  storage = storage_from_proto m.storage;
  windows_licence = windows_licence_spec_from_proto m.windows_licence;
  cluster_membership = map_option cluster_membership_spec_from_proto m.cluster_membership;
  reboot_policy = reboot_policy_from_proto m.reboot_policy;
  live_migration = map_option live_migration_spec_from_proto m.live_migration;
  replica_server = map_option replica_server_spec_from_proto m.replica_server;
  maintenance = map_option maintenance_spec_from_proto m.maintenance;
  iso_library = iso_library_spec_from_proto m.iso_library;
}
