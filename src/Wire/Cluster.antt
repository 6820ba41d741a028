-- ===== src/Wire/Cluster.antt =====
-- The desired state of a cluster on the wire: the messages, and the conversions of
-- api/proto/convert.go to and from them.
pub mod RoundTrip
use hyperv_control_plane.Prelude.{
  ℕ, ◌≡◌, refl, sym, ap, ◌∙◌, ◌⊎◌, inl, inr, ℤ, pos, Bool, true, false, Option, none, some, List,
  [], ◌∷◌, map, All, Text, codes, text_eq, if◌then◌else◌,
}
use hyperv_control_plane.Wire.{
  int32, IsInt32, int32_lem, option_int32, map_option, AllOption, or_zero, at_constant, option_back,
  option_back_always, option_onto, list_back, list_back_always, list_onto,
}
use hyperv_control_plane.Wire.Enums.{
  RebootPolicyPb, reboot_never, reboot_if_needed, reboot_policy_to_proto, reboot_policy_from_proto,
  SetTeamingModePb, set_switch_independent, teaming_mode_to_proto, teaming_mode_from_proto,
  SetLoadBalancingPb, set_hyperv_port, set_dynamic, load_balancing_to_proto,
  load_balancing_from_proto, WitnessTypePb, witness_file_share, witness_cloud, witness_disk,
  witness_type_to_proto, witness_type_from_proto, ClusterStorageKindPb, storage_kind_s2d,
  storage_kind_iscsi, storage_kind_to_proto, storage_kind_from_proto, VmPowerStatePb,
  vm_power_running, vm_power_off, vm_power_paused, vm_power_saved, vm_power_state_to_proto,
  vm_power_state_from_proto, VmStartActionPb, vm_start_nothing, vm_start_if_was_running,
  vm_start_always, vm_start_action_to_proto, vm_start_action_from_proto, reboot_policy_unspecified,
  reboot_policy_never, reboot_policy_if_needed, set_teaming_mode_unspecified,
  set_teaming_mode_switch_independent, set_load_balancing_unspecified,
  set_load_balancing_hyperv_port, set_load_balancing_dynamic, witness_type_unspecified,
  witness_type_none, witness_type_file_share, witness_type_cloud, witness_type_disk,
  cluster_storage_kind_unspecified, cluster_storage_kind_s2d, cluster_storage_kind_iscsi,
  vm_power_state_unspecified, vm_power_state_running, vm_power_state_off, vm_power_state_paused,
  vm_power_state_saved, vm_start_action_unspecified, vm_start_action_nothing,
  vm_start_action_start_if_running, vm_start_action_start,
}
use hyperv_control_plane.Types.Storage.{
  LiveMigrationSpec, IsoLibrarySpec, CsvSourceSpec, IscsiStorageSpec,
}
use hyperv_control_plane.Wire.Storage.{
  LiveMigrationSpecPb, IsoLibrarySpecPb, CsvSourceSpecPb, IscsiStorageSpecPb,
  live_migration_spec_to_proto, live_migration_spec_from_proto, iso_library_spec_to_proto,
  iso_library_spec_from_proto, csv_source_to_proto, csv_source_from_proto, iscsi_spec_to_proto,
  iscsi_spec_from_proto,
}
use hyperv_control_plane.Types.Cluster.{
  ClusterMgmtVnic, ClusterSwitchSpec, WitnessSpec, zero_witness_spec, CsvSpec, ReplicaBrokerSpec,
  ClusterStorageSpec, ClusterSpec, zero_cluster_spec,
}

pub record WitnessSpecPb : Type 0 where
  pub type_ : WitnessTypePb
  pub file_share_path : Text
  pub cloud_account : Text
  pub disk : Option CsvSourceSpecPb

pub record CsvSpecPb : Type 0 where
  pub name : Text
  pub size_bytes : ℕ
  pub resiliency_type : Text
  pub number_of_copies : ℤ  -- int32
  pub source : Option CsvSourceSpecPb

pub record ReplicaBrokerSpecPb : Type 0 where
  pub name : Text
  pub static_ip : Text
  pub storage_path : Text

pub record ClusterStorageSpecPb : Type 0 where
  pub kind : ClusterStorageKindPb
  pub iscsi : Option IscsiStorageSpecPb

pub record ClusterSpecPb : Type 0 where
  pub members : List Text
  pub management_ip : Text
  pub witness : Option WitnessSpecPb
  pub enable_s2d : Bool
  pub storage : Option ClusterStorageSpecPb
  pub volumes : List CsvSpecPb
  pub live_migration : Option LiveMigrationSpecPb
  pub replica_broker : Option ReplicaBrokerSpecPb
  pub iso_library : Option IsoLibrarySpecPb

unfoldable pub witness_spec_to_proto : WitnessSpec → WitnessSpecPb
witness_spec_to_proto s = record {
  type_ = witness_type_to_proto s.type_;
  file_share_path = s.file_share_path;
  cloud_account = s.cloud_account;
  disk = csv_source_to_proto s.disk;
}

unfoldable pub witness_spec_from_proto : WitnessSpecPb → WitnessSpec
witness_spec_from_proto m = record {
  type_ = witness_type_from_proto m.type_;
  file_share_path = m.file_share_path;
  cloud_account = m.cloud_account;
  disk = csv_source_from_proto m.disk;
}

unfoldable pub csv_spec_to_proto : CsvSpec → CsvSpecPb
csv_spec_to_proto s = record {
  name = s.name;
  size_bytes = s.size_bytes;
  resiliency_type = s.resiliency_type;
  number_of_copies = int32 s.number_of_copies;
  source = csv_source_to_proto s.source;
}

unfoldable pub csv_spec_from_proto : CsvSpecPb → CsvSpec
csv_spec_from_proto m = record {
  name = m.name;
  size_bytes = m.size_bytes;
  resiliency_type = m.resiliency_type;
  number_of_copies = m.number_of_copies;
  source = csv_source_from_proto m.source;
}

unfoldable pub replica_broker_spec_to_proto : ReplicaBrokerSpec → ReplicaBrokerSpecPb
replica_broker_spec_to_proto s = record {
  name = s.name;
  static_ip = s.static_ip;
  storage_path = s.storage_path;
}

unfoldable pub replica_broker_spec_from_proto : ReplicaBrokerSpecPb → ReplicaBrokerSpec
replica_broker_spec_from_proto m = record {
  name = m.name;
  static_ip = m.static_ip;
  storage_path = m.storage_path;
}

unfoldable pub cluster_storage_to_proto : Option ClusterStorageSpec → Option ClusterStorageSpecPb
cluster_storage_to_proto none = none
cluster_storage_to_proto (some s) =
    some (record { kind = storage_kind_to_proto s.kind; iscsi = iscsi_spec_to_proto s.iscsi })

unfoldable pub cluster_storage_from_proto : Option ClusterStorageSpecPb → Option ClusterStorageSpec
cluster_storage_from_proto none = none
cluster_storage_from_proto (some m) =
    some (record { kind = storage_kind_from_proto m.kind; iscsi = iscsi_spec_from_proto m.iscsi })

unfoldable pub cluster_spec_to_proto : ClusterSpec → ClusterSpecPb
cluster_spec_to_proto s = record {
  members = s.members;
  management_ip = s.management_ip;
  witness = some (witness_spec_to_proto s.witness);
  enable_s2d = s.enable_s2d;
  storage = cluster_storage_to_proto s.storage;
  volumes = map csv_spec_to_proto s.volumes;
  live_migration = map_option live_migration_spec_to_proto s.live_migration;
  replica_broker = map_option replica_broker_spec_to_proto s.replica_broker;
  iso_library = iso_library_spec_to_proto s.iso_library;
}

unfoldable pub cluster_spec_from_proto : Option ClusterSpecPb → ClusterSpec
cluster_spec_from_proto none = zero_cluster_spec
cluster_spec_from_proto (some m) = record {
  members = m.members;
  management_ip = m.management_ip;
  witness = or_zero zero_witness_spec witness_spec_from_proto m.witness;
  enable_s2d = m.enable_s2d;
  storage = cluster_storage_from_proto m.storage;
  volumes = map csv_spec_from_proto m.volumes;
  switches = [];
  default_storage_path = [];
  live_migration = map_option live_migration_spec_from_proto m.live_migration;
  replica_broker = map_option replica_broker_spec_from_proto m.replica_broker;
  iso_library = iso_library_spec_from_proto m.iso_library;
}
