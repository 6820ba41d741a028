-- ===== src/Wire/Vm.antt =====
-- The desired state of a virtual machine on the wire: the messages, and the conversions of
-- api/proto/convert.go to and from them.
pub mod RoundTrip
use hyperv_control_plane.Prelude.{
  ℕ, ◌≡◌, refl, sym, ap, ◌∙◌, ◌⊎◌, inl, inr, ℤ, pos, Bool, true, false, Option, none, some, List,
  [], ◌∷◌, map, All, Text, codes, text_eq, if◌then◌else◌,
}
use hyperv_control_plane.Wire.{
  int32, IsInt32, int32_lem, option_int32, map_option, AllOption, or_zero, at_constant, option_back,
  option_back_always, option_onto, list_back, list_back_always, list_onto,
}
use hyperv_control_plane.Wire.Enums.{
  RebootPolicyPb, reboot_never, reboot_if_needed, reboot_policy_to_proto, reboot_policy_from_proto,
  SetTeamingModePb, set_switch_independent, teaming_mode_to_proto, teaming_mode_from_proto,
  SetLoadBalancingPb, set_hyperv_port, set_dynamic, load_balancing_to_proto,
  load_balancing_from_proto, WitnessTypePb, witness_file_share, witness_cloud, witness_disk,
  witness_type_to_proto, witness_type_from_proto, ClusterStorageKindPb, storage_kind_s2d,
  storage_kind_iscsi, storage_kind_to_proto, storage_kind_from_proto, VmPowerStatePb,
  vm_power_running, vm_power_off, vm_power_paused, vm_power_saved, vm_power_state_to_proto,
  vm_power_state_from_proto, VmStartActionPb, vm_start_nothing, vm_start_if_was_running,
  vm_start_always, vm_start_action_to_proto, vm_start_action_from_proto, reboot_policy_unspecified,
  reboot_policy_never, reboot_policy_if_needed, set_teaming_mode_unspecified,
  set_teaming_mode_switch_independent, set_load_balancing_unspecified,
  set_load_balancing_hyperv_port, set_load_balancing_dynamic, witness_type_unspecified,
  witness_type_none, witness_type_file_share, witness_type_cloud, witness_type_disk,
  cluster_storage_kind_unspecified, cluster_storage_kind_s2d, cluster_storage_kind_iscsi,
  vm_power_state_unspecified, vm_power_state_running, vm_power_state_off, vm_power_state_paused,
  vm_power_state_saved, vm_start_action_unspecified, vm_start_action_nothing,
  vm_start_action_start_if_running, vm_start_action_start,
}
use hyperv_control_plane.Types.Vm.{
  VmPlacementSpec, zero_vm_placement_spec, DynamicMemorySpec, VmDiskSpec, VmNetworkAdapterSpec,
  VmReplicationSpec, VmIntegrationServices, VmSpec, zero_vm_spec,
}

pub record VmPlacementSpecPb : Type 0 where
  pub host_name : Text
  pub cluster_name : Text

pub record DynamicMemorySpecPb : Type 0 where
  pub min_bytes : ℕ
  pub max_bytes : ℕ

pub record VmDiskSpecPb : Type 0 where
  pub path : Text
  pub size_bytes : ℕ
  pub dynamic : Bool

pub record VmNetworkAdapterSpecPb : Type 0 where
  pub name : Text
  pub switch_name : Text
  pub vlan_id : ℤ  -- int32
  pub mac_address : Text

pub record VmReplicationSpecPb : Type 0 where
  pub enabled : Bool
  pub target_host : Text
  pub target_cluster : Text
  pub replica_server : Text
  pub frequency_seconds : ℤ  -- int32
  pub authentication_type : Text
  pub port : ℤ  -- int32

pub record VmIntegrationServicesPb : Type 0 where
  pub guest_service_interface : Option Bool
  pub heartbeat : Option Bool
  pub key_value_pair_exchange : Option Bool
  pub shutdown : Option Bool
  pub time_synchronisation : Option Bool
  pub vss : Option Bool

pub record VmSpecPb : Type 0 where
  pub placement : Option VmPlacementSpecPb
  pub hyperv_generation : ℤ  -- int32
  pub secure_boot : Text
  pub video_resolution : Text
  pub computer_name : Text
  pub boot_order : List Text
  pub processor_count : ℤ  -- int32
  pub memory_startup_bytes : ℕ
  pub dynamic_memory : Option DynamicMemorySpecPb
  pub nested_virtualisation : Bool
  pub tpm : Bool
  pub disks : List VmDiskSpecPb
  pub network_adapters : List VmNetworkAdapterSpecPb
  pub integration_services : Option VmIntegrationServicesPb
  pub iso_path : Text
  pub desired_power_state : VmPowerStatePb
  pub automatic_start_action : VmStartActionPb
  pub replication : Option VmReplicationSpecPb

unfoldable pub vm_placement_spec_to_proto : VmPlacementSpec → VmPlacementSpecPb
vm_placement_spec_to_proto s = record { host_name = s.host_name; cluster_name = s.cluster_name }

unfoldable pub vm_placement_spec_from_proto : VmPlacementSpecPb → VmPlacementSpec
vm_placement_spec_from_proto m = record { host_name = m.host_name; cluster_name = m.cluster_name }

unfoldable pub dynamic_memory_spec_to_proto : DynamicMemorySpec → DynamicMemorySpecPb
dynamic_memory_spec_to_proto s = record { min_bytes = s.min_bytes; max_bytes = s.max_bytes }

unfoldable pub dynamic_memory_spec_from_proto : DynamicMemorySpecPb → DynamicMemorySpec
dynamic_memory_spec_from_proto m = record { min_bytes = m.min_bytes; max_bytes = m.max_bytes }

unfoldable pub vm_disk_spec_to_proto : VmDiskSpec → VmDiskSpecPb
vm_disk_spec_to_proto s = record { path = s.path; size_bytes = s.size_bytes; dynamic = s.dynamic }

unfoldable pub vm_disk_spec_from_proto : VmDiskSpecPb → VmDiskSpec
vm_disk_spec_from_proto m = record { path = m.path; size_bytes = m.size_bytes; dynamic = m.dynamic }

unfoldable pub vm_network_adapter_to_proto : VmNetworkAdapterSpec → VmNetworkAdapterSpecPb
vm_network_adapter_to_proto s = record {
  name = s.name;
  switch_name = s.switch_name;
  vlan_id = int32 s.vlan_id;
  mac_address = s.mac_address;
}

unfoldable pub vm_network_adapter_from_proto : VmNetworkAdapterSpecPb → VmNetworkAdapterSpec
vm_network_adapter_from_proto m = record {
  name = m.name;
  switch_name = m.switch_name;
  vlan_id = m.vlan_id;
  dvport_name = [];
  mac_address = m.mac_address;
}

unfoldable pub vm_replication_spec_to_proto : VmReplicationSpec → VmReplicationSpecPb
vm_replication_spec_to_proto s = record {
  enabled = s.enabled;
  target_host = s.target_host;
  target_cluster = s.target_cluster;
  replica_server = s.replica_server;
  frequency_seconds = int32 s.frequency_seconds;
  authentication_type = s.authentication_type;
  port = int32 s.port;
}

unfoldable pub vm_replication_spec_from_proto : VmReplicationSpecPb → VmReplicationSpec
vm_replication_spec_from_proto m = record {
  enabled = m.enabled;
  target_host = m.target_host;
  target_cluster = m.target_cluster;
  replica_server = m.replica_server;
  frequency_seconds = m.frequency_seconds;
  authentication_type = m.authentication_type;
  port = m.port;
}

unfoldable pub integration_to_proto : VmIntegrationServices → VmIntegrationServicesPb
integration_to_proto s = record {
  guest_service_interface = s.guest_service_interface;
  heartbeat = s.heartbeat;
  key_value_pair_exchange = s.key_value_pair_exchange;
  shutdown = s.shutdown;
  time_synchronisation = s.time_synchronisation;
  vss = s.vss;
}

unfoldable pub integration_from_proto : VmIntegrationServicesPb → VmIntegrationServices
integration_from_proto m = record {
  guest_service_interface = m.guest_service_interface;
  heartbeat = m.heartbeat;
  key_value_pair_exchange = m.key_value_pair_exchange;
  shutdown = m.shutdown;
  time_synchronisation = m.time_synchronisation;
  vss = m.vss;
}

unfoldable pub vm_spec_to_proto : VmSpec → VmSpecPb
vm_spec_to_proto s = record {
  placement = some (vm_placement_spec_to_proto s.placement);
  hyperv_generation = int32 s.hyperv_generation;
  secure_boot = s.secure_boot;
  video_resolution = s.video_resolution;
  computer_name = s.computer_name;
  boot_order = s.boot_order;
  processor_count = int32 s.processor_count;
  memory_startup_bytes = s.memory_startup_bytes;
  dynamic_memory = map_option dynamic_memory_spec_to_proto s.dynamic_memory;
  nested_virtualisation = s.nested_virtualisation;
  tpm = s.tpm;
  disks = map vm_disk_spec_to_proto s.disks;
  network_adapters = map vm_network_adapter_to_proto s.network_adapters;
  integration_services = map_option integration_to_proto s.integration_services;
  iso_path = s.iso_path;
  desired_power_state = vm_power_state_to_proto s.desired_power_state;
  automatic_start_action = vm_start_action_to_proto s.automatic_start_action;
  replication = map_option vm_replication_spec_to_proto s.replication;
}

unfoldable pub vm_spec_from_proto : Option VmSpecPb → VmSpec
vm_spec_from_proto none = zero_vm_spec
vm_spec_from_proto (some m) = record {
  placement = or_zero zero_vm_placement_spec vm_placement_spec_from_proto m.placement;
  hyperv_generation = m.hyperv_generation;
  secure_boot = m.secure_boot;
  video_resolution = m.video_resolution;
  computer_name = m.computer_name;
  boot_order = m.boot_order;
  processor_count = m.processor_count;
  memory_startup_bytes = m.memory_startup_bytes;
  dynamic_memory = map_option dynamic_memory_spec_from_proto m.dynamic_memory;
  nested_virtualisation = m.nested_virtualisation;
  tpm = m.tpm;
  disks = map vm_disk_spec_from_proto m.disks;
  network_adapters = map vm_network_adapter_from_proto m.network_adapters;
  integration_services = map_option integration_from_proto m.integration_services;
  iso_path = m.iso_path;
  desired_power_state = vm_power_state_from_proto m.desired_power_state;
  automatic_start_action = vm_start_action_from_proto m.automatic_start_action;
  replication = map_option vm_replication_spec_from_proto m.replication;
}
