-- ===== src/Types/Vm.antt =====
-- The desired state of a virtual machine (api/types/desiredstate.go).
use hyperv_control_plane.Prelude.{ℕ, ℤ, pos, Bool, false, Option, none, List, [], Text}

pub record VmPlacementSpec : Type 0 where
  pub host_name : Text
  pub cluster_name : Text

abbrev pub zero_vm_placement_spec : VmPlacementSpec
zero_vm_placement_spec = record { host_name = []; cluster_name = [] }

pub record DynamicMemorySpec : Type 0 where
  pub min_bytes : ℕ
  pub max_bytes : ℕ

pub record VmDiskSpec : Type 0 where
  pub path : Text
  pub size_bytes : ℕ
  pub dynamic : Bool

pub record VmNetworkAdapterSpec : Type 0 where
  pub name : Text
  pub switch_name : Text
  pub vlan_id : ℤ  -- int
  pub dvport_name : Text
  pub mac_address : Text

pub record VmReplicationSpec : Type 0 where
  pub enabled : Bool
  pub target_host : Text
  pub target_cluster : Text
  pub replica_server : Text
  pub frequency_seconds : ℤ  -- int
  pub authentication_type : Text
  pub port : ℤ  -- int

pub record VmIntegrationServices : Type 0 where
  pub guest_service_interface : Option Bool
  pub heartbeat : Option Bool
  pub key_value_pair_exchange : Option Bool
  pub shutdown : Option Bool
  pub time_synchronisation : Option Bool
  pub vss : Option Bool

pub record VmSpec : Type 0 where
  pub placement : VmPlacementSpec
  pub hyperv_generation : ℤ  -- int
  pub secure_boot : Text
  pub video_resolution : Text
  pub computer_name : Text
  pub boot_order : List Text
  pub processor_count : ℤ  -- int
  pub memory_startup_bytes : ℕ
  pub dynamic_memory : Option DynamicMemorySpec
  pub nested_virtualisation : Bool
  pub tpm : Bool
  pub disks : List VmDiskSpec
  pub network_adapters : List VmNetworkAdapterSpec
  pub integration_services : Option VmIntegrationServices
  pub iso_path : Text
  pub desired_power_state : Text
  pub automatic_start_action : Text
  pub replication : Option VmReplicationSpec

abbrev pub zero_vm_spec : VmSpec
zero_vm_spec = record {
  placement = zero_vm_placement_spec;
  hyperv_generation = pos 0;
  secure_boot = [];
  video_resolution = [];
  computer_name = [];
  boot_order = [];
  processor_count = pos 0;
  memory_startup_bytes = 0;
  dynamic_memory = none;
  nested_virtualisation = false;
  tpm = false;
  disks = [];
  network_adapters = [];
  integration_services = none;
  iso_path = [];
  desired_power_state = [];
  automatic_start_action = [];
  replication = none;
}
