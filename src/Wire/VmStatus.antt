-- ===== src/Wire/VmStatus.antt =====
-- A virtual machine and its status on the wire: the messages, and the conversions of
-- api/proto/convert.go to and from them.
pub mod RoundTrip
use hyperv_control_plane.Prelude.{
  ℕ, ◌≡◌, refl, sym, ap, ◌∙◌, ◌⊎◌, inl, inr, ℤ, pos, Bool, true, false, Option, none, some, List,
  [], ◌∷◌, map, All, Text, codes, text_eq, if◌then◌else◌,
}
use hyperv_control_plane.Wire.{
  int32, IsInt32, int32_lem, option_int32, map_option, AllOption, or_zero, at_constant, option_back,
  option_back_always, option_onto, list_back, list_back_always, list_onto,
}
use hyperv_control_plane.Wire.Library.{
  Codec, Library, IsDocumented, IsJson, IsWhole, ts_to_proto, ts_from_proto, created_to_proto,
  created_from_proto, marshal_observed, unmarshal_observed, marshal_list, unmarshal_list,
  ts_from_proto-ts_to_proto, created_from_proto-created_to_proto,
  unmarshal_observed-marshal_observed, unmarshal_list-marshal_list,
}
use hyperv_control_plane.Wire.Enums.{
  RebootPolicyPb, reboot_never, reboot_if_needed, reboot_policy_to_proto, reboot_policy_from_proto,
  SetTeamingModePb, set_switch_independent, teaming_mode_to_proto, teaming_mode_from_proto,
  SetLoadBalancingPb, set_hyperv_port, set_dynamic, load_balancing_to_proto,
  load_balancing_from_proto, WitnessTypePb, witness_file_share, witness_cloud, witness_disk,
  witness_type_to_proto, witness_type_from_proto, ClusterStorageKindPb, storage_kind_s2d,
  storage_kind_iscsi, storage_kind_to_proto, storage_kind_from_proto, VmPowerStatePb,
  vm_power_running, vm_power_off, vm_power_paused, vm_power_saved, vm_power_state_to_proto,
  vm_power_state_from_proto, VmStartActionPb, vm_start_nothing, vm_start_if_was_running,
  vm_start_always, vm_start_action_to_proto, vm_start_action_from_proto, reboot_policy_unspecified,
  reboot_policy_never, reboot_policy_if_needed, set_teaming_mode_unspecified,
  set_teaming_mode_switch_independent, set_load_balancing_unspecified,
  set_load_balancing_hyperv_port, set_load_balancing_dynamic, witness_type_unspecified,
  witness_type_none, witness_type_file_share, witness_type_cloud, witness_type_disk,
  cluster_storage_kind_unspecified, cluster_storage_kind_s2d, cluster_storage_kind_iscsi,
  vm_power_state_unspecified, vm_power_state_running, vm_power_state_off, vm_power_state_paused,
  vm_power_state_saved, vm_start_action_unspecified, vm_start_action_nothing,
  vm_start_action_start_if_running, vm_start_action_start,
}
use hyperv_control_plane.Wire.Phase.{
  PhasePb, phase_pending, phase_progressing, phase_ready, phase_degraded, phase_error,
  phase_to_proto, phase_from_proto, phase_unspecified_pb, phase_pending_pb, phase_progressing_pb,
  phase_ready_pb, phase_degraded_pb, phase_error_pb,
}
use hyperv_control_plane.Types.Meta.{ObjectMeta, zero_meta, Condition, Secret, zero_secret}
use hyperv_control_plane.Types.Vm.{
  VmPlacementSpec, zero_vm_placement_spec, DynamicMemorySpec, VmDiskSpec, VmNetworkAdapterSpec,
  VmReplicationSpec, VmIntegrationServices, VmSpec, zero_vm_spec,
}
use hyperv_control_plane.Types.VmStatus.{
  VmReplicationStatus, VmIntegrationServiceState, VmObserved, ObservedVm, VmCheckpoint, VmStatus,
  zero_vm_status, Vm, zero_vm,
}
use hyperv_control_plane.Wire.Meta.{
  ObjectMetaPb, ConditionPb, SecretPb, meta_to_proto, meta_from_proto, condition_to_proto,
  condition_from_proto, secret_to_proto, secret_from_proto,
}
use hyperv_control_plane.Wire.Vm.{
  VmPlacementSpecPb, DynamicMemorySpecPb, VmDiskSpecPb, VmNetworkAdapterSpecPb, VmReplicationSpecPb,
  VmIntegrationServicesPb, VmSpecPb, vm_placement_spec_to_proto, vm_placement_spec_from_proto,
  dynamic_memory_spec_to_proto, dynamic_memory_spec_from_proto, vm_disk_spec_to_proto,
  vm_disk_spec_from_proto, vm_network_adapter_to_proto, vm_network_adapter_from_proto,
  vm_replication_spec_to_proto, vm_replication_spec_from_proto, integration_to_proto,
  integration_from_proto, vm_spec_to_proto, vm_spec_from_proto,
}

pub record VmReplicationStatusPb : Type 0 where
  pub mode : Text
  pub state : Text
  pub health : Text
  pub primary_server : Text
  pub replica_server : Text
  pub last_replication_time : Text
  pub frequency_seconds : ℤ  -- int32

pub record VmCheckpointPb (stamp : Type 0) : Type 0 where
  pub name : Text
  pub parent_name : Text
  pub checkpoint_type : Text
  pub created_at : Text
  pub is_current : Bool

pub record VmStatusPb (stamp : Type 0) : Type 0 where
  pub phase : PhasePb
  pub observed_generation : ℤ  -- int64
  pub power_state : VmPowerStatePb
  pub vm_id : Text
  pub guest_os : Text
  pub ip_address : Text
  pub guest_fqdn : Text
  pub assigned_memory_bytes : ℕ
  pub memory_demand_bytes : ℕ
  pub memory_status : Text
  pub heartbeat : Text
  pub screen_blank : Bool
  pub cpu_usage_percent : ℤ  -- int32
  pub uptime_seconds : ℤ  -- int64
  pub screen_png : List ℕ
  pub checkpoints : List (VmCheckpointPb stamp)
  pub observed : Text
  pub replication : Option VmReplicationStatusPb
  pub conditions : List (ConditionPb stamp)

pub record VmPb (stamp : Type 0) : Type 0 where
  pub meta : Option (ObjectMetaPb stamp)
  pub spec : Option VmSpecPb
  pub status : Option (VmStatusPb stamp)

unfoldable pub vm_replication_status_to_proto :
    Option VmReplicationStatus → Option VmReplicationStatusPb
vm_replication_status_to_proto none = none
vm_replication_status_to_proto (some s) = some (record {
  mode = s.mode;
  state = s.state;
  health = s.health;
  primary_server = s.primary_server;
  replica_server = s.replica_server;
  last_replication_time = s.last_replication_time;
  frequency_seconds = int32 s.frequency_seconds;
})

unfoldable pub vm_replication_status_from_proto :
    Option VmReplicationStatusPb → Option VmReplicationStatus
vm_replication_status_from_proto none = none
vm_replication_status_from_proto (some m) = some (record {
  mode = m.mode;
  state = m.state;
  health = m.health;
  primary_server = m.primary_server;
  replica_server = m.replica_server;
  last_replication_time = m.last_replication_time;
  frequency_seconds = m.frequency_seconds;
})

unfoldable pub vm_checkpoint_to_proto :
    {stamp : Type 0} → Library stamp → VmCheckpoint → VmCheckpointPb stamp
vm_checkpoint_to_proto lib s = record {
  name = s.name;
  parent_name = s.parent_name;
  checkpoint_type = s.checkpoint_type;
  created_at = created_to_proto lib s.created_at;
  is_current = s.is_current;
}

unfoldable pub vm_checkpoint_from_proto :
    {stamp : Type 0} → Library stamp → VmCheckpointPb stamp → VmCheckpoint
vm_checkpoint_from_proto lib m = record {
  name = m.name;
  parent_name = m.parent_name;
  checkpoint_type = m.checkpoint_type;
  created_at = created_from_proto lib m.created_at;
  is_current = m.is_current;
}

unfoldable pub vm_status_to_proto : {stamp : Type 0} → Library stamp → VmStatus → VmStatusPb stamp
vm_status_to_proto lib s = record {
  phase = phase_to_proto s.phase;
  observed_generation = s.observed_generation;
  power_state = vm_power_state_to_proto s.power_state;
  vm_id = s.vm_id;
  guest_os = s.guest_os;
  ip_address = s.ip_address;
  guest_fqdn = s.guest_fqdn;
  assigned_memory_bytes = s.assigned_memory_bytes;
  memory_demand_bytes = s.memory_demand_bytes;
  memory_status = s.memory_status;
  heartbeat = s.heartbeat;
  screen_blank = s.screen_blank;
  cpu_usage_percent = int32 s.cpu_usage_percent;
  uptime_seconds = s.uptime_seconds;
  screen_png = s.screen_png;
  checkpoints = map (vm_checkpoint_to_proto lib) s.checkpoints;
  observed = marshal_observed lib.observed s.observed;
  replication = vm_replication_status_to_proto s.replication;
  conditions = map (condition_to_proto lib) s.conditions;
}

unfoldable pub vm_status_from_proto :
    {stamp : Type 0} → Library stamp → Option (VmStatusPb stamp) → VmStatus
vm_status_from_proto lib none = zero_vm_status
vm_status_from_proto lib (some m) = record {
  phase = phase_from_proto m.phase;
  observed_generation = m.observed_generation;
  power_observed_at = 0;
  reported_by = [];
  power_state = vm_power_state_from_proto m.power_state;
  last_reported_at = 0;
  vm_id = m.vm_id;
  guest_os = m.guest_os;
  ip_address = m.ip_address;
  guest_fqdn = m.guest_fqdn;
  assigned_memory_bytes = m.assigned_memory_bytes;
  memory_demand_bytes = m.memory_demand_bytes;
  memory_status = m.memory_status;
  heartbeat = m.heartbeat;
  screen_blank = m.screen_blank;
  cpu_usage_percent = m.cpu_usage_percent;
  uptime_seconds = m.uptime_seconds;
  screen_png = m.screen_png;
  checkpoints = map (vm_checkpoint_from_proto lib) m.checkpoints;
  observed = unmarshal_observed lib.observed m.observed;
  replication = vm_replication_status_from_proto m.replication;
  conditions = map (condition_from_proto lib) m.conditions;
}

unfoldable pub vm_to_proto : {stamp : Type 0} → Library stamp → Vm → VmPb stamp
vm_to_proto lib s = record {
  meta = some (meta_to_proto lib s.meta);
  spec = some (vm_spec_to_proto s.spec);
  status = some (vm_status_to_proto lib s.status);
}

unfoldable pub vm_from_proto : {stamp : Type 0} → Library stamp → Option (VmPb stamp) → Vm
vm_from_proto lib none = zero_vm
vm_from_proto lib (some m) = record {
  meta = meta_from_proto lib m.meta;
  spec = vm_spec_from_proto m.spec;
  status = vm_status_from_proto lib m.status;
}
