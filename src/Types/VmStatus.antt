-- ===== src/Types/VmStatus.antt =====
-- The status of a virtual machine, and the machine (api/types/desiredstate.go).
use hyperv_control_plane.Prelude.{ℕ, ℤ, pos, Bool, false, Option, none, List, [], Text}
use hyperv_control_plane.Types.Meta.{ObjectMeta, zero_meta, Condition}
use hyperv_control_plane.Types.Vm.{VmDiskSpec, VmNetworkAdapterSpec, VmSpec, zero_vm_spec}

pub record VmReplicationStatus : Type 0 where
  pub mode : Text
  pub state : Text
  pub health : Text
  pub primary_server : Text
  pub replica_server : Text
  pub last_replication_time : Text
  pub frequency_seconds : ℤ  -- int

pub record VmIntegrationServiceState : Type 0 where
  pub name : Text
  pub enabled : Bool

pub record VmObserved : Type 0 where
  pub processor_count : ℤ  -- int
  pub memory_startup_bytes : ℕ
  pub dynamic_memory : Bool
  pub min_bytes : ℕ
  pub max_bytes : ℕ
  pub generation : ℤ  -- int
  pub disks : List VmDiskSpec
  pub network_adapters : List VmNetworkAdapterSpec
  pub integration_services : List VmIntegrationServiceState

pub record ObservedVm : Type 0 where
  pub name : Text
  pub vm_id : Text
  pub power_state : Text
  pub managed : Bool
  pub clustered : Bool
  pub guest_os : Text
  pub ip_address : Text
  pub config : Option VmObserved
  pub replication : Option VmReplicationStatus

pub record VmCheckpoint : Type 0 where
  pub name : Text
  pub parent_name : Text
  pub checkpoint_type : Text
  pub created_at : ℕ
  pub is_current : Bool

pub record VmStatus : Type 0 where
  pub phase : Text
  pub observed_generation : ℤ  -- int64
  pub power_observed_at : ℕ
  pub reported_by : Text
  pub power_state : Text
  pub last_reported_at : ℕ
  pub vm_id : Text
  pub guest_os : Text
  pub ip_address : Text
  pub guest_fqdn : Text
  pub assigned_memory_bytes : ℕ
  pub memory_demand_bytes : ℕ
  pub memory_status : Text
  pub heartbeat : Text
  pub screen_blank : Bool
  pub cpu_usage_percent : ℤ  -- int
  pub uptime_seconds : ℤ  -- int64
  pub screen_png : List ℕ
  pub checkpoints : List VmCheckpoint
  pub observed : Option VmObserved
  pub replication : Option VmReplicationStatus
  pub conditions : List Condition

abbrev pub zero_vm_status : VmStatus
zero_vm_status = record {
  phase = [];
  observed_generation = pos 0;
  power_observed_at = 0;
  reported_by = [];
  power_state = [];
  last_reported_at = 0;
  vm_id = [];
  guest_os = [];
  ip_address = [];
  guest_fqdn = [];
  assigned_memory_bytes = 0;
  memory_demand_bytes = 0;
  memory_status = [];
  heartbeat = [];
  screen_blank = false;
  cpu_usage_percent = pos 0;
  uptime_seconds = pos 0;
  screen_png = [];
  checkpoints = [];
  observed = none;
  replication = none;
  conditions = [];
}

pub record Vm : Type 0 where
  pub meta : ObjectMeta
  pub spec : VmSpec
  pub status : VmStatus

abbrev pub zero_vm : Vm
zero_vm = record { meta = zero_meta; spec = zero_vm_spec; status = zero_vm_status }
