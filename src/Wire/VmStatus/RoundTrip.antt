-- ===== src/Wire/VmStatus/RoundTrip.antt =====
-- A virtual machine and its status that is sent and read back (api/proto/convert.go).
use hyperv_control_plane.Prelude.{◌≡◌, refl, Option, none, some, [], All}
use hyperv_control_plane.Wire.{IsInt32, int32_lem, AllOption, list_back, list_back_always}
use hyperv_control_plane.Wire.Library.{
  Library, IsDocumented, IsJson, IsWhole, created_from_proto-created_to_proto,
  unmarshal_observed-marshal_observed,
}
use hyperv_control_plane.Wire.Enums.RoundTrip.{
  IsPowerState, vm_power_state_from_proto-vm_power_state_to_proto,
}
use hyperv_control_plane.Wire.Phase.RoundTrip.{IsPhase, phase_from_proto-phase_to_proto}
use hyperv_control_plane.Types.VmStatus.{VmReplicationStatus, VmCheckpoint, VmStatus, Vm}
use hyperv_control_plane.Wire.Meta.{condition_to_proto, condition_from_proto}
use hyperv_control_plane.Wire.Meta.RoundTrip.{
  meta_on_wire, meta_from_proto-meta_to_proto, condition_from_proto-condition_to_proto,
}
use hyperv_control_plane.Wire.Vm.RoundTrip.{
  vm_spec_on_wire, IsWireVmSpec, vm_spec_from_proto-vm_spec_to_proto,
}
use hyperv_control_plane.Wire.VmStatus.{
  vm_replication_status_to_proto, vm_replication_status_from_proto, vm_checkpoint_to_proto,
  vm_checkpoint_from_proto, vm_status_to_proto, vm_status_from_proto, vm_to_proto, vm_from_proto,
}

abbrev pub IsWireVmReplicationStatus : VmReplicationStatus → Type 0
IsWireVmReplicationStatus s = IsInt32 s.frequency_seconds

pub vm_replication_status_from_proto-vm_replication_status_to_proto :
    (o : Option VmReplicationStatus)
    → AllOption IsWireVmReplicationStatus o
    → vm_replication_status_from_proto (vm_replication_status_to_proto o) ≡ o
unfolding vm_replication_status_to_proto vm_replication_status_from_proto
vm_replication_status_from_proto-vm_replication_status_to_proto none h = refl
vm_replication_status_from_proto-vm_replication_status_to_proto (some s) h =
    rw (int32_lem s.frequency_seconds h) refl

abbrev pub IsWireVmCheckpoint : {stamp : Type 0} → Library stamp → VmCheckpoint → Type 0
IsWireVmCheckpoint lib s = IsWhole lib s.created_at

pub vm_checkpoint_from_proto-vm_checkpoint_to_proto :
    {stamp : Type 0} (lib : Library stamp)
    → IsDocumented lib
    → (s : VmCheckpoint) → IsWireVmCheckpoint lib s
    → vm_checkpoint_from_proto lib (vm_checkpoint_to_proto lib s) ≡ s
unfolding vm_checkpoint_to_proto vm_checkpoint_from_proto
vm_checkpoint_from_proto-vm_checkpoint_to_proto lib doc s h =
    rw (created_from_proto-created_to_proto lib doc s.created_at h) refl

-- What is left of one without the fields that are not sent.
abbrev pub vm_status_on_wire : VmStatus → VmStatus
vm_status_on_wire s = record s { power_observed_at = 0; reported_by = []; last_reported_at = 0 }

abbrev pub IsWireVmStatus : {stamp : Type 0} → Library stamp → VmStatus → Type 0
IsWireVmStatus lib s =
    (IsPhase s.phase)
    × (IsPowerState s.power_state)
    × (IsInt32 s.cpu_usage_percent)
    × (All (IsWireVmCheckpoint lib) s.checkpoints)
    × (AllOption (IsJson lib.observed) s.observed)
    × (AllOption IsWireVmReplicationStatus s.replication)

pub vm_status_from_proto-vm_status_to_proto :
    {stamp : Type 0} (lib : Library stamp)
    → IsDocumented lib
    → (s : VmStatus) → IsWireVmStatus lib s
    → vm_status_from_proto lib (some (vm_status_to_proto lib s)) ≡ vm_status_on_wire s
unfolding vm_status_to_proto vm_status_from_proto
vm_status_from_proto-vm_status_to_proto lib doc s h =
    rw
      (
        phase_from_proto-phase_to_proto s.phase h.0,
        vm_power_state_from_proto-vm_power_state_to_proto s.power_state h.1,
        int32_lem s.cpu_usage_percent h.2,
        list_back (IsWireVmCheckpoint lib) (vm_checkpoint_to_proto lib)
            (vm_checkpoint_from_proto lib) (vm_checkpoint_from_proto-vm_checkpoint_to_proto lib doc)
            s.checkpoints h.3,
        unmarshal_observed-marshal_observed lib.observed s.observed h.4,
        vm_replication_status_from_proto-vm_replication_status_to_proto s.replication h.5,
        list_back_always (condition_to_proto lib) (condition_from_proto lib)
            (condition_from_proto-condition_to_proto lib doc) s.conditions,
      )
      refl

-- What is left of one without the fields that are not sent.
abbrev pub vm_on_wire : Vm → Vm
vm_on_wire s = record s {
  meta = meta_on_wire s.meta;
  spec = vm_spec_on_wire s.spec;
  status = vm_status_on_wire s.status;
}

abbrev pub IsWireVm : {stamp : Type 0} → Library stamp → Vm → Type 0
IsWireVm lib s = (IsWireVmSpec s.spec) × (IsWireVmStatus lib s.status)

-- A virtual machine is read as it was sent, but for what is not sent: its annotations, the distributed
-- port names of its adapters and what the centre stamps on its status. Given what is documented of the
-- libraries, where the numbers sent as int32 fit one, the constants are empty or have a number, the
-- times of its checkpoints survive RFC 3339, and what is sent as JSON is read back as it was.
pub vm_from_proto-vm_to_proto :
    {stamp : Type 0} (lib : Library stamp)
    → IsDocumented lib
    → (s : Vm) → IsWireVm lib s
    → vm_from_proto lib (some (vm_to_proto lib s)) ≡ vm_on_wire s
unfolding vm_to_proto vm_from_proto
vm_from_proto-vm_to_proto lib doc s h =
    rw
      (
        meta_from_proto-meta_to_proto lib doc s.meta,
        vm_spec_from_proto-vm_spec_to_proto s.spec h.0,
        vm_status_from_proto-vm_status_to_proto lib doc s.status h.1,
      )
      refl
