-- ===== src/Wire/Vm/RoundTrip.antt =====
-- The desired state of a virtual machine that is sent and read back (api/proto/convert.go).
use hyperv_control_plane.Prelude.{◌≡◌, refl, some, [], map, All}
use hyperv_control_plane.Wire.{
  IsInt32, int32_lem, AllOption, option_back, option_back_always, list_back_always, list_onto,
}
use hyperv_control_plane.Wire.Enums.RoundTrip.{
  IsPowerState, vm_power_state_from_proto-vm_power_state_to_proto, IsStartAction,
  vm_start_action_from_proto-vm_start_action_to_proto,
}
use hyperv_control_plane.Types.Vm.{
  VmPlacementSpec, DynamicMemorySpec, VmDiskSpec, VmNetworkAdapterSpec, VmReplicationSpec,
  VmIntegrationServices, VmSpec,
}
use hyperv_control_plane.Wire.Vm.{
  vm_placement_spec_to_proto, vm_placement_spec_from_proto, dynamic_memory_spec_to_proto,
  dynamic_memory_spec_from_proto, vm_disk_spec_to_proto, vm_disk_spec_from_proto,
  vm_network_adapter_to_proto, vm_network_adapter_from_proto, vm_replication_spec_to_proto,
  vm_replication_spec_from_proto, integration_to_proto, integration_from_proto, vm_spec_to_proto,
  vm_spec_from_proto,
}

pub vm_placement_spec_from_proto-vm_placement_spec_to_proto :
    (s : VmPlacementSpec) → vm_placement_spec_from_proto (vm_placement_spec_to_proto s) ≡ s
unfolding vm_placement_spec_to_proto vm_placement_spec_from_proto
vm_placement_spec_from_proto-vm_placement_spec_to_proto s = refl

pub dynamic_memory_spec_from_proto-dynamic_memory_spec_to_proto :
    (s : DynamicMemorySpec) → dynamic_memory_spec_from_proto (dynamic_memory_spec_to_proto s) ≡ s
unfolding dynamic_memory_spec_to_proto dynamic_memory_spec_from_proto
dynamic_memory_spec_from_proto-dynamic_memory_spec_to_proto s = refl

pub vm_disk_spec_from_proto-vm_disk_spec_to_proto :
    (s : VmDiskSpec) → vm_disk_spec_from_proto (vm_disk_spec_to_proto s) ≡ s
unfolding vm_disk_spec_to_proto vm_disk_spec_from_proto
vm_disk_spec_from_proto-vm_disk_spec_to_proto s = refl

-- What is left of one without the fields that are not sent.
abbrev pub vm_network_adapter_on_wire : VmNetworkAdapterSpec → VmNetworkAdapterSpec
vm_network_adapter_on_wire s = record s { dvport_name = [] }

abbrev pub IsWireVmNetworkAdapterSpec : VmNetworkAdapterSpec → Type 0
IsWireVmNetworkAdapterSpec s = IsInt32 s.vlan_id

pub vm_network_adapter_from_proto-vm_network_adapter_to_proto :
    (s : VmNetworkAdapterSpec)
    → IsWireVmNetworkAdapterSpec s
    → vm_network_adapter_from_proto (vm_network_adapter_to_proto s) ≡ vm_network_adapter_on_wire s
unfolding vm_network_adapter_to_proto vm_network_adapter_from_proto
vm_network_adapter_from_proto-vm_network_adapter_to_proto s h = rw (int32_lem s.vlan_id h) refl

abbrev pub IsWireVmReplicationSpec : VmReplicationSpec → Type 0
IsWireVmReplicationSpec s = (IsInt32 s.frequency_seconds) × (IsInt32 s.port)

pub vm_replication_spec_from_proto-vm_replication_spec_to_proto :
    (s : VmReplicationSpec)
    → IsWireVmReplicationSpec s
    → vm_replication_spec_from_proto (vm_replication_spec_to_proto s) ≡ s
unfolding vm_replication_spec_to_proto vm_replication_spec_from_proto
vm_replication_spec_from_proto-vm_replication_spec_to_proto s h =
    rw (int32_lem s.frequency_seconds h.0, int32_lem s.port h.1) refl

pub integration_from_proto-integration_to_proto :
    (s : VmIntegrationServices) → integration_from_proto (integration_to_proto s) ≡ s
unfolding integration_to_proto integration_from_proto
integration_from_proto-integration_to_proto s = refl

-- What is left of one without the fields that are not sent.
abbrev pub vm_spec_on_wire : VmSpec → VmSpec
vm_spec_on_wire s = record s {
  network_adapters = map vm_network_adapter_on_wire s.network_adapters;
}

abbrev pub IsWireVmSpec : VmSpec → Type 0
IsWireVmSpec s =
    (IsInt32 s.hyperv_generation)
    × (IsInt32 s.processor_count)
    × (All IsWireVmNetworkAdapterSpec s.network_adapters)
    × (IsPowerState s.desired_power_state)
    × (IsStartAction s.automatic_start_action)
    × (AllOption IsWireVmReplicationSpec s.replication)

-- A virtual machine's desired state is read as it was sent, but for the distributed port names of
-- its adapters, which are not sent: where the numbers sent as int32 fit one, and the power state and
-- the start action are empty or of the constants that have a number.
pub vm_spec_from_proto-vm_spec_to_proto :
    (s : VmSpec)
    → IsWireVmSpec s
    → vm_spec_from_proto (some (vm_spec_to_proto s)) ≡ vm_spec_on_wire s
unfolding vm_spec_to_proto vm_spec_from_proto
vm_spec_from_proto-vm_spec_to_proto s h =
    rw
      (
        vm_placement_spec_from_proto-vm_placement_spec_to_proto s.placement,
        int32_lem s.hyperv_generation h.0,
        int32_lem s.processor_count h.1,
        option_back_always dynamic_memory_spec_to_proto dynamic_memory_spec_from_proto
            dynamic_memory_spec_from_proto-dynamic_memory_spec_to_proto s.dynamic_memory,
        list_back_always vm_disk_spec_to_proto vm_disk_spec_from_proto
            vm_disk_spec_from_proto-vm_disk_spec_to_proto s.disks,
        list_onto IsWireVmNetworkAdapterSpec vm_network_adapter_to_proto
            vm_network_adapter_from_proto vm_network_adapter_on_wire
            vm_network_adapter_from_proto-vm_network_adapter_to_proto s.network_adapters h.2,
        option_back_always integration_to_proto integration_from_proto
            integration_from_proto-integration_to_proto s.integration_services,
        vm_power_state_from_proto-vm_power_state_to_proto s.desired_power_state h.3,
        vm_start_action_from_proto-vm_start_action_to_proto s.automatic_start_action h.4,
        option_back IsWireVmReplicationSpec vm_replication_spec_to_proto
            vm_replication_spec_from_proto
            vm_replication_spec_from_proto-vm_replication_spec_to_proto s.replication h.5,
      )
      refl
