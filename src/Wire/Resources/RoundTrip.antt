-- ===== src/Wire/Resources/RoundTrip.antt =====
-- What a host can offer that is sent and read back (api/proto/convert.go).
use hyperv_control_plane.Prelude.{◌≡◌, refl, some, All}
use hyperv_control_plane.Wire.{IsInt32, int32_lem, list_back, list_back_always}
use hyperv_control_plane.Types.HostStatus.{
  HostMetrics, StorageVolume, VirtualSwitchInfo, VnicAddress, ManagementVnicInfo, HostResources,
}
use hyperv_control_plane.Wire.Resources.{
  host_metrics_to_proto, host_metrics_from_proto, storage_volume_to_proto,
  storage_volume_from_proto, virtual_switch_info_to_proto, virtual_switch_info_from_proto,
  vnic_address_to_proto, vnic_address_from_proto, management_vnic_info_to_proto,
  management_vnic_info_from_proto, resources_to_proto, resources_from_proto,
}

abbrev pub IsWireHostMetrics : HostMetrics → Type 0
IsWireHostMetrics s = IsInt32 s.cpu_usage_percent

pub host_metrics_from_proto-host_metrics_to_proto :
    (s : HostMetrics) → IsWireHostMetrics s → host_metrics_from_proto (host_metrics_to_proto s) ≡ s
unfolding host_metrics_to_proto host_metrics_from_proto
host_metrics_from_proto-host_metrics_to_proto s h = rw (int32_lem s.cpu_usage_percent h) refl

pub storage_volume_from_proto-storage_volume_to_proto :
    (s : StorageVolume) → storage_volume_from_proto (storage_volume_to_proto s) ≡ s
unfolding storage_volume_to_proto storage_volume_from_proto
storage_volume_from_proto-storage_volume_to_proto s = refl

abbrev pub IsWireVirtualSwitchInfo : VirtualSwitchInfo → Type 0
IsWireVirtualSwitchInfo s = IsInt32 s.vlan_id

pub virtual_switch_info_from_proto-virtual_switch_info_to_proto :
    (s : VirtualSwitchInfo)
    → IsWireVirtualSwitchInfo s
    → virtual_switch_info_from_proto (virtual_switch_info_to_proto s) ≡ s
unfolding virtual_switch_info_to_proto virtual_switch_info_from_proto
virtual_switch_info_from_proto-virtual_switch_info_to_proto s h = rw (int32_lem s.vlan_id h) refl

pub vnic_address_from_proto-vnic_address_to_proto :
    (s : VnicAddress) → vnic_address_from_proto (vnic_address_to_proto s) ≡ s
unfolding vnic_address_to_proto vnic_address_from_proto
vnic_address_from_proto-vnic_address_to_proto s = refl

abbrev pub IsWireManagementVnicInfo : ManagementVnicInfo → Type 0
IsWireManagementVnicInfo s = (IsInt32 s.vlan_id) × (IsInt32 s.mtu_bytes)

pub management_vnic_info_from_proto-management_vnic_info_to_proto :
    (s : ManagementVnicInfo)
    → IsWireManagementVnicInfo s
    → management_vnic_info_from_proto (management_vnic_info_to_proto s) ≡ s
unfolding management_vnic_info_to_proto management_vnic_info_from_proto
management_vnic_info_from_proto-management_vnic_info_to_proto s h =
    rw
      (
        int32_lem s.vlan_id h.0,
        list_back_always vnic_address_to_proto vnic_address_from_proto
            vnic_address_from_proto-vnic_address_to_proto s.addresses,
        int32_lem s.mtu_bytes h.1,
      )
      refl

abbrev pub IsWireHostResources : HostResources → Type 0
IsWireHostResources s =
    (All IsWireVirtualSwitchInfo s.switch_details)
    × (All IsWireManagementVnicInfo s.management_vnics)

pub resources_from_proto-resources_to_proto :
    (s : HostResources)
    → IsWireHostResources s
    → resources_from_proto (some (resources_to_proto s)) ≡ s
unfolding resources_to_proto resources_from_proto
resources_from_proto-resources_to_proto s h =
    rw
      (
        list_back IsWireVirtualSwitchInfo virtual_switch_info_to_proto
            virtual_switch_info_from_proto
            virtual_switch_info_from_proto-virtual_switch_info_to_proto s.switch_details h.0,
        list_back_always storage_volume_to_proto storage_volume_from_proto
            storage_volume_from_proto-storage_volume_to_proto s.volumes,
        list_back IsWireManagementVnicInfo management_vnic_info_to_proto
            management_vnic_info_from_proto
            management_vnic_info_from_proto-management_vnic_info_to_proto s.management_vnics h.1,
      )
      refl
