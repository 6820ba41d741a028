-- ===== src/Wire/Networking/RoundTrip.antt =====
-- The networking of a host that is sent and read back (api/proto/convert.go).
use hyperv_control_plane.Prelude.{◌≡◌, refl, some, All}
use hyperv_control_plane.Wire.{IsInt32, int32_lem, option_back_always, list_back, list_back_always}
use hyperv_control_plane.Wire.Enums.RoundTrip.{
  IsTeamingMode, teaming_mode_from_proto-teaming_mode_to_proto, IsLoadBalancing,
  load_balancing_from_proto-load_balancing_to_proto,
}
use hyperv_control_plane.Types.Networking.{
  IpConfig, VirtualSwitchSpec, ManagementVnicSpec, PhysicalNicConfig, HostNetworkingSpec,
}
use hyperv_control_plane.Wire.Networking.{
  ip_config_to_proto, ip_config_from_proto, virtual_switch_to_proto, virtual_switch_from_proto,
  mgmt_vnic_to_proto, mgmt_vnic_from_proto, nic_config_to_proto, nic_config_from_proto,
  networking_to_proto, networking_from_proto,
}

pub ip_config_from_proto-ip_config_to_proto :
    (s : IpConfig) → ip_config_from_proto (ip_config_to_proto s) ≡ s
unfolding ip_config_to_proto ip_config_from_proto
ip_config_from_proto-ip_config_to_proto s = refl

abbrev pub IsWireVirtualSwitchSpec : VirtualSwitchSpec → Type 0
IsWireVirtualSwitchSpec s =
    (IsTeamingMode s.teaming_mode) × (IsLoadBalancing s.load_balancing) × (IsInt32 s.mtu_bytes)

pub virtual_switch_from_proto-virtual_switch_to_proto :
    (s : VirtualSwitchSpec)
    → IsWireVirtualSwitchSpec s
    → virtual_switch_from_proto (virtual_switch_to_proto s) ≡ s
unfolding virtual_switch_to_proto virtual_switch_from_proto
virtual_switch_from_proto-virtual_switch_to_proto s h =
    rw
      (
        teaming_mode_from_proto-teaming_mode_to_proto s.teaming_mode h.0,
        load_balancing_from_proto-load_balancing_to_proto s.load_balancing h.1,
        int32_lem s.mtu_bytes h.2,
      )
      refl

abbrev pub IsWireManagementVnicSpec : ManagementVnicSpec → Type 0
IsWireManagementVnicSpec s =
    (IsInt32 s.vlan_id) × (IsInt32 s.min_bandwidth_weight) × (IsInt32 s.mtu_bytes)

pub mgmt_vnic_from_proto-mgmt_vnic_to_proto :
    (s : ManagementVnicSpec)
    → IsWireManagementVnicSpec s
    → mgmt_vnic_from_proto (mgmt_vnic_to_proto s) ≡ s
unfolding mgmt_vnic_to_proto mgmt_vnic_from_proto
mgmt_vnic_from_proto-mgmt_vnic_to_proto s h =
    rw
      (
        int32_lem s.vlan_id h.0,
        option_back_always ip_config_to_proto ip_config_from_proto
            ip_config_from_proto-ip_config_to_proto s.ip_config,
        int32_lem s.min_bandwidth_weight h.1,
        int32_lem s.mtu_bytes h.2,
      )
      refl

pub nic_config_from_proto-nic_config_to_proto :
    (s : PhysicalNicConfig) → nic_config_from_proto (nic_config_to_proto s) ≡ s
unfolding nic_config_to_proto nic_config_from_proto
nic_config_from_proto-nic_config_to_proto s =
    rw (ip_config_from_proto-ip_config_to_proto s.ip_config) refl

abbrev pub IsWireHostNetworkingSpec : HostNetworkingSpec → Type 0
IsWireHostNetworkingSpec s =
    (All IsWireVirtualSwitchSpec s.switches) × (All IsWireManagementVnicSpec s.management_vnics)

pub networking_from_proto-networking_to_proto :
    (s : HostNetworkingSpec)
    → IsWireHostNetworkingSpec s
    → networking_from_proto (some (networking_to_proto s)) ≡ s
unfolding networking_to_proto networking_from_proto
networking_from_proto-networking_to_proto s h =
    rw
      (
        list_back IsWireVirtualSwitchSpec virtual_switch_to_proto virtual_switch_from_proto
            virtual_switch_from_proto-virtual_switch_to_proto s.switches h.0,
        list_back IsWireManagementVnicSpec mgmt_vnic_to_proto mgmt_vnic_from_proto
            mgmt_vnic_from_proto-mgmt_vnic_to_proto s.management_vnics h.1,
        list_back_always nic_config_to_proto nic_config_from_proto
            nic_config_from_proto-nic_config_to_proto s.nic_configs,
      )
      refl
