-- ===== src/Wire/Networking.antt =====
-- The networking of a host on the wire: the messages, and the conversions of
-- api/proto/convert.go to and from them.
pub mod RoundTrip
use hyperv_control_plane.Prelude.{
  ℕ, ◌≡◌, refl, sym, ap, ◌∙◌, ◌⊎◌, inl, inr, ℤ, pos, Bool, true, false, Option, none, some, List,
  [], ◌∷◌, map, All, Text, codes, text_eq, if◌then◌else◌,
}
use hyperv_control_plane.Wire.{
  int32, IsInt32, int32_lem, option_int32, map_option, AllOption, or_zero, at_constant, option_back,
  option_back_always, option_onto, list_back, list_back_always, list_onto,
}
use hyperv_control_plane.Wire.Enums.{
  RebootPolicyPb, reboot_never, reboot_if_needed, reboot_policy_to_proto, reboot_policy_from_proto,
  SetTeamingModePb, set_switch_independent, teaming_mode_to_proto, teaming_mode_from_proto,
  SetLoadBalancingPb, set_hyperv_port, set_dynamic, load_balancing_to_proto,
  load_balancing_from_proto, WitnessTypePb, witness_file_share, witness_cloud, witness_disk,
  witness_type_to_proto, witness_type_from_proto, ClusterStorageKindPb, storage_kind_s2d,
  storage_kind_iscsi, storage_kind_to_proto, storage_kind_from_proto, VmPowerStatePb,
  vm_power_running, vm_power_off, vm_power_paused, vm_power_saved, vm_power_state_to_proto,
  vm_power_state_from_proto, VmStartActionPb, vm_start_nothing, vm_start_if_was_running,
  vm_start_always, vm_start_action_to_proto, vm_start_action_from_proto, reboot_policy_unspecified,
  reboot_policy_never, reboot_policy_if_needed, set_teaming_mode_unspecified,
  set_teaming_mode_switch_independent, set_load_balancing_unspecified,
  set_load_balancing_hyperv_port, set_load_balancing_dynamic, witness_type_unspecified,
  witness_type_none, witness_type_file_share, witness_type_cloud, witness_type_disk,
  cluster_storage_kind_unspecified, cluster_storage_kind_s2d, cluster_storage_kind_iscsi,
  vm_power_state_unspecified, vm_power_state_running, vm_power_state_off, vm_power_state_paused,
  vm_power_state_saved, vm_start_action_unspecified, vm_start_action_nothing,
  vm_start_action_start_if_running, vm_start_action_start,
}
use hyperv_control_plane.Types.Networking.{
  IpConfig, VirtualSwitchSpec, ManagementVnicSpec, PhysicalNicConfig, HostNetworkingSpec,
}
use hyperv_control_plane.Types.Host.{
  zero_networking, HostStorageSpec, zero_storage, WindowsLicenceSpec, ClusterMembershipSpec,
  DomainJoinSpec, BmcSpec, ReplicaServerSpec, MaintenanceSpec, HostSpec, zero_spec,
}

abbrev pub zero_ip_config : IpConfig
zero_ip_config = record { address = []; gateway = []; dns_servers = [] }

pub record IpConfigPb : Type 0 where
  pub address : Text
  pub gateway : Text
  pub dns_servers : List Text

pub record VirtualSwitchSpecPb : Type 0 where
  pub name : Text
  pub team_members : List Text
  pub teaming_mode : SetTeamingModePb
  pub load_balancing : SetLoadBalancingPb
  pub allow_management_os : Bool
  pub mtu_bytes : ℤ  -- int32

pub record ManagementVnicSpecPb : Type 0 where
  pub name : Text
  pub switch_name : Text
  pub vlan_id : ℤ  -- int32
  pub ip_config : Option IpConfigPb
  pub min_bandwidth_weight : ℤ  -- int32
  pub purpose : Text
  pub team_member_adapter : Text
  pub mtu_bytes : ℤ  -- int32
  pub rdma : Option Bool

pub record PhysicalNicConfigPb : Type 0 where
  pub adapter_name : Text
  pub ip_config : Option IpConfigPb

pub record HostNetworkingSpecPb : Type 0 where
  pub switches : List VirtualSwitchSpecPb
  pub management_vnics : List ManagementVnicSpecPb
  pub dns_servers : List Text
  pub nic_configs : List PhysicalNicConfigPb

unfoldable pub ip_config_to_proto : IpConfig → IpConfigPb
ip_config_to_proto s = record {
  address = s.address;
  gateway = s.gateway;
  dns_servers = s.dns_servers;
}

unfoldable pub ip_config_from_proto : IpConfigPb → IpConfig
ip_config_from_proto m = record {
  address = m.address;
  gateway = m.gateway;
  dns_servers = m.dns_servers;
}

unfoldable pub virtual_switch_to_proto : VirtualSwitchSpec → VirtualSwitchSpecPb
virtual_switch_to_proto s = record {
  name = s.name;
  team_members = s.team_members;
  teaming_mode = teaming_mode_to_proto s.teaming_mode;
  load_balancing = load_balancing_to_proto s.load_balancing;
  allow_management_os = s.allow_management_os;
  mtu_bytes = int32 s.mtu_bytes;
}

unfoldable pub virtual_switch_from_proto : VirtualSwitchSpecPb → VirtualSwitchSpec
virtual_switch_from_proto m = record {
  name = m.name;
  team_members = m.team_members;
  teaming_mode = teaming_mode_from_proto m.teaming_mode;
  load_balancing = load_balancing_from_proto m.load_balancing;
  allow_management_os = m.allow_management_os;
  mtu_bytes = m.mtu_bytes;
}

unfoldable pub mgmt_vnic_to_proto : ManagementVnicSpec → ManagementVnicSpecPb
mgmt_vnic_to_proto s = record {
  name = s.name;
  switch_name = s.switch_name;
  vlan_id = int32 s.vlan_id;
  ip_config = map_option ip_config_to_proto s.ip_config;
  min_bandwidth_weight = int32 s.min_bandwidth_weight;
  purpose = s.purpose;
  team_member_adapter = s.team_member_adapter;
  mtu_bytes = int32 s.mtu_bytes;
  rdma = s.rdma;
}

unfoldable pub mgmt_vnic_from_proto : ManagementVnicSpecPb → ManagementVnicSpec
mgmt_vnic_from_proto m = record {
  name = m.name;
  switch_name = m.switch_name;
  vlan_id = m.vlan_id;
  ip_config = map_option ip_config_from_proto m.ip_config;
  min_bandwidth_weight = m.min_bandwidth_weight;
  purpose = m.purpose;
  team_member_adapter = m.team_member_adapter;
  mtu_bytes = m.mtu_bytes;
  rdma = m.rdma;
}

unfoldable pub nic_config_to_proto : PhysicalNicConfig → PhysicalNicConfigPb
nic_config_to_proto s = record {
  adapter_name = s.adapter_name;
  ip_config = some (ip_config_to_proto s.ip_config);
}

unfoldable pub nic_config_from_proto : PhysicalNicConfigPb → PhysicalNicConfig
nic_config_from_proto m = record {
  adapter_name = m.adapter_name;
  ip_config = or_zero zero_ip_config ip_config_from_proto m.ip_config;
}

unfoldable pub networking_to_proto : HostNetworkingSpec → HostNetworkingSpecPb
networking_to_proto s = record {
  switches = map virtual_switch_to_proto s.switches;
  management_vnics = map mgmt_vnic_to_proto s.management_vnics;
  dns_servers = s.dns_servers;
  nic_configs = map nic_config_to_proto s.nic_configs;
}

unfoldable pub networking_from_proto : Option HostNetworkingSpecPb → HostNetworkingSpec
networking_from_proto none = zero_networking
networking_from_proto (some m) = record {
  switches = map virtual_switch_from_proto m.switches;
  management_vnics = map mgmt_vnic_from_proto m.management_vnics;
  dns_servers = m.dns_servers;
  nic_configs = map nic_config_from_proto m.nic_configs;
}
