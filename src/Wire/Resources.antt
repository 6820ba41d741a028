-- ===== src/Wire/Resources.antt =====
-- What a host can offer on the wire: the messages, and the conversions of
-- api/proto/convert.go to and from them.
pub mod RoundTrip
use hyperv_control_plane.Prelude.{
  ℕ, ◌≡◌, refl, sym, ap, ◌∙◌, ◌⊎◌, inl, inr, ℤ, pos, Bool, true, false, Option, none, some, List,
  [], ◌∷◌, map, All, Text, codes, text_eq, if◌then◌else◌,
}
use hyperv_control_plane.Wire.{
  int32, IsInt32, int32_lem, option_int32, map_option, AllOption, or_zero, at_constant, option_back,
  option_back_always, option_onto, list_back, list_back_always, list_onto,
}
use hyperv_control_plane.Types.HostStatus.{
  IsoLibraryStatus, WindowsLicenceStatus, VmIncompatibility, ImportableVm, ImportScanStatus,
  MigrationPassDisk, MigrationPassResult, HostMetrics, zero_host_metrics, StorageVolume,
  VirtualSwitchInfo, VnicAddress, ManagementVnicInfo, HostResources, zero_resources, HostStatus,
  zero_status, Host, zero_host,
}

pub record HostMetricsPb : Type 0 where
  pub cpu_usage_percent : ℤ  -- int32
  pub memory_in_use_bytes : ℕ
  pub uptime_seconds : ℤ  -- int64

pub record StorageVolumePb : Type 0 where
  pub name : Text
  pub path : Text
  pub size_bytes : ℕ
  pub used_bytes : ℕ
  pub shared : Bool
  pub unlettered : Bool
  pub disk_unique_id : Text
  pub shares_disk_with_os : Bool

pub record VirtualSwitchInfoPb : Type 0 where
  pub name : Text
  pub net_adapters : List Text
  pub allow_management_os : Bool
  pub vlan_id : ℤ  -- int32

pub record VnicAddressPb : Type 0 where
  pub address : Text
  pub kind : Text

pub record ManagementVnicInfoPb : Type 0 where
  pub name : Text
  pub switch_name : Text
  pub vlan_id : ℤ  -- int32
  pub dns_servers : List Text
  pub profile : Text
  pub addresses : List VnicAddressPb
  pub gateway : Text
  pub lso_enabled : Bool
  pub mtu_bytes : ℤ  -- int32

pub record HostResourcesPb : Type 0 where
  pub switches : List Text
  pub switch_details : List VirtualSwitchInfoPb
  pub volumes : List StorageVolumePb
  pub isos : List Text
  pub management_vnics : List ManagementVnicInfoPb

unfoldable pub host_metrics_to_proto : HostMetrics → HostMetricsPb
host_metrics_to_proto s = record {
  cpu_usage_percent = int32 s.cpu_usage_percent;
  memory_in_use_bytes = s.memory_in_use_bytes;
  uptime_seconds = s.uptime_seconds;
}

unfoldable pub host_metrics_from_proto : HostMetricsPb → HostMetrics
host_metrics_from_proto m = record {
  cpu_usage_percent = m.cpu_usage_percent;
  memory_in_use_bytes = m.memory_in_use_bytes;
  uptime_seconds = m.uptime_seconds;
}

unfoldable pub storage_volume_to_proto : StorageVolume → StorageVolumePb
storage_volume_to_proto s = record {
  name = s.name;
  path = s.path;
  size_bytes = s.size_bytes;
  used_bytes = s.used_bytes;
  shared = s.shared;
  unlettered = s.unlettered;
  disk_unique_id = s.disk_unique_id;
  shares_disk_with_os = s.shares_disk_with_os;
}

unfoldable pub storage_volume_from_proto : StorageVolumePb → StorageVolume
storage_volume_from_proto m = record {
  name = m.name;
  path = m.path;
  size_bytes = m.size_bytes;
  used_bytes = m.used_bytes;
  shared = m.shared;
  unlettered = m.unlettered;
  disk_unique_id = m.disk_unique_id;
  shares_disk_with_os = m.shares_disk_with_os;
}

unfoldable pub virtual_switch_info_to_proto : VirtualSwitchInfo → VirtualSwitchInfoPb
virtual_switch_info_to_proto s = record {
  name = s.name;
  net_adapters = s.net_adapters;
  allow_management_os = s.allow_management_os;
  vlan_id = int32 s.vlan_id;
}

unfoldable pub virtual_switch_info_from_proto : VirtualSwitchInfoPb → VirtualSwitchInfo
virtual_switch_info_from_proto m = record {
  name = m.name;
  net_adapters = m.net_adapters;
  allow_management_os = m.allow_management_os;
  vlan_id = m.vlan_id;
}

unfoldable pub vnic_address_to_proto : VnicAddress → VnicAddressPb
vnic_address_to_proto s = record { address = s.address; kind = s.kind }

unfoldable pub vnic_address_from_proto : VnicAddressPb → VnicAddress
vnic_address_from_proto m = record { address = m.address; kind = m.kind }

unfoldable pub management_vnic_info_to_proto : ManagementVnicInfo → ManagementVnicInfoPb
management_vnic_info_to_proto s = record {
  name = s.name;
  switch_name = s.switch_name;
  vlan_id = int32 s.vlan_id;
  dns_servers = s.dns_servers;
  profile = s.profile;
  addresses = map vnic_address_to_proto s.addresses;
  gateway = s.gateway;
  lso_enabled = s.lso_enabled;
  mtu_bytes = int32 s.mtu_bytes;
}

unfoldable pub management_vnic_info_from_proto : ManagementVnicInfoPb → ManagementVnicInfo
management_vnic_info_from_proto m = record {
  name = m.name;
  switch_name = m.switch_name;
  vlan_id = m.vlan_id;
  dns_servers = m.dns_servers;
  profile = m.profile;
  addresses = map vnic_address_from_proto m.addresses;
  gateway = m.gateway;
  lso_enabled = m.lso_enabled;
  mtu_bytes = m.mtu_bytes;
}

unfoldable pub resources_to_proto : HostResources → HostResourcesPb
resources_to_proto s = record {
  switches = s.switches;
  switch_details = map virtual_switch_info_to_proto s.switch_details;
  volumes = map storage_volume_to_proto s.volumes;
  isos = s.isos;
  management_vnics = map management_vnic_info_to_proto s.management_vnics;
}

unfoldable pub resources_from_proto : Option HostResourcesPb → HostResources
resources_from_proto none = zero_resources
resources_from_proto (some m) = record {
  switches = m.switches;
  switch_details = map virtual_switch_info_from_proto m.switch_details;
  volumes = map storage_volume_from_proto m.volumes;
  isos = m.isos;
  management_vnics = map management_vnic_info_from_proto m.management_vnics;
}
