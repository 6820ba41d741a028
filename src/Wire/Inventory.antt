-- ===== src/Wire/Inventory.antt =====
-- The inventory of a host on the wire: the messages, and the conversions of
-- api/proto/convert.go to and from them.
pub mod RoundTrip
use hyperv_control_plane.Prelude.{
  ℕ, ◌≡◌, refl, sym, ap, ◌∙◌, ◌⊎◌, inl, inr, ℤ, pos, Bool, true, false, Option, none, some, List,
  [], ◌∷◌, map, All, Text, codes, text_eq, if◌then◌else◌,
}
use hyperv_control_plane.Wire.{
  int32, IsInt32, int32_lem, option_int32, map_option, AllOption, or_zero, at_constant, option_back,
  option_back_always, option_onto, list_back, list_back_always, list_onto,
}
use hyperv_control_plane.Types.Inventory.{
  PhysicalAdapter, PhysicalDisk, HostInventory, zero_inventory,
}

pub record PhysicalAdapterPb : Type 0 where
  pub name : Text
  pub mac : Text
  pub link_speed_bps : ℕ
  pub up : Bool
  pub is_management : Bool
  pub ipv4 : Text
  pub dns_servers : List Text
  pub registers_dns : Bool
  pub gateway : Text
  pub prefix_length : ℤ  -- int32
  pub any_ipv4 : Text
  pub mtu_bytes : ℤ  -- int32
  pub jumbo_keyword : Text
  pub jumbo_values : List Text
  pub jumbo_setting : Text
  pub rsc_enabled : Bool
  pub lso_enabled : Bool

pub record PhysicalDiskPb : Type 0 where
  pub device_id : Text
  pub unique_id : Text
  pub bus_type : Text
  pub size_bytes : ℕ
  pub media_type : Text
  pub can_pool : Bool
  pub is_os_disk : Bool
  pub partition_style : Text
  pub allocated_bytes : ℕ
  pub largest_free_extent_bytes : ℕ
  pub layout_known : Bool
  pub drive_letter : Text
  pub pool_name : Text
  pub cannot_pool_reason : Text
  pub usage : Text

pub record HostInventoryPb : Type 0 where
  pub physical_adapters : List PhysicalAdapterPb
  pub physical_disks : List PhysicalDiskPb
  pub total_memory_bytes : ℕ
  pub logical_cpus : ℤ  -- int32
  pub os_version : Text
  pub used_drive_letters : List Text
  pub manufacturer : Text
  pub model : Text
  pub cpu_model : Text
  pub cpu_max_mhz : ℤ  -- int32
  pub cpu_cores : ℤ  -- int32

unfoldable pub physical_adapter_to_proto : PhysicalAdapter → PhysicalAdapterPb
physical_adapter_to_proto s = record {
  name = s.name;
  mac = s.mac;
  link_speed_bps = s.link_speed_bps;
  up = s.up;
  is_management = s.is_management;
  ipv4 = s.ipv4;
  dns_servers = s.dns_servers;
  registers_dns = s.registers_dns;
  gateway = s.gateway;
  prefix_length = int32 s.prefix_length;
  any_ipv4 = s.any_ipv4;
  mtu_bytes = int32 s.mtu_bytes;
  jumbo_keyword = s.jumbo_keyword;
  jumbo_values = s.jumbo_values;
  jumbo_setting = s.jumbo_setting;
  rsc_enabled = s.rsc_enabled;
  lso_enabled = s.lso_enabled;
}

unfoldable pub physical_adapter_from_proto : PhysicalAdapterPb → PhysicalAdapter
physical_adapter_from_proto m = record {
  name = m.name;
  mac = m.mac;
  link_speed_bps = m.link_speed_bps;
  up = m.up;
  is_management = m.is_management;
  ipv4 = m.ipv4;
  dns_servers = m.dns_servers;
  registers_dns = m.registers_dns;
  gateway = m.gateway;
  prefix_length = m.prefix_length;
  any_ipv4 = m.any_ipv4;
  mtu_bytes = m.mtu_bytes;
  jumbo_keyword = m.jumbo_keyword;
  jumbo_values = m.jumbo_values;
  jumbo_setting = m.jumbo_setting;
  rsc_enabled = m.rsc_enabled;
  lso_enabled = m.lso_enabled;
}

unfoldable pub physical_disk_to_proto : PhysicalDisk → PhysicalDiskPb
physical_disk_to_proto s = record {
  device_id = s.device_id;
  unique_id = s.unique_id;
  bus_type = s.bus_type;
  size_bytes = s.size_bytes;
  media_type = s.media_type;
  can_pool = s.can_pool;
  is_os_disk = s.is_os_disk;
  partition_style = s.partition_style;
  allocated_bytes = s.allocated_bytes;
  largest_free_extent_bytes = s.largest_free_extent_bytes;
  layout_known = s.layout_known;
  drive_letter = s.drive_letter;
  pool_name = s.pool_name;
  cannot_pool_reason = s.cannot_pool_reason;
  usage = s.usage;
}

unfoldable pub physical_disk_from_proto : PhysicalDiskPb → PhysicalDisk
physical_disk_from_proto m = record {
  device_id = m.device_id;
  unique_id = m.unique_id;
  bus_type = m.bus_type;
  size_bytes = m.size_bytes;
  media_type = m.media_type;
  can_pool = m.can_pool;
  is_os_disk = m.is_os_disk;
  partition_style = m.partition_style;
  allocated_bytes = m.allocated_bytes;
  largest_free_extent_bytes = m.largest_free_extent_bytes;
  layout_known = m.layout_known;
  drive_letter = m.drive_letter;
  pool_name = m.pool_name;
  cannot_pool_reason = m.cannot_pool_reason;
  usage = m.usage;
}

unfoldable pub inventory_to_proto : HostInventory → HostInventoryPb
inventory_to_proto s = record {
  physical_adapters = map physical_adapter_to_proto s.physical_adapters;
  physical_disks = map physical_disk_to_proto s.physical_disks;
  total_memory_bytes = s.total_memory_bytes;
  logical_cpus = int32 s.logical_cpus;
  os_version = s.os_version;
  used_drive_letters = s.used_drive_letters;
  manufacturer = s.manufacturer;
  model = s.model;
  cpu_model = s.cpu_model;
  cpu_max_mhz = int32 s.cpu_max_mhz;
  cpu_cores = int32 s.cpu_cores;
}

unfoldable pub inventory_from_proto : Option HostInventoryPb → HostInventory
inventory_from_proto none = zero_inventory
inventory_from_proto (some m) = record {
  physical_adapters = map physical_adapter_from_proto m.physical_adapters;
  physical_disks = map physical_disk_from_proto m.physical_disks;
  total_memory_bytes = m.total_memory_bytes;
  logical_cpus = m.logical_cpus;
  os_version = m.os_version;
  used_drive_letters = m.used_drive_letters;
  manufacturer = m.manufacturer;
  model = m.model;
  cpu_model = m.cpu_model;
  cpu_max_mhz = m.cpu_max_mhz;
  cpu_cores = m.cpu_cores;
}
