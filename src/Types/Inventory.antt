-- ===== src/Types/Inventory.antt =====
-- The inventory of a host (api/types/desiredstate.go).
use hyperv_control_plane.Prelude.{ℕ, ℤ, pos, Bool, List, [], Text}

pub record PhysicalAdapter : Type 0 where
  pub name : Text
  pub mac : Text
  pub link_speed_bps : ℕ
  pub up : Bool
  pub is_management : Bool
  pub ipv4 : Text
  pub dns_servers : List Text
  pub registers_dns : Bool
  pub gateway : Text
  pub prefix_length : ℤ  -- int
  pub any_ipv4 : Text
  pub mtu_bytes : ℤ  -- int
  pub jumbo_keyword : Text
  pub jumbo_values : List Text
  pub jumbo_setting : Text
  pub rsc_enabled : Bool
  pub lso_enabled : Bool

pub record PhysicalDisk : Type 0 where
  pub device_id : Text
  pub unique_id : Text
  pub bus_type : Text
  pub size_bytes : ℕ
  pub media_type : Text
  pub can_pool : Bool
  pub is_os_disk : Bool
  pub partition_style : Text
  pub allocated_bytes : ℕ
  pub largest_free_extent_bytes : ℕ
  pub layout_known : Bool
  pub drive_letter : Text
  pub pool_name : Text
  pub cannot_pool_reason : Text
  pub usage : Text

pub record HostInventory : Type 0 where
  pub physical_adapters : List PhysicalAdapter
  pub physical_disks : List PhysicalDisk
  pub total_memory_bytes : ℕ
  pub logical_cpus : ℤ  -- int
  pub os_version : Text
  pub used_drive_letters : List Text
  pub manufacturer : Text
  pub model : Text
  pub cpu_model : Text
  pub cpu_max_mhz : ℤ  -- int
  pub cpu_cores : ℤ  -- int

abbrev pub zero_inventory : HostInventory
zero_inventory = record {
  physical_adapters = [];
  physical_disks = [];
  total_memory_bytes = 0;
  logical_cpus = pos 0;
  os_version = [];
  used_drive_letters = [];
  manufacturer = [];
  model = [];
  cpu_model = [];
  cpu_max_mhz = pos 0;
  cpu_cores = pos 0;
}
