-- ===== src/Types/HostStatus.antt =====
-- The status of a host, and the host (api/types/desiredstate.go, migrationrun.go).
use hyperv_control_plane.Prelude.{ℕ, ℤ, pos, Bool, false, Option, none, List, [], Text}
use hyperv_control_plane.Types.Meta.{ObjectMeta, zero_meta, Condition}
use hyperv_control_plane.Types.VmStatus.{ObservedVm}
use hyperv_control_plane.Types.ClusterStatus.{IscsiStatus}
use hyperv_control_plane.Types.Host.{HostSpec, zero_spec}
use hyperv_control_plane.Types.Inventory.{HostInventory, zero_inventory}

pub record IsoLibraryStatus : Type 0 where
  pub path : Text
  pub readable : Bool
  pub machine_readable : Option Bool
  pub message : Text
  pub isos : List Text
  pub checked_at : ℕ

pub record WindowsLicenceStatus : Type 0 where
  pub edition : Text
  pub description : Text
  pub evaluation : Bool
  pub status : Text
  pub grace_days_remaining : ℤ  -- int
  pub channel : Text
  pub partial_product_key : Text
  pub kms_server : Text
  pub target_editions : List Text
  pub message : Text

pub record VmIncompatibility : Type 0 where
  pub code : ℤ  -- int32
  pub message : Text
  pub kind : Text
  pub remedy : Text
  pub fixable : Bool

pub record ImportableVm : Type 0 where
  pub name : Text
  pub id : Text
  pub config_path : Text
  pub volume : Text
  pub generation : ℤ  -- int32
  pub processor_count : ℤ  -- int32
  pub memory_startup_bytes : ℤ  -- int64
  pub size_bytes : ℤ  -- int64
  pub saved_state : Bool
  pub registered_elsewhere : Bool
  pub registered_on : Text
  pub in_use_elsewhere : Bool
  pub incompatibilities : List VmIncompatibility
  pub compatible : Bool
  pub compat_known : Bool
  pub error : Text

pub record ImportScanStatus : Type 0 where
  pub roots : List Text
  pub scanned_at : ℕ
  pub elapsed_ms : ℤ  -- int64
  pub truncated : Bool
  pub message : Text

pub record MigrationPassDisk : Type 0 where
  pub key : ℤ  -- int32
  pub label : Text
  pub source_path : Text
  pub dest_path : Text
  pub size_bytes : ℤ  -- int64
  pub copied_bytes : ℤ  -- int64
  pub next_change_id : Text

pub record MigrationPassResult : Type 0 where
  pub migration : Text
  pub job_id : Text
  pub in_progress : Bool
  pub final : Bool
  pub source_powered_off : Bool
  pub full_read : Bool
  pub disks : List MigrationPassDisk
  pub copied_bytes : ℤ  -- int64
  pub started_at : ℕ
  pub finished_at : ℕ

pub record HostMetrics : Type 0 where
  pub cpu_usage_percent : ℤ  -- int
  pub memory_in_use_bytes : ℕ
  pub uptime_seconds : ℤ  -- int64

abbrev pub zero_host_metrics : HostMetrics
zero_host_metrics = record {
  cpu_usage_percent = pos 0;
  memory_in_use_bytes = 0;
  uptime_seconds = pos 0;
}

pub record StorageVolume : Type 0 where
  pub name : Text
  pub path : Text
  pub size_bytes : ℕ
  pub used_bytes : ℕ
  pub shared : Bool
  pub unlettered : Bool
  pub disk_unique_id : Text
  pub shares_disk_with_os : Bool

pub record VirtualSwitchInfo : Type 0 where
  pub name : Text
  pub net_adapters : List Text
  pub allow_management_os : Bool
  pub vlan_id : ℤ  -- int

pub record VnicAddress : Type 0 where
  pub address : Text
  pub kind : Text

pub record ManagementVnicInfo : Type 0 where
  pub name : Text
  pub switch_name : Text
  pub vlan_id : ℤ  -- int
  pub dns_servers : List Text
  pub profile : Text
  pub addresses : List VnicAddress
  pub gateway : Text
  pub lso_enabled : Bool
  pub mtu_bytes : ℤ  -- int

pub record HostResources : Type 0 where
  pub switches : List Text
  pub switch_details : List VirtualSwitchInfo
  pub volumes : List StorageVolume
  pub isos : List Text
  pub management_vnics : List ManagementVnicInfo

abbrev pub zero_resources : HostResources
zero_resources = record {
  switches = [];
  switch_details = [];
  volumes = [];
  isos = [];
  management_vnics = [];
}

pub record HostStatus : Type 0 where
  pub phase : Text
  pub observed_generation : ℤ  -- int64
  pub hyperv_installed : Bool
  pub computer_name : Text
  pub domain : Text
  pub cluster_node : Text
  pub cluster_service : Text
  pub cluster_node_of : Text
  pub reboot_required : Bool
  pub in_maintenance : Bool
  pub autonomous : Bool
  pub iso_library : Option IsoLibraryStatus
  pub windows_licence : Option WindowsLicenceStatus
  pub iscsi : Option IscsiStatus
  pub importable_vms : List ImportableVm
  pub import_scan : Option ImportScanStatus
  pub migration_passes : List MigrationPassResult
  pub agent_version : Text
  pub network_profile : Text
  pub last_contact : ℕ
  pub observed_at : ℕ
  pub inventory : HostInventory
  pub metrics : HostMetrics
  pub resources : HostResources
  pub observed_vms : List ObservedVm
  pub conditions : List Condition

abbrev pub zero_status : HostStatus
zero_status = record {
  phase = [];
  observed_generation = pos 0;
  hyperv_installed = false;
  computer_name = [];
  domain = [];
  cluster_node = [];
  cluster_service = [];
  cluster_node_of = [];
  reboot_required = false;
  in_maintenance = false;
  autonomous = false;
  iso_library = none;
  windows_licence = none;
  iscsi = none;
  importable_vms = [];
  import_scan = none;
  migration_passes = [];
  agent_version = [];
  network_profile = [];
  last_contact = 0;
  observed_at = 0;
  inventory = zero_inventory;
  metrics = zero_host_metrics;
  resources = zero_resources;
  observed_vms = [];
  conditions = [];
}

pub record Host : Type 0 where
  pub meta : ObjectMeta
  pub spec : HostSpec
  pub status : HostStatus

abbrev pub zero_host : Host
zero_host = record { meta = zero_meta; spec = zero_spec; status = zero_status }
