-- ===== src/Wire/HostParts.antt =====
-- What is observed of the parts of a host on the wire: the messages, and the conversions of
-- api/proto/convert.go to and from them.
pub mod RoundTrip
use hyperv_control_plane.Prelude.{
  ℕ, ◌≡◌, refl, sym, ap, ◌∙◌, ◌⊎◌, inl, inr, ℤ, pos, Bool, true, false, Option, none, some, List,
  [], ◌∷◌, map, All, Text, codes, text_eq, if◌then◌else◌,
}
use hyperv_control_plane.Wire.{
  int32, IsInt32, int32_lem, option_int32, map_option, AllOption, or_zero, at_constant, option_back,
  option_back_always, option_onto, list_back, list_back_always, list_onto,
}
use hyperv_control_plane.Wire.Library.{
  Codec, Library, IsDocumented, IsJson, IsWhole, ts_to_proto, ts_from_proto, created_to_proto,
  created_from_proto, marshal_observed, unmarshal_observed, marshal_list, unmarshal_list,
  ts_from_proto-ts_to_proto, created_from_proto-created_to_proto,
  unmarshal_observed-marshal_observed, unmarshal_list-marshal_list,
}
use hyperv_control_plane.Types.HostStatus.{
  IsoLibraryStatus, WindowsLicenceStatus, VmIncompatibility, ImportableVm, ImportScanStatus,
  MigrationPassDisk, MigrationPassResult, HostMetrics, zero_host_metrics, StorageVolume,
  VirtualSwitchInfo, VnicAddress, ManagementVnicInfo, HostResources, zero_resources, HostStatus,
  zero_status, Host, zero_host,
}

pub record IsoLibraryStatusPb (stamp : Type 0) : Type 0 where
  pub path : Text
  pub readable : Bool
  pub machine_readable : Option Bool
  pub message : Text
  pub isos : List Text
  pub checked_at : Option stamp

pub record WindowsLicenceStatusPb : Type 0 where
  pub edition : Text
  pub description : Text
  pub evaluation : Bool
  pub status : Text
  pub grace_days_remaining : ℤ  -- int32
  pub channel : Text
  pub partial_product_key : Text
  pub kms_server : Text
  pub target_editions : List Text
  pub message : Text

pub record VmIncompatibilityPb : Type 0 where
  pub code : ℤ  -- int32
  pub message : Text
  pub kind : Text
  pub remedy : Text
  pub fixable : Bool

pub record ImportableVmPb : Type 0 where
  pub name : Text
  pub id : Text
  pub config_path : Text
  pub volume : Text
  pub generation : ℤ  -- int32
  pub processor_count : ℤ  -- int32
  pub memory_startup_bytes : ℤ  -- int64
  pub size_bytes : ℤ  -- int64
  pub saved_state : Bool
  pub registered_elsewhere : Bool
  pub registered_on : Text
  pub in_use_elsewhere : Bool
  pub incompatibilities : List VmIncompatibilityPb
  pub compatible : Bool
  pub compat_known : Bool
  pub error : Text

pub record ImportScanStatusPb (stamp : Type 0) : Type 0 where
  pub roots : List Text
  pub scanned_at : Option stamp
  pub elapsed_ms : ℤ  -- int64
  pub truncated : Bool
  pub message : Text

unfoldable pub iso_library_status_to_proto :
    {stamp : Type 0} → Library stamp → Option IsoLibraryStatus → Option (IsoLibraryStatusPb stamp)
iso_library_status_to_proto lib none = none
iso_library_status_to_proto lib (some s) = some (record {
  path = s.path;
  readable = s.readable;
  machine_readable = s.machine_readable;
  message = s.message;
  isos = s.isos;
  checked_at = ts_to_proto lib s.checked_at;
})

unfoldable pub iso_library_status_from_proto :
    {stamp : Type 0} → Library stamp → Option (IsoLibraryStatusPb stamp) → Option IsoLibraryStatus
iso_library_status_from_proto lib none = none
iso_library_status_from_proto lib (some m) = some (record {
  path = m.path;
  readable = m.readable;
  machine_readable = m.machine_readable;
  message = m.message;
  isos = m.isos;
  checked_at = ts_from_proto lib m.checked_at;
})

unfoldable pub windows_licence_to_proto :
    Option WindowsLicenceStatus → Option WindowsLicenceStatusPb
windows_licence_to_proto none = none
windows_licence_to_proto (some s) = some (record {
  edition = s.edition;
  description = s.description;
  evaluation = s.evaluation;
  status = s.status;
  grace_days_remaining = int32 s.grace_days_remaining;
  channel = s.channel;
  partial_product_key = s.partial_product_key;
  kms_server = s.kms_server;
  target_editions = s.target_editions;
  message = s.message;
})

unfoldable pub windows_licence_from_proto :
    Option WindowsLicenceStatusPb → Option WindowsLicenceStatus
windows_licence_from_proto none = none
windows_licence_from_proto (some m) = some (record {
  edition = m.edition;
  description = m.description;
  evaluation = m.evaluation;
  status = m.status;
  grace_days_remaining = m.grace_days_remaining;
  channel = m.channel;
  partial_product_key = m.partial_product_key;
  kms_server = m.kms_server;
  target_editions = m.target_editions;
  message = m.message;
})

unfoldable pub incompatibility_to_proto : VmIncompatibility → VmIncompatibilityPb
incompatibility_to_proto s = record {
  code = s.code;
  message = s.message;
  kind = s.kind;
  remedy = s.remedy;
  fixable = s.fixable;
}

unfoldable pub incompatibility_from_proto : VmIncompatibilityPb → VmIncompatibility
incompatibility_from_proto m = record {
  code = m.code;
  message = m.message;
  kind = m.kind;
  remedy = m.remedy;
  fixable = m.fixable;
}

unfoldable pub importable_vm_to_proto : ImportableVm → ImportableVmPb
importable_vm_to_proto s = record {
  name = s.name;
  id = s.id;
  config_path = s.config_path;
  volume = s.volume;
  generation = s.generation;
  processor_count = s.processor_count;
  memory_startup_bytes = s.memory_startup_bytes;
  size_bytes = s.size_bytes;
  saved_state = s.saved_state;
  registered_elsewhere = s.registered_elsewhere;
  registered_on = s.registered_on;
  in_use_elsewhere = s.in_use_elsewhere;
  incompatibilities = map incompatibility_to_proto s.incompatibilities;
  compatible = s.compatible;
  compat_known = s.compat_known;
  error = s.error;
}

unfoldable pub importable_vm_from_proto : ImportableVmPb → ImportableVm
importable_vm_from_proto m = record {
  name = m.name;
  id = m.id;
  config_path = m.config_path;
  volume = m.volume;
  generation = m.generation;
  processor_count = m.processor_count;
  memory_startup_bytes = m.memory_startup_bytes;
  size_bytes = m.size_bytes;
  saved_state = m.saved_state;
  registered_elsewhere = m.registered_elsewhere;
  registered_on = m.registered_on;
  in_use_elsewhere = m.in_use_elsewhere;
  incompatibilities = map incompatibility_from_proto m.incompatibilities;
  compatible = m.compatible;
  compat_known = m.compat_known;
  error = m.error;
}

unfoldable pub import_scan_to_proto :
    {stamp : Type 0} → Library stamp → Option ImportScanStatus → Option (ImportScanStatusPb stamp)
import_scan_to_proto lib none = none
import_scan_to_proto lib (some s) = some (record {
  roots = s.roots;
  scanned_at = ts_to_proto lib s.scanned_at;
  elapsed_ms = s.elapsed_ms;
  truncated = s.truncated;
  message = s.message;
})

unfoldable pub import_scan_from_proto :
    {stamp : Type 0} → Library stamp → Option (ImportScanStatusPb stamp) → Option ImportScanStatus
import_scan_from_proto lib none = none
import_scan_from_proto lib (some m) = some (record {
  roots = m.roots;
  scanned_at = ts_from_proto lib m.scanned_at;
  elapsed_ms = m.elapsed_ms;
  truncated = m.truncated;
  message = m.message;
})
