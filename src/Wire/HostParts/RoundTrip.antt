-- ===== src/Wire/HostParts/RoundTrip.antt =====
-- What is observed of the parts of a host that is sent and read back (api/proto/convert.go).
use hyperv_control_plane.Prelude.{◌≡◌, refl, Option, none, some}
use hyperv_control_plane.Wire.{IsInt32, int32_lem, AllOption, list_back_always}
use hyperv_control_plane.Wire.Library.{Library, IsDocumented, ts_from_proto-ts_to_proto}
use hyperv_control_plane.Types.HostStatus.{
  IsoLibraryStatus, WindowsLicenceStatus, VmIncompatibility, ImportableVm, ImportScanStatus,
}
use hyperv_control_plane.Wire.HostParts.{
  iso_library_status_to_proto, iso_library_status_from_proto, windows_licence_to_proto,
  windows_licence_from_proto, incompatibility_to_proto, incompatibility_from_proto,
  importable_vm_to_proto, importable_vm_from_proto, import_scan_to_proto, import_scan_from_proto,
}

pub iso_library_status_from_proto-iso_library_status_to_proto :
    {stamp : Type 0} (lib : Library stamp)
    → IsDocumented lib
    → (o : Option IsoLibraryStatus)
    → iso_library_status_from_proto lib (iso_library_status_to_proto lib o) ≡ o
unfolding iso_library_status_to_proto iso_library_status_from_proto
iso_library_status_from_proto-iso_library_status_to_proto lib doc none = refl
iso_library_status_from_proto-iso_library_status_to_proto lib doc (some s) =
    rw (ts_from_proto-ts_to_proto lib doc s.checked_at) refl

abbrev pub IsWireWindowsLicenceStatus : WindowsLicenceStatus → Type 0
IsWireWindowsLicenceStatus s = IsInt32 s.grace_days_remaining

pub windows_licence_from_proto-windows_licence_to_proto :
    (o : Option WindowsLicenceStatus)
    → AllOption IsWireWindowsLicenceStatus o
    → windows_licence_from_proto (windows_licence_to_proto o) ≡ o
unfolding windows_licence_to_proto windows_licence_from_proto
windows_licence_from_proto-windows_licence_to_proto none h = refl
windows_licence_from_proto-windows_licence_to_proto (some s) h =
    rw (int32_lem s.grace_days_remaining h) refl

pub incompatibility_from_proto-incompatibility_to_proto :
    (s : VmIncompatibility) → incompatibility_from_proto (incompatibility_to_proto s) ≡ s
unfolding incompatibility_to_proto incompatibility_from_proto
incompatibility_from_proto-incompatibility_to_proto s = refl

pub importable_vm_from_proto-importable_vm_to_proto :
    (s : ImportableVm) → importable_vm_from_proto (importable_vm_to_proto s) ≡ s
unfolding importable_vm_to_proto importable_vm_from_proto
importable_vm_from_proto-importable_vm_to_proto s =
    rw
      (list_back_always incompatibility_to_proto incompatibility_from_proto
        incompatibility_from_proto-incompatibility_to_proto s.incompatibilities)
      refl

pub import_scan_from_proto-import_scan_to_proto :
    {stamp : Type 0} (lib : Library stamp)
    → IsDocumented lib
    → (o : Option ImportScanStatus) → import_scan_from_proto lib (import_scan_to_proto lib o) ≡ o
unfolding import_scan_to_proto import_scan_from_proto
import_scan_from_proto-import_scan_to_proto lib doc none = refl
import_scan_from_proto-import_scan_to_proto lib doc (some s) =
    rw (ts_from_proto-ts_to_proto lib doc s.scanned_at) refl
