-- ===== src/Wire/HostStatus/RoundTrip.antt =====
-- A host and its status that is sent and read back (api/proto/convert.go).
use hyperv_control_plane.Prelude.{◌≡◌, refl, some, All}
use hyperv_control_plane.Wire.{AllOption, option_back, list_back_always}
use hyperv_control_plane.Wire.Library.{
  Library, IsDocumented, IsJson, ts_from_proto-ts_to_proto, unmarshal_list-marshal_list,
}
use hyperv_control_plane.Wire.Phase.RoundTrip.{IsPhase, phase_from_proto-phase_to_proto}
use hyperv_control_plane.Types.HostStatus.{HostStatus, Host}
use hyperv_control_plane.Wire.Meta.{condition_to_proto, condition_from_proto}
use hyperv_control_plane.Wire.Meta.RoundTrip.{
  meta_on_wire, meta_from_proto-meta_to_proto, condition_from_proto-condition_to_proto,
}
use hyperv_control_plane.Wire.Host.RoundTrip.{
  spec_on_wire, IsWireHostSpec, spec_from_proto-spec_to_proto,
}
use hyperv_control_plane.Wire.Inventory.RoundTrip.{
  IsWireHostInventory, inventory_from_proto-inventory_to_proto,
}
use hyperv_control_plane.Wire.Iscsi.{iscsi_status_to_proto, iscsi_status_from_proto}
use hyperv_control_plane.Wire.Iscsi.RoundTrip.{
  IsWireIscsiStatus, iscsi_status_from_proto-iscsi_status_to_proto,
}
use hyperv_control_plane.Wire.Resources.RoundTrip.{
  IsWireHostMetrics, host_metrics_from_proto-host_metrics_to_proto, IsWireHostResources,
  resources_from_proto-resources_to_proto,
}
use hyperv_control_plane.Wire.HostParts.{importable_vm_to_proto, importable_vm_from_proto}
use hyperv_control_plane.Wire.HostParts.RoundTrip.{
  iso_library_status_from_proto-iso_library_status_to_proto, IsWireWindowsLicenceStatus,
  windows_licence_from_proto-windows_licence_to_proto,
  importable_vm_from_proto-importable_vm_to_proto, import_scan_from_proto-import_scan_to_proto,
}
use hyperv_control_plane.Wire.HostStatus.{
  status_to_proto, status_from_proto, host_to_proto, host_from_proto,
}

-- What is left of one without the fields that are not sent.
abbrev pub status_on_wire : HostStatus → HostStatus
status_on_wire s = record s { observed_at = 0 }

abbrev pub IsWireHostStatus : {stamp : Type 0} → Library stamp → HostStatus → Type 0
IsWireHostStatus lib s =
    (IsPhase s.phase)
    × (AllOption IsWireWindowsLicenceStatus s.windows_licence)
    × (AllOption IsWireIscsiStatus s.iscsi)
    × (All (IsJson lib.passes) s.migration_passes)
    × (IsWireHostInventory s.inventory)
    × (IsWireHostMetrics s.metrics)
    × (IsWireHostResources s.resources)
    × (All (IsJson lib.vms) s.observed_vms)

pub status_from_proto-status_to_proto :
    {stamp : Type 0} (lib : Library stamp)
    → IsDocumented lib
    → (s : HostStatus) → IsWireHostStatus lib s
    → status_from_proto lib (some (status_to_proto lib s)) ≡ status_on_wire s
unfolding status_to_proto status_from_proto
status_from_proto-status_to_proto lib doc s h =
    rw
      (
        phase_from_proto-phase_to_proto s.phase h.0,
        iso_library_status_from_proto-iso_library_status_to_proto lib doc s.iso_library,
        windows_licence_from_proto-windows_licence_to_proto s.windows_licence h.1,
        option_back IsWireIscsiStatus iscsi_status_to_proto iscsi_status_from_proto
            iscsi_status_from_proto-iscsi_status_to_proto s.iscsi h.2,
        list_back_always importable_vm_to_proto importable_vm_from_proto
            importable_vm_from_proto-importable_vm_to_proto s.importable_vms,
        import_scan_from_proto-import_scan_to_proto lib doc s.import_scan,
        unmarshal_list-marshal_list lib.passes s.migration_passes h.3,
        ts_from_proto-ts_to_proto lib doc s.last_contact,
        inventory_from_proto-inventory_to_proto s.inventory h.4,
        host_metrics_from_proto-host_metrics_to_proto s.metrics h.5,
        resources_from_proto-resources_to_proto s.resources h.6,
        unmarshal_list-marshal_list lib.vms s.observed_vms h.7,
        list_back_always (condition_to_proto lib) (condition_from_proto lib)
            (condition_from_proto-condition_to_proto lib doc) s.conditions,
      )
      refl

-- What is left of one without the fields that are not sent.
abbrev pub host_on_wire : Host → Host
host_on_wire s = record s {
  meta = meta_on_wire s.meta;
  spec = spec_on_wire s.spec;
  status = status_on_wire s.status;
}

abbrev pub IsWireHost : {stamp : Type 0} → Library stamp → Host → Type 0
IsWireHost lib s = (IsWireHostSpec s.spec) × (IsWireHostStatus lib s.status)

-- A host is read as it was sent, but for what is not sent: its annotations, the target editions of its
-- licence and the time at which it was observed. Given what is documented of the libraries, where the
-- numbers sent as int32 fit one, the constants are empty or have a number, and what is sent as JSON
-- is read back as it was.
pub host_from_proto-host_to_proto :
    {stamp : Type 0} (lib : Library stamp)
    → IsDocumented lib
    → (s : Host) → IsWireHost lib s
    → host_from_proto lib (some (host_to_proto lib s)) ≡ host_on_wire s
unfolding host_to_proto host_from_proto
host_from_proto-host_to_proto lib doc s h =
    rw
      (
        meta_from_proto-meta_to_proto lib doc s.meta,
        spec_from_proto-spec_to_proto s.spec h.0,
        status_from_proto-status_to_proto lib doc s.status h.1,
      )
      refl
