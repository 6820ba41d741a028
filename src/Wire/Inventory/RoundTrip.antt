-- ===== src/Wire/Inventory/RoundTrip.antt =====
-- The inventory of a host that is sent and read back (api/proto/convert.go).
use hyperv_control_plane.Prelude.{◌≡◌, refl, some, All}
use hyperv_control_plane.Wire.{IsInt32, int32_lem, list_back, list_back_always}
use hyperv_control_plane.Types.Inventory.{PhysicalAdapter, PhysicalDisk, HostInventory}
use hyperv_control_plane.Wire.Inventory.{
  physical_adapter_to_proto, physical_adapter_from_proto, physical_disk_to_proto,
  physical_disk_from_proto, inventory_to_proto, inventory_from_proto,
}

abbrev pub IsWirePhysicalAdapter : PhysicalAdapter → Type 0
IsWirePhysicalAdapter s = (IsInt32 s.prefix_length) × (IsInt32 s.mtu_bytes)

pub physical_adapter_from_proto-physical_adapter_to_proto :
    (s : PhysicalAdapter)
    → IsWirePhysicalAdapter s
    → physical_adapter_from_proto (physical_adapter_to_proto s) ≡ s
unfolding physical_adapter_to_proto physical_adapter_from_proto
physical_adapter_from_proto-physical_adapter_to_proto s h =
    rw (int32_lem s.prefix_length h.0, int32_lem s.mtu_bytes h.1) refl

pub physical_disk_from_proto-physical_disk_to_proto :
    (s : PhysicalDisk) → physical_disk_from_proto (physical_disk_to_proto s) ≡ s
unfolding physical_disk_to_proto physical_disk_from_proto
physical_disk_from_proto-physical_disk_to_proto s = refl

abbrev pub IsWireHostInventory : HostInventory → Type 0
IsWireHostInventory s =
    (All IsWirePhysicalAdapter s.physical_adapters)
    × (IsInt32 s.logical_cpus)
    × (IsInt32 s.cpu_max_mhz)
    × (IsInt32 s.cpu_cores)

-- A host's inventory is read as it was sent, where the numbers sent as int32 fit one.
pub inventory_from_proto-inventory_to_proto :
    (s : HostInventory)
    → IsWireHostInventory s
    → inventory_from_proto (some (inventory_to_proto s)) ≡ s
unfolding inventory_to_proto inventory_from_proto
inventory_from_proto-inventory_to_proto s h =
    rw
      (
        list_back IsWirePhysicalAdapter physical_adapter_to_proto physical_adapter_from_proto
            physical_adapter_from_proto-physical_adapter_to_proto s.physical_adapters h.0,
        list_back_always physical_disk_to_proto physical_disk_from_proto
            physical_disk_from_proto-physical_disk_to_proto s.physical_disks,
        int32_lem s.logical_cpus h.1,
        int32_lem s.cpu_max_mhz h.2,
        int32_lem s.cpu_cores h.3,
      )
      refl
