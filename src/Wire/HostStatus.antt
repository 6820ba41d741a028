-- ===== src/Wire/HostStatus.antt =====
-- A host and its status on the wire: the messages, and the conversions of
-- api/proto/convert.go to and from them.
pub mod RoundTrip
use hyperv_control_plane.Prelude.{
  ℕ, ◌≡◌, refl, sym, ap, ◌∙◌, ◌⊎◌, inl, inr, ℤ, pos, Bool, true, false, Option, none, some, List,
  [], ◌∷◌, map, All, Text, codes, text_eq, if◌then◌else◌,
}
use hyperv_control_plane.Wire.{
  int32, IsInt32, int32_lem, option_int32, map_option, AllOption, or_zero, at_constant, option_back,
  option_back_always, option_onto, list_back, list_back_always, list_onto,
}
use hyperv_control_plane.Wire.Library.{
  Codec, Library, IsDocumented, IsJson, IsWhole, ts_to_proto, ts_from_proto, created_to_proto,
  created_from_proto, marshal_observed, unmarshal_observed, marshal_list, unmarshal_list,
  ts_from_proto-ts_to_proto, created_from_proto-created_to_proto,
  unmarshal_observed-marshal_observed, unmarshal_list-marshal_list,
}
use hyperv_control_plane.Wire.Phase.{
  PhasePb, phase_pending, phase_progressing, phase_ready, phase_degraded, phase_error,
  phase_to_proto, phase_from_proto, phase_unspecified_pb, phase_pending_pb, phase_progressing_pb,
  phase_ready_pb, phase_degraded_pb, phase_error_pb,
}
use hyperv_control_plane.Types.Meta.{ObjectMeta, zero_meta, Condition, Secret, zero_secret}
use hyperv_control_plane.Types.Host.{
  zero_networking, HostStorageSpec, zero_storage, WindowsLicenceSpec, ClusterMembershipSpec,
  DomainJoinSpec, BmcSpec, ReplicaServerSpec, MaintenanceSpec, HostSpec, zero_spec,
}
use hyperv_control_plane.Types.Inventory.{
  PhysicalAdapter, PhysicalDisk, HostInventory, zero_inventory,
}
use hyperv_control_plane.Types.VmStatus.{
  VmReplicationStatus, VmIntegrationServiceState, VmObserved, ObservedVm, VmCheckpoint, VmStatus,
  zero_vm_status, Vm, zero_vm,
}
use hyperv_control_plane.Types.ClusterStatus.{
  IscsiSession, IscsiDisk, IscsiStatus, ClusterReplicaBrokerStatus, ClusterWitnessStatus,
  ClusterNetworkStatus, ClusterPoolStatus, ClusterNodeStatus, ClusterVmStatus,
  ClusterResourceStatus, ClusterGroupStatus, CsvStatus, ClusterStatus, zero_cluster_status, Cluster,
  zero_cluster,
}
use hyperv_control_plane.Types.HostStatus.{
  IsoLibraryStatus, WindowsLicenceStatus, VmIncompatibility, ImportableVm, ImportScanStatus,
  MigrationPassDisk, MigrationPassResult, HostMetrics, zero_host_metrics, StorageVolume,
  VirtualSwitchInfo, VnicAddress, ManagementVnicInfo, HostResources, zero_resources, HostStatus,
  zero_status, Host, zero_host,
}
use hyperv_control_plane.Wire.Meta.{
  ObjectMetaPb, ConditionPb, SecretPb, meta_to_proto, meta_from_proto, condition_to_proto,
  condition_from_proto, secret_to_proto, secret_from_proto,
}
use hyperv_control_plane.Wire.Host.{
  HostStorageSpecPb, HostSpecPb, storage_to_proto, storage_from_proto, spec_to_proto,
  spec_from_proto,
}
use hyperv_control_plane.Wire.Inventory.{
  PhysicalAdapterPb, PhysicalDiskPb, HostInventoryPb, physical_adapter_to_proto,
  physical_adapter_from_proto, physical_disk_to_proto, physical_disk_from_proto, inventory_to_proto,
  inventory_from_proto,
}
use hyperv_control_plane.Wire.Iscsi.{
  IscsiSessionPb, IscsiDiskPb, IscsiStatusPb, iscsi_session_to_proto, iscsi_session_from_proto,
  iscsi_disk_to_proto, iscsi_disk_from_proto, iscsi_status_to_proto, iscsi_status_from_proto,
}
use hyperv_control_plane.Wire.Resources.{
  HostMetricsPb, StorageVolumePb, VirtualSwitchInfoPb, VnicAddressPb, ManagementVnicInfoPb,
  HostResourcesPb, host_metrics_to_proto, host_metrics_from_proto, storage_volume_to_proto,
  storage_volume_from_proto, virtual_switch_info_to_proto, virtual_switch_info_from_proto,
  vnic_address_to_proto, vnic_address_from_proto, management_vnic_info_to_proto,
  management_vnic_info_from_proto, resources_to_proto, resources_from_proto,
}
use hyperv_control_plane.Wire.HostParts.{
  IsoLibraryStatusPb, WindowsLicenceStatusPb, VmIncompatibilityPb, ImportableVmPb,
  ImportScanStatusPb, iso_library_status_to_proto, iso_library_status_from_proto,
  windows_licence_to_proto, windows_licence_from_proto, incompatibility_to_proto,
  incompatibility_from_proto, importable_vm_to_proto, importable_vm_from_proto,
  import_scan_to_proto, import_scan_from_proto,
}

pub record HostStatusPb (stamp : Type 0) : Type 0 where
  pub phase : PhasePb
  pub observed_generation : ℤ  -- int64
  pub hyperv_installed : Bool
  pub computer_name : Text
  pub domain : Text
  pub cluster_node : Text
  pub cluster_service : Text
  pub cluster_node_of : Text
  pub reboot_required : Bool
  pub in_maintenance : Bool
  pub autonomous : Bool
  pub iso_library : Option (IsoLibraryStatusPb stamp)
  pub windows_licence : Option WindowsLicenceStatusPb
  pub iscsi : Option IscsiStatusPb
  pub importable_vms : List ImportableVmPb
  pub import_scan : Option (ImportScanStatusPb stamp)
  pub migration_passes : List Text
  pub agent_version : Text
  pub network_profile : Text
  pub last_contact : Option stamp
  pub inventory : Option HostInventoryPb
  pub metrics : Option HostMetricsPb
  pub resources : Option HostResourcesPb
  pub observed_vms : List Text
  pub conditions : List (ConditionPb stamp)

pub record HostPb (stamp : Type 0) : Type 0 where
  pub meta : Option (ObjectMetaPb stamp)
  pub spec : Option HostSpecPb
  pub status : Option (HostStatusPb stamp)

unfoldable pub status_to_proto : {stamp : Type 0} → Library stamp → HostStatus → HostStatusPb stamp
status_to_proto lib s = record {
  phase = phase_to_proto s.phase;
  observed_generation = s.observed_generation;
  hyperv_installed = s.hyperv_installed;
  computer_name = s.computer_name;
  domain = s.domain;
  cluster_node = s.cluster_node;
  cluster_service = s.cluster_service;
  cluster_node_of = s.cluster_node_of;
  reboot_required = s.reboot_required;
  in_maintenance = s.in_maintenance;
  autonomous = s.autonomous;
  iso_library = iso_library_status_to_proto lib s.iso_library;
  windows_licence = windows_licence_to_proto s.windows_licence;
  iscsi = map_option iscsi_status_to_proto s.iscsi;
  importable_vms = map importable_vm_to_proto s.importable_vms;
  import_scan = import_scan_to_proto lib s.import_scan;
  migration_passes = marshal_list lib.passes s.migration_passes;
  agent_version = s.agent_version;
  network_profile = s.network_profile;
  last_contact = ts_to_proto lib s.last_contact;
  inventory = some (inventory_to_proto s.inventory);
  metrics = some (host_metrics_to_proto s.metrics);
  resources = some (resources_to_proto s.resources);
  observed_vms = marshal_list lib.vms s.observed_vms;
  conditions = map (condition_to_proto lib) s.conditions;
}

unfoldable pub status_from_proto :
    {stamp : Type 0} → Library stamp → Option (HostStatusPb stamp) → HostStatus
status_from_proto lib none = zero_status
status_from_proto lib (some m) = record {
  phase = phase_from_proto m.phase;
  observed_generation = m.observed_generation;
  hyperv_installed = m.hyperv_installed;
  computer_name = m.computer_name;
  domain = m.domain;
  cluster_node = m.cluster_node;
  cluster_service = m.cluster_service;
  cluster_node_of = m.cluster_node_of;
  reboot_required = m.reboot_required;
  in_maintenance = m.in_maintenance;
  autonomous = m.autonomous;
  iso_library = iso_library_status_from_proto lib m.iso_library;
  windows_licence = windows_licence_from_proto m.windows_licence;
  iscsi = map_option iscsi_status_from_proto m.iscsi;
  importable_vms = map importable_vm_from_proto m.importable_vms;
  import_scan = import_scan_from_proto lib m.import_scan;
  migration_passes = unmarshal_list lib.passes m.migration_passes;
  agent_version = m.agent_version;
  network_profile = m.network_profile;
  last_contact = ts_from_proto lib m.last_contact;
  observed_at = 0;
  inventory = inventory_from_proto m.inventory;
  metrics = or_zero zero_host_metrics host_metrics_from_proto m.metrics;
  resources = resources_from_proto m.resources;
  observed_vms = unmarshal_list lib.vms m.observed_vms;
  conditions = map (condition_from_proto lib) m.conditions;
}

unfoldable pub host_to_proto : {stamp : Type 0} → Library stamp → Host → HostPb stamp
host_to_proto lib s = record {
  meta = some (meta_to_proto lib s.meta);
  spec = some (spec_to_proto s.spec);
  status = some (status_to_proto lib s.status);
}

unfoldable pub host_from_proto : {stamp : Type 0} → Library stamp → Option (HostPb stamp) → Host
host_from_proto lib none = zero_host
host_from_proto lib (some m) = record {
  meta = meta_from_proto lib m.meta;
  spec = spec_from_proto m.spec;
  status = status_from_proto lib m.status;
}
