-- ===== src/Wire/Iscsi.antt =====
-- The iSCSI connections of a node on the wire: the messages, and the conversions of
-- api/proto/convert.go to and from them.
pub mod RoundTrip
use hyperv_control_plane.Prelude.{
  ℕ, ◌≡◌, refl, sym, ap, ◌∙◌, ◌⊎◌, inl, inr, ℤ, pos, Bool, true, false, Option, none, some, List,
  [], ◌∷◌, map, All, Text, codes, text_eq, if◌then◌else◌,
}
use hyperv_control_plane.Wire.{
  int32, IsInt32, int32_lem, option_int32, map_option, AllOption, or_zero, at_constant, option_back,
  option_back_always, option_onto, list_back, list_back_always, list_onto,
}
use hyperv_control_plane.Types.ClusterStatus.{
  IscsiSession, IscsiDisk, IscsiStatus, ClusterReplicaBrokerStatus, ClusterWitnessStatus,
  ClusterNetworkStatus, ClusterPoolStatus, ClusterNodeStatus, ClusterVmStatus,
  ClusterResourceStatus, ClusterGroupStatus, CsvStatus, ClusterStatus, zero_cluster_status, Cluster,
  zero_cluster,
}

pub record IscsiSessionPb : Type 0 where
  pub target_iqn : Text
  pub connected : Bool
  pub persistent : Bool
  pub paths : ℤ  -- int32

pub record IscsiDiskPb : Type 0 where
  pub serial_number : Text
  pub number : ℤ  -- int32
  pub size_bytes : ℕ
  pub target_iqn : Text
  pub lun : ℤ  -- int32
  pub clustered : Bool
  pub offline : Bool
  pub contents : Text
  pub contents_known : Bool

pub record IscsiStatusPb : Type 0 where
  pub node : Text
  pub initiator_iqn : Text
  pub service_running : Bool
  pub portals : List Text
  pub sessions : List IscsiSessionPb
  pub mpio_installed : Bool
  pub mpio_effective : Bool
  pub disks : List IscsiDiskPb
  pub message : Text

unfoldable pub iscsi_session_to_proto : IscsiSession → IscsiSessionPb
iscsi_session_to_proto s = record {
  target_iqn = s.target_iqn;
  connected = s.connected;
  persistent = s.persistent;
  paths = int32 s.paths;
}

unfoldable pub iscsi_session_from_proto : IscsiSessionPb → IscsiSession
iscsi_session_from_proto m = record {
  target_iqn = m.target_iqn;
  connected = m.connected;
  persistent = m.persistent;
  paths = m.paths;
}

unfoldable pub iscsi_disk_to_proto : IscsiDisk → IscsiDiskPb
iscsi_disk_to_proto s = record {
  serial_number = s.serial_number;
  number = int32 s.number;
  size_bytes = s.size_bytes;
  target_iqn = s.target_iqn;
  lun = int32 s.lun;
  clustered = s.clustered;
  offline = s.offline;
  contents = s.contents;
  contents_known = s.contents_known;
}

unfoldable pub iscsi_disk_from_proto : IscsiDiskPb → IscsiDisk
iscsi_disk_from_proto m = record {
  serial_number = m.serial_number;
  number = m.number;
  size_bytes = m.size_bytes;
  target_iqn = m.target_iqn;
  lun = m.lun;
  clustered = m.clustered;
  offline = m.offline;
  contents = m.contents;
  contents_known = m.contents_known;
}

unfoldable pub iscsi_status_to_proto : IscsiStatus → IscsiStatusPb
iscsi_status_to_proto s = record {
  node = s.node;
  initiator_iqn = s.initiator_iqn;
  service_running = s.service_running;
  portals = s.portals;
  sessions = map iscsi_session_to_proto s.sessions;
  mpio_installed = s.mpio_installed;
  mpio_effective = s.mpio_effective;
  disks = map iscsi_disk_to_proto s.disks;
  message = s.message;
}

unfoldable pub iscsi_status_from_proto : IscsiStatusPb → IscsiStatus
iscsi_status_from_proto m = record {
  node = m.node;
  initiator_iqn = m.initiator_iqn;
  service_running = m.service_running;
  portals = m.portals;
  sessions = map iscsi_session_from_proto m.sessions;
  mpio_installed = m.mpio_installed;
  mpio_effective = m.mpio_effective;
  disks = map iscsi_disk_from_proto m.disks;
  message = m.message;
}
