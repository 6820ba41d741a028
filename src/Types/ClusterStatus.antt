-- ===== src/Types/ClusterStatus.antt =====
-- The status of a cluster, and the cluster (api/types/desiredstate.go).
use hyperv_control_plane.Prelude.{ℕ, ℤ, pos, Bool, false, Option, none, List, [], Text}
use hyperv_control_plane.Types.Meta.{ObjectMeta, zero_meta, Condition}
use hyperv_control_plane.Types.Cluster.{ClusterSpec, zero_cluster_spec}

pub record IscsiSession : Type 0 where
  pub target_iqn : Text
  pub connected : Bool
  pub persistent : Bool
  pub paths : ℤ  -- int

pub record IscsiDisk : Type 0 where
  pub serial_number : Text
  pub number : ℤ  -- int
  pub size_bytes : ℕ
  pub target_iqn : Text
  pub lun : ℤ  -- int
  pub clustered : Bool
  pub offline : Bool
  pub contents : Text
  pub contents_known : Bool

pub record IscsiStatus : Type 0 where
  pub node : Text
  pub initiator_iqn : Text
  pub service_running : Bool
  pub portals : List Text
  pub sessions : List IscsiSession
  pub mpio_installed : Bool
  pub mpio_effective : Bool
  pub disks : List IscsiDisk
  pub message : Text

pub record ClusterReplicaBrokerStatus : Type 0 where
  pub name : Text
  pub state : Text
  pub storage_location : Text

pub record ClusterWitnessStatus : Type 0 where
  pub type_ : Text
  pub path : Text
  pub state : Text
  pub quorum_type : Text

pub record ClusterNetworkStatus : Type 0 where
  pub name : Text
  pub cidr : Text
  pub role : Text
  pub state : Text
  pub metric : ℤ  -- int

pub record ClusterPoolStatus : Type 0 where
  pub name : Text
  pub raw_bytes : ℕ
  pub allocated_bytes : ℕ
  pub health : Text
  pub operational : Text
  pub unhealthy_disks : ℤ  -- int
  pub disks_in_maintenance : ℤ  -- int
  pub total_disks : ℤ  -- int
  pub resyncing : Bool
  pub resync_percent : ℤ  -- int
  pub resync_remaining_bytes : ℕ
  pub resync_job : Text

pub record ClusterNodeStatus : Type 0 where
  pub name : Text
  pub state : Text
  pub status_information : Text

pub record ClusterVmStatus : Type 0 where
  pub name : Text
  pub owner_node : Text
  pub state : Text

pub record ClusterResourceStatus : Type 0 where
  pub name : Text
  pub resource_type : Text
  pub state : Text

pub record ClusterGroupStatus : Type 0 where
  pub name : Text
  pub owner_node : Text
  pub state : Text
  pub group_type : Text
  pub resources : List ClusterResourceStatus

pub record CsvStatus : Type 0 where
  pub name : Text
  pub owner_node : Text
  pub state : Text
  pub serial_number : Text
  pub health : Text
  pub operational : Text
  pub detached_reason : Text
  pub size_bytes : ℕ
  pub free_bytes : ℕ

pub record ClusterStatus : Type 0 where
  pub phase : Text
  pub observed_generation : ℤ  -- int64
  pub formed_members : List Text
  pub s2d_enabled : Bool
  pub conditions : List Condition
  pub groups : List ClusterGroupStatus
  pub csvs : List CsvStatus
  pub vms : List ClusterVmStatus
  pub nodes : List ClusterNodeStatus
  pub pool : Option ClusterPoolStatus
  pub networks : List ClusterNetworkStatus
  pub witness : Option ClusterWitnessStatus
  pub iscsi : List IscsiStatus
  pub replica_broker : Option ClusterReplicaBrokerStatus
  pub functional_level : ℤ  -- int
  pub node_os_build : ℤ  -- int
  pub observed_at : ℕ
  pub state_unreadable : Bool
  pub no_member_reporting : Bool
  pub last_member_contact : ℕ
  pub member_count : ℤ
  pub members_online : ℤ
  pub shut_down_from_ballast : Bool
  pub shut_down_at : ℕ
  pub shut_down_by : Text

abbrev pub zero_cluster_status : ClusterStatus
zero_cluster_status = record {
  phase = [];
  observed_generation = pos 0;
  formed_members = [];
  s2d_enabled = false;
  conditions = [];
  groups = [];
  csvs = [];
  vms = [];
  nodes = [];
  pool = none;
  networks = [];
  witness = none;
  iscsi = [];
  replica_broker = none;
  functional_level = pos 0;
  node_os_build = pos 0;
  observed_at = 0;
  state_unreadable = false;
  no_member_reporting = false;
  last_member_contact = 0;
  member_count = pos 0;
  members_online = pos 0;
  shut_down_from_ballast = false;
  shut_down_at = 0;
  shut_down_by = [];
}

pub record Cluster : Type 0 where
  pub meta : ObjectMeta
  pub spec : ClusterSpec
  pub status : ClusterStatus

abbrev pub zero_cluster : Cluster
zero_cluster = record { meta = zero_meta; spec = zero_cluster_spec; status = zero_cluster_status }
