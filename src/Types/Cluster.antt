-- ===== src/Types/Cluster.antt =====
-- The desired state of a cluster (api/types/desiredstate.go). A map is its entries.
use hyperv_control_plane.Prelude.{ℕ, ℤ, Bool, false, Option, none, List, [], Text}
use hyperv_control_plane.Types.Storage.{
  LiveMigrationSpec, IsoLibrarySpec, CsvSourceSpec, IscsiStorageSpec,
}

pub record ClusterMgmtVnic : Type 0 where
  pub name : Text
  pub vlan_id : ℤ  -- int
  pub min_bandwidth_weight : ℤ  -- int
  pub purpose : Text
  pub host_adapters : List (Text × Text)
  pub rdma : Option Bool
  pub mtu_bytes : ℤ  -- int
  pub host_ips : List (Text × Text)
  pub host_gateways : List (Text × Text)
  pub host_dns : List (Text × List Text)

pub record ClusterSwitchSpec : Type 0 where
  pub name : Text
  pub teaming_mode : Text
  pub load_balancing : Text
  pub allow_management_os : Bool
  pub mtu_bytes : ℤ  -- int
  pub host_nics : List (Text × List Text)
  pub management_vnics : List ClusterMgmtVnic

pub record WitnessSpec : Type 0 where
  pub type_ : Text
  pub file_share_path : Text
  pub cloud_account : Text
  pub disk : Option CsvSourceSpec

abbrev pub zero_witness_spec : WitnessSpec
zero_witness_spec = record { type_ = []; file_share_path = []; cloud_account = []; disk = none }

pub record CsvSpec : Type 0 where
  pub name : Text
  pub size_bytes : ℕ
  pub resiliency_type : Text
  pub number_of_copies : ℤ  -- int
  pub source : Option CsvSourceSpec

pub record ReplicaBrokerSpec : Type 0 where
  pub name : Text
  pub static_ip : Text
  pub storage_path : Text

pub record ClusterStorageSpec : Type 0 where
  pub kind : Text
  pub iscsi : Option IscsiStorageSpec

pub record ClusterSpec : Type 0 where
  pub members : List Text
  pub management_ip : Text
  pub witness : WitnessSpec
  pub enable_s2d : Bool
  pub storage : Option ClusterStorageSpec
  pub volumes : List CsvSpec
  pub switches : List ClusterSwitchSpec
  pub default_storage_path : Text
  pub live_migration : Option LiveMigrationSpec
  pub replica_broker : Option ReplicaBrokerSpec
  pub iso_library : Option IsoLibrarySpec

abbrev pub zero_cluster_spec : ClusterSpec
zero_cluster_spec = record {
  members = [];
  management_ip = [];
  witness = zero_witness_spec;
  enable_s2d = false;
  storage = none;
  volumes = [];
  switches = [];
  default_storage_path = [];
  live_migration = none;
  replica_broker = none;
  iso_library = none;
}
