-- ===== src/Wire/ClusterStatus.antt =====
-- A cluster and its status on the wire: the messages, and the conversions of
-- api/proto/convert.go to and from them.
pub mod RoundTrip
use hyperv_control_plane.Prelude.{
  ℕ, ◌≡◌, refl, sym, ap, ◌∙◌, ◌⊎◌, inl, inr, ℤ, pos, Bool, true, false, Option, none, some, List,
  [], ◌∷◌, map, All, Text, codes, text_eq, if◌then◌else◌,
}
use hyperv_control_plane.Wire.{
  int32, IsInt32, int32_lem, option_int32, map_option, AllOption, or_zero, at_constant, option_back,
  option_back_always, option_onto, list_back, list_back_always, list_onto,
}
use hyperv_control_plane.Wire.Library.{
  Codec, Library, IsDocumented, IsJson, IsWhole, ts_to_proto, ts_from_proto, created_to_proto,
  created_from_proto, marshal_observed, unmarshal_observed, marshal_list, unmarshal_list,
  ts_from_proto-ts_to_proto, created_from_proto-created_to_proto,
  unmarshal_observed-marshal_observed, unmarshal_list-marshal_list,
}
use hyperv_control_plane.Wire.Phase.{
  PhasePb, phase_pending, phase_progressing, phase_ready, phase_degraded, phase_error,
  phase_to_proto, phase_from_proto, phase_unspecified_pb, phase_pending_pb, phase_progressing_pb,
  phase_ready_pb, phase_degraded_pb, phase_error_pb,
}
use hyperv_control_plane.Types.Meta.{ObjectMeta, zero_meta, Condition, Secret, zero_secret}
use hyperv_control_plane.Types.Cluster.{
  ClusterMgmtVnic, ClusterSwitchSpec, WitnessSpec, zero_witness_spec, CsvSpec, ReplicaBrokerSpec,
  ClusterStorageSpec, ClusterSpec, zero_cluster_spec,
}
use hyperv_control_plane.Types.ClusterStatus.{
  IscsiSession, IscsiDisk, IscsiStatus, ClusterReplicaBrokerStatus, ClusterWitnessStatus,
  ClusterNetworkStatus, ClusterPoolStatus, ClusterNodeStatus, ClusterVmStatus,
  ClusterResourceStatus, ClusterGroupStatus, CsvStatus, ClusterStatus, zero_cluster_status, Cluster,
  zero_cluster,
}
use hyperv_control_plane.Wire.Meta.{
  ObjectMetaPb, ConditionPb, SecretPb, meta_to_proto, meta_from_proto, condition_to_proto,
  condition_from_proto, secret_to_proto, secret_from_proto,
}
use hyperv_control_plane.Wire.Cluster.{
  WitnessSpecPb, CsvSpecPb, ReplicaBrokerSpecPb, ClusterStorageSpecPb, ClusterSpecPb,
  witness_spec_to_proto, witness_spec_from_proto, csv_spec_to_proto, csv_spec_from_proto,
  replica_broker_spec_to_proto, replica_broker_spec_from_proto, cluster_storage_to_proto,
  cluster_storage_from_proto, cluster_spec_to_proto, cluster_spec_from_proto,
}
use hyperv_control_plane.Wire.Iscsi.{
  IscsiSessionPb, IscsiDiskPb, IscsiStatusPb, iscsi_session_to_proto, iscsi_session_from_proto,
  iscsi_disk_to_proto, iscsi_disk_from_proto, iscsi_status_to_proto, iscsi_status_from_proto,
}
use hyperv_control_plane.Wire.Quorum.{
  ClusterReplicaBrokerStatusPb, ClusterWitnessStatusPb, ClusterNetworkStatusPb, ClusterPoolStatusPb,
  cluster_broker_to_proto, cluster_broker_from_proto, cluster_witness_to_proto,
  cluster_witness_from_proto, cluster_network_to_proto, cluster_network_from_proto,
  cluster_pool_to_proto, cluster_pool_from_proto,
}
use hyperv_control_plane.Wire.Groups.{
  ClusterNodeStatusPb, ClusterVmStatusPb, ClusterResourceStatusPb, ClusterGroupStatusPb,
  CsvStatusPb, cluster_node_to_proto, cluster_node_from_proto, cluster_vm_to_proto,
  cluster_vm_from_proto, cluster_resource_to_proto, cluster_resource_from_proto,
  cluster_group_to_proto, cluster_group_from_proto, cluster_csv_to_proto, cluster_csv_from_proto,
}

pub record ClusterStatusPb (stamp : Type 0) : Type 0 where
  pub phase : PhasePb
  pub observed_generation : ℤ  -- int64
  pub formed_members : List Text
  pub s2d_enabled : Bool
  pub conditions : List (ConditionPb stamp)
  pub groups : List ClusterGroupStatusPb
  pub csvs : List CsvStatusPb
  pub vms : List ClusterVmStatusPb
  pub nodes : List ClusterNodeStatusPb
  pub pool : Option ClusterPoolStatusPb
  pub networks : List ClusterNetworkStatusPb
  pub witness : Option ClusterWitnessStatusPb
  pub iscsi : List IscsiStatusPb
  pub replica_broker : Option ClusterReplicaBrokerStatusPb
  pub functional_level : ℤ  -- int32
  pub node_os_build : ℤ  -- int32
  pub state_unreadable : Bool

pub record ClusterPb (stamp : Type 0) : Type 0 where
  pub meta : Option (ObjectMetaPb stamp)
  pub spec : Option ClusterSpecPb
  pub status : Option (ClusterStatusPb stamp)

unfoldable pub cluster_status_to_proto :
    {stamp : Type 0} → Library stamp → ClusterStatus → ClusterStatusPb stamp
cluster_status_to_proto lib s = record {
  phase = phase_to_proto s.phase;
  observed_generation = s.observed_generation;
  formed_members = s.formed_members;
  s2d_enabled = s.s2d_enabled;
  conditions = map (condition_to_proto lib) s.conditions;
  groups = map cluster_group_to_proto s.groups;
  csvs = map cluster_csv_to_proto s.csvs;
  vms = map cluster_vm_to_proto s.vms;
  nodes = map cluster_node_to_proto s.nodes;
  pool = cluster_pool_to_proto s.pool;
  networks = map cluster_network_to_proto s.networks;
  witness = cluster_witness_to_proto s.witness;
  iscsi = map iscsi_status_to_proto s.iscsi;
  replica_broker = cluster_broker_to_proto s.replica_broker;
  functional_level = int32 s.functional_level;
  node_os_build = int32 s.node_os_build;
  state_unreadable = s.state_unreadable;
}

unfoldable pub cluster_status_from_proto :
    {stamp : Type 0} → Library stamp → Option (ClusterStatusPb stamp) → ClusterStatus
cluster_status_from_proto lib none = zero_cluster_status
cluster_status_from_proto lib (some m) = record {
  phase = phase_from_proto m.phase;
  observed_generation = m.observed_generation;
  formed_members = m.formed_members;
  s2d_enabled = m.s2d_enabled;
  conditions = map (condition_from_proto lib) m.conditions;
  groups = map cluster_group_from_proto m.groups;
  csvs = map cluster_csv_from_proto m.csvs;
  vms = map cluster_vm_from_proto m.vms;
  nodes = map cluster_node_from_proto m.nodes;
  pool = cluster_pool_from_proto m.pool;
  networks = map cluster_network_from_proto m.networks;
  witness = cluster_witness_from_proto m.witness;
  iscsi = map iscsi_status_from_proto m.iscsi;
  replica_broker = cluster_broker_from_proto m.replica_broker;
  functional_level = m.functional_level;
  node_os_build = m.node_os_build;
  observed_at = 0;
  state_unreadable = m.state_unreadable;
  no_member_reporting = false;
  last_member_contact = 0;
  member_count = pos 0;
  members_online = pos 0;
  shut_down_from_ballast = false;
  shut_down_at = 0;
  shut_down_by = [];
}

unfoldable pub cluster_to_proto : {stamp : Type 0} → Library stamp → Cluster → ClusterPb stamp
cluster_to_proto lib s = record {
  meta = some (meta_to_proto lib s.meta);
  spec = some (cluster_spec_to_proto s.spec);
  status = some (cluster_status_to_proto lib s.status);
}

unfoldable pub cluster_from_proto :
    {stamp : Type 0} → Library stamp → Option (ClusterPb stamp) → Cluster
cluster_from_proto lib none = zero_cluster
cluster_from_proto lib (some m) = record {
  meta = meta_from_proto lib m.meta;
  spec = cluster_spec_from_proto m.spec;
  status = cluster_status_from_proto lib m.status;
}
