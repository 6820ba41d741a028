-- ===== src/Wire/Groups.antt =====
-- What is observed of the nodes, groups and volumes of a cluster on the wire: the messages, and the conversions of
-- api/proto/convert.go to and from them.
pub mod RoundTrip
use hyperv_control_plane.Prelude.{
  ℕ, ◌≡◌, refl, sym, ap, ◌∙◌, ◌⊎◌, inl, inr, ℤ, pos, Bool, true, false, Option, none, some, List,
  [], ◌∷◌, map, All, Text, codes, text_eq, if◌then◌else◌,
}
use hyperv_control_plane.Wire.{
  int32, IsInt32, int32_lem, option_int32, map_option, AllOption, or_zero, at_constant, option_back,
  option_back_always, option_onto, list_back, list_back_always, list_onto,
}
use hyperv_control_plane.Types.ClusterStatus.{
  IscsiSession, IscsiDisk, IscsiStatus, ClusterReplicaBrokerStatus, ClusterWitnessStatus,
  ClusterNetworkStatus, ClusterPoolStatus, ClusterNodeStatus, ClusterVmStatus,
  ClusterResourceStatus, ClusterGroupStatus, CsvStatus, ClusterStatus, zero_cluster_status, Cluster,
  zero_cluster,
}

pub record ClusterNodeStatusPb : Type 0 where
  pub name : Text
  pub state : Text
  pub status_information : Text

pub record ClusterVmStatusPb : Type 0 where
  pub name : Text
  pub owner_node : Text
  pub state : Text

pub record ClusterResourceStatusPb : Type 0 where
  pub name : Text
  pub resource_type : Text
  pub state : Text

pub record ClusterGroupStatusPb : Type 0 where
  pub name : Text
  pub owner_node : Text
  pub state : Text
  pub group_type : Text
  pub resources : List ClusterResourceStatusPb

pub record CsvStatusPb : Type 0 where
  pub name : Text
  pub owner_node : Text
  pub state : Text
  pub serial_number : Text
  pub health : Text
  pub operational : Text
  pub detached_reason : Text
  pub size_bytes : ℕ
  pub free_bytes : ℕ

unfoldable pub cluster_node_to_proto : ClusterNodeStatus → ClusterNodeStatusPb
cluster_node_to_proto s = record {
  name = s.name;
  state = s.state;
  status_information = s.status_information;
}

unfoldable pub cluster_node_from_proto : ClusterNodeStatusPb → ClusterNodeStatus
cluster_node_from_proto m = record {
  name = m.name;
  state = m.state;
  status_information = m.status_information;
}

unfoldable pub cluster_vm_to_proto : ClusterVmStatus → ClusterVmStatusPb
cluster_vm_to_proto s = record { name = s.name; owner_node = s.owner_node; state = s.state }

unfoldable pub cluster_vm_from_proto : ClusterVmStatusPb → ClusterVmStatus
cluster_vm_from_proto m = record { name = m.name; owner_node = m.owner_node; state = m.state }

unfoldable pub cluster_resource_to_proto : ClusterResourceStatus → ClusterResourceStatusPb
cluster_resource_to_proto s = record {
  name = s.name;
  resource_type = s.resource_type;
  state = s.state;
}

unfoldable pub cluster_resource_from_proto : ClusterResourceStatusPb → ClusterResourceStatus
cluster_resource_from_proto m = record {
  name = m.name;
  resource_type = m.resource_type;
  state = m.state;
}

unfoldable pub cluster_group_to_proto : ClusterGroupStatus → ClusterGroupStatusPb
cluster_group_to_proto s = record {
  name = s.name;
  owner_node = s.owner_node;
  state = s.state;
  group_type = s.group_type;
  resources = map cluster_resource_to_proto s.resources;
}

unfoldable pub cluster_group_from_proto : ClusterGroupStatusPb → ClusterGroupStatus
cluster_group_from_proto m = record {
  name = m.name;
  owner_node = m.owner_node;
  state = m.state;
  group_type = m.group_type;
  resources = map cluster_resource_from_proto m.resources;
}

unfoldable pub cluster_csv_to_proto : CsvStatus → CsvStatusPb
cluster_csv_to_proto s = record {
  name = s.name;
  owner_node = s.owner_node;
  state = s.state;
  serial_number = s.serial_number;
  health = s.health;
  operational = s.operational;
  detached_reason = s.detached_reason;
  size_bytes = s.size_bytes;
  free_bytes = s.free_bytes;
}

unfoldable pub cluster_csv_from_proto : CsvStatusPb → CsvStatus
cluster_csv_from_proto m = record {
  name = m.name;
  owner_node = m.owner_node;
  state = m.state;
  serial_number = m.serial_number;
  health = m.health;
  operational = m.operational;
  detached_reason = m.detached_reason;
  size_bytes = m.size_bytes;
  free_bytes = m.free_bytes;
}
