-- ===== src/Wire/Quorum.antt =====
-- What is observed of the quorum and the pool of a cluster on the wire: the messages, and the conversions of
-- api/proto/convert.go to and from them.
pub mod RoundTrip
use hyperv_control_plane.Prelude.{
  ℕ, ◌≡◌, refl, sym, ap, ◌∙◌, ◌⊎◌, inl, inr, ℤ, pos, Bool, true, false, Option, none, some, List,
  [], ◌∷◌, map, All, Text, codes, text_eq, if◌then◌else◌,
}
use hyperv_control_plane.Wire.{
  int32, IsInt32, int32_lem, option_int32, map_option, AllOption, or_zero, at_constant, option_back,
  option_back_always, option_onto, list_back, list_back_always, list_onto,
}
use hyperv_control_plane.Wire.Enums.{
  RebootPolicyPb, reboot_never, reboot_if_needed, reboot_policy_to_proto, reboot_policy_from_proto,
  SetTeamingModePb, set_switch_independent, teaming_mode_to_proto, teaming_mode_from_proto,
  SetLoadBalancingPb, set_hyperv_port, set_dynamic, load_balancing_to_proto,
  load_balancing_from_proto, WitnessTypePb, witness_file_share, witness_cloud, witness_disk,
  witness_type_to_proto, witness_type_from_proto, ClusterStorageKindPb, storage_kind_s2d,
  storage_kind_iscsi, storage_kind_to_proto, storage_kind_from_proto, VmPowerStatePb,
  vm_power_running, vm_power_off, vm_power_paused, vm_power_saved, vm_power_state_to_proto,
  vm_power_state_from_proto, VmStartActionPb, vm_start_nothing, vm_start_if_was_running,
  vm_start_always, vm_start_action_to_proto, vm_start_action_from_proto, reboot_policy_unspecified,
  reboot_policy_never, reboot_policy_if_needed, set_teaming_mode_unspecified,
  set_teaming_mode_switch_independent, set_load_balancing_unspecified,
  set_load_balancing_hyperv_port, set_load_balancing_dynamic, witness_type_unspecified,
  witness_type_none, witness_type_file_share, witness_type_cloud, witness_type_disk,
  cluster_storage_kind_unspecified, cluster_storage_kind_s2d, cluster_storage_kind_iscsi,
  vm_power_state_unspecified, vm_power_state_running, vm_power_state_off, vm_power_state_paused,
  vm_power_state_saved, vm_start_action_unspecified, vm_start_action_nothing,
  vm_start_action_start_if_running, vm_start_action_start,
}
use hyperv_control_plane.Types.ClusterStatus.{
  IscsiSession, IscsiDisk, IscsiStatus, ClusterReplicaBrokerStatus, ClusterWitnessStatus,
  ClusterNetworkStatus, ClusterPoolStatus, ClusterNodeStatus, ClusterVmStatus,
  ClusterResourceStatus, ClusterGroupStatus, CsvStatus, ClusterStatus, zero_cluster_status, Cluster,
  zero_cluster,
}

pub record ClusterReplicaBrokerStatusPb : Type 0 where
  pub name : Text
  pub state : Text
  pub storage_location : Text

pub record ClusterWitnessStatusPb : Type 0 where
  pub type_ : WitnessTypePb
  pub path : Text
  pub state : Text
  pub quorum_type : Text

pub record ClusterNetworkStatusPb : Type 0 where
  pub name : Text
  pub cidr : Text
  pub role : Text
  pub state : Text
  pub metric : ℤ  -- int32

pub record ClusterPoolStatusPb : Type 0 where
  pub name : Text
  pub raw_bytes : ℕ
  pub allocated_bytes : ℕ
  pub health : Text
  pub operational : Text
  pub unhealthy_disks : ℤ  -- int32
  pub disks_in_maintenance : ℤ  -- int32
  pub total_disks : ℤ  -- int32
  pub resyncing : Bool
  pub resync_percent : ℤ  -- int32
  pub resync_remaining_bytes : ℕ
  pub resync_job : Text

unfoldable pub cluster_broker_to_proto :
    Option ClusterReplicaBrokerStatus → Option ClusterReplicaBrokerStatusPb
cluster_broker_to_proto none = none
cluster_broker_to_proto (some s) =
    some (record { name = s.name; state = s.state; storage_location = s.storage_location })

unfoldable pub cluster_broker_from_proto :
    Option ClusterReplicaBrokerStatusPb → Option ClusterReplicaBrokerStatus
cluster_broker_from_proto none = none
cluster_broker_from_proto (some m) =
    some (record { name = m.name; state = m.state; storage_location = m.storage_location })

unfoldable pub cluster_witness_to_proto :
    Option ClusterWitnessStatus → Option ClusterWitnessStatusPb
cluster_witness_to_proto none = none
cluster_witness_to_proto (some s) = some (record {
  type_ = witness_type_to_proto s.type_;
  path = s.path;
  state = s.state;
  quorum_type = s.quorum_type;
})

unfoldable pub cluster_witness_from_proto :
    Option ClusterWitnessStatusPb → Option ClusterWitnessStatus
cluster_witness_from_proto none = none
cluster_witness_from_proto (some m) = some (record {
  type_ = witness_type_from_proto m.type_;
  path = m.path;
  state = m.state;
  quorum_type = m.quorum_type;
})

unfoldable pub cluster_network_to_proto : ClusterNetworkStatus → ClusterNetworkStatusPb
cluster_network_to_proto s = record {
  name = s.name;
  cidr = s.cidr;
  role = s.role;
  state = s.state;
  metric = int32 s.metric;
}

unfoldable pub cluster_network_from_proto : ClusterNetworkStatusPb → ClusterNetworkStatus
cluster_network_from_proto m = record {
  name = m.name;
  cidr = m.cidr;
  role = m.role;
  state = m.state;
  metric = m.metric;
}

unfoldable pub cluster_pool_to_proto : Option ClusterPoolStatus → Option ClusterPoolStatusPb
cluster_pool_to_proto none = none
cluster_pool_to_proto (some s) = some (record {
  name = s.name;
  raw_bytes = s.raw_bytes;
  allocated_bytes = s.allocated_bytes;
  health = s.health;
  operational = s.operational;
  unhealthy_disks = int32 s.unhealthy_disks;
  disks_in_maintenance = int32 s.disks_in_maintenance;
  total_disks = int32 s.total_disks;
  resyncing = s.resyncing;
  resync_percent = int32 s.resync_percent;
  resync_remaining_bytes = s.resync_remaining_bytes;
  resync_job = s.resync_job;
})

unfoldable pub cluster_pool_from_proto : Option ClusterPoolStatusPb → Option ClusterPoolStatus
cluster_pool_from_proto none = none
cluster_pool_from_proto (some m) = some (record {
  name = m.name;
  raw_bytes = m.raw_bytes;
  allocated_bytes = m.allocated_bytes;
  health = m.health;
  operational = m.operational;
  unhealthy_disks = m.unhealthy_disks;
  disks_in_maintenance = m.disks_in_maintenance;
  total_disks = m.total_disks;
  resyncing = m.resyncing;
  resync_percent = m.resync_percent;
  resync_remaining_bytes = m.resync_remaining_bytes;
  resync_job = m.resync_job;
})
