-- ===== src/Wire/Enums.antt =====
-- The enumerations of api/proto/convert.go: the constants of api/types are strings, those of
-- api/proto/ballast.proto numbers. A number without a name is read as the first one is, and is
-- left out.
pub mod RoundTrip
use hyperv_control_plane.Prelude.{
  ℕ, ◌≡◌, refl, sym, ap, ◌∙◌, ◌⊎◌, inl, inr, ℤ, pos, Bool, true, false, Option, none, some, List,
  [], ◌∷◌, map, All, Text, codes, text_eq, if◌then◌else◌,
}
use hyperv_control_plane.Wire.{
  int32, IsInt32, int32_lem, option_int32, map_option, AllOption, or_zero, at_constant, option_back,
  option_back_always, option_onto, list_back, list_back_always, list_onto,
}

pub data RebootPolicyPb : Type 0 where
  reboot_policy_unspecified : RebootPolicyPb
  reboot_policy_never : RebootPolicyPb
  reboot_policy_if_needed : RebootPolicyPb

abbrev pub reboot_never : Text
reboot_never = codes "Never"

abbrev pub reboot_if_needed : Text
reboot_if_needed = codes "IfNeeded"

unfoldable pub reboot_policy_to_proto : Text → RebootPolicyPb
unfolding text_eq
reboot_policy_to_proto s =
    if text_eq s reboot_never
    then reboot_policy_never
    else if text_eq s reboot_if_needed
    then reboot_policy_if_needed
    else reboot_policy_unspecified

unfoldable pub reboot_policy_from_proto : RebootPolicyPb → Text
reboot_policy_from_proto reboot_policy_unspecified = []
reboot_policy_from_proto reboot_policy_never = reboot_never
reboot_policy_from_proto reboot_policy_if_needed = reboot_if_needed

pub data SetTeamingModePb : Type 0 where
  set_teaming_mode_unspecified : SetTeamingModePb
  set_teaming_mode_switch_independent : SetTeamingModePb

abbrev pub set_switch_independent : Text
set_switch_independent = codes "SwitchIndependent"

unfoldable pub teaming_mode_to_proto : Text → SetTeamingModePb
unfolding text_eq
teaming_mode_to_proto s =
    if text_eq s set_switch_independent
    then set_teaming_mode_switch_independent
    else set_teaming_mode_unspecified

unfoldable pub teaming_mode_from_proto : SetTeamingModePb → Text
teaming_mode_from_proto set_teaming_mode_unspecified = []
teaming_mode_from_proto set_teaming_mode_switch_independent = set_switch_independent

pub data SetLoadBalancingPb : Type 0 where
  set_load_balancing_unspecified : SetLoadBalancingPb
  set_load_balancing_hyperv_port : SetLoadBalancingPb
  set_load_balancing_dynamic : SetLoadBalancingPb

abbrev pub set_hyperv_port : Text
set_hyperv_port = codes "HyperVPort"

abbrev pub set_dynamic : Text
set_dynamic = codes "Dynamic"

unfoldable pub load_balancing_to_proto : Text → SetLoadBalancingPb
unfolding text_eq
load_balancing_to_proto s =
    if text_eq s set_hyperv_port
    then set_load_balancing_hyperv_port
    else if text_eq s set_dynamic
    then set_load_balancing_dynamic
    else set_load_balancing_unspecified

unfoldable pub load_balancing_from_proto : SetLoadBalancingPb → Text
load_balancing_from_proto set_load_balancing_unspecified = []
load_balancing_from_proto set_load_balancing_hyperv_port = set_hyperv_port
load_balancing_from_proto set_load_balancing_dynamic = set_dynamic

pub data WitnessTypePb : Type 0 where
  witness_type_unspecified : WitnessTypePb
  witness_type_none : WitnessTypePb
  witness_type_file_share : WitnessTypePb
  witness_type_cloud : WitnessTypePb
  witness_type_disk : WitnessTypePb

abbrev pub witness_file_share : Text
witness_file_share = codes "FileShare"

abbrev pub witness_cloud : Text
witness_cloud = codes "Cloud"

abbrev pub witness_disk : Text
witness_disk = codes "Disk"

unfoldable pub witness_type_to_proto : Text → WitnessTypePb
unfolding text_eq
witness_type_to_proto s =
    if text_eq s witness_file_share
    then witness_type_file_share
    else if text_eq s witness_cloud
    then witness_type_cloud
    else if text_eq s witness_disk
    then witness_type_disk
    else witness_type_none

unfoldable pub witness_type_from_proto : WitnessTypePb → Text
witness_type_from_proto witness_type_unspecified = []
witness_type_from_proto witness_type_none = []
witness_type_from_proto witness_type_file_share = witness_file_share
witness_type_from_proto witness_type_cloud = witness_cloud
witness_type_from_proto witness_type_disk = witness_disk

pub data ClusterStorageKindPb : Type 0 where
  cluster_storage_kind_unspecified : ClusterStorageKindPb
  cluster_storage_kind_s2d : ClusterStorageKindPb
  cluster_storage_kind_iscsi : ClusterStorageKindPb

abbrev pub storage_kind_s2d : Text
storage_kind_s2d = codes "S2D"

abbrev pub storage_kind_iscsi : Text
storage_kind_iscsi = codes "iSCSI"

unfoldable pub storage_kind_to_proto : Text → ClusterStorageKindPb
unfolding text_eq
storage_kind_to_proto s =
    if text_eq s storage_kind_s2d
    then cluster_storage_kind_s2d
    else if text_eq s storage_kind_iscsi
    then cluster_storage_kind_iscsi
    else cluster_storage_kind_unspecified

unfoldable pub storage_kind_from_proto : ClusterStorageKindPb → Text
storage_kind_from_proto cluster_storage_kind_unspecified = []
storage_kind_from_proto cluster_storage_kind_s2d = storage_kind_s2d
storage_kind_from_proto cluster_storage_kind_iscsi = storage_kind_iscsi

pub data VmPowerStatePb : Type 0 where
  vm_power_state_unspecified : VmPowerStatePb
  vm_power_state_running : VmPowerStatePb
  vm_power_state_off : VmPowerStatePb
  vm_power_state_paused : VmPowerStatePb
  vm_power_state_saved : VmPowerStatePb

abbrev pub vm_power_running : Text
vm_power_running = codes "Running"

abbrev pub vm_power_off : Text
vm_power_off = codes "Off"

abbrev pub vm_power_paused : Text
vm_power_paused = codes "Paused"

abbrev pub vm_power_saved : Text
vm_power_saved = codes "Saved"

unfoldable pub vm_power_state_to_proto : Text → VmPowerStatePb
unfolding text_eq
vm_power_state_to_proto s =
    if text_eq s vm_power_running
    then vm_power_state_running
    else if text_eq s vm_power_off
    then vm_power_state_off
    else if text_eq s vm_power_paused
    then vm_power_state_paused
    else if text_eq s vm_power_saved
    then vm_power_state_saved
    else vm_power_state_unspecified

unfoldable pub vm_power_state_from_proto : VmPowerStatePb → Text
vm_power_state_from_proto vm_power_state_unspecified = []
vm_power_state_from_proto vm_power_state_running = vm_power_running
vm_power_state_from_proto vm_power_state_off = vm_power_off
vm_power_state_from_proto vm_power_state_paused = vm_power_paused
vm_power_state_from_proto vm_power_state_saved = vm_power_saved

pub data VmStartActionPb : Type 0 where
  vm_start_action_unspecified : VmStartActionPb
  vm_start_action_nothing : VmStartActionPb
  vm_start_action_start_if_running : VmStartActionPb
  vm_start_action_start : VmStartActionPb

abbrev pub vm_start_nothing : Text
vm_start_nothing = codes "Nothing"

abbrev pub vm_start_if_was_running : Text
vm_start_if_was_running = codes "StartIfRunning"

abbrev pub vm_start_always : Text
vm_start_always = codes "Start"

unfoldable pub vm_start_action_to_proto : Text → VmStartActionPb
unfolding text_eq
vm_start_action_to_proto s =
    if text_eq s vm_start_nothing
    then vm_start_action_nothing
    else if text_eq s vm_start_if_was_running
    then vm_start_action_start_if_running
    else if text_eq s vm_start_always
    then vm_start_action_start
    else vm_start_action_unspecified

unfoldable pub vm_start_action_from_proto : VmStartActionPb → Text
vm_start_action_from_proto vm_start_action_unspecified = []
vm_start_action_from_proto vm_start_action_nothing = vm_start_nothing
vm_start_action_from_proto vm_start_action_start_if_running = vm_start_if_was_running
vm_start_action_from_proto vm_start_action_start = vm_start_always
