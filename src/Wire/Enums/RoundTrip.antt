-- ===== src/Wire/Enums/RoundTrip.antt =====
-- A constant that is sent (api/proto/convert.go) is the one that arrives.
use hyperv_control_plane.Prelude.{◌≡◌, refl, ◌⊎◌, inl, inr, [], Text, text_eq}
use hyperv_control_plane.Wire.{at_constant}
use hyperv_control_plane.Wire.Enums.{
  reboot_never, reboot_if_needed, reboot_policy_to_proto, reboot_policy_from_proto,
  set_switch_independent, teaming_mode_to_proto, teaming_mode_from_proto, set_hyperv_port,
  set_dynamic, load_balancing_to_proto, load_balancing_from_proto, witness_file_share,
  witness_cloud, witness_disk, witness_type_to_proto, witness_type_from_proto, storage_kind_s2d,
  storage_kind_iscsi, storage_kind_to_proto, storage_kind_from_proto, vm_power_running,
  vm_power_off, vm_power_paused, vm_power_saved, vm_power_state_to_proto, vm_power_state_from_proto,
  vm_start_nothing, vm_start_if_was_running, vm_start_always, vm_start_action_to_proto,
  vm_start_action_from_proto,
}

abbrev pub IsRebootPolicy : Text → Type 0
IsRebootPolicy s = (s ≡ []) ⊎ (s ≡ reboot_never) ⊎ (s ≡ reboot_if_needed)

pub reboot_policy_from_proto-reboot_policy_to_proto :
    (s : Text) → IsRebootPolicy s → reboot_policy_from_proto (reboot_policy_to_proto s) ≡ s
unfolding reboot_policy_to_proto reboot_policy_from_proto text_eq
reboot_policy_from_proto-reboot_policy_to_proto s (inl e) =
    at_constant (λ t. reboot_policy_from_proto (reboot_policy_to_proto t)) e refl
reboot_policy_from_proto-reboot_policy_to_proto s (inr (inl e)) =
    at_constant (λ t. reboot_policy_from_proto (reboot_policy_to_proto t)) e refl
reboot_policy_from_proto-reboot_policy_to_proto s (inr (inr e)) =
    at_constant (λ t. reboot_policy_from_proto (reboot_policy_to_proto t)) e refl

abbrev pub IsTeamingMode : Text → Type 0
IsTeamingMode s = (s ≡ []) ⊎ (s ≡ set_switch_independent)

pub teaming_mode_from_proto-teaming_mode_to_proto :
    (s : Text) → IsTeamingMode s → teaming_mode_from_proto (teaming_mode_to_proto s) ≡ s
unfolding teaming_mode_to_proto teaming_mode_from_proto text_eq
teaming_mode_from_proto-teaming_mode_to_proto s (inl e) =
    at_constant (λ t. teaming_mode_from_proto (teaming_mode_to_proto t)) e refl
teaming_mode_from_proto-teaming_mode_to_proto s (inr e) =
    at_constant (λ t. teaming_mode_from_proto (teaming_mode_to_proto t)) e refl

abbrev pub IsLoadBalancing : Text → Type 0
IsLoadBalancing s = (s ≡ []) ⊎ (s ≡ set_hyperv_port) ⊎ (s ≡ set_dynamic)

pub load_balancing_from_proto-load_balancing_to_proto :
    (s : Text) → IsLoadBalancing s → load_balancing_from_proto (load_balancing_to_proto s) ≡ s
unfolding load_balancing_to_proto load_balancing_from_proto text_eq
load_balancing_from_proto-load_balancing_to_proto s (inl e) =
    at_constant (λ t. load_balancing_from_proto (load_balancing_to_proto t)) e refl
load_balancing_from_proto-load_balancing_to_proto s (inr (inl e)) =
    at_constant (λ t. load_balancing_from_proto (load_balancing_to_proto t)) e refl
load_balancing_from_proto-load_balancing_to_proto s (inr (inr e)) =
    at_constant (λ t. load_balancing_from_proto (load_balancing_to_proto t)) e refl

abbrev pub IsSentWitness : Text → Type 0
IsSentWitness s = (s ≡ []) ⊎ (s ≡ witness_file_share) ⊎ (s ≡ witness_cloud) ⊎ (s ≡ witness_disk)

pub witness_type_from_proto-witness_type_to_proto :
    (s : Text) → IsSentWitness s → witness_type_from_proto (witness_type_to_proto s) ≡ s
unfolding witness_type_to_proto witness_type_from_proto text_eq
witness_type_from_proto-witness_type_to_proto s (inl e) =
    at_constant (λ t. witness_type_from_proto (witness_type_to_proto t)) e refl
witness_type_from_proto-witness_type_to_proto s (inr (inl e)) =
    at_constant (λ t. witness_type_from_proto (witness_type_to_proto t)) e refl
witness_type_from_proto-witness_type_to_proto s (inr (inr (inl e))) =
    at_constant (λ t. witness_type_from_proto (witness_type_to_proto t)) e refl
witness_type_from_proto-witness_type_to_proto s (inr (inr (inr e))) =
    at_constant (λ t. witness_type_from_proto (witness_type_to_proto t)) e refl

abbrev pub IsStorageKind : Text → Type 0
IsStorageKind s = (s ≡ []) ⊎ (s ≡ storage_kind_s2d) ⊎ (s ≡ storage_kind_iscsi)

pub storage_kind_from_proto-storage_kind_to_proto :
    (s : Text) → IsStorageKind s → storage_kind_from_proto (storage_kind_to_proto s) ≡ s
unfolding storage_kind_to_proto storage_kind_from_proto text_eq
storage_kind_from_proto-storage_kind_to_proto s (inl e) =
    at_constant (λ t. storage_kind_from_proto (storage_kind_to_proto t)) e refl
storage_kind_from_proto-storage_kind_to_proto s (inr (inl e)) =
    at_constant (λ t. storage_kind_from_proto (storage_kind_to_proto t)) e refl
storage_kind_from_proto-storage_kind_to_proto s (inr (inr e)) =
    at_constant (λ t. storage_kind_from_proto (storage_kind_to_proto t)) e refl

abbrev pub IsPowerState : Text → Type 0
IsPowerState s =
    (s ≡ [])
    ⊎ (s ≡ vm_power_running)
    ⊎ (s ≡ vm_power_off)
    ⊎ (s ≡ vm_power_paused)
    ⊎ (s ≡ vm_power_saved)

pub vm_power_state_from_proto-vm_power_state_to_proto :
    (s : Text) → IsPowerState s → vm_power_state_from_proto (vm_power_state_to_proto s) ≡ s
unfolding vm_power_state_to_proto vm_power_state_from_proto text_eq
vm_power_state_from_proto-vm_power_state_to_proto s (inl e) =
    at_constant (λ t. vm_power_state_from_proto (vm_power_state_to_proto t)) e refl
vm_power_state_from_proto-vm_power_state_to_proto s (inr (inl e)) =
    at_constant (λ t. vm_power_state_from_proto (vm_power_state_to_proto t)) e refl
vm_power_state_from_proto-vm_power_state_to_proto s (inr (inr (inl e))) =
    at_constant (λ t. vm_power_state_from_proto (vm_power_state_to_proto t)) e refl
vm_power_state_from_proto-vm_power_state_to_proto s (inr (inr (inr (inl e)))) =
    at_constant (λ t. vm_power_state_from_proto (vm_power_state_to_proto t)) e refl
vm_power_state_from_proto-vm_power_state_to_proto s (inr (inr (inr (inr e)))) =
    at_constant (λ t. vm_power_state_from_proto (vm_power_state_to_proto t)) e refl

abbrev pub IsStartAction : Text → Type 0
IsStartAction s =
    (s ≡ []) ⊎ (s ≡ vm_start_nothing) ⊎ (s ≡ vm_start_if_was_running) ⊎ (s ≡ vm_start_always)

pub vm_start_action_from_proto-vm_start_action_to_proto :
    (s : Text) → IsStartAction s → vm_start_action_from_proto (vm_start_action_to_proto s) ≡ s
unfolding vm_start_action_to_proto vm_start_action_from_proto text_eq
vm_start_action_from_proto-vm_start_action_to_proto s (inl e) =
    at_constant (λ t. vm_start_action_from_proto (vm_start_action_to_proto t)) e refl
vm_start_action_from_proto-vm_start_action_to_proto s (inr (inl e)) =
    at_constant (λ t. vm_start_action_from_proto (vm_start_action_to_proto t)) e refl
vm_start_action_from_proto-vm_start_action_to_proto s (inr (inr (inl e))) =
    at_constant (λ t. vm_start_action_from_proto (vm_start_action_to_proto t)) e refl
vm_start_action_from_proto-vm_start_action_to_proto s (inr (inr (inr e))) =
    at_constant (λ t. vm_start_action_from_proto (vm_start_action_to_proto t)) e refl
