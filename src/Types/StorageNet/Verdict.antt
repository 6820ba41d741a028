-- ===== src/Types/StorageNet/Verdict.antt =====
-- When ValidateStorageNetwork (api/types/storagenet.go) refuses a host's storage networking.
use hyperv_control_plane.Prelude.{
  ◌≡◌, ◌↔◌, refl, Bool, true, false, Option, none, some, List, [], ◌∷◌, ◌++◌, ◌⊎◌, inl, inr, arith,
  exists, All, Text, to_lower, Bool-cases, ltb, length,
}
use hyperv_control_plane.Types.Networking.{
  VirtualSwitchSpec, ManagementVnicSpec, HostNetworkingSpec, switch_of, storage_vnics, Why,
  shared_adapter, shared_subnet,
}
use hyperv_control_plane.Types.Mtu.{collect}
use hyperv_control_plane.Types.Mtu.Agreement.{is_fatal, exists-append, collect_iff}
use hyperv_control_plane.Types.StorageNet.{
  is_blank, has_fold, check_pin, check_pin_on, address_of, check_address, check_storage, shared,
  check_single, group_by, adapter_key, subnet_key, validate_storage_network,
}

abbrev Fits : Text → Option VirtualSwitchSpec → Type 0
Fits adapter none = Unit
Fits adapter (some sw) = (is_blank adapter ≡ true) ⊎ (has_fold sw.team_members adapter ≡ true)

-- The vNIC has an address, and is not pinned, or to an adapter of its switch's team, if the host
-- declares its switch.
abbrev pub Placed : List VirtualSwitchSpec → ManagementVnicSpec → Type 0
Placed sws v =
    Fits v.team_member_adapter (switch_of sws (to_lower v.switch_name))
    × (is_blank (address_of v.ip_config) ≡ false)

pin_on_iff :
    (v : ManagementVnicSpec) (o : Option VirtualSwitchSpec)
    → (exists is_fatal (elim o [ none ↦ [] | some sw ↦ check_pin_on v sw ]) ≡ false)
      ↔ Fits v.team_member_adapter o
unfolding check_pin_on
pin_on_iff v none = (λ h. tt, λ h. refl)
pin_on_iff v (some sw) = elim (Bool-cases (is_blank v.team_member_adapter)) [
  | inl e ↦ (λ h. inl e, λ h. ground (arith, e))
  | inr e ↦ (λ h. inr (ground (arith, e)), λ h. ground (arith, e))
]

pin_iff :
    (sws : List VirtualSwitchSpec) (v : ManagementVnicSpec)
    → (exists is_fatal (check_pin sws v) ≡ false)
      ↔ Fits v.team_member_adapter (switch_of sws (to_lower v.switch_name))
unfolding check_pin
pin_iff sws v = pin_on_iff v (switch_of sws (to_lower v.switch_name))

address_iff :
    (v : ManagementVnicSpec)
    → (exists is_fatal (check_address v) ≡ false) ↔ (is_blank (address_of v.ip_config) ≡ false)
unfolding check_address
address_iff v = (λ h. ground arith, λ h. ground arith)

storage_iff :
    (sws : List VirtualSwitchSpec) (v : ManagementVnicSpec)
    → (exists is_fatal (check_storage sws v) ≡ false) ↔ Placed sws v
unfolding check_storage
storage_iff sws v =
    let (pin_sound, pin_complete) = pin_iff sws v in
    let (address_sound, address_complete) = address_iff v in
    (
      λ h. (
        pin_sound (ground (arith, exists-append (check_pin sws v) (check_address v))),
        address_sound (ground (arith, exists-append (check_pin sws v) (check_address v))),
      ),
      λ h. ground (
        arith,
        exists-append (check_pin sws v) (check_address v),
        pin_complete h.0,
        address_complete h.1,
      ),
    )

shared_advises :
    (why : List Text → Text → Why) (groups : List (Text × List Text))
    → exists is_fatal (collect (shared why) groups) ≡ false
unfolding collect shared
shared_advises why [] = refl
shared_advises why ((key, names) ∷ groups) = elim (Bool-cases (ltb 1 (length names))) [
  | inl e ↦ rw e (shared_advises why groups)
  | inr e ↦ rw e (shared_advises why groups)
]

single_advises :
    (m : Bool) (vs : List ManagementVnicSpec) → exists is_fatal (check_single m vs) ≡ false
unfolding check_single
single_advises m [] = refl
single_advises true (v ∷ []) = refl
single_advises false (v ∷ []) = refl
single_advises m (v ∷ w ∷ vs) = refl

module _ (parse_cidr : Text → Option Text) where
  -- ValidateStorageNetwork finds nothing fatal exactly when every storage vNIC of the host has an
  -- address and, where it is pinned and its switch declared, is pinned inside the switch's team.
  -- Neither shared adapters, nor shared subnets, nor a missing second path are fatal.
  pub validate_storage_network_lem :
      (n : HostNetworkingSpec) (require_multipath : Bool)
      → (exists is_fatal (validate_storage_network parse_cidr n require_multipath) ≡ false)
        ↔ All (Placed n.switches) (storage_vnics n)
  unfolding validate_storage_network
  validate_storage_network_lem n m =
      let vs = storage_vnics n in
      let a = collect (check_storage n.switches) vs in
      let b = collect (shared shared_adapter) (group_by adapter_key vs []) in
      let c = collect (shared shared_subnet) (group_by (subnet_key parse_cidr) vs []) in
      let d = check_single m vs in
      let (sound, complete) =
        collect_iff (check_storage n.switches) (Placed n.switches) (storage_iff n.switches) vs in
      let advice : exists is_fatal (b ++ (c ++ d)) ≡ false = ground (
        arith,
        exists-append b (c ++ d),
        exists-append c d,
        shared_advises shared_adapter (group_by adapter_key vs []),
        shared_advises shared_subnet (group_by (subnet_key parse_cidr) vs []),
        single_advises m vs,
      ) in
      (
        λ h. sound (ground (arith, exists-append a (b ++ (c ++ d)))),
        λ h. ground (arith, exists-append a (b ++ (c ++ d)), advice, complete h),
      )
