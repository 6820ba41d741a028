-- ===== src/Types/Mtu/Agreement.antt =====
-- What it means that ValidateMTU (api/types/mtu.go) finds nothing fatal.
use hyperv_control_plane.Prelude.{
  ℤ, pos, eqb_ℤ, ◌≤ℤ◌, ◌≡◌, ◌↔◌, refl, Bool, false, ◌||◌, Option, none, some, List, [], ◌∷◌, ◌++◌,
  ◌⊎◌, inl, inr, arith, exists, All, to_lower, Bool-cases, if◌then◌else◌,
}
use hyperv_control_plane.Types.Networking.{
  VirtualSwitchSpec, ManagementVnicSpec, HostNetworkingSpec, switch_of, storage_vnics,
  StorageNetworkProblem,
}
use hyperv_control_plane.Types.Mtu.{
  check_switch, check_vnic, check_uplink, check_storage_vnic, collect, validate_mtu,
}

abbrev pub is_fatal : StorageNetworkProblem → Bool
is_fatal p = p.fatal

-- A size that an Ethernet adapter accepts.
abbrev pub Accepted : ℤ → Type 0
Accepted mtu = (pos 1500 ≤ℤ mtu) × (mtu ≤ℤ pos 9216)

-- What the uplinks of a switch carry: 1500 where it declares nothing.
abbrev pub carries : VirtualSwitchSpec → ℤ
carries sw = if eqb_ℤ sw.mtu_bytes (pos 0) then pos 1500 else sw.mtu_bytes

abbrev pub SwitchAgrees : VirtualSwitchSpec → Type 0
SwitchAgrees sw = (sw.mtu_bytes ≡ pos 0) ⊎ Accepted sw.mtu_bytes

abbrev Fits : ManagementVnicSpec → Option VirtualSwitchSpec → Type 0
Fits v none = Unit
Fits v (some sw) = v.mtu_bytes ≤ℤ carries sw

-- The vNIC asks for nothing, or for a size that is accepted and that its switch, if it is declared,
-- carries.
abbrev pub VnicAgrees : List VirtualSwitchSpec → ManagementVnicSpec → Type 0
VnicAgrees sws v =
    (v.mtu_bytes ≡ pos 0) ⊎ (Accepted v.mtu_bytes × Fits v (switch_of sws (to_lower v.switch_name)))

switch_iff :
    (sw : VirtualSwitchSpec) → (exists is_fatal (check_switch sw) ≡ false) ↔ SwitchAgrees sw
unfolding check_switch
switch_iff sw = (λ h. ground arith, λ h. ground arith)

uplink_iff :
    (v : ManagementVnicSpec) (o : Option VirtualSwitchSpec)
    → (exists is_fatal (elim o [ none ↦ [] | some sw ↦ check_uplink v sw ]) ≡ false) ↔ Fits v o
unfolding check_uplink
uplink_iff v none = (λ h. tt, λ h. refl)
uplink_iff v (some sw) = (λ h. ground arith, λ h. ground arith)

vnic_iff :
    (sws : List VirtualSwitchSpec) (v : ManagementVnicSpec)
    → (exists is_fatal (check_vnic sws v) ≡ false) ↔ VnicAgrees sws v
unfolding check_vnic
vnic_iff sws v =
    let (sound, complete) = uplink_iff v (switch_of sws (to_lower v.switch_name)) in
    (
      λ h. elim (Bool-cases (eqb_ℤ v.mtu_bytes (pos 0))) [
        | inl e ↦ inl (ground arith)
        | inr e ↦ inr (ground arith, sound (ground arith))
      ],
      λ h. elim h [ inl e ↦ rw e refl | inr a ↦ ground (arith, complete a.1) ],
    )

storage_advises :
    (sws : List VirtualSwitchSpec) (v : ManagementVnicSpec)
    → exists is_fatal (check_storage_vnic sws v) ≡ false
unfolding check_storage_vnic
storage_advises sws v = ground arith

pub exists-append :
    (ps qs : List StorageNetworkProblem)
    → exists is_fatal (ps ++ qs) ≡ (exists is_fatal ps || exists is_fatal qs)
exists-append [] qs = refl
exists-append (p ∷ ps) qs = ground (arith, exists-append ps qs)

module _ {A : Type 0} (f : A → List StorageNetworkProblem) (P : A → Type 0)
    (each : (x : A) → (exists is_fatal (f x) ≡ false) ↔ P x) where
  pub collect_iff : (xs : List A) → (exists is_fatal (collect f xs) ≡ false) ↔ All P xs
  unfolding collect
  collect_iff [] = (λ h. tt, λ h. refl)
  collect_iff (x ∷ xs) = (
    λ h. (
      (each x).0 (ground (arith, exists-append (f x) (collect f xs))),
      (collect_iff xs).0 (ground (arith, exists-append (f x) (collect f xs))),
    ),
    λ h. ground (arith, exists-append (f x) (collect f xs), (each x).1 h.0, (collect_iff xs).1 h.1),
  )

All-Unit : (vs : List ManagementVnicSpec) → All (λ v. Unit {0}) vs
All-Unit [] = tt
All-Unit (v ∷ vs) = (tt, All-Unit vs)

-- ValidateMTU finds nothing fatal exactly when every switch declares no MTU or one from 1500 to
-- 9216, and every management vNIC declares none, or one in that range that its switch, where the
-- host declares it, carries.
pub validate_mtu_agreement :
    (n : HostNetworkingSpec)
    → (exists is_fatal (validate_mtu n) ≡ false)
      ↔ (All SwitchAgrees n.switches × All (VnicAgrees n.switches) n.management_vnics)
unfolding validate_mtu
validate_mtu_agreement n =
    let a = collect check_switch n.switches in
    let b = collect (check_vnic n.switches) n.management_vnics in
    let c = collect (check_storage_vnic n.switches) (storage_vnics n) in
    let advice : exists is_fatal c ≡ false =
      (collect_iff (check_storage_vnic n.switches) (λ v. Unit)
          (λ v. (λ h. tt, λ h. storage_advises n.switches v)) (storage_vnics n)).1
        (All-Unit (storage_vnics n)) in
    let (sw_sound, sw_complete) = collect_iff check_switch SwitchAgrees switch_iff n.switches in
    let (v_sound, v_complete) =
      collect_iff (check_vnic n.switches) (VnicAgrees n.switches) (vnic_iff n.switches)
        n.management_vnics in
    (
      λ h. (
        sw_sound (ground (arith, exists-append a (b ++ c), exists-append b c)),
        v_sound (ground (arith, exists-append a (b ++ c), exists-append b c)),
      ),
      λ h. ground (
        arith,
        exists-append a (b ++ c),
        exists-append b c,
        advice,
        sw_complete h.0,
        v_complete h.1,
      ),
    )
