-- ===== src/Types/Mtu.antt =====
-- api/types/mtu.go
pub mod Agreement
pub mod Jumbo
use hyperv_control_plane.Prelude.{
  ℕ, ℤ, pos, ltb_ℤ, eqb_ℤ, ◌+ℤ◌, Bool, true, false, not, ◌||◌, ◌&&◌, Option, none, some, List, [],
  ◌∷◌, ◌++◌, Text, to_lower, if◌then◌else◌,
}
use hyperv_control_plane.Types.Networking.{
  VirtualSwitchSpec, ManagementVnicSpec, HostNetworkingSpec, switch_of, storage_vnics,
  StorageNetworkProblem, switch_mtu_out_of_range, vnic_mtu_out_of_range, mtu_above_uplink,
  storage_mtu_undeclared,
}

abbrev pub default_jumbo_mtu : ℤ
default_jumbo_mtu = pos 9000

abbrev pub standard_mtu : ℤ
standard_mtu = pos 1500

abbrev pub min_jumbo_mtu : ℤ
min_jumbo_mtu = pos 1501

abbrev out_of_range : ℤ → Bool
out_of_range mtu = ltb_ℤ mtu standard_mtu || ltb_ℤ (pos 9216) mtu

-- The body of the loop over the switches.
check_switch : VirtualSwitchSpec → List StorageNetworkProblem
check_switch sw =
    if not (eqb_ℤ sw.mtu_bytes (pos 0)) && out_of_range sw.mtu_bytes
    then (record { vnic = []; why = switch_mtu_out_of_range sw.name sw.mtu_bytes; fatal = true })
      ∷ []
    else []

check_uplink : ManagementVnicSpec → VirtualSwitchSpec → List StorageNetworkProblem
check_uplink v sw =
    let undeclared = eqb_ℤ sw.mtu_bytes (pos 0) in
    let uplink = if undeclared then standard_mtu else sw.mtu_bytes in
    if ltb_ℤ uplink v.mtu_bytes
    then (record {
      vnic = v.name;
      why = mtu_above_uplink v.mtu_bytes sw.name uplink (not undeclared);
      fatal = true;
    })
      ∷ []
    else []

-- The body of the loop over the management vNICs.
check_vnic : List VirtualSwitchSpec → ManagementVnicSpec → List StorageNetworkProblem
unfolding check_uplink
check_vnic sws v =
    if eqb_ℤ v.mtu_bytes (pos 0)
    then []
    else if out_of_range v.mtu_bytes
    then (record { vnic = v.name; why = vnic_mtu_out_of_range v.mtu_bytes; fatal = true }) ∷ []
    else elim (switch_of sws (to_lower v.switch_name)) [ none ↦ [] | some sw ↦ check_uplink v sw ]

-- The body of the loop over the storage vNICs.
check_storage_vnic : List VirtualSwitchSpec → ManagementVnicSpec → List StorageNetworkProblem
check_storage_vnic sws v = elim (switch_of sws (to_lower v.switch_name)) [
  | none ↦ []
  | some sw ↦
      if ltb_ℤ sw.mtu_bytes min_jumbo_mtu
      then []
      else if eqb_ℤ v.mtu_bytes (pos 0)
      then (record {
        vnic = v.name;
        why = storage_mtu_undeclared sw.name sw.mtu_bytes;
        fatal = false;
      })
        ∷ []
      else []
]

unfoldable pub collect {ℓ} :
    {A : Type ℓ} → (A → List StorageNetworkProblem) → List A → List StorageNetworkProblem
collect f [] = []
collect f (x ∷ xs) = f x ++ collect f xs

unfoldable pub validate_mtu : HostNetworkingSpec → List StorageNetworkProblem
unfolding collect check_switch check_vnic check_storage_vnic
validate_mtu n =
    collect check_switch n.switches
    ++ (collect (check_vnic n.switches) n.management_vnics
        ++ collect (check_storage_vnic n.switches) (storage_vnics n))
