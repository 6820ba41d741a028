-- ===== src/Store/Desired.antt =====
-- The VMs of the last-honoured desired state in agent/store/store.go. A VM is opaque, but for the
-- name that it carries.
use hyperv_control_plane.Prelude.{
  ◌==◌, ==_iff, ◌≡◌, refl, sym, ap, ◌≤◌, not, Option, none, some, List, [], ◌∷◌, inl, inr, arith,
  length, select, Bool-cases, Text, equal_fold, if◌then◌else◌,
}
use hyperv_control_plane.Store.Journal.{Stored, json, corrupt, Error, unmarshal}

-- The value under the key `vms`.
abbrev pub Desired : Type 0 → Type 0
Desired Vm = Option (Stored (List Vm))

module _ {Vm : Type 0} (vm_name : Vm → Text) where
  unfoldable pub save_desired_vms : List Vm → Desired Vm → Desired Vm
  save_desired_vms vms st = some (json vms)

  -- The set, `none` for ok = false, and the error.
  unfoldable pub load_desired_vms : Desired Vm → Option (List Vm) × Option Error
  load_desired_vms none = (none, none)
  load_desired_vms (some corrupt) = (none, some unmarshal)
  load_desired_vms (some (json vms)) = (some vms, none)

  -- The filter of `DropDesiredVM`.
  unfoldable pub without : Text → List Vm → List Vm
  without name vms = select (λ vm. not (equal_fold (vm_name vm) name)) vms

  unfoldable pub drop_loaded :
      Text → Option (List Vm) → Option Error → Desired Vm → Desired Vm × Option Error
  unfolding save_desired_vms without
  drop_loaded name ok (some e) st = (st, some e)
  drop_loaded name none none st = (st, none)
  drop_loaded name (some vms) none st =
      let kept = without name vms in
      if length kept == length vms then (st, none) else (save_desired_vms kept st, none)

  unfoldable pub drop_desired_vm : Text → Desired Vm → Desired Vm × Option Error
  unfolding drop_loaded
  drop_desired_vm name st = let (ok, error) = load_desired_vms st in drop_loaded name ok error st

  length-without : (name : Text) (vms : List Vm) → length (without name vms) ≤ length vms
  unfolding without
  length-without name [] = omega arith
  length-without name (vm ∷ vms) = ground (arith, length-without name vms)

  -- A filter that drops nothing keeps the list.
  without_all :
      (name : Text) (vms : List Vm)
      → length (without name vms) ≡ length vms
      → without name vms ≡ vms
  unfolding without
  without_all name [] h = refl
  without_all name (vm ∷ vms) h = elim (Bool-cases (equal_fold (vm_name vm) name)) [
    | inl e ↦ absurd (ground (arith, length-without name vms, rw e at h))
    | inr e ↦ rw e (ap (λ r. vm ∷ r) (without_all name vms (ground (arith, rw e at h))))
  ]

  abbrev pub loaded_without : Text → Option (List Vm) → Option (List Vm)
  loaded_without name none = none
  loaded_without name (some vms) = some (without name vms)

  -- After a VM is dropped, the set that is loaded is the old set without the VMs whose name folds
  -- to the given one, in its order; a set that is missing or corrupt stays so, with its error.
  pub drop_desired_vm-load :
      (name : Text) (st : Desired Vm)
      → let (st', error) = drop_desired_vm name st in
        ((load_desired_vms st').0 ≡ loaded_without name (load_desired_vms st).0)
        × ((load_desired_vms st').1 ≡ (load_desired_vms st).1)
        × (error ≡ (load_desired_vms st).1)
  unfolding drop_desired_vm drop_loaded load_desired_vms save_desired_vms
  drop_desired_vm-load name none = (refl, refl, refl)
  drop_desired_vm-load name (some corrupt) = (refl, refl, refl)
  drop_desired_vm-load name (some (json vms)) =
      elim (Bool-cases (length (without name vms) == length vms)) [
        | inl e ↦
            let kept = without_all name vms ((==_iff _ _).0 e) in
            rw e (ap some (sym kept), refl, refl)
        | inr e ↦ rw e (refl, refl, refl)
      ]
