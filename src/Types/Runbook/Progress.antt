-- ===== src/Types/Runbook/Progress.antt =====
-- Where a run of a runbook stands (api/types/runbook.go).
use hyperv_control_plane.Prelude.{
  ℕ, suc, ◌+◌, ◌≡◌, refl, ap, Bool, true, false, List, [], ◌∷◌, ◌++◌, length, ◌⊎◌, inl, inr, arith,
  All, Bool-cases,
}
use hyperv_control_plane.Types.Runbook.{
  RunbookGroupRun, RunbookRun, group_finished, first_group, current_group,
}

-- The answer is the number of finished groups before the first that is not, or that there is none.
abbrev pub Stands : List RunbookGroupRun → ℕ × Bool → Type 0
Stands gs (i, found) =
    ((found ≡ false) × All (λ g. group_finished g.state ≡ true) gs)
    ⊎ ((found ≡ true)
        × ((before : List RunbookGroupRun) × (g : RunbookGroupRun) × (after : List RunbookGroupRun)
            × (gs ≡ before ++ g ∷ after)
            × (length before ≡ i)
            × All (λ b. group_finished b.state ≡ true) before
            × (group_finished g.state ≡ false)))

-- The same, for groups that are counted from `k`.
abbrev StandsFrom : ℕ → List RunbookGroupRun → ℕ × Bool → Type 0
StandsFrom k gs (i, found) =
    ((found ≡ false) × All (λ g. group_finished g.state ≡ true) gs)
    ⊎ ((found ≡ true)
        × ((before : List RunbookGroupRun) × (g : RunbookGroupRun) × (after : List RunbookGroupRun)
            × (gs ≡ before ++ g ∷ after)
            × (k + length before ≡ i)
            × All (λ b. group_finished b.state ≡ true) before
            × (group_finished g.state ≡ false)))

first_group-Stands : (k : ℕ) (gs : List RunbookGroupRun) → StandsFrom k gs (first_group k gs)
unfolding first_group
first_group-Stands k [] = inl (refl, tt)
first_group-Stands k (g ∷ gs) = elim (Bool-cases (group_finished g.state)) [
  | inr e ↦ rw e (inr (refl, ([], g, gs, refl, omega arith, tt, e)))
  | inl e ↦ rw e (elim (first_group-Stands (suc k) gs) [
    | inl (none_left, h) ↦ inl (none_left, (refl, h))
    | inr (found, (before, c, after, split, count, h, still_open)) ↦ inr (
      found,
      (g ∷ before, c, after, ap (λ r. g ∷ r) split, omega (arith, count), (e, h), still_open),
    )
  ])
]

-- CurrentGroup finds the first group that is neither done nor failed, with every group before it
-- finished; it finds none just when all groups are finished.
pub current_group-Stands : (r : RunbookRun) → Stands r.groups (current_group r)
unfolding current_group
current_group-Stands r = elim (first_group-Stands 0 r.groups) [
  | inl h ↦ inl h
  | inr (found, (before, c, after, split, count, h, still_open)) ↦
      inr (found, (before, c, after, split, omega (arith, count), h, still_open))
]
