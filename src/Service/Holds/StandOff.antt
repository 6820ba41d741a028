-- ===== src/Service/Holds/StandOff.antt =====
-- The stand-off of agent/service/runner.go after a VM was removed.
use hyperv_control_plane.Prelude.{
  ℕ, ◌+◌, ◌*◌, ◌<◌, ◌≡◌, ◌≢◌, refl, ◌∙◌, ap, pos, ◌-ℤ◌, ltb, ltb_ℤ, lt→ltb, false, Option, none,
  some, List, [], ◌∷◌, ◌⊎◌, inl, inr, arith, All, Bool-cases, Option-cases, Text, text_eq,
  text_eq_iff, to_lower, if◌then◌else◌,
}
use hyperv_control_plane.Types.Job.{Job, remove_vm}
use hyperv_control_plane.Service.Holds.{
  Holds, set, begin_job, end_job, vm_busy, busy_removed, note_vm_removed, clear_vm_removed,
  vm_removed_hold,
}
use hyperv_control_plane.Service.Holds.Busy.{
  Event, begins, ends, asks, removes, lists, step, run, set_same, set_other, vm_busy-held,
  vm_busy-free,
}

abbrev five_minutes : ℕ
five_minutes = 5 * 60 * 1000000000

-- The event neither asks for the VM after the stand-off, nor removes the VM again, nor lists it.
abbrev pub KeepsRemoved : Text → ℕ → Event → Type 0
KeepsRemoved key since (begins job) = Unit
KeepsRemoved key since (ends job) = Unit
KeepsRemoved key since (asks name now) = (to_lower name ≢ key) ⊎ (now < since + five_minutes)
KeepsRemoved key since (removes name now) = to_lower name ≢ key
KeepsRemoved key since (lists names) = All (λ n. to_lower n ≢ key) names

text_ne : (s t : Text) → text_eq s t ≡ false → s ≢ t
text_ne s t h e = cc ((text_eq_iff s t).1 e, h)

in_window :
    (now since : ℕ) → ltb_ℤ (pos now -ℤ pos since) vm_removed_hold ≡ ltb now (since + five_minutes)
unfolding ◌-ℤ◌
in_window now since = ground arith

clear-vm_removed :
    (names : List Text) (s : Holds) (key : Text)
    → All (λ n. to_lower n ≢ key) names
    → (clear_vm_removed s names).vm_removed key ≡ s.vm_removed key
unfolding clear_vm_removed
clear-vm_removed [] s key h = refl
clear-vm_removed (n ∷ ns) s key h =
    clear-vm_removed ns (record s { vm_removed = set s.vm_removed (to_lower n) none }) key h.1
    ∙ set_other s.vm_removed (to_lower n) key none h.0

begin-vm_removed : (s : Holds) (job : Job) → (begin_job s job).0.vm_removed ≡ s.vm_removed
unfolding begin_job
begin-vm_removed s job = elim (Bool-cases (s.in_flight job.id)) [
  | inl a ↦ rw a refl
  | inr a ↦ rw a refl
]

removed-other :
    (o : Option ℕ) (s : Holds) (k key : Text) (now : ℕ)
    → k ≢ key
    → (busy_removed o s k now).1.vm_removed key ≡ s.vm_removed key
unfolding busy_removed
removed-other none s k key now h = refl
removed-other (some a) s k key now h =
    elim (Bool-cases (ltb_ℤ (pos now -ℤ pos a) vm_removed_hold)) [
      | inl e ↦ rw e refl
      | inr e ↦ rw e (set_other s.vm_removed k key none h)
    ]

removed-window :
    (s : Holds) (key : Text) (now since : ℕ)
    → busy_removed (some since) s key now ≡ (
        if ltb now (since + five_minutes)
        then (some remove_vm, s)
        else (none, record s { vm_removed = set s.vm_removed key none }))
unfolding busy_removed
removed-window s key now since = rw (in_window now since) refl

kept_in_window :
    (s : Holds) (key : Text) (now since : ℕ)
    → now < since + five_minutes
    → s.vm_removed key ≡ some since
    → busy_removed (s.vm_removed key) s key now ≡ (some remove_vm, s)
kept_in_window s key now since soon h =
    ap (λ o. busy_removed o s key now) h
    ∙ removed-window s key now since
    ∙ ap
        (λ t.
          if t
          then (some remove_vm, s)
          else (none, record s { vm_removed = set s.vm_removed key none }))
        (lt→ltb now (since + five_minutes) soon)

asks_free :
    (s : Holds) (k : Text) (now : ℕ) (key : Text) (since : ℕ)
    → (k ≢ key) ⊎ (now < since + five_minutes)
    → s.vm_removed key ≡ some since
    → (busy_removed (s.vm_removed k) s k now).1.vm_removed key ≡ some since
asks_free s k now key since (inl other) h = removed-other (s.vm_removed k) s k key now other ∙ h
asks_free s k now key since (inr soon) h = elim (Bool-cases (text_eq k key)) [
  | inr q ↦ removed-other (s.vm_removed k) s k key now (text_ne k key q) ∙ h
  | inl q ↦
      let same = (text_eq_iff k key).0 q in
      ap (λ j. (busy_removed (s.vm_removed j) s j now).1.vm_removed key) same
      ∙ ap (λ r. r.1.vm_removed key) (kept_in_window s key now since soon h)
      ∙ h
]

asks-vm_removed :
    (s : Holds) (name : Text) (now : ℕ) (key : Text) (since : ℕ)
    → (to_lower name ≢ key) ⊎ (now < since + five_minutes)
    → s.vm_removed key ≡ some since
    → (vm_busy s name now).1.vm_removed key ≡ some since
asks-vm_removed s name now key since c h = elim (Option-cases (s.jobs_vms (to_lower name))) [
  | inr (kind, e) ↦ ap (λ r. r.1.vm_removed key) (vm_busy-held s name now kind e) ∙ h
  | inl e ↦
      ap (λ r. r.1.vm_removed key) (vm_busy-free s name now e)
      ∙ asks_free s (to_lower name) now key since c h
]

step-vm_removed :
    (key : Text) (since : ℕ) (s : Holds) (e : Event)
    → KeepsRemoved key since e
    → s.vm_removed key ≡ some since
    → (step s e).vm_removed key ≡ some since
unfolding end_job note_vm_removed
step-vm_removed key since s (begins job) k h = ap (λ m. m key) (begin-vm_removed s job) ∙ h
step-vm_removed key since s (ends job) k h = h
step-vm_removed key since s (asks name now) k h = asks-vm_removed s name now key since k h
step-vm_removed key since s (removes name now) k h =
    set_other s.vm_removed (to_lower name) key (some now) k ∙ h
step-vm_removed key since s (lists names) k h = clear-vm_removed names s key k ∙ h

run-vm_removed :
    (key : Text) (since : ℕ) (es : List Event) (s : Holds)
    → All (KeepsRemoved key since) es
    → s.vm_removed key ≡ some since
    → (run s es).vm_removed key ≡ some since
run-vm_removed key since [] s k h = h
run-vm_removed key since (e ∷ es) s k h =
    run-vm_removed key since es (step s e) k.1 (step-vm_removed key since s e k.0 h)

-- After a VM was removed, and until it is removed again, listed again or asked for after five
-- minutes: with no job that holds it, it is busy with its removal for just those five minutes,
-- under every spelling of its name and whatever jobs begin and end.
pub stand_off :
    (s : Holds) (removed name : Text) (since now : ℕ) (es : List Event)
    → All (KeepsRemoved (to_lower removed) since) es
    → to_lower name ≡ to_lower removed
    → (run (note_vm_removed s removed since) es).jobs_vms (to_lower name) ≡ none
    → (vm_busy (run (note_vm_removed s removed since) es) name now).0
      ≡ (if ltb now (since + 5 * 60 * 1000000000) then some remove_vm else none)
unfolding note_vm_removed
stand_off s removed name since now es k same free =
    let r = run (note_vm_removed s removed since) es in
    let kept =
      run-vm_removed (to_lower removed) since es (note_vm_removed s removed since) k
        (set_same s.vm_removed (to_lower removed) (some since)) in
    ap (λ x. x.0)
      (vm_busy-free r name now free
        ∙ ap (λ o. busy_removed o r (to_lower name) now) (ap r.vm_removed same ∙ kept)
        ∙ removed-window r (to_lower name) now since)
    ∙ ground arith
