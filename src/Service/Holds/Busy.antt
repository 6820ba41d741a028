-- ===== src/Service/Holds/Busy.antt =====
-- How long a VM stays busy, over sequences of what agent/service/runner.go does to its holds.
use hyperv_control_plane.Prelude.{
  ℕ, ◌≡◌, ◌≢◌, refl, sym, ◌∙◌, ap, pos, ◌-ℤ◌, ltb_ℤ, true, false, not, Option, none, some, List, [],
  ◌∷◌, inl, inr, All, Bool-cases, Text, text_eq, text_eq_iff, text_eq_refl, to_lower, ◌&&◌,
}
use hyperv_control_plane.Types.Job.{Job, JobKind}
use hyperv_control_plane.Service.Holds.{
  Holds, set, no_vm, begin_job, end_job, vm_busy, busy_held, busy_removed, note_vm_removed,
  clear_vm_removed, job_holds_vm, vm_removed_hold,
}

-- What happens to the holds, in the order in which jobsMu serialises it.
pub data Event : Type 0 where
  begins : Job → Event
  ends : Job → Event
  asks : Text → ℕ → Event
  removes : Text → ℕ → Event
  lists : List Text → Event

abbrev pub step : Holds → Event → Holds
step s (begins job) = (begin_job s job).0
step s (ends job) = end_job s job
step s (asks name now) = (vm_busy s name now).1
step s (removes name now) = note_vm_removed s name now
step s (lists names) = clear_vm_removed s names

abbrev pub run : Holds → List Event → Holds
run s [] = s
run s (e ∷ es) = run (step s e) es

pub text_neq : (c d : Text) → c ≢ d → text_eq c d ≡ false
text_neq c d h = elim (Bool-cases (text_eq c d)) [
  | inl e ↦ absurd (h ((text_eq_iff c d).0 e))
  | inr e ↦ e
]

-- The event does not end a job that names the VM.
abbrev pub KeepsHold : Text → Event → Type 0
KeepsHold key (ends job) = to_lower job.vm ≢ key
KeepsHold key (begins job) = Unit
KeepsHold key (asks name now) = Unit
KeepsHold key (removes name now) = Unit
KeepsHold key (lists names) = Unit

abbrev pub Held : Text → Holds → Type 0
Held key s = (kind : JobKind) × (s.jobs_vms key ≡ some kind)

clear-jobs_vms : (names : List Text) (s : Holds) → (clear_vm_removed s names).jobs_vms ≡ s.jobs_vms
unfolding clear_vm_removed
clear-jobs_vms [] s = refl
clear-jobs_vms (name ∷ names) s = clear-jobs_vms names _

removed-jobs_vms :
    (o : Option ℕ) (s : Holds) (key : Text) (now : ℕ)
    → (busy_removed o s key now).1.jobs_vms ≡ s.jobs_vms
unfolding busy_removed
removed-jobs_vms none s key now = refl
removed-jobs_vms (some a) s key now = elim (Bool-cases (ltb_ℤ (pos now -ℤ pos a) vm_removed_hold)) [
  | inl e ↦ rw e refl
  | inr e ↦ rw e refl
]

held-jobs_vms :
    (o : Option JobKind) (s : Holds) (key : Text) (now : ℕ)
    → (busy_held o s key now).1.jobs_vms ≡ s.jobs_vms
unfolding busy_held
held-jobs_vms (some kind) s key now = refl
held-jobs_vms none s key now = removed-jobs_vms (s.vm_removed key) s key now

asks-jobs_vms : (s : Holds) (name : Text) (now : ℕ) → (vm_busy s name now).1.jobs_vms ≡ s.jobs_vms
unfolding vm_busy
asks-jobs_vms s name now = held-jobs_vms (s.jobs_vms (to_lower name)) s (to_lower name) now

pub set_same : {A : Type 0} (m : Text → A) (k : Text) (a : A) → set m k a k ≡ a
set_same m k a = rw (text_eq_refl k) refl

pub set_other : {A : Type 0} (m : Text → A) (k j : Text) (a : A) → k ≢ j → set m k a j ≡ m j
set_other m k j a h = rw (text_neq k j h) refl

begins-Held : (key : Text) (s : Holds) (job : Job) → Held key s → Held key (begin_job s job).0
unfolding begin_job
begins-Held key s job (kind, h) = elim (Bool-cases (s.in_flight job.id)) [
  | inl a ↦ rw a (kind, h)
  | inr a ↦ elim (Bool-cases (not (no_vm job.vm) && job_holds_vm job.kind)) [
    | inl b ↦ elim (Bool-cases (text_eq (to_lower job.vm) key)) [
      | inl c ↦ rw (a, b, c) (job.kind, refl)
      | inr c ↦ rw (a, b, c) (kind, h)
    ]
    | inr b ↦ rw (a, b) (kind, h)
  ]
]

ends-jobs_vms :
    (key : Text) (s : Holds) (job : Job)
    → to_lower job.vm ≢ key
    → (end_job s job).jobs_vms key ≡ s.jobs_vms key
unfolding end_job
ends-jobs_vms key s job k = elim (Bool-cases (no_vm job.vm)) [
  | inl a ↦ rw a refl
  | inr a ↦ rw a (set_other s.jobs_vms (to_lower job.vm) key none k)
]

step-Held :
    (key : Text) (s : Holds) (e : Event) → KeepsHold key e → Held key s → Held key (step s e)
unfolding note_vm_removed
step-Held key s (begins job) k h = begins-Held key s job h
step-Held key s (ends job) k (kind, h) = (kind, ends-jobs_vms key s job k ∙ h)
step-Held key s (asks name now) k (kind, h) = (kind, ap (λ m. m key) (asks-jobs_vms s name now) ∙ h)
step-Held key s (removes name now) k h = h
step-Held key s (lists names) k (kind, h) = (kind, ap (λ m. m key) (clear-jobs_vms names s) ∙ h)

run-Held :
    (key : Text) (es : List Event) (s : Holds)
    → All (KeepsHold key) es
    → Held key s
    → Held key (run s es)
run-Held key [] s k h = h
run-Held key (e ∷ es) s k h = run-Held key es (step s e) k.1 (step-Held key s e k.0 h)

begin-Held :
    (s : Holds) (job : Job)
    → s.in_flight job.id ≡ false
    → no_vm job.vm ≡ false
    → job_holds_vm job.kind ≡ true
    → Held (to_lower job.vm) (begin_job s job).0
unfolding begin_job
begin-Held s job a b c =
    rw (a, b, c) (job.kind, set_same s.jobs_vms (to_lower job.vm) (some job.kind))

pub vm_busy-held :
    (s : Holds) (name : Text) (now : ℕ) (kind : JobKind)
    → s.jobs_vms (to_lower name) ≡ some kind
    → vm_busy s name now ≡ (some kind, s)
unfolding vm_busy busy_held
vm_busy-held s name now kind h = ap (λ o. busy_held o s (to_lower name) now) h

pub vm_busy-free :
    (s : Holds) (name : Text) (now : ℕ)
    → s.jobs_vms (to_lower name) ≡ none
    → vm_busy s name now ≡ busy_removed (s.vm_removed (to_lower name)) s (to_lower name) now
unfolding vm_busy busy_held
vm_busy-free s name now h = ap (λ o. busy_held o s (to_lower name) now) h

-- From the start of a job that holds its VM, and until the end of a job that names the VM, the VM
-- is busy under every spelling of its name, whatever other jobs begin and end.
pub busy_until_end :
    (s : Holds) (job : Job) (es : List Event) (name : Text) (now : ℕ)
    → s.in_flight job.id ≡ false
    → no_vm job.vm ≡ false
    → job_holds_vm job.kind ≡ true
    → All (KeepsHold (to_lower job.vm)) es
    → to_lower name ≡ to_lower job.vm
    → (vm_busy (run (begin_job s job).0 es) name now).0 ≢ none
busy_until_end s job es name now a b c k same busy =
    let r = run (begin_job s job).0 es in
    let (kind, h) = run-Held (to_lower job.vm) es (begin_job s job).0 k (begin-Held s job a b c) in
    cc (busy, ap (λ x. x.0) (vm_busy-held r name now kind (ap r.jobs_vms same ∙ h)))

-- The end of any job that names a VM releases it, also when another job that is still in flight
-- holds it: unless the VM was removed lately, it is then not busy.
pub hold_lost :
    (s : Holds) (holder job : Job) (now : ℕ)
    → to_lower job.vm ≡ to_lower holder.vm
    → no_vm job.vm ≡ false
    → job.id ≢ holder.id
    → s.in_flight holder.id ≡ true
    → s.vm_removed (to_lower holder.vm) ≡ none
    → ((end_job s job).in_flight holder.id ≡ true)
      × ((vm_busy (end_job s job) holder.vm now).0 ≡ none)
unfolding end_job busy_removed
hold_lost s holder job now same b ids running away =
    let s' = end_job s job in
    let freed : s'.jobs_vms (to_lower holder.vm) ≡ none = rw b (
      ap (set s.jobs_vms (to_lower job.vm) none) (sym same)
      ∙ set_same s.jobs_vms (to_lower job.vm) none) in
    (
      set_other s.in_flight job.id holder.id false ids ∙ running,
      ap (λ x. x.0)
          (vm_busy-free s' holder.vm now freed
            ∙ ap (λ o. busy_removed o s' (to_lower holder.vm) now) away),
    )
