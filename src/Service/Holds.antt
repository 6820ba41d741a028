-- ===== src/Service/Holds.antt =====
-- Which jobs hold which VMs in agent/service/runner.go: the bookkeeping of runJobs and of its
-- deferred clean-up, and the stand-off after a VM was removed. Times are in nanoseconds.
pub mod Busy
pub mod StandOff
use hyperv_control_plane.Prelude.{
  ℕ, ◌+◌, ◌*◌, ℤ, pos, ◌-ℤ◌, ltb_ℤ, Bool, true, false, not, ◌&&◌, Option, none, some, List, [], ◌∷◌,
  Text, text_eq, to_lower, if◌then◌else◌,
}
use hyperv_control_plane.Types.Job.{
  Job, JobKind, vm_capture_template, rebuild_pool, repair_pool, cluster_move_vm, fetch_iso,
  vm_export, migrate_vm, copy_vm, migration_pass, migration_cleanup, vm_move_storage, vm_clone,
  vm_discard_saved_state, vm_discard_saved_state_and_start, vm_apply_check, vm_remove_check,
  remove_vm, other_kind,
}

abbrev minute : ℕ
minute = 60 * 1000000000

abbrev job_timeout : ℕ
job_timeout = 10 * minute

abbrev sysprep_deadline : ℕ
sysprep_deadline = 60 * minute

abbrev capture_copy_allowance : ℕ
capture_copy_allowance = 30 * minute

abbrev copy_budget : ℕ
copy_budget = 720 * minute

unfoldable pub capture_budget : Bool → ℕ
capture_budget generalise =
    if generalise then sysprep_deadline + capture_copy_allowance else capture_copy_allowance

unfoldable pub job_timeout_for : Job → ℕ
unfolding capture_budget
job_timeout_for job = elim job.kind [
  | vm_capture_template ↦ capture_budget job.generalise
  | rebuild_pool ↦ 30 * minute
  | repair_pool ↦ 30 * minute
  | cluster_move_vm ↦ 30 * minute
  | fetch_iso ↦ 30 * minute
  | vm_export ↦ 30 * minute
  | migrate_vm ↦ copy_budget
  | copy_vm ↦ copy_budget
  | migration_pass ↦ 720 * minute
  | migration_cleanup ↦ 30 * minute
  | _ ↦ job_timeout
]

unfoldable pub job_holds_vm : JobKind → Bool
job_holds_vm vm_move_storage = true
job_holds_vm migrate_vm = true
job_holds_vm cluster_move_vm = true
job_holds_vm vm_clone = true
job_holds_vm vm_capture_template = true
job_holds_vm vm_export = true
job_holds_vm vm_discard_saved_state = true
job_holds_vm vm_discard_saved_state_and_start = true
job_holds_vm vm_apply_check = true
job_holds_vm vm_remove_check = true
job_holds_vm remove_vm = true
job_holds_vm copy_vm = true
job_holds_vm _ = false

-- The maps that jobsMu guards.
pub record Holds : Type 0 where
  pub in_flight : Text → Bool
  pub jobs_vms : Text → Option JobKind
  pub vm_removed : Text → Option ℕ

abbrev pub vm_removed_hold : ℤ
vm_removed_hold = pos (5 * minute)

abbrev pub no_vm : Text → Bool
no_vm [] = true
no_vm (c ∷ s) = false

abbrev pub set : {A : Type 0} → (Text → A) → Text → A → Text → A
set m k a j = if text_eq k j then a else m j

-- What runJobs does with one job before it starts it, and whether it does start it.
unfoldable pub begin_job : Holds → Job → Holds × Bool
unfolding job_holds_vm
begin_job s job = if s.in_flight job.id then (s, false) else (
  record {
    in_flight = set s.in_flight job.id true;
    jobs_vms =
        if not (no_vm job.vm) && job_holds_vm job.kind
        then set s.jobs_vms (to_lower job.vm) (some job.kind)
        else s.jobs_vms;
    vm_removed = s.vm_removed;
  },
  true,
)

-- The deferred function of a job that ends, however it ends.
unfoldable pub end_job : Holds → Job → Holds
end_job s job = record {
  in_flight = set s.in_flight job.id false;
  jobs_vms = if not (no_vm job.vm) then set s.jobs_vms (to_lower job.vm) none else s.jobs_vms;
  vm_removed = s.vm_removed;
}

unfoldable pub busy_removed : Option ℕ → Holds → Text → ℕ → Option JobKind × Holds
busy_removed none s key now = (none, s)
busy_removed (some removed_at) s key now =
    if ltb_ℤ (pos now -ℤ pos removed_at) vm_removed_hold
    then (some remove_vm, s)
    else (none, record s { vm_removed = set s.vm_removed key none })

unfoldable pub busy_held : Option JobKind → Holds → Text → ℕ → Option JobKind × Holds
unfolding busy_removed
busy_held (some kind) s key now = (some kind, s)
busy_held none s key now = busy_removed (s.vm_removed key) s key now

unfoldable pub vm_busy : Holds → Text → ℕ → Option JobKind × Holds
unfolding busy_held
vm_busy s name now = busy_held (s.jobs_vms (to_lower name)) s (to_lower name) now

unfoldable pub note_vm_removed : Holds → Text → ℕ → Holds
note_vm_removed s name now = record s { vm_removed = set s.vm_removed (to_lower name) (some now) }

unfoldable pub clear_vm_removed : Holds → List Text → Holds
clear_vm_removed s [] = s
clear_vm_removed s (name ∷ names) =
    clear_vm_removed (record s { vm_removed = set s.vm_removed (to_lower name) none }) names
