-- ===== src/Reconcile/Transient.antt =====
-- agent/reconcile/transient.go, and `condition` and `advisoryCondition` of
-- agent/reconcile/reconcile.go. An error is its text and the sentinels that errors.Is finds in it;
-- a message is the constructor of its format, with the values that it prints. A time is a number
-- of nanoseconds.
pub mod Window
use hyperv_control_plane.Prelude.{
  ℕ, ◌+◌, ◌*◌, ℤ, pos, ◌-ℤ◌, ltb, ltb_ℤ, Bool, true, false, ◌||◌, ◌&&◌, Option, none, some, Text,
  codes, text_eq, to_lower, contains, if◌then◌else◌,
}

pub data Sentinel : Type 0 where
  saved_state_incompatible : Sentinel
  deadline_exceeded : Sentinel
  canceled : Sentinel
  hyperv_unavailable : Sentinel

pub record Failure : Type 0 where
  pub text : Text
  pub is_error : Sentinel → Bool

-- What `transientSignature` answers; the empty text is `none`.
pub data Cause : Type 0 where
  disk_merging : Cause
  disk_held : Cause
  volume_offline : Cause
  replica_not_ready : Cause
  member_unreachable : Cause
  no_disks_visible : Cause

unfoldable pub transient_signature : Text → Option Cause
unfolding to_lower contains
transient_signature text =
    let m = to_lower text in
    if contains (codes ".avhdx") m
      && (contains (codes "cannot find the file") m || contains (codes "not found") m)
    then some disk_merging
    else if contains (codes "another process") m || contains (codes "being used") m
    then some disk_held
    else if contains (codes "to come back online") m
    then some volume_offline
    else if contains (codes "failed to enable replication") m
    then some replica_not_ready
    else if contains (codes "cluster service is not running") m
        || (contains (codes "endpoint mapper") m
            || (contains (codes "no such host is known") m && contains (codes "cluster") m))
    then some member_unreachable
    else if contains (codes "no s2d pool exists yet") m || contains (codes "poolable disk") m
    then some no_disks_visible
    else none

-- The map `first`, from a condition type to the time of its first transient error.
abbrev pub Tracker : Type 0
Tracker = Text → Option ℕ

abbrev pub new_transient_tracker : Tracker
new_transient_tracker c = none

-- two minutes
abbrev pub transient_window : ℤ
transient_window = pos (120 * 1000000000)

-- `observe`, after it has looked the type up.
unfoldable pub observe_at : Option ℕ → Tracker → Text → ℕ → Tracker × ℤ × Bool
observe_at none t c now = (λ d. if text_eq c d then some now else t d, pos 0, true)
observe_at (some start) t c now =
    let elapsed = pos now -ℤ pos start in (t, elapsed, ltb_ℤ elapsed transient_window)

unfoldable pub observe : Tracker → Text → ℕ → Tracker × ℤ × Bool
unfolding observe_at
observe t c now = observe_at (t c) t c now

unfoldable pub clear : Tracker → Text → Tracker
clear t c d = if text_eq c d then none else t d

pub data Outcome : Type 0 where
  unchanged : Outcome
  created_outcome : Outcome
  updated_outcome : Outcome

pub data Reason : Type 0 where
  reason_saved_state_incompatible : Reason
  not_attempted : Reason
  reason_hyperv_unavailable : Reason
  settling : Reason
  apply_failed : Reason
  created : Reason
  updated : Reason
  already_configured : Reason
  not_applied : Reason

pub data Message : Type 0 where
  error_text : Text → Message
  ran_out_of_time : Message
  retrying : Cause → ℤ → Message
  still_failing : Text → ℤ → Message
  created_to_match : Message
  adjusted_to_match : Message
  already_matches : Message
  best_effort : Text → Message

pub record Condition : Type 0 where
  pub condition_type : Text
  pub last_transition_time : ℕ
  pub status : Bool
  pub reason : Reason
  pub message : Message

-- The case of a known signature.
unfoldable pub settle : Tracker → Text → ℕ → ℕ → Failure → Cause → Condition × Tracker
unfolding observe
settle t c stamp now f what =
    let (t', elapsed, within) = observe t c now in
    (
      record {
        condition_type = c;
        last_transition_time = stamp;
        status = within;
        reason = if within then settling else apply_failed;
        message = if within then retrying what elapsed else still_failing f.text elapsed;
      },
      t',
    )

unfoldable pub success_reason : Outcome → Reason × Message
success_reason unchanged = (already_configured, already_matches)
success_reason created_outcome = (created, created_to_match)
success_reason updated_outcome = (updated, adjusted_to_match)

-- `stamp` and `now` are the two readings of the clock, for the condition and for the tracker.
unfoldable pub condition : Tracker → Text → ℕ → ℕ → Outcome → Option Failure → Condition × Tracker
unfolding settle success_reason clear transient_signature
condition t c stamp now out none = (
  record {
    condition_type = c;
    last_transition_time = stamp;
    status = true;
    reason = (success_reason out).0;
    message = (success_reason out).1;
  },
  clear t c,
)
condition t c stamp now out (some f) =
    let failed : Reason → Message → Condition = λ r m. record {
      condition_type = c;
      last_transition_time = stamp;
      status = false;
      reason = r;
      message = m;
    } in
    if f.is_error saved_state_incompatible
    then (failed reason_saved_state_incompatible (error_text f.text), t)
    else if f.is_error deadline_exceeded || f.is_error canceled
    then (failed not_attempted ran_out_of_time, t)
    else if f.is_error hyperv_unavailable
    then (failed reason_hyperv_unavailable (error_text f.text), t)
    else elim (transient_signature f.text) [
      | some what ↦ settle t c stamp now f what
      | none ↦ (failed apply_failed (error_text f.text), clear t c)
    ]

unfoldable pub advisory_condition :
    Tracker → Text → ℕ → ℕ → Outcome → Option Failure → Condition × Tracker
unfolding condition
advisory_condition t c stamp now out none = condition t c stamp now out none
advisory_condition t c stamp now out (some f) =
    let (k, t') = condition t c stamp now out (some f) in
    (record k { reason = not_applied; message = best_effort f.text }, t')
