-- ===== src/Types/Runbook.antt =====
-- Recovery runbooks of api/types/runbook.go: a run's state as the centre keeps it, and what is read
-- off it. A state or a kind that is none of the constants is kept as its text. Times and durations
-- are in nanoseconds. The member's plan (networks, recovery point) and the test isolation are not
-- modelled.
pub mod Progress
use hyperv_control_plane.Prelude.{
  ℕ, suc, ◌*◌, ℤ, pos, pos_part, ltb_ℤ, Bool, true, false, not, ◌||◌, Option, none, some, List, [],
  ◌∷◌, Text, if◌then◌else◌,
}

pub data HealthCheckKind : Type 0 where
  health_check_none : HealthCheckKind
  health_check_heartbeat : HealthCheckKind
  health_check_tcp : HealthCheckKind
  health_check_icmp : HealthCheckKind
  health_check_script : HealthCheckKind
  health_check_unknown : Text → HealthCheckKind

pub record HealthCheckConfig : Type 0 where
  pub kind : HealthCheckKind
  pub address : Text
  pub port : ℤ  -- int, as the other numbers here
  pub script_path : Text
  pub expected_exit_code : ℤ
  pub interval_seconds : ℤ
  pub consecutive_successes : ℤ

pub data GateProblem : Type 0 where
  needs_port : GateProblem
  needs_script : GateProblem
  unknown_check : Text → GateProblem

abbrev is_blank : Text → Bool
is_blank [] = true
is_blank (c ∷ s) = false

-- `Valid`: whether the gate is usable, and why not.
unfoldable pub valid_kind : HealthCheckKind → ℤ → Text → Bool × Option GateProblem
valid_kind health_check_none port path = (true, none)
valid_kind health_check_heartbeat port path = (true, none)
valid_kind health_check_icmp port path = (true, none)
valid_kind health_check_tcp port path =
    if not (ltb_ℤ (pos 0) port) || ltb_ℤ (pos 65535) port
    then (false, some needs_port)
    else (true, none)
valid_kind health_check_script port path =
    if is_blank path then (false, some needs_script) else (true, none)
valid_kind (health_check_unknown name) port path = (false, some (unknown_check name))

unfoldable pub valid : HealthCheckConfig → Bool × Option GateProblem
unfolding valid_kind
valid h = valid_kind h.kind h.port h.script_path

pub data RunState : Type 0 where
  runbook_pending : RunState
  runbook_running : RunState
  runbook_paused : RunState
  runbook_tearing_down : RunState
  runbook_succeeded : RunState
  runbook_failed : RunState
  runbook_cancelled : RunState
  runbook_unknown : Text → RunState

pub data GroupState : Type 0 where
  group_pending : GroupState
  group_failing_over : GroupState
  group_addressing : GroupState
  group_gating : GroupState
  group_done : GroupState
  group_failed : GroupState
  group_unknown : Text → GroupState

pub data MemberState : Type 0 where
  member_pending : MemberState
  member_preparing : MemberState
  member_failing_over : MemberState
  member_addressing : MemberState
  member_gating : MemberState
  member_done : MemberState
  member_failed : MemberState
  member_tearing_down : MemberState
  member_torn_down : MemberState
  member_unknown : Text → MemberState

pub record RunbookMemberRun : Type 0 where
  pub vm_name : Text
  pub state : MemberState
  pub message : Text
  pub target_host : Text
  pub source_host : Text
  pub job_id : Text
  pub gate_successes : ℤ
  pub last_probe_at : ℕ
  pub started_at : ℕ
  pub ended_at : ℕ

pub record RunbookGroupRun : Type 0 where
  pub name : Text
  pub state : GroupState
  pub message : Text
  pub members : List RunbookMemberRun
  pub gate : HealthCheckConfig
  pub timeout_seconds : ℤ
  pub continue_on_member_failure : Bool
  pub started_at : ℕ
  pub ended_at : ℕ

pub record RunbookRun : Type 0 where
  pub id : Text
  pub runbook_name : Text
  pub mode : Text
  pub state : RunState
  pub message : Text
  pub groups : List RunbookGroupRun
  pub test_active : Bool

unfoldable pub run_active : RunState → Bool
run_active runbook_pending = true
run_active runbook_running = true
run_active runbook_tearing_down = true
run_active _ = false

unfoldable pub run_terminal : RunState → Bool
run_terminal runbook_succeeded = true
run_terminal runbook_failed = true
run_terminal runbook_cancelled = true
run_terminal _ = false

unfoldable pub group_finished : GroupState → Bool
group_finished group_done = true
group_finished group_failed = true
group_finished _ = false

unfoldable pub first_group : ℕ → List RunbookGroupRun → ℕ × Bool
unfolding group_finished
first_group i [] = (0, false)
first_group i (g ∷ gs) =
    let rest = first_group (suc i) gs in if group_finished g.state then rest else (i, true)

unfoldable pub current_group : RunbookRun → ℕ × Bool
unfolding first_group
current_group r = first_group 0 r.groups

unfoldable pub member_finished : MemberState → Bool
member_finished member_done = true
member_finished member_failed = true
member_finished _ = false

unfoldable pub required_successes : HealthCheckConfig → ℤ
required_successes h =
    if ltb_ℤ (pos 1) h.consecutive_successes then h.consecutive_successes else pos 1
