-- ===== src/Types/Job.antt =====
-- Jobs of api/types/desiredstate.go: their states, and of their kinds those that
-- agent/service/runner.go tells apart.
use hyperv_control_plane.Prelude.{Bool, true, false, Text}

pub data JobState : Type 0 where
  pending : JobState
  running : JobState
  succeeded : JobState
  failed : JobState
  cancelled : JobState

unfoldable pub terminal : JobState → Bool
terminal pending = false
terminal running = false
terminal succeeded = true
terminal failed = true
terminal cancelled = true

pub data JobKind : Type 0 where
  vm_capture_template : JobKind
  rebuild_pool : JobKind
  repair_pool : JobKind
  cluster_move_vm : JobKind
  fetch_iso : JobKind
  vm_export : JobKind
  migrate_vm : JobKind
  copy_vm : JobKind
  migration_pass : JobKind
  migration_cleanup : JobKind
  vm_move_storage : JobKind
  vm_clone : JobKind
  vm_discard_saved_state : JobKind
  vm_discard_saved_state_and_start : JobKind
  vm_apply_check : JobKind
  vm_remove_check : JobKind
  remove_vm : JobKind
  other_kind : Text → JobKind

-- A job, with the operands that the agent's loop itself reads: `vm`, empty where it is missing, and
-- whether `generalise` is "true".
pub record Job : Type 0 where
  pub id : Text
  pub kind : JobKind
  pub vm : Text
  pub generalise : Bool
