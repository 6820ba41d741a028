-- ===== src/Reconcile/Examples.antt =====
-- The theorems on agent/reconcile at small inputs, and runs of the code.
use hyperv_control_plane.Prelude.{
  List, ◌*◌, ◌≡◌, ◌≢◌, ◌↔◌, refl, pos, Bool, true, false, none, some, [], ◌∷◌, inr, arith, Text,
  codes, text_eq, contains, has_prefix, to_lower, equal_fold, if◌then◌else◌,
}
use hyperv_control_plane.Reconcile.Transient.{
  Failure, Sentinel, saved_state_incompatible, deadline_exceeded, canceled, hyperv_unavailable,
  volume_offline, Tracker, new_transient_tracker, condition, unchanged, settling, retrying,
  apply_failed, transient_signature,
}
use hyperv_control_plane.Reconcile.Transient.Window.{
  Pass, IsTransient, run, verdict, condition_escalates, window_from_first, condition_clears,
  stale_window,
}
use hyperv_control_plane.Types.HostStatus.{MigrationPassResult}
use hyperv_control_plane.Reconcile.Passes.{
  PassEvent, recorded, forgotten, migration_passes, run_passes, record_migration_pass,
  forget_migration_pass,
}
use hyperv_control_plane.Reconcile.Passes.Latest.{
  results_of, at_most_one, latest, migration_passes-latest,
}
use hyperv_control_plane.Reconcile.CoreGroup.{
  ClusterGroup, ClusterCoreResource, core_group_message, core_group_problem, core_group_online,
  witness_no_margin, core_resource_kind, no_identity, other, scan_down, flag,
}
use hyperv_control_plane.Reconcile.CoreGroup.Meaning.{
  core_group_online-problem, core_group_message_lem,
}

abbrev c : Text
c = codes "Disk"

abbrev offline : Failure
offline = record { text = codes "waiting for it to come back online"; is_error = λ s. false }

abbrev saved_only : Sentinel → Bool
saved_only saved_state_incompatible = true
saved_only deadline_exceeded = false
saved_only canceled = false
saved_only hyperv_unavailable = false

abbrev bad_state : Failure
bad_state = record { text = codes "saved state"; is_error = saved_only }

offline-signature : transient_signature offline.text ≡ some volume_offline
unfolding transient_signature contains has_prefix to_lower
offline-signature = refl

offline-IsTransient : IsTransient offline volume_offline
offline-IsTransient = record {
  not_saved = refl;
  not_late = refl;
  not_canceled = refl;
  answered = refl;
  known = offline-signature;
}

abbrev since_five : Tracker
since_five d = if text_eq c d then some 5 else none

since_five_start : since_five c ≡ some 5
unfolding text_eq
since_five_start = refl

abbrev again : Pass
again = record {
  condition_type = c;
  stamp = 6;
  now = 7;
  outcome = unchanged;
  failure = some offline;
}

condition_escalates_example :
    (condition (run since_five (again ∷ [])) c 8 (200 * 1000000000) unchanged (some offline)).0
    ≡ verdict c 8 offline volume_offline 5 (200 * 1000000000)
condition_escalates_example =
    condition_escalates (again ∷ []) since_five c 5 8 (200 * 1000000000) unchanged offline
      volume_offline (inr (offline, volume_offline, refl, refl, offline-IsTransient), tt)
      since_five_start offline-IsTransient

elsewhere_other : codes "VM/web" ≢ c
elsewhere_other e = cc

-- A success of another type.
abbrev elsewhere : Pass
elsewhere = record {
  condition_type = codes "VM/web";
  stamp = 1;
  now = 1;
  outcome = unchanged;
  failure = none;
}

window_from_first_example :
    let (k, t') =
      condition (run new_transient_tracker (elsewhere ∷ [])) c 5 5 unchanged (some offline) in
    (k ≡ record {
      condition_type = c;
      last_transition_time = 5;
      status = true;
      reason = settling;
      message = retrying volume_offline (pos 0);
    })
    × ((condition (run t' (again ∷ [])) c 8 (200 * 1000000000) unchanged (some offline)).0
        ≡ verdict c 8 offline volume_offline 5 (200 * 1000000000))
window_from_first_example =
    window_from_first new_transient_tracker (elsewhere ∷ []) (again ∷ []) c 5 5 8 (200 * 1000000000)
      unchanged unchanged offline offline volume_offline volume_offline refl (elsewhere_other, tt)
      offline-IsTransient (inr (offline, volume_offline, refl, refl, offline-IsTransient), tt)
      offline-IsTransient

condition_clears_example :
    (condition
      (condition since_five c 8 8 unchanged none).1
      c
      9
      (300 * 1000000000)
      unchanged
      (some offline)).0.reason
    ≡ settling
condition_clears_example =
    condition_clears since_five c 8 8 9 (300 * 1000000000) unchanged unchanged offline
      volume_offline offline-IsTransient

stale_window_example :
    (condition
      (condition since_five c 8 8 unchanged (some bad_state)).1
      c
      9
      (300 * 1000000000)
      unchanged
      (some offline)).0.reason
    ≡ apply_failed
stale_window_example =
    stale_window since_five c 5 8 8 9 (300 * 1000000000) unchanged unchanged bad_state offline
      volume_offline since_five_start refl offline-IsTransient (omega arith)

abbrev core_pending : ClusterGroup
core_pending = record { name = codes "cluster group"; state = codes "PartialOnline" }

abbrev share : ClusterCoreResource
share = record {
  name = codes "File Share Witness";
  resource_type = codes "File Share Witness";
  state = codes "Failed";
}

core_group_online-problem_example :
    (core_group_online (core_pending ∷ []) ≡ true)
    ↔ (core_group_problem (core_pending ∷ []) (share ∷ []) (pos 2) ≡ none)
core_group_online-problem_example =
    core_group_online-problem (core_pending ∷ []) (share ∷ []) (pos 2)

core_group_message_lem_example :
    core_group_message (codes "Failed") (share ∷ []) (pos 2)
    ≡ witness_no_margin (codes "Failed") (pos 2)
unfolding equal_fold text_eq to_lower contains has_prefix
core_group_message_lem_example = core_group_message_lem (codes "Failed") (share ∷ []) (pos 2)

-- A disk that is down is neither a witness nor the cluster's name or an address.
abbrev disk : ClusterCoreResource
disk = record {
  name = codes "Cluster Disk 1";
  resource_type = codes "Physical Disk";
  state = codes "Failed";
}

disk_kind : core_resource_kind disk ≡ other
unfolding core_resource_kind to_lower contains has_prefix
disk_kind = refl

-- With the disk down, and with no resource read, the message is that of a lost identity.
disk_message :
    core_group_message (codes "Failed") (disk ∷ []) (pos 2) ≡ no_identity (codes "Failed")
unfolding core_group_message scan_down flag core_resource_kind equal_fold text_eq to_lower contains
    has_prefix
disk_message = refl

unread_message : core_group_message (codes "Failed") [] (pos 2) ≡ no_identity (codes "Failed")
unfolding core_group_message scan_down
unread_message = refl

abbrev a_pass : Text → Text → MigrationPassResult
a_pass migration job = record {
  migration = migration;
  job_id = job;
  in_progress = false;
  final = false;
  source_powered_off = false;
  full_read = false;
  disks = [];
  copied_bytes = pos 4096;
  started_at = 100;
  finished_at = 200;
}

abbrev two_migrations : List PassEvent
two_migrations =
    recorded (a_pass (codes "web") (codes "1"))
    ∷ recorded (a_pass (codes "db") (codes "2"))
    ∷ recorded (a_pass (codes "web") (codes "3"))
    ∷ forgotten (codes "db")
    ∷ []

migration_passes-latest_example :
    results_of (codes "web") (migration_passes (run_passes two_migrations []))
    ≡ at_most_one (latest (codes "web") two_migrations none)
migration_passes-latest_example = migration_passes-latest (codes "web") two_migrations

-- One result is left, of the second pass of the migration that was not dropped.
two_migrations_run : run_passes two_migrations [] ≡ a_pass (codes "web") (codes "3") ∷ []
unfolding record_migration_pass forget_migration_pass text_eq
two_migrations_run = refl
