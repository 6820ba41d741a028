-- ===== src/Service/Examples.antt =====
-- The theorems on agent/service/runner.go at small inputs, and runs of the code.
use hyperv_control_plane.Prelude.{
  ℕ, ◌+◌, ◌^◌, ◌<◌, ◌≡◌, ◌≢◌, refl, pos, length, All, Bool, true, false, none, some, [], ◌∷◌, ◌++◌,
  arith, ltb, leb, codes, Text, to_lower, text_eq, text_eq_iff,
}
use hyperv_control_plane.Store.Bytes.{itob, bytes_lt}
use hyperv_control_plane.Store.Bolt.{Bolt, insert}
use hyperv_control_plane.Store.Bolt.Listed.{Listed, listed_bolt, empty}
use hyperv_control_plane.Store.Journal.{
  Stored, JournalEntry, append_status, undelivered, scan_undelivered,
}
use hyperv_control_plane.Store.Journal.Log.{IsJournal, append_status-log}
use hyperv_control_plane.Store.Journal.Arrival.{queue}
use hyperv_control_plane.Store.Results.{
  PendingResult, scan_results, pending_results, append_pending_result,
}
use hyperv_control_plane.Store.Results.Pending.{IsResults, append-pending}
use hyperv_control_plane.Service.Delivery.{
  Delivered, reported, deliver_queue, report_status, report_status-Delivered,
  report_status-autonomous,
}
use hyperv_control_plane.Service.Results.{
  report_job, replay_job_results, Replayed, replay_job_results-Replayed, report_job-pending,
}
use hyperv_control_plane.Service.Holds.{
  Holds, begin_job, end_job, vm_busy, note_vm_removed, job_holds_vm,
}
use hyperv_control_plane.Service.Holds.Busy.{begins, ends, asks, run, busy_until_end, hold_lost}
use hyperv_control_plane.Service.Holds.StandOff.{stand_off}
use hyperv_control_plane.Service.Generations.{
  VmMeta, in_memory, restart, cluster_observed_generation, vm_set_changed, seen,
}
use hyperv_control_plane.Service.Generations.Restart
use hyperv_control_plane.Service.Generations.Restart.{
  host_pass, In, restart-run, cluster_observed_generation_lem, vm_set_changed_lem,
}
use hyperv_control_plane.Types.Job.{
  Job, JobState, terminal, succeeded, migrate_vm, other_kind, remove_vm,
}

-- The journal: statuses are numbers, the agent is autonomous at 9, and the centre takes entries
-- below number 2.
abbrev bolt : Bolt (Stored (JournalEntry ℕ))
bolt = listed_bolt (Stored (JournalEntry ℕ))

abbrev autonomous : ℕ → Bool
autonomous st = leb 9 st

abbrev accepts : JournalEntry ℕ → Bool
accepts e = ltb e.seq 2

empty-IsJournal : IsJournal bolt empty
empty-IsJournal = record { written = tt; bounded = omega arith }

abbrev one_entry : Listed (Stored (JournalEntry ℕ))
one_entry = (append_status bolt 10 4 false empty).0

one_entry-IsJournal : IsJournal bolt one_entry
one_entry-IsJournal = (append_status-log bolt 10 4 false empty empty-IsJournal (omega arith)).3

one_entry_sequence : one_entry.counter + 1 < 2 ^ 64
unfolding append_status
one_entry_sequence = omega arith

report_status-Delivered_example :
    Delivered bolt autonomous accepts
      (queue bolt one_entry ++ reported bolt autonomous accepts 11 5 one_entry ∷ [])
      (report_status bolt autonomous accepts 11 5 one_entry)
report_status-Delivered_example =
    report_status-Delivered bolt autonomous accepts 11 5 one_entry one_entry-IsJournal
      one_entry_sequence refl

report_status-autonomous_example :
    (queue bolt (report_status bolt autonomous accepts 12 9 one_entry).0
      ≡ queue bolt one_entry ++ reported bolt autonomous accepts 12 9 one_entry ∷ [])
    × ((report_status bolt autonomous accepts 12 9 one_entry).1 ≡ [])
    × IsJournal bolt (report_status bolt autonomous accepts 12 9 one_entry).0
report_status-autonomous_example =
    report_status-autonomous bolt autonomous accepts 12 9 one_entry one_entry-IsJournal
      one_entry_sequence refl

-- The first of two entries is taken, and the second waits.
sends_one :
    (report_status bolt autonomous accepts 11 5 one_entry).1
    ≡ record { seq = 1; time = 10; status = 4; delivered = false } ∷ []
unfolding report_status append_status deliver_queue undelivered scan_undelivered insert bytes_lt
    itob text_eq
sends_one = refl

-- The results: the centre takes the job "a" alone.
abbrev results : Bolt (Stored (PendingResult JobState))
results = listed_bolt (Stored (PendingResult JobState))

abbrev takes : Text → JobState → Text → Bool
takes id state message = text_eq id (codes "a")

empty-IsResults : IsResults results empty
empty-IsResults = record { placed = tt; bounded = omega arith }

abbrev waiting_result : Listed (Stored (PendingResult JobState))
waiting_result = append_pending_result results 10 (codes "a") succeeded [] empty

waiting-IsResults : IsResults results waiting_result
waiting-IsResults =
    (append-pending results 10 (codes "a") succeeded [] empty empty-IsResults (omega arith)).1

replay_job_results-Replayed_example :
    Replayed results takes
      (pending_results results waiting_result)
      (replay_job_results results takes waiting_result)
replay_job_results-Replayed_example =
    replay_job_results-Replayed results takes waiting_result waiting-IsResults

report_job-pending_example :
    (pending_results results (report_job results takes 11 (codes "b") succeeded [] empty)
      ≡ record { seq = 1; time = 11; job_id = codes "b"; state = succeeded; message = [] } ∷ [])
    × IsResults results (report_job results takes 11 (codes "b") succeeded [] empty)
unfolding text_eq pending_results scan_results terminal
report_job-pending_example =
    report_job-pending results takes 11 (codes "b") succeeded [] empty empty-IsResults (omega arith)

-- The holds.
abbrev idle : Holds
idle = record { in_flight = λ id. false; jobs_vms = λ vm. none; vm_removed = λ vm. none }

abbrev moving : Job
moving = record { id = codes "j1"; kind = migrate_vm; vm = codes "Web"; generalise = false }

abbrev starting : Job
starting = record {
  id = codes "j2";
  kind = other_kind (codes "VMStart");
  vm = codes "WEB";
  generalise = false;
}

abbrev unrelated : Job
unrelated = record { id = codes "j3"; kind = remove_vm; vm = codes "db"; generalise = false }

busy_until_end_example :
    (vm_busy
      (run (begin_job idle moving).0 (begins unrelated ∷ asks (codes "web") 5 ∷ []))
      (codes "WEB")
      6).0
    ≢ none
unfolding job_holds_vm to_lower
busy_until_end_example =
    busy_until_end idle moving (begins unrelated ∷ asks (codes "web") 5 ∷ []) (codes "WEB") 6 refl
      refl refl (tt, (tt, tt)) refl

ids_differ : codes "j2" ≢ codes "j1"
unfolding text_eq
ids_differ e = cc ((text_eq_iff (codes "j2") (codes "j1")).1 e)

hold_lost_example :
    ((end_job (begin_job idle moving).0 starting).in_flight (codes "j1") ≡ true)
    × ((vm_busy (end_job (begin_job idle moving).0 starting) (codes "Web") 7).0 ≡ none)
unfolding begin_job to_lower text_eq job_holds_vm
hold_lost_example =
    hold_lost (begin_job idle moving).0 moving starting 7 refl refl ids_differ refl refl

stand_off_example :
    (vm_busy
      (run (note_vm_removed idle (codes "Web") 100) (begins starting ∷ ends starting ∷ []))
      (codes "web")
      200).0
    ≡ some remove_vm
unfolding to_lower begin_job end_job note_vm_removed job_holds_vm text_eq
stand_off_example =
    stand_off idle (codes "Web") (codes "web") 100 200 (begins starting ∷ ends starting ∷ [])
      (tt, (tt, tt)) refl refl

-- The generations.
restart-run_example :
    in_memory (restart (Restart.run (restart none) (host_pass (pos 3) true ∷ [])).st)
    ≡ in_memory (Restart.run (restart none) (host_pass (pos 3) true ∷ []))
restart-run_example = restart-run none (host_pass (pos 3) true ∷ [])

cluster_observed_generation_lem_example :
    (cluster_observed_generation (codes "c") (pos 8) true (restart none)).1 ≡ pos 8
cluster_observed_generation_lem_example =
    cluster_observed_generation_lem (codes "c") (pos 8) true (restart none)

abbrev web : VmMeta
web = record { name = codes "Web"; generation = pos 4 }

same_set : vm_set_changed (web ∷ []) (web ∷ []) ≡ false
unfolding vm_set_changed seen text_eq
same_set = refl

vm_set_changed_lem_example :
    (length (web ∷ []) ≡ length (web ∷ [])) × All (In (web ∷ [])) (web ∷ [])
vm_set_changed_lem_example = vm_set_changed_lem (web ∷ []) (web ∷ []) same_set
