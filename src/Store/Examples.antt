-- ===== src/Store/Examples.antt =====
-- The theorems on agent/store/store.go at small inputs, and runs of the code.
use hyperv_control_plane.Prelude.{
  ℕ, ◌≡◌, refl, true, false, Option, none, some, List, [], ◌∷◌, ◌++◌, map, reverse, arith, select,
  take, codes, Text, text_eq, equal_fold, to_lower,
}
use hyperv_control_plane.Store.Bytes.{itob, bytes_lt, bytes_lt-itob}
use hyperv_control_plane.Store.Bolt.{Bolt, insert}
use hyperv_control_plane.Store.Bolt.Listed.{Listed, listed_bolt, empty}
use hyperv_control_plane.Store.Order.{Rising}
use hyperv_control_plane.Store.Journal.{
  Stored, json, JournalEntry, append_status, undelivered, mark_delivered, prune_journal,
}
use hyperv_control_plane.Store.Journal.Retain.{retain}
use hyperv_control_plane.Store.Journal.Prune.{prune_journal_pass}
use hyperv_control_plane.Store.Journal.Quota.{
  is_queued, is_delivered, is_corrupt, prune_journal_quota,
}
use hyperv_control_plane.Store.Journal.View.{waiting, deliver}
use hyperv_control_plane.Store.Journal.Log.{
  IsJournal, log, append_status-log, mark_delivered-log, undelivered-log,
}
use hyperv_control_plane.Store.Journal.Arrival.{queue, queue-Rising, number, queue-mark_delivered}
use hyperv_control_plane.Store.Results.{
  PendingResult, scan_results, pending_results, append_pending_result, drop_pending_result,
}
use hyperv_control_plane.Store.Results.Pending.{IsResults, append-pending, drop-pending}
use hyperv_control_plane.Store.Desired.{
  load_desired_vms, without, drop_desired_vm, drop_desired_vm-load,
}

abbrev bolt : Bolt (Stored (JournalEntry ℕ))
bolt = listed_bolt (Stored (JournalEntry ℕ))

empty-IsJournal : IsJournal bolt empty
empty-IsJournal = record { written = tt; bounded = omega arith }

abbrev entry : JournalEntry ℕ
entry = record { seq = 1; time = 10; status = 4; delivered = false }

abbrev one_entry : Listed (Stored (JournalEntry ℕ))
one_entry = (append_status bolt 10 4 false empty).0

one_entry-IsJournal : IsJournal bolt one_entry
one_entry-IsJournal = (append_status-log bolt 10 4 false empty empty-IsJournal (omega arith)).3

bytes_lt-itob_example : bytes_lt (itob 255) (itob 256) ≡ true
bytes_lt-itob_example = bytes_lt-itob 255 256 (omega arith) (omega arith)

append_status-log_example :
    let (b', e) = append_status bolt 10 4 false empty in
    (log bolt b' ≡ e ∷ log bolt empty) × (e.seq ≡ 1) × (b'.counter ≡ 1) × IsJournal bolt b'
append_status-log_example = append_status-log bolt 10 4 false empty empty-IsJournal (omega arith)

undelivered-log_example :
    undelivered bolt one_entry ≡ (reverse (select waiting (log bolt one_entry)), none)
undelivered-log_example = undelivered-log bolt one_entry one_entry-IsJournal

mark_delivered-log_example :
    let (b', error) = mark_delivered bolt 1 one_entry in
    (log bolt b' ≡ map (deliver 1) (log bolt one_entry))
    × (error ≡ none)
    × (b'.counter ≡ one_entry.counter)
    × IsJournal bolt b'
mark_delivered-log_example = mark_delivered-log bolt 1 one_entry one_entry-IsJournal (omega arith)

queue-Rising_example : Rising number (queue bolt one_entry)
queue-Rising_example = queue-Rising bolt one_entry one_entry-IsJournal

one_entry-queue : queue bolt one_entry ≡ entry ∷ []
unfolding append_status insert
one_entry-queue = refl

queue-mark_delivered_example : queue bolt (mark_delivered bolt 1 one_entry).0 ≡ []
queue-mark_delivered_example =
    queue-mark_delivered bolt one_entry entry [] one_entry-IsJournal one_entry-queue

prune_journal_quota_example :
    (b' : Listed (Stored (JournalEntry ℕ))) × (prune_journal bolt one_entry ≡ some b')
    × (select is_queued b'.content ≡ take 5000 (select is_queued one_entry.content))
    × (select is_delivered b'.content ≡ take 200 (select is_delivered one_entry.content))
    × (select is_corrupt b'.content ≡ [])
    × (b'.counter ≡ one_entry.counter)
prune_journal_quota_example = prune_journal_quota bolt one_entry

prune_journal_pass_example :
    (b' : Listed (Stored (JournalEntry ℕ))) × (prune_journal bolt one_entry ≡ some b')
    × (b'.content ≡ retain (record { delivered = 0; undelivered = 0 }) one_entry.content)
    × (b'.counter ≡ one_entry.counter)
prune_journal_pass_example = prune_journal_pass bolt one_entry

-- The results: states are numbers.
abbrev results : Bolt (Stored (PendingResult ℕ))
results = listed_bolt (Stored (PendingResult ℕ))

empty-IsResults : IsResults results empty
empty-IsResults = record { placed = tt; bounded = omega arith }

abbrev result : PendingResult ℕ
result = record { seq = 1; time = 10; job_id = codes "a"; state = 2; message = [] }

abbrev waiting_result : Listed (Stored (PendingResult ℕ))
waiting_result = append_pending_result results 10 (codes "a") 2 [] empty

append-pending_example :
    (pending_results results waiting_result ≡ pending_results results empty ++ result ∷ [])
    × IsResults results waiting_result
append-pending_example =
    append-pending results 10 (codes "a") 2 [] empty empty-IsResults (omega arith)

waiting_result-pending : pending_results results waiting_result ≡ result ∷ []
unfolding pending_results scan_results append_pending_result insert
waiting_result-pending = refl

drop-pending_example : pending_results results (drop_pending_result results 1 waiting_result) ≡ []
drop-pending_example =
    drop-pending results waiting_result result []
      (append-pending results 10 (codes "a") 2 [] empty empty-IsResults (omega arith)).1
      waiting_result-pending

-- The desired VMs, named by themselves.
abbrev own_name : Text → Text
own_name vm = vm

abbrev two_vms : Option (Stored (List Text))
two_vms = some (json (codes "Web" ∷ codes "db" ∷ []))

drop_desired_vm-load_example :
    let (st', error) = drop_desired_vm own_name (codes "WEB") two_vms in
    ((load_desired_vms own_name st').0 ≡ some (codes "db" ∷ []))
    × ((load_desired_vms own_name st').1 ≡ none)
    × (error ≡ none)
unfolding load_desired_vms without equal_fold text_eq to_lower
drop_desired_vm-load_example = drop_desired_vm-load own_name (codes "WEB") two_vms
