-- ===== src/Store/Results.antt =====
-- The results of jobs that wait for the centre, and the desired state (agent/store/store.go).
pub mod Pending
use hyperv_control_plane.Prelude.{ℕ, List, [], ◌∷◌, reverse, Text}
use hyperv_control_plane.Store.Bytes.{Bytes, itob}
use hyperv_control_plane.Store.Bolt.{Bolt}
use hyperv_control_plane.Store.Journal.{Stored, json, corrupt}

pub record PendingResult (JobState : Type 0) : Type 0 where
  pub seq : ℕ  -- uint64
  pub time : ℕ
  pub job_id : Text
  pub state : JobState
  pub message : Text

-- The ForEach of `PendingResults`, over values in key order: a corrupt one is passed over.
unfoldable pub scan_results :
    {JobState : Type 0}
    → List (Bytes × Stored (PendingResult JobState))
    → List (PendingResult JobState)
scan_results [] = []
scan_results ((k, corrupt) ∷ ps) = scan_results ps
scan_results ((k, json e) ∷ ps) = e ∷ scan_results ps

module _ {JobState : Type 0} (bolt : Bolt (Stored (PendingResult JobState))) where
  open bolt use {Bucket, pairs, sequence, put, delete, next_sequence}

  unfoldable pub append_pending_result : ℕ → Text → JobState → Text → Bucket → Bucket
  append_pending_result now id state message b =
      let b' = next_sequence b in
      let seq = sequence b' in
      put b' (itob seq)
        (json (record { seq = seq; time = now; job_id = id; state = state; message = message }))

  unfoldable pub pending_results : Bucket → List (PendingResult JobState)
  unfolding scan_results
  pending_results b = scan_results (reverse (pairs b))

  unfoldable pub drop_pending_result : ℕ → Bucket → Bucket
  drop_pending_result seq b = delete b (itob seq)
