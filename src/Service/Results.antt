-- ===== src/Service/Results.antt =====
-- reportJob and replayJobResults of agent/service/runner.go: a job's result that the centre does
-- not take is queued, and replayed oldest first. The centre is a test on results: whether
-- ReportJobResult of the result returns without an error.
use hyperv_control_plane.Prelude.{
  ℕ, ◌+◌, ◌<◌, ◌^◌, ◌≡◌, refl, ap, Bool, true, false, not, List, [], ◌∷◌, ◌++◌, inl, inr, All,
  Bool-cases, Text, if◌then◌else◌,
}
use hyperv_control_plane.Store.Bolt.{Bolt}
use hyperv_control_plane.Store.Journal.{Stored}
use hyperv_control_plane.Store.Results.{
  PendingResult, append_pending_result, pending_results, drop_pending_result,
}
use hyperv_control_plane.Store.Results.Pending.{
  IsResults, drop-pending, drop-IsResults, append-pending,
}
use hyperv_control_plane.Types.Job.{JobState, terminal}

module _ (bolt : Bolt (Stored (PendingResult JobState)))
    (accepts : Text → JobState → Text → Bool) where
  open bolt use {Bucket, sequence}

  unfoldable pub report_job : ℕ → Text → JobState → Text → Bucket → Bucket
  report_job now id state message b =
      if accepts id state message
      then b
      else if not (terminal state)
      then b
      else append_pending_result bolt now id state message b

  -- The loop over the results that wait, and the results that the centre took in it.
  unfoldable pub replay :
      List (PendingResult JobState) → Bucket → Bucket × List (PendingResult JobState)
  replay [] b = (b, [])
  replay (p ∷ ps) b =
      let (b', sent) = replay ps (drop_pending_result bolt p.seq b) in
      if accepts p.job_id p.state p.message then (b', p ∷ sent) else (b, [])

  unfoldable pub replay_job_results : Bucket → Bucket × List (PendingResult JobState)
  unfolding replay
  replay_job_results b = replay (pending_results bolt b) b

  abbrev Taken : PendingResult JobState → Type 0
  Taken p = accepts p.job_id p.state p.message ≡ true

  abbrev Stopped : List (PendingResult JobState) → Type 0
  Stopped [] = Unit
  Stopped (p ∷ ps) = accepts p.job_id p.state p.message ≡ false

  -- What was sent and what still waits are together the queue as it was, in its order.
  pub record Replayed (before : List (PendingResult JobState))
      (r : Bucket × List (PendingResult JobState)) : Type 0 where
    pub nothing_lost : r.1 ++ pending_results bolt r.0 ≡ before
    pub accepted : All Taken r.1
    pub stopped : Stopped (pending_results bolt r.0)
    pub results : IsResults bolt r.0

  replay-Replayed :
      (ps : List (PendingResult JobState)) (b : Bucket)
      → IsResults bolt b
      → pending_results bolt b ≡ ps
      → Replayed ps (replay ps b)
  unfolding replay
  replay-Replayed [] b h q = record {
    nothing_lost = q;
    accepted = tt;
    stopped = rw q tt;
    results = h;
  }
  replay-Replayed (p ∷ ps) b h q = elim (Bool-cases (accepts p.job_id p.state p.message)) [
    | inl a ↦
        let ih =
          replay-Replayed ps (drop_pending_result bolt p.seq b) (drop-IsResults bolt p.seq b h)
            (drop-pending bolt b p ps h q) in
        rw a (record {
          nothing_lost = ap (λ r. p ∷ r) ih.nothing_lost;
          accepted = (a, ih.accepted);
          stopped = ih.stopped;
          results = ih.results;
        })
    | inr a ↦ rw a (record { nothing_lost = q; accepted = tt; stopped = rw q a; results = h })
  ]

  -- A replay sends a prefix of the results that wait, in order, up to the first that the centre
  -- does not take, and keeps the rest in order. No result is lost, and the bucket stays well formed.
  pub replay_job_results-Replayed :
      (b : Bucket) → IsResults bolt b → Replayed (pending_results bolt b) (replay_job_results b)
  unfolding replay_job_results
  replay_job_results-Replayed b h = replay-Replayed (pending_results bolt b) b h refl

  -- A report that the centre does not take is queued behind the others when the state is terminal,
  -- and one that it takes, or whose state is not terminal, leaves the queue as it is.
  pub report_job-pending :
      (now : ℕ) (id : Text) (state : JobState) (message : Text) (b : Bucket)
      → IsResults bolt b
      → sequence b + 1 < 2 ^ 64
      → let b' = report_job now id state message b in
        (pending_results bolt b' ≡ (
          if accepts id state message
          then pending_results bolt b
          else if terminal state
          then pending_results bolt b
            ++ record {
              seq = sequence b + 1;
              time = now;
              job_id = id;
              state = state;
              message = message;
            }
              ∷ []
          else pending_results bolt b))
        × IsResults bolt b'
  unfolding report_job
  report_job-pending now id state message b h l = elim (Bool-cases (accepts id state message)) [
    | inl a ↦ rw a (refl, h)
    | inr a ↦ elim (Bool-cases (terminal state)) [
      | inl t ↦ rw (a, t) (append-pending bolt now id state message b h l)
      | inr t ↦ rw (a, t) (refl, h)
    ]
  ]
