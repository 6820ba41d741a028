-- ===== src/Service/Delivery.antt =====
-- reportStatus of agent/service/runner.go: the status is journalled, and what the centre has not
-- accepted is replayed oldest first. The centre is a test on entries: whether ReportStatus of the
-- entry returns without an error and accepts it.
use mathlib.Core.List.{reverse-cons}
use hyperv_control_plane.Prelude.{
  ℕ, ◌+◌, ◌<◌, ◌^◌, ◌≡◌, refl, ◌∙◌, ap, Bool, true, false, none, some, List, [], ◌∷◌, ◌++◌, reverse,
  inl, inr, select, All, Bool-cases, if◌then◌else◌,
}
use hyperv_control_plane.Store.Bolt.{Bolt}
use hyperv_control_plane.Store.Journal.{
  Stored, JournalEntry, append_status, undelivered, mark_delivered,
}
use hyperv_control_plane.Store.Journal.View.{waiting}
use hyperv_control_plane.Store.Journal.Log.{
  IsJournal, log, undelivered-log, append_status-log, mark_delivered-log,
}
use hyperv_control_plane.Store.Journal.Arrival.{queue, queue-lt, queue-mark_delivered}

module _ {Status : Type 0} (bolt : Bolt (Stored (JournalEntry Status))) (autonomous : Status → Bool)
    (accepts : JournalEntry Status → Bool) where
  open bolt use {Bucket, sequence}

  -- The loop over the queued entries, and the entries that the centre accepted in it. An error of
  -- MarkDelivered is only logged.
  unfoldable pub deliver_queue :
      List (JournalEntry Status) → Bucket → Bucket × List (JournalEntry Status)
  deliver_queue [] b = (b, [])
  deliver_queue (e ∷ es) b =
      let (b', sent) = deliver_queue es (mark_delivered bolt e.seq b).0 in
      if accepts e then (b', e ∷ sent) else (b, [])

  unfoldable pub report_status : ℕ → Status → Bucket → Bucket × List (JournalEntry Status)
  unfolding deliver_queue
  report_status now st b =
      let (b', entry) = append_status bolt now st false b in
      let (queued, error) = undelivered bolt b' in
      if autonomous st
      then (b', [])
      else deliver_queue (elim error [ none ↦ queued | some _ ↦ entry ∷ [] ]) b'

  -- The loop stopped at an entry that the centre did not accept, or at the end of the queue.
  abbrev pub Stopped : List (JournalEntry Status) → Type 0
  Stopped [] = Unit
  Stopped (e ∷ es) = accepts e ≡ false

  -- What was sent and what still waits are together the queue as it was, in its order.
  pub record Delivered (before : List (JournalEntry Status))
      (r : Bucket × List (JournalEntry Status)) : Type 0 where
    pub nothing_lost : r.1 ++ queue bolt r.0 ≡ before
    pub accepted : All (λ e. accepts e ≡ true) r.1
    pub stopped : Stopped (queue bolt r.0)
    pub journal : IsJournal bolt r.0

  pub deliver_queue-Delivered :
      (es : List (JournalEntry Status)) (b : Bucket)
      → IsJournal bolt b
      → queue bolt b ≡ es
      → Delivered es (deliver_queue es b)
  unfolding deliver_queue
  deliver_queue-Delivered [] b h q = record {
    nothing_lost = q;
    accepted = tt;
    stopped = rw q tt;
    journal = h;
  }
  deliver_queue-Delivered (e ∷ es) b h q = elim (Bool-cases (accepts e)) [
    | inl a ↦
        let l : e.seq < 2 ^ 64 = (rw q at (queue-lt bolt b h)).0 in
        let ih =
          deliver_queue-Delivered es (mark_delivered bolt e.seq b).0
            (mark_delivered-log bolt e.seq b h l).3 (queue-mark_delivered bolt b e es h q) in
        rw a (record {
          nothing_lost = ap (λ r. e ∷ r) ih.nothing_lost;
          accepted = (a, ih.accepted);
          stopped = ih.stopped;
          journal = ih.journal;
        })
    | inr a ↦ rw a (record { nothing_lost = q; accepted = tt; stopped = rw q a; journal = h })
  ]

  -- The entry that a report adds to the journal.
  abbrev pub reported : ℕ → Status → Bucket → JournalEntry Status
  reported now st b = record { seq = sequence b + 1; time = now; status = st; delivered = false }

  queue-append_status :
      (now : ℕ) (st : Status) (b : Bucket)
      → IsJournal bolt b
      → sequence b + 1 < 2 ^ 64
      → queue bolt (append_status bolt now st false b).0 ≡ queue bolt b ++ reported now st b ∷ []
  unfolding append_status
  queue-append_status now st b h l =
      let (content, number, _, _) = append_status-log bolt now st false b h l in
      ap (λ es. reverse (select waiting es)) content
      ∙ reverse-cons _ (select waiting (log bolt b))
      ∙ ap
          (λ n. queue bolt b ++ record { seq = n; time = now; status = st; delivered = false } ∷ [])
          number

  -- A report of an agent that reaches the centre journals the status at the end of the queue, sends
  -- a prefix of the queue, in order, up to the first entry that the centre refuses, and keeps the
  -- rest queued. No entry is lost, and the journal stays well formed.
  pub report_status-Delivered :
      (now : ℕ) (st : Status) (b : Bucket)
      → IsJournal bolt b
      → sequence b + 1 < 2 ^ 64
      → autonomous st ≡ false
      → Delivered (queue bolt b ++ reported now st b ∷ []) (report_status now st b)
  unfolding report_status
  report_status-Delivered now st b h l a =
      let (_, _, _, journal) = append_status-log bolt now st false b h l in
      let q = queue-append_status now st b h l in
      let sent =
        deliver_queue-Delivered (queue bolt b ++ reported now st b ∷ [])
          (append_status bolt now st false b).0 journal q in
      let u = undelivered-log bolt (append_status bolt now st false b).0 journal in
      rw a (rw (ap (λ p. p.1) u) (rw (ap (λ p. p.0) u ∙ q) sent))

  -- A report of an agent that runs autonomously queues the status and sends nothing.
  pub report_status-autonomous :
      (now : ℕ) (st : Status) (b : Bucket)
      → IsJournal bolt b
      → sequence b + 1 < 2 ^ 64
      → autonomous st ≡ true
      → (queue bolt (report_status now st b).0 ≡ queue bolt b ++ reported now st b ∷ [])
        × ((report_status now st b).1 ≡ [])
        × IsJournal bolt (report_status now st b).0
  unfolding report_status
  report_status-autonomous now st b h l a =
      rw a (queue-append_status now st b h l, refl, (append_status-log bolt now st false b h l).3)
