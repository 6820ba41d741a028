-- ===== src/Store/Journal/Arrival.antt =====
-- The queue of agent/store/store.go in order of arrival: `Undelivered` lists sequence numbers that
-- rise, and MarkDelivered of the first leaves the others.
use mathlib.Core.List.{append-nil}
use hyperv_control_plane.Prelude.{
  ℕ, ◌<◌, ◌≤◌, ◌^◌, ◌≡◌, refl, sym, ◌∙◌, ap, true, List, [], ◌∷◌, map, reverse, arith, select,
  ltb→lt, All,
}
use hyperv_control_plane.Store.Bytes.{bytes_lt, itob, bytes_lt-itob}
use hyperv_control_plane.Store.Bolt.{Bolt, IsDescending}
use hyperv_control_plane.Store.Order.{
  All-keep, All-reverse, select-reverse, Rising, Falling, Falling-select, Rising-reverse, other,
  select-other_first,
}
use hyperv_control_plane.Store.Journal.{Stored, json, corrupt, JournalEntry, mark_delivered}
use hyperv_control_plane.Store.Journal.Retain.{Pairs}
use hyperv_control_plane.Store.Journal.View.{Written, view, waiting, deliver}
use hyperv_control_plane.Store.Journal.Log.{IsJournal, log, mark_delivered-log}

abbrev pub number : {Status : Type 0} → JournalEntry Status → ℕ
number e = e.seq

module _ {Status : Type 0} where
  All-view :
      (n : ℕ) (e : JournalEntry Status) (ps : Pairs Status)
      → n < 2 ^ 64
      → e.seq ≤ n
      → All (Written n) ps
      → All (λ q. bytes_lt q.0 (itob e.seq) ≡ true) ps
      → All (λ f. f.seq < e.seq) (view ps)
  All-view n e [] b l w h = tt
  All-view n e ((k, corrupt) ∷ ps) b l w h = elim w.0 [ ]
  All-view n e ((k, json f) ∷ ps) b l w h = (
    ltb→lt f.seq e.seq (
        sym (bytes_lt-itob f.seq e.seq (omega arith) (omega arith))
        ∙ ap (λ i. bytes_lt i (itob e.seq)) (sym w.0.0)
        ∙ h.0),
    All-view n e ps b l w.1 h.1,
  )

  seq-lt :
      (n : ℕ) (ps : Pairs Status)
      → n < 2 ^ 64
      → All (Written n) ps
      → All (λ e. e.seq < 2 ^ 64) (view ps)
  seq-lt n [] b w = tt
  seq-lt n ((k, corrupt) ∷ ps) b w = elim w.0 [ ]
  seq-lt n ((k, json e) ∷ ps) b w = (omega (arith, w.0.1), seq-lt n ps b w.1)

  Falling-view :
      (n : ℕ) (ps : Pairs Status)
      → n < 2 ^ 64
      → IsDescending ps
      → All (Written n) ps
      → Falling number (view ps)
  Falling-view n [] b d w = tt
  Falling-view n ((k, corrupt) ∷ ps) b d w = elim w.0 [ ]
  Falling-view n ((k, json e) ∷ ps) b d w =
      (All-view n e ps b w.0.1 w.1 (rw (w.0.0) at d.0), Falling-view n ps b d.1 w.1)

  select-deliver :
      (s : ℕ) (es : List (JournalEntry Status))
      → select waiting (map (deliver s) es) ≡ select (other number s) (select waiting es)
  select-deliver s [] = refl
  select-deliver s (e ∷ es) = ground (arith, select-deliver s es)

module _ {Status : Type 0} (bolt : Bolt (Stored (JournalEntry Status))) where
  open bolt use {Bucket, pairs, sequence, pairs-IsDescending}

  -- What the centre has not accepted, the oldest first.
  abbrev pub queue : Bucket → List (JournalEntry Status)
  queue b = reverse (select waiting (log bolt b))

  -- In a well-formed journal the numbers of the entries that wait rise in the order in which they
  -- wait.
  pub queue-Rising : (b : Bucket) → IsJournal bolt b → Rising number (queue b)
  queue-Rising b h =
      let f = Falling-view (sequence b) (pairs b) h.bounded (pairs-IsDescending b) h.written in
      Rising-reverse number (select waiting (log bolt b)) (Falling-select number waiting _ f)

  pub queue-lt : (b : Bucket) → IsJournal bolt b → All (λ e. e.seq < 2 ^ 64) (queue b)
  queue-lt b h = simp append-nil at (
      All-reverse (λ e. e.seq < 2 ^ 64) (select waiting (log bolt b)) []
        (All-keep _ waiting (log bolt b) (seq-lt (sequence b) (pairs b) h.bounded h.written)) tt)

  -- In a well-formed journal, marking the oldest entry that waits takes it off the queue, and no
  -- other.
  pub queue-mark_delivered :
      (b : Bucket) (e : JournalEntry Status) (es : List (JournalEntry Status))
      → IsJournal bolt b
      → queue b ≡ e ∷ es
      → queue (mark_delivered bolt e.seq b).0 ≡ es
  queue-mark_delivered b e es h q =
      let l : e.seq < 2 ^ 64 = (rw q at (queue-lt b h)).0 in
      let r : Rising number (e ∷ es) = rw q at (queue-Rising b h) in
      ap (λ xs. reverse (select waiting xs)) (mark_delivered-log bolt e.seq b h l).0
      ∙ ap reverse (select-deliver e.seq (log bolt b))
      ∙ sym (select-reverse (other number e.seq) (select waiting (log bolt b)))
      ∙ ap (select (other number e.seq)) q
      ∙ select-other_first number e es r
