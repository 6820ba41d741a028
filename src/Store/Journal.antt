-- ===== src/Store/Journal.antt =====
-- The status journal of agent/store/store.go. A stored value is what json.Unmarshal makes of its
-- bytes: an entry, or `corrupt`. The status itself is opaque to the journal.
pub mod Retain
pub mod Prune
pub mod Quota
pub mod View
pub mod Log
pub mod Arrival
use hyperv_control_plane.Prelude.{
  ℕ, zero, suc, ◌+◌, ◌-◌, ℤ, pos_part, ◌&&◌, Bool, true, false, not, Option, none, some, List, [],
  ◌∷◌, reverse, arith, length, drop, select, ltb, if◌then◌else◌,
}
use hyperv_control_plane.Store.Bytes.{Bytes, bytes_lt, itob}
use hyperv_control_plane.Store.Bolt.{Bolt}

pub data Stored (A : Type 0) : Type 0 where
  json : A → Stored A
  corrupt : Stored A

-- the error of a failed json.Unmarshal
pub data Error : Type 0 where
  unmarshal : Error

pub record JournalEntry (Status : Type 0) : Type 0 where
  pub seq : ℕ  -- uint64
  pub time : ℕ
  pub status : Status
  pub delivered : Bool

abbrev pub journal_keep : ℕ
journal_keep = 200

abbrev pub journal_max_undelivered : ℕ
journal_max_undelivered = 5000

abbrev pub prune_chunk_size : ℕ
prune_chunk_size = 2000

-- How many entries of each kind a prune has kept so far.
pub record Kept : Type 0 where
  pub delivered : ℕ
  pub undelivered : ℕ

-- What the loop of `pruneChunk` leaves in its variables.
pub record Walk : Type 0 where
  pub kept : Kept
  pub kill : List Bytes
  pub resume_before : Option Bytes
  pub finished : Bool

module _ {Status : Type 0} where
  -- The ForEach of `Undelivered`, over values in key order. It stops at the first value that it
  -- cannot read, and returns what it has collected beside the error.
  unfoldable pub scan_undelivered :
      List (Bytes × Stored (JournalEntry Status)) → List (JournalEntry Status) × Option Error
  scan_undelivered [] = ([], none)
  scan_undelivered ((k, corrupt) ∷ ps) = ([], some unmarshal)
  scan_undelivered ((k, json e) ∷ ps) =
      let (out, error) = scan_undelivered ps in (if not e.delivered then e ∷ out else out, error)

  -- The ForEach of `Recent`.
  unfoldable pub scan_all :
      List (Bytes × Stored (JournalEntry Status)) → List (JournalEntry Status) × Option Error
  scan_all [] = ([], none)
  scan_all ((k, corrupt) ∷ ps) = ([], some unmarshal)
  scan_all ((k, json e) ∷ ps) = let (out, error) = scan_all ps in (e ∷ out, error)

  -- The `switch` of `pruneChunk`: whether the value is dropped, and the counters after it.
  unfoldable pub judge : Kept → Stored (JournalEntry Status) → Bool × Kept
  judge kept corrupt = (true, kept)
  judge kept (json e) =
      if e.delivered
      then (if ltb kept.delivered journal_keep
          then (false, record kept { delivered = kept.delivered + 1 })
          else (true, kept))
      else (if ltb kept.undelivered journal_max_undelivered
          then (false, record kept { undelivered = kept.undelivered + 1 })
          else (true, kept))

  -- The loop, from the cursor's position down; its first argument is how many entries it may still
  -- examine.
  unfoldable pub walk : ℕ → Kept → Option Bytes → List (Bytes × Stored (JournalEntry Status)) → Walk
  unfolding judge
  walk n kept resume [] = record { kept = kept; kill = []; resume_before = resume; finished = true }
  walk zero kept resume (p ∷ ps) = record {
    kept = kept;
    kill = [];
    resume_before = resume;
    finished = false;
  }
  walk (suc n) kept resume ((k, v) ∷ ps) =
      let (dropped, kept') = judge kept v in
      let w = walk n kept' (some k) ps in if dropped then record w { kill = k ∷ w.kill } else w

  -- Where the cursor stands: at Last, or at the entry before the one that Seek finds.
  unfoldable pub cursor_from :
      Option Bytes
      → List (Bytes × Stored (JournalEntry Status))
      → List (Bytes × Stored (JournalEntry Status))
  cursor_from none ps = ps
  cursor_from (some k) ps = select (λ p. bytes_lt p.0 k) ps

module _ {Status : Type 0} (bolt : Bolt (Stored (JournalEntry Status))) where
  open bolt use {Bucket, pairs, sequence, get, put, delete, next_sequence}

  -- `now` is time.Now().UTC().
  unfoldable pub append_status : ℕ → Status → Bool → Bucket → Bucket × JournalEntry Status
  append_status now status delivered b =
      let b' = next_sequence b in
      let entry : JournalEntry Status = record {
        seq = sequence b';
        time = now;
        status = status;
        delivered = delivered;
      } in
      (put b' (itob (sequence b')) (json entry), entry)

  unfoldable pub undelivered : Bucket → List (JournalEntry Status) × Option Error
  undelivered b = scan_undelivered (reverse (pairs b))

  -- `MarkDelivered`, after the `Get` of its key.
  mark : ℕ → Bucket → Option (Stored (JournalEntry Status)) → Bucket × Option Error
  mark seq b none = (b, none)
  mark seq b (some corrupt) = (b, some unmarshal)
  mark seq b (some (json e)) =
      if e.delivered
      then (b, none)
      else (put b (itob seq) (json (record e { delivered = true })), none)

  unfoldable pub mark_delivered : ℕ → Bucket → Bucket × Option Error
  unfolding mark
  mark_delivered seq b = mark seq b (get b (itob seq))

  -- The entries after the ForEach, cut to the last `limit` of them if it is positive.
  last_entries : ℤ → List (JournalEntry Status) → List (JournalEntry Status)
  last_entries limit all =
      let n = pos_part limit in
      if ltb 0 n && ltb n (length all) then drop (length all - n) all else all

  unfoldable pub recent : ℤ → Bucket → List (JournalEntry Status) × Option Error
  unfolding last_entries
  recent limit b =
      let (all, error) = scan_all (reverse (pairs b)) in
      elim error [ some e ↦ ([], some e) | none ↦ (last_entries limit all, none) ]

  unfoldable pub delete_all : List Bytes → Bucket → Bucket
  delete_all [] b = b
  delete_all (k ∷ ks) b = delete_all ks (delete b k)

  unfoldable pub prune_chunk : Kept → Option Bytes → Bucket → Bucket × Walk
  unfolding delete_all
  prune_chunk kept resume b =
      let w = walk prune_chunk_size kept resume (cursor_from resume (pairs b)) in
      (delete_all w.kill b, w)

  -- The loop of `PruneJournal`, on fuel: `none` would be a loop that has not ended.
  unfoldable pub prune_loop : ℕ → Kept → Option Bytes → Bucket → Option Bucket
  prune_loop zero kept resume b = none
  prune_loop (suc fuel) kept resume b =
      let (b', w) = prune_chunk kept resume b in
      let rest = prune_loop fuel w.kept w.resume_before b' in if w.finished then some b' else rest

  unfoldable pub prune_journal : Bucket → Option Bucket
  unfolding prune_loop
  prune_journal b =
      prune_loop (length (pairs b) + 1) (record { delivered = 0; undelivered = 0 }) none b
