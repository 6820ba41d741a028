-- ===== src/Store/Journal/Prune.antt =====
-- PruneJournal (agent/store/store.go): its chunks together are one pass over the journal, the loop
-- ends, and what the pass keeps is stated without it.
use mathlib.Core.List.{append_assoc}
use hyperv_control_plane.Prelude.{
  ℕ, zero, suc, ◌+◌, ◌<◌, ◌≡◌, ◌≢◌, refl, sym, ◌∙◌, ap, true, false, Option, some, List, [], ◌∷◌,
  ◌++◌, inl, inr, arith, length, take, drop, length-drop, Bool-cases,
}
use hyperv_control_plane.Store.Bytes.{Bytes}
use hyperv_control_plane.Store.Bolt.{Bolt, IsDescending}
use hyperv_control_plane.Store.Bolt.KeyOrder.{erase_all, Below, NotBelow, IsDescending-right}
use hyperv_control_plane.Store.Journal.{
  Stored, JournalEntry, Kept, walk, cursor_from, delete_all, prune_chunk, prune_chunk_size,
  prune_loop, prune_journal,
}
use hyperv_control_plane.Store.Journal.Retain.{
  Pairs, retain, retain-walk, walk-finished, walk-not_finished, walk-Below, walk-NotBelow,
  erase_all-walk, cursor_from-append,
}

length-drop-lt : {A : Type 0} (n : ℕ) (xs : List A) → xs ≢ [] → length (drop (suc n) xs) < length xs
length-drop-lt n [] h = absurd (h refl)
length-drop-lt n (x ∷ xs) h = omega (arith, length-drop n xs)

module _ {Status : Type 0} (bolt : Bolt (Stored (JournalEntry Status))) where
  open bolt use {Bucket, pairs, sequence, delete, pairs-delete, sequence-delete, pairs-IsDescending}

  pairs-delete_all :
      (ks : List Bytes) (b : Bucket) → pairs (delete_all bolt ks b) ≡ erase_all ks (pairs b)
  unfolding delete_all
  pairs-delete_all [] b = refl
  pairs-delete_all (k ∷ ks) b =
      pairs-delete_all ks (delete b k) ∙ ap (erase_all ks) (pairs-delete b k)

  sequence-delete_all :
      (ks : List Bytes) (b : Bucket) → sequence (delete_all bolt ks b) ≡ sequence b
  unfolding delete_all
  sequence-delete_all [] b = refl
  sequence-delete_all (k ∷ ks) b = sequence-delete_all ks (delete b k) ∙ sequence-delete b k

  -- The bucket after some chunks: what they have kept, and below it what the next ones examine.
  record Between (kept : Kept) (r : Option Bytes) (us ps : Pairs Status) (b : Bucket) : Type 0 where
    content : pairs b ≡ us ++ ps
    above : NotBelow r us
    below : Below r ps

  cursor-Between :
      {kept : Kept} {r : Option Bytes} {us ps : Pairs Status} {b : Bucket}
      → Between kept r us ps b
      → cursor_from r (pairs b) ≡ ps
  cursor-Between {kept} {r} {us} {ps} {b} h =
      ap (cursor_from r) h.content ∙ cursor_from-append r us ps h.above h.below

  chunk-walk :
      {kept : Kept} {r : Option Bytes} {us ps : Pairs Status} {b : Bucket}
      → Between kept r us ps b
      → (prune_chunk bolt kept r b).1 ≡ walk prune_chunk_size kept r ps
  unfolding prune_chunk
  chunk-walk {kept} {r} h = ap (walk prune_chunk_size kept r) (cursor-Between h)

  -- One chunk keeps what the pass keeps of the pairs that it examines.
  chunk-Between :
      {kept : Kept} {r : Option Bytes} {us ps : Pairs Status} {b : Bucket}
      → Between kept r us ps b
      → Between
          (prune_chunk bolt kept r b).1.kept
          (prune_chunk bolt kept r b).1.resume_before
          (us ++ retain kept (take prune_chunk_size ps))
          (drop prune_chunk_size ps)
          (prune_chunk bolt kept r b).0
  unfolding prune_chunk
  chunk-Between {kept} {r} {us} {ps} {b} h =
      let w = walk prune_chunk_size kept r ps in
      let d : IsDescending (us ++ ps) = rw h.content at (pairs-IsDescending b) in
      rw (cursor-Between h) (record {
        content =
            pairs-delete_all w.kill b
            ∙ ap (erase_all w.kill) h.content
            ∙ erase_all-walk prune_chunk_size kept r us ps d;
        above = walk-NotBelow prune_chunk_size kept r us ps d h.above;
        below = walk-Below prune_chunk_size kept r ps (IsDescending-right us ps d) h.below;
      })

  chunk-sequence :
      (kept : Kept) (r : Option Bytes) (b : Bucket)
      → sequence (prune_chunk bolt kept r b).0 ≡ sequence b
  unfolding prune_chunk
  chunk-sequence kept r b =
      sequence-delete_all (walk prune_chunk_size kept r (cursor_from r (pairs b))).kill b

  retain-chunk :
      {kept : Kept} {r : Option Bytes} {us ps : Pairs Status} {b : Bucket}
      → Between kept r us ps b
      → (us ++ retain kept (take prune_chunk_size ps))
          ++ retain (prune_chunk bolt kept r b).1.kept (drop prune_chunk_size ps)
        ≡ us ++ retain kept ps
  retain-chunk {kept} {r} {us} {ps} h =
      rw (chunk-walk h, append_assoc)
        (ap (λ q. us ++ q) (sym (retain-walk prune_chunk_size kept r ps)))

  chunk_done :
      {kept : Kept} {r : Option Bytes} {us ps : Pairs Status} {b : Bucket}
      → Between kept r us ps b
      → (prune_chunk bolt kept r b).1.finished ≡ true
      → pairs (prune_chunk bolt kept r b).0 ≡ us ++ retain kept ps
  unfolding retain
  chunk_done {kept} {r} {us} {ps} {b} h f =
      let e = walk-finished prune_chunk_size kept r ps (rw (chunk-walk h) at f) in
      (chunk-Between h).content
      ∙ (ap (λ q. (us ++ retain kept (take prune_chunk_size ps)) ++ q)
          (e ∙ sym (ap (retain (prune_chunk bolt kept r b).1.kept) e)))
      ∙ retain-chunk h

  chunk_more :
      {kept : Kept} {r : Option Bytes} {us ps : Pairs Status} {b : Bucket}
      → Between kept r us ps b
      → (prune_chunk bolt kept r b).1.finished ≡ false
      → ps ≢ []
  chunk_more {kept} {r} {us} {ps} h f =
      walk-not_finished prune_chunk_size kept r ps (rw (chunk-walk h) at f)

  prune_loop_lem :
      (fuel : ℕ) {kept : Kept} {r : Option Bytes} {us ps : Pairs Status} {b : Bucket}
      → Between kept r us ps b
      → length ps < fuel
      → (b' : Bucket) × (prune_loop bolt fuel kept r b ≡ some b')
        × (pairs b' ≡ us ++ retain kept ps)
        × (sequence b' ≡ sequence b)
  unfolding prune_loop
  prune_loop_lem zero h l = absurd (omega arith)
  prune_loop_lem (suc fuel) {kept} {r} {us} {ps} {b} h l =
      elim (Bool-cases (prune_chunk bolt kept r b).1.finished) [
        | inl f ↦ ((prune_chunk bolt kept r b).0, rw f, chunk_done h f, chunk-sequence kept r b)
        | inr f ↦
            let (c, run, e, q) =
              prune_loop_lem fuel (chunk-Between h)
                (omega (arith, length-drop-lt 1999 ps (chunk_more h f))) in
            (c, rw f run, e ∙ retain-chunk h, q ∙ chunk-sequence kept r b)
      ]

  -- Pruning ends with fuel for one chunk more than there are entries, and its chunks together are
  -- one pass over the journal.
  pub prune_journal_pass :
      (b : Bucket)
      → (b' : Bucket) × (prune_journal bolt b ≡ some b')
        × (pairs b' ≡ retain (record { delivered = 0; undelivered = 0 }) (pairs b))
        × (sequence b' ≡ sequence b)
  unfolding prune_journal
  prune_journal_pass b =
      prune_loop_lem (length (pairs b) + 1) (record { content = refl; above = refl; below = tt })
        (omega arith)
