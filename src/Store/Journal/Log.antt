-- ===== src/Store/Journal/Log.antt =====
-- The journal is an append-only log with delivery marks: each operation of agent/store/store.go
-- does to the bucket what the log says, and what was written stays readable.
use native.Mathlib.Nat.{le_refl}
use mathlib.Core.Path.{subst₂}
use mathlib.Core.List.{append-nil}
use hyperv_control_plane.Prelude.{
  ℕ, ◌+◌, ◌<◌, ◌≤◌, ◌^◌, ◌≡◌, refl, sym, ◌∙◌, ap, Bool, true, Option, none, some, List, [], ◌∷◌,
  map, reverse, inl, inr, arith, select, lt→ltb, All, Bool-cases,
}
use hyperv_control_plane.Store.Bytes.{Bytes, bytes_lt, itob, bytes_lt-itob}
use hyperv_control_plane.Store.Bolt.{Bolt, lookup, insert}
use hyperv_control_plane.Store.Journal.{
  Stored, json, corrupt, JournalEntry, append_status, scan_undelivered, undelivered, mark_delivered,
  mark,
}
use hyperv_control_plane.Store.Journal.Retain.{Pairs}
use hyperv_control_plane.Store.Journal.View.{
  Written, view, waiting, deliver, scan-reverse, insert_top, All-lookup, All-insert,
  insert-lookup_same, map-deliver-none, view-insert,
}

module _ {Status : Type 0} where
  All-Written_mono : (n m : ℕ) (ps : Pairs Status) → n ≤ m → All (Written n) ps → All (Written m) ps
  All-Written_mono n m [] l h = tt
  All-Written_mono n m ((k, corrupt) ∷ ps) l h = elim h.0 [ ]
  All-Written_mono n m ((k, json e) ∷ ps) l h =
      ((h.0.0, omega arith), All-Written_mono n m ps l h.1)

  Written-below :
      (n m : ℕ) (ps : Pairs Status)
      → n < m
      → m < 2 ^ 64
      → All (Written n) ps
      → All (λ q. bytes_lt q.0 (itob m) ≡ true) ps
  Written-below n m [] l b h = tt
  Written-below n m ((k, corrupt) ∷ ps) l b h = elim h.0 [ ]
  Written-below n m ((k, json e) ∷ ps) l b h = (
    rw (h.0.0) (bytes_lt-itob e.seq m (omega arith) b ∙ lt→ltb e.seq m (omega arith)),
    Written-below n m ps l b h.1,
  )

module _ {Status : Type 0} (bolt : Bolt (Stored (JournalEntry Status))) where
  open bolt use {
    Bucket, pairs, sequence, get, put, next_sequence, get_lem, pairs-put, pairs-next_sequence,
    sequence-put, sequence-next_sequence, pairs-IsDescending,
  }

  -- A bucket as AppendStatus and MarkDelivered leave it.
  pub record IsJournal (b : Bucket) : Type 0 where
    pub written : All (Written (sequence b)) (pairs b)
    pub bounded : sequence b < 2 ^ 64

  -- The log of a bucket, newest first.
  abbrev pub log : Bucket → List (JournalEntry Status)
  log b = view (pairs b)

  -- In a well-formed journal, Undelivered lists the entries of the log that are not delivered, the
  -- oldest first, without an error.
  pub undelivered-log :
      (b : Bucket) → IsJournal b → undelivered bolt b ≡ (reverse (select waiting (log b)), none)
  unfolding undelivered scan_undelivered
  undelivered-log b h = simp append-nil at (scan-reverse (sequence b) (pairs b) [] h.written)

  put-IsJournal :
      (b : Bucket) (k : Bytes) (v : Stored (JournalEntry Status))
      → IsJournal b
      → Written (sequence b) (k, v)
      → IsJournal (put b k v)
  put-IsJournal b k v h w = record {
    written =
        subst₂ (λ n ps. All (Written n) ps) (sym (sequence-put b k v)) (sym (pairs-put b k v))
          (All-insert (Written (sequence b)) k v (pairs b) w h.written);
    bounded = rw sequence-put h.bounded;
  }

  -- AppendStatus puts its entry on top of the log of a well-formed journal, under the next sequence
  -- number, and the journal stays well formed, while numbers are below 2^64.
  pub append_status-log :
      (now : ℕ) (status : Status) (d : Bool) (b : Bucket)
      → IsJournal b
      → sequence b + 1 < 2 ^ 64
      → let (b', e) = append_status bolt now status d b in
        (log b' ≡ e ∷ log b)
        × (e.seq ≡ sequence b + 1)
        × (sequence b' ≡ sequence b + 1)
        × IsJournal b'
  unfolding append_status
  append_status-log now status d b h l =
      let q : sequence (next_sequence b) ≡ sequence b + 1 =
        omega (arith, sequence-next_sequence b) in
      let m = sequence (next_sequence b) in
      let e : JournalEntry Status = record {
        seq = m;
        time = now;
        status = status;
        delivered = d;
      } in
      let below = Written-below (sequence b) m (pairs b) (omega arith) (omega arith) h.written in
      let content : pairs (put (next_sequence b) (itob m) (json e)) ≡ (itob m, json e) ∷ pairs b =
        pairs-put (next_sequence b) (itob m) (json e)
        ∙ ap (insert (itob m) (json e)) (pairs-next_sequence b)
        ∙ insert_top (itob m) (json e) (pairs b) below in
      let next : IsJournal (next_sequence b) = record {
        written =
            subst₂ (λ n ps. All (Written n) ps) refl (sym (pairs-next_sequence b))
              (All-Written_mono (sequence b) m (pairs b) (omega arith) h.written);
        bounded = omega arith;
      } in
      let q' = sequence-put (next_sequence b) (itob m) (json e) in
      (
        ap view content,
        q,
        q' ∙ q,
        put-IsJournal (next_sequence b) (itob m) (json e) next (refl, le_refl m),
      )

  mark-log :
      (s : ℕ) (b : Bucket) (v : Option (Stored (JournalEntry Status)))
      → IsJournal b
      → s < 2 ^ 64
      → lookup (itob s) (pairs b) ≡ v
      → let (b', error) = mark bolt s b v in
        (log b' ≡ map (deliver s) (log b))
        × (error ≡ none)
        × (sequence b' ≡ sequence b)
        × IsJournal b'
  unfolding mark
  mark-log s b none h l g =
      (sym (map-deliver-none s (sequence b) (pairs b) l h.bounded h.written g), refl, refl, h)
  mark-log s b (some corrupt) h l g =
      elim (All-lookup (Written (sequence b)) (itob s) (pairs b) h.written g) [ ]
  mark-log s b (some (json e)) h l g =
      let d = pairs-IsDescending b in
      let now_delivered : JournalEntry Status = record e { delivered = true } in
      let marked = view-insert s (sequence b) e (pairs b) l h.bounded d h.written g in
      elim (Bool-cases e.delivered) [
        | inl done ↦
            let same : now_delivered ≡ e = ground arith in
            let idle = insert-lookup_same (itob s) (json e) (pairs b) d g in
            rw done (
              sym (ap view idle)
                  ∙ ap (λ x. view (insert (itob s) (json x) (pairs b))) (sym same)
                  ∙ marked,
              refl,
              refl,
              h,
            )
        | inr waits ↦ rw waits (
          ap view (pairs-put b (itob s) (json now_delivered)) ∙ marked,
          refl,
          sequence-put b (itob s) (json now_delivered),
          put-IsJournal b (itob s) (json now_delivered) h
              (All-lookup (Written (sequence b)) (itob s) (pairs b) h.written g),
        )
      ]

  -- MarkDelivered marks the entry of its number in the log of a well-formed journal, and no other,
  -- without an error; the sequence stands, and the journal stays well formed.
  pub mark_delivered-log :
      (s : ℕ) (b : Bucket)
      → IsJournal b
      → s < 2 ^ 64
      → let (b', error) = mark_delivered bolt s b in
        (log b' ≡ map (deliver s) (log b))
        × (error ≡ none)
        × (sequence b' ≡ sequence b)
        × IsJournal b'
  unfolding mark_delivered
  mark_delivered-log s b h l = mark-log s b (get b (itob s)) h l (sym (get_lem b (itob s)))
