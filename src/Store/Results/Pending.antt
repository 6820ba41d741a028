-- ===== src/Store/Results/Pending.antt =====
-- The queue of results in agent/store/store.go: appending puts a result at its end, and dropping
-- the oldest leaves the others. Corrupt values are allowed for, as the code passes them over.
use native.Mathlib.Nat.{le_refl}
use mathlib.Core.Path.{subst₂}
use mathlib.Core.List.{append-nil, reverse-cons}
use hyperv_control_plane.Prelude.{
  ℕ, ◌+◌, ◌<◌, ◌≤◌, ◌^◌, ◌≡◌, refl, sym, ◌∙◌, ap, true, not, List, [], ◌∷◌, ◌++◌, reverse, inl, inr,
  arith, select, lt→ltb, ltb→lt, All, ◌==◌, Bool-cases, Text, text_eq, text_eq_iff,
}
use hyperv_control_plane.Store.Bytes.{Bytes, bytes_lt, itob, bytes_lt-itob}
use hyperv_control_plane.Store.Bolt.{Bolt, IsDescending, insert, erase}
use hyperv_control_plane.Store.Bolt.KeyOrder.{lt_ne}
use hyperv_control_plane.Store.Order.{
  All-keep, All-reverse, select-reverse, Rising, Falling, Rising-reverse, other, select-other_first,
}
use hyperv_control_plane.Store.Journal.{Stored, json, corrupt}
use hyperv_control_plane.Store.Journal.View.{itob-injective}
use hyperv_control_plane.Store.Results.{
  PendingResult, scan_results, append_pending_result, pending_results, drop_pending_result,
}

abbrev pub Pairs : Type 0 → Type 0
Pairs JobState = List (Bytes × Stored (PendingResult JobState))

key_lt :
    (n m s : ℕ) (k : Bytes) → n < m → m < 2 ^ 64 → k ≡ itob s → s ≤ n → bytes_lt k (itob m) ≡ true
key_lt n m s k l b e h = rw e (bytes_lt-itob s m (omega arith) b ∙ lt→ltb s m (omega arith))

key_test :
    (s m : ℕ) (j : Bytes) → s < 2 ^ 64 → m < 2 ^ 64 → j ≡ itob m → text_eq j (itob s) ≡ (m == s)
key_test s m j hs hm e = elim (Bool-cases (text_eq j (itob s))) [
  | inl t ↦
      let q = itob-injective m s hm hs (sym e ∙ (text_eq_iff j (itob s)).0 t) in rw t (ground arith)
  | inr t ↦ rw t (ground (arith, e, text_eq_iff j (itob s), ap itob))
]

module _ {JobState : Type 0} where
  abbrev pub number : PendingResult JobState → ℕ
  number e = e.seq

  -- A pair in a bucket whose sequence is `n`.
  abbrev pub Placed : ℕ → Bytes × Stored (PendingResult JobState) → Type 0
  Placed n (k, json e) = (k ≡ itob e.seq) × (e.seq ≤ n)
  Placed n (k, corrupt) = (s : ℕ) × (k ≡ itob s) × (s ≤ n)

  -- The results of a bucket, the newest first.
  abbrev pub readable : Pairs JobState → List (PendingResult JobState)
  readable [] = []
  readable ((k, json e) ∷ ps) = e ∷ readable ps
  readable ((k, corrupt) ∷ ps) = readable ps

  scan-append :
      (ps qs : Pairs JobState) → scan_results (ps ++ qs) ≡ scan_results ps ++ scan_results qs
  unfolding scan_results
  scan-append [] qs = refl
  scan-append ((k, json e) ∷ ps) qs = ap (λ r. e ∷ r) (scan-append ps qs)
  scan-append ((k, corrupt) ∷ ps) qs = scan-append ps qs

  scan-reverse : (ps : Pairs JobState) → scan_results (reverse ps) ≡ reverse (readable ps)
  unfolding scan_results
  scan-reverse [] = refl
  scan-reverse ((k, json e) ∷ ps) = simp (reverse-cons, scan-append, scan-reverse ps)
  scan-reverse ((k, corrupt) ∷ ps) = simp (reverse-cons, scan-append, scan-reverse ps, append-nil)

  All-Placed_mono : (n m : ℕ) (ps : Pairs JobState) → n ≤ m → All (Placed n) ps → All (Placed m) ps
  All-Placed_mono n m [] l h = tt
  All-Placed_mono n m ((k, corrupt) ∷ ps) l ((s, e, b), hs) =
      ((s, e, omega arith), All-Placed_mono n m ps l hs)
  All-Placed_mono n m ((k, json e) ∷ ps) l h = ((h.0.0, omega arith), All-Placed_mono n m ps l h.1)

  Placed-below :
      (n m : ℕ) (ps : Pairs JobState)
      → n < m
      → m < 2 ^ 64
      → All (Placed n) ps
      → All (λ q. bytes_lt q.0 (itob m) ≡ true) ps
  Placed-below n m [] l b h = tt
  Placed-below n m ((k, corrupt) ∷ ps) l b ((s, e, h), hs) =
      (key_lt n m s k l b e h, Placed-below n m ps l b hs)
  Placed-below n m ((k, json e) ∷ ps) l b h =
      (key_lt n m e.seq k l b h.0.0 h.0.1, Placed-below n m ps l b h.1)

  insert_top :
      (k : Bytes) (v : Stored (PendingResult JobState)) (ps : Pairs JobState)
      → All (λ q. bytes_lt q.0 k ≡ true) ps
      → insert k v ps ≡ (k, v) ∷ ps
  unfolding insert
  insert_top k v [] h = refl
  insert_top k v ((j, w) ∷ ps) h = rw (lt_ne j k h.0, h.0)

  readable-erase :
      (s n : ℕ) (ps : Pairs JobState)
      → s < 2 ^ 64
      → n < 2 ^ 64
      → All (Placed n) ps
      → readable (erase (itob s) ps) ≡ select (other number s) (readable ps)
  unfolding erase
  readable-erase s n [] hs hn h = refl
  readable-erase s n ((k, corrupt) ∷ ps) hs hn h = elim (Bool-cases (text_eq k (itob s))) [
    | inl q ↦ rw q (readable-erase s n ps hs hn h.1)
    | inr q ↦ rw q (readable-erase s n ps hs hn h.1)
  ]
  readable-erase s n ((k, json e) ∷ ps) hs hn h =
      let t = key_test s e.seq k hs (omega arith) h.0.0 in
      ground (arith, t, readable-erase s n ps hs hn h.1)

  All-readable :
      (n m : ℕ) (ps : Pairs JobState)
      → n < 2 ^ 64
      → m < 2 ^ 64
      → All (Placed n) ps
      → All (λ q. bytes_lt q.0 (itob m) ≡ true) ps
      → All (λ f. f.seq < m) (readable ps)
  All-readable n m [] b l w h = tt
  All-readable n m ((k, corrupt) ∷ ps) b l w h = All-readable n m ps b l w.1 h.1
  All-readable n m ((k, json f) ∷ ps) b l w h = (
    ltb→lt f.seq m (
        sym (bytes_lt-itob f.seq m (omega arith) l)
        ∙ ap (λ i. bytes_lt i (itob m)) (sym w.0.0)
        ∙ h.0),
    All-readable n m ps b l w.1 h.1,
  )

  Falling-readable :
      (n : ℕ) (ps : Pairs JobState)
      → n < 2 ^ 64
      → IsDescending ps
      → All (Placed n) ps
      → Falling number (readable ps)
  Falling-readable n [] b d w = tt
  Falling-readable n ((k, corrupt) ∷ ps) b d w = Falling-readable n ps b d.1 w.1
  Falling-readable n ((k, json e) ∷ ps) b d w = (
    All-readable n e.seq ps b (omega arith) w.1 (rw (w.0.0) at d.0),
    Falling-readable n ps b d.1 w.1,
  )

  readable_lt :
      (n : ℕ) (ps : Pairs JobState)
      → n < 2 ^ 64
      → All (Placed n) ps
      → All (λ e. e.seq < 2 ^ 64) (readable ps)
  readable_lt n [] b w = tt
  readable_lt n ((k, corrupt) ∷ ps) b w = readable_lt n ps b w.1
  readable_lt n ((k, json e) ∷ ps) b w = (omega arith, readable_lt n ps b w.1)

module _ {JobState : Type 0} (bolt : Bolt (Stored (PendingResult JobState))) where
  open bolt use {
    Bucket, pairs, sequence, put, delete, next_sequence, pairs-put, pairs-delete,
    pairs-next_sequence, sequence-put, sequence-delete, sequence-next_sequence, pairs-IsDescending,
  }

  -- A bucket as AppendPendingResult and DropPendingResult leave it, whatever became corrupt.
  pub record IsResults (b : Bucket) : Type 0 where
    pub placed : All (Placed (sequence b)) (pairs b)
    pub bounded : sequence b < 2 ^ 64

  pending-readable : (b : Bucket) → pending_results bolt b ≡ reverse (readable (pairs b))
  unfolding pending_results
  pending-readable b = scan-reverse (pairs b)

  pub pending-Rising : (b : Bucket) → IsResults b → Rising number (pending_results bolt b)
  pending-Rising b h = rw (pending-readable b) (
      Rising-reverse number (readable (pairs b))
        (Falling-readable (sequence b) (pairs b) h.bounded (pairs-IsDescending b) h.placed))

  pub pending_lt : (b : Bucket) → IsResults b → All (λ e. e.seq < 2 ^ 64) (pending_results bolt b)
  pending_lt b h = rw (pending-readable b) (
      simp append-nil at (
        All-reverse (λ e. e.seq < 2 ^ 64) (readable (pairs b)) []
          (readable_lt (sequence b) (pairs b) h.bounded h.placed) tt))

  -- Dropping a number takes its result off the queue, and no other.
  drop-select :
      (s : ℕ) (b : Bucket)
      → IsResults b
      → s < 2 ^ 64
      → pending_results bolt (drop_pending_result bolt s b)
        ≡ select (other number s) (pending_results bolt b)
  unfolding drop_pending_result
  drop-select s b h l =
      pending-readable (delete b (itob s))
      ∙ ap (λ ps. reverse (readable ps)) (pairs-delete b (itob s))
      ∙ ap reverse (readable-erase s (sequence b) (pairs b) l h.bounded h.placed)
      ∙ sym (select-reverse (other number s) (readable (pairs b)))
      ∙ ap (select (other number s)) (sym (pending-readable b))

  pub drop-IsResults : (s : ℕ) (b : Bucket) → IsResults b → IsResults (drop_pending_result bolt s b)
  unfolding drop_pending_result erase
  drop-IsResults s b h = record {
    placed =
        subst₂ (λ n ps. All (Placed n) ps) (sym (sequence-delete b (itob s)))
          (sym (pairs-delete b (itob s)))
          (All-keep (Placed (sequence b)) (λ p. not (text_eq p.0 (itob s))) (pairs b) h.placed);
    bounded = rw sequence-delete h.bounded;
  }

  -- Dropping the oldest result that waits takes it off the queue, and no other.
  pub drop-pending :
      (b : Bucket) (e : PendingResult JobState) (es : List (PendingResult JobState))
      → IsResults b
      → pending_results bolt b ≡ e ∷ es
      → pending_results bolt (drop_pending_result bolt e.seq b) ≡ es
  drop-pending b e es h q =
      let l : e.seq < 2 ^ 64 = (rw q at (pending_lt b h)).0 in
      let r : Rising number (e ∷ es) = rw q at (pending-Rising b h) in
      drop-select e.seq b h l
      ∙ ap (select (other number e.seq)) q
      ∙ select-other_first number e es r

  -- A result that is appended waits behind the others, under the next number, and the bucket stays
  -- well formed, while numbers are below 2^64.
  pub append-pending :
      (now : ℕ) (id : Text) (state : JobState) (message : Text) (b : Bucket)
      → IsResults b
      → sequence b + 1 < 2 ^ 64
      → let b' = append_pending_result bolt now id state message b in
        (pending_results bolt b'
          ≡ pending_results bolt b
            ++ record {
              seq = sequence b + 1;
              time = now;
              job_id = id;
              state = state;
              message = message;
            }
              ∷ [])
        × IsResults b'
  unfolding append_pending_result
  append-pending now id state message b h l =
      let q : sequence (next_sequence b) ≡ sequence b + 1 =
        omega (arith, sequence-next_sequence b) in
      let m = sequence (next_sequence b) in
      let e : PendingResult JobState = record {
        seq = m;
        time = now;
        job_id = id;
        state = state;
        message = message;
      } in
      let below = Placed-below (sequence b) m (pairs b) (omega arith) (omega arith) h.placed in
      let content : pairs (put (next_sequence b) (itob m) (json e)) ≡ (itob m, json e) ∷ pairs b =
        pairs-put (next_sequence b) (itob m) (json e)
        ∙ ap (insert (itob m) (json e)) (pairs-next_sequence b)
        ∙ insert_top (itob m) (json e) (pairs b) below in
      (
        pending-readable (put (next_sequence b) (itob m) (json e))
            ∙ ap (λ ps. reverse (readable ps)) content
            ∙ reverse-cons e (readable (pairs b))
            ∙ ap (λ es. es ++ e ∷ []) (sym (pending-readable b))
            ∙ ap
                (λ n.
                  pending_results bolt b
                  ++ record { seq = n; time = now; job_id = id; state = state; message = message }
                    ∷ [])
                q,
        record {
          placed =
              subst₂ (λ n ps. All (Placed n) ps)
                (sym (sequence-put (next_sequence b) (itob m) (json e))) (sym content)
                (
                  (refl, le_refl m),
                  All-Placed_mono (sequence b) m (pairs b) (omega arith) h.placed,
                );
          bounded = rw sequence-put (omega arith);
        },
      )
