-- ===== src/Store/Journal/Quota.antt =====
-- What a prune of the journal keeps, by the kind of the entry (agent/store/store.go, PruneJournal).
use hyperv_control_plane.Prelude.{
  ℕ, ◌+◌, ◌-◌, ◌≡◌, refl, sym, ◌∙◌, ap, Bool, true, false, not, some, List, [], ◌∷◌, inl, inr,
  arith, take, take-cons, take_all, select, ltb, Bool-cases,
}
use hyperv_control_plane.Store.Bytes.{Bytes}
use hyperv_control_plane.Store.Bolt.{Bolt}
use hyperv_control_plane.Store.Journal.{
  Stored, json, corrupt, JournalEntry, Kept, judge, journal_keep, journal_max_undelivered,
  prune_journal,
}
use hyperv_control_plane.Store.Journal.Retain.{Pairs, retain}
use hyperv_control_plane.Store.Journal.Prune.{prune_journal_pass}

module _ {A : Type 0} where
  -- A quota of `m` with `u` taken has room for one more,
  room-take :
      (m u : ℕ) (x : A) (xs : List A)
      → ltb u m ≡ true
      → x ∷ take (m - (u + 1)) xs ≡ take (m - u) (x ∷ xs)
  room-take m u x xs h =
      ap (λ n. x ∷ take n xs) (ground arith) ∙ sym (take-cons (m - u) x xs (ground arith))

  -- or is used up.
  full-take :
      (m u : ℕ) (x : A) (xs : List A) → ltb u m ≡ false → take (m - u) xs ≡ take (m - u) (x ∷ xs)
  full-take m u x xs h =
      let e : m - u ≡ 0 = ground arith in ap (λ n. take n xs) e ∙ sym (ap (λ n. take n (x ∷ xs)) e)

module _ {Status : Type 0} where
  abbrev pub is_queued : Bytes × Stored (JournalEntry Status) → Bool
  is_queued (k, json e) = not e.delivered
  is_queued (k, corrupt) = false

  abbrev pub is_delivered : Bytes × Stored (JournalEntry Status) → Bool
  is_delivered (k, json e) = e.delivered
  is_delivered (k, corrupt) = false

  abbrev pub is_corrupt : Bytes × Stored (JournalEntry Status) → Bool
  is_corrupt (k, json e) = false
  is_corrupt (k, corrupt) = true

  pub select_queued-retain :
      (kept : Kept) (ps : Pairs Status)
      → select is_queued (retain kept ps)
        ≡ take (journal_max_undelivered - kept.undelivered) (select is_queued ps)
  unfolding retain judge
  select_queued-retain kept [] =
      sym (take_all (journal_max_undelivered - kept.undelivered) [] (omega arith))
  select_queued-retain kept ((k, corrupt) ∷ ps) = select_queued-retain kept ps
  select_queued-retain kept ((k, json e) ∷ ps) = elim (Bool-cases e.delivered) [
    | inl e' ↦ elim (Bool-cases (ltb kept.delivered journal_keep)) [
      | inl l ↦
          simp (e', l) (select_queued-retain (record kept { delivered = kept.delivered + 1 }) ps)
      | inr l ↦ simp (e', l) (select_queued-retain kept ps)
    ]
    | inr e' ↦ elim (Bool-cases (ltb kept.undelivered journal_max_undelivered)) [
      | inl l ↦
          simp (e', l)
            (ap (λ q. (k, json e) ∷ q)
                (select_queued-retain (record kept { undelivered = kept.undelivered + 1 }) ps)
              ∙ room-take journal_max_undelivered kept.undelivered (k, json e) (select is_queued ps)
                  l)
      | inr l ↦
          simp (e', l)
            (select_queued-retain kept ps
              ∙ full-take journal_max_undelivered kept.undelivered (k, json e) (select is_queued ps)
                  l)
    ]
  ]

  pub select_delivered-retain :
      (kept : Kept) (ps : Pairs Status)
      → select is_delivered (retain kept ps)
        ≡ take (journal_keep - kept.delivered) (select is_delivered ps)
  unfolding retain judge
  select_delivered-retain kept [] = sym (take_all (journal_keep - kept.delivered) [] (omega arith))
  select_delivered-retain kept ((k, corrupt) ∷ ps) = select_delivered-retain kept ps
  select_delivered-retain kept ((k, json e) ∷ ps) = elim (Bool-cases e.delivered) [
    | inl e' ↦ elim (Bool-cases (ltb kept.delivered journal_keep)) [
      | inl l ↦
          simp (e', l)
            (ap (λ q. (k, json e) ∷ q)
                (select_delivered-retain (record kept { delivered = kept.delivered + 1 }) ps)
              ∙ room-take journal_keep kept.delivered (k, json e) (select is_delivered ps) l)
      | inr l ↦
          simp (e', l)
            (select_delivered-retain kept ps
              ∙ full-take journal_keep kept.delivered (k, json e) (select is_delivered ps) l)
    ]
    | inr e' ↦ elim (Bool-cases (ltb kept.undelivered journal_max_undelivered)) [
      | inl l ↦
          simp (e', l)
            (select_delivered-retain (record kept { undelivered = kept.undelivered + 1 }) ps)
      | inr l ↦ simp (e', l) (select_delivered-retain kept ps)
    ]
  ]

  pub select_corrupt-retain :
      (kept : Kept) (ps : Pairs Status) → select is_corrupt (retain kept ps) ≡ []
  unfolding retain judge
  select_corrupt-retain kept [] = refl
  select_corrupt-retain kept ((k, corrupt) ∷ ps) = select_corrupt-retain kept ps
  select_corrupt-retain kept ((k, json e) ∷ ps) =
      let ih = λ (c : Kept). select_corrupt-retain c ps in
      ground (arith, ih (judge kept (json e)).1)

module _ {Status : Type 0} (bolt : Bolt (Stored (JournalEntry Status))) where
  open bolt use {Bucket, pairs, sequence}

  -- Pruning ends, and keeps the newest 5000 queued entries, the newest 200 delivered ones and none
  -- that cannot be read. The sequence of the bucket stands.
  pub prune_journal_quota :
      (b : Bucket)
      → (b' : Bucket) × (prune_journal bolt b ≡ some b')
        × (select is_queued (pairs b') ≡ take 5000 (select is_queued (pairs b)))
        × (select is_delivered (pairs b') ≡ take 200 (select is_delivered (pairs b)))
        × (select is_corrupt (pairs b') ≡ [])
        × (sequence b' ≡ sequence b)
  prune_journal_quota b =
      let (b', run, e, q) = prune_journal_pass bolt b in
      let kept : Kept = record { delivered = 0; undelivered = 0 } in
      (
        b',
        run,
        ap (select is_queued) e ∙ select_queued-retain kept (pairs b),
        ap (select is_delivered) e ∙ select_delivered-retain kept (pairs b),
        ap (select is_corrupt) e ∙ select_corrupt-retain kept (pairs b),
        q,
      )
