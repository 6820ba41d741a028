-- ===== src/Store/Journal/Retain.antt =====
-- One pass over the journal, newest first, that keeps what `judge` keeps: what the chunks of
-- PruneJournal (agent/store/store.go) do together. Here one chunk is compared with it.
use mathlib.Core.List.{append_assoc, append-nil}
use hyperv_control_plane.Prelude.{
  ℕ, zero, suc, ◌≡◌, ◌≢◌, refl, ◌∙◌, ap, true, false, Option, none, some, List, [], ◌∷◌, ◌++◌, inl,
  inr, arith, take, drop, All-append, Bool-cases, if◌then◌else◌,
}
use hyperv_control_plane.Store.Bytes.{Bytes, bytes_lt_irrefl}
use hyperv_control_plane.Store.Bolt.{IsDescending}
use hyperv_control_plane.Store.Bolt.KeyOrder.{
  erase_all, Below, NotBelow, erase_middle, IsDescending-middle, NotBelow_above, select_none,
  select_whole, IsDescending-right,
}
use hyperv_control_plane.Store.Journal.{Stored, JournalEntry, Kept, judge, walk, cursor_from}

abbrev pub Pairs : Type 0 → Type 0
Pairs Status = List (Bytes × Stored (JournalEntry Status))

module _ {Status : Type 0} where
  unfoldable pub retain : Kept → Pairs Status → Pairs Status
  retain kept [] = []
  retain kept ((k, v) ∷ ps) =
      let (dropped, kept') = judge kept v in
      let rest = retain kept' ps in if dropped then rest else (k, v) ∷ rest

  -- The pass may stop after `n` pairs and go on with the counters of the walk.
  pub retain-walk :
      (n : ℕ) (kept : Kept) (r : Option Bytes) (ps : Pairs Status)
      → retain kept ps ≡ retain kept (take n ps) ++ retain (walk n kept r ps).kept (drop n ps)
  unfolding retain walk
  retain-walk zero kept r [] = refl
  retain-walk zero kept r (p ∷ ps) = refl
  retain-walk (suc n) kept r [] = refl
  retain-walk (suc n) kept r ((k, v) ∷ ps) = elim (Bool-cases (judge kept v).0) [
    | inl e ↦ rw e (retain-walk n (judge kept v).1 (some k) ps)
    | inr e ↦ rw e (ap (λ q. (k, v) ∷ q) (retain-walk n (judge kept v).1 (some k) ps))
  ]

  -- The walk finishes exactly when it has come to the end of the bucket.
  pub walk-finished :
      (n : ℕ) (kept : Kept) (r : Option Bytes) (ps : Pairs Status)
      → (walk n kept r ps).finished ≡ true
      → drop n ps ≡ []
  unfolding walk
  walk-finished zero kept r [] h = refl
  walk-finished zero kept r (p ∷ ps) h = cc
  walk-finished (suc n) kept r [] h = refl
  walk-finished (suc n) kept r ((k, v) ∷ ps) h =
      walk-finished n (judge kept v).1 (some k) ps (ground arith)

  pub walk-not_finished :
      (n : ℕ) (kept : Kept) (r : Option Bytes) (ps : Pairs Status)
      → (walk n kept r ps).finished ≡ false
      → ps ≢ []
  unfolding walk
  walk-not_finished zero kept r [] h = cc
  walk-not_finished zero kept r (p ∷ ps) h = λ e. cc
  walk-not_finished (suc n) kept r [] h = cc
  walk-not_finished (suc n) kept r ((k, v) ∷ ps) h = λ e. cc

  -- What is left below a pair that has been examined.
  Below-after :
      (us : Pairs Status) (k : Bytes) (v : Stored (JournalEntry Status)) (ps : Pairs Status)
      → IsDescending (us ++ (k, v) ∷ ps)
      → Below (some k) ps
  Below-after us k v ps h = (IsDescending-right us ((k, v) ∷ ps) h).0

  pub walk-Below :
      (n : ℕ) (kept : Kept) (r : Option Bytes) (ps : Pairs Status)
      → IsDescending ps
      → Below r ps
      → Below (walk n kept r ps).resume_before (drop n ps)
  unfolding walk
  walk-Below zero kept r [] h b = b
  walk-Below zero kept r (p ∷ ps) h b = b
  walk-Below (suc n) kept r [] h b = b
  walk-Below (suc n) kept r ((k, v) ∷ ps) h b = elim (Bool-cases (judge kept v).0) [
    | inl e ↦ rw e (walk-Below n (judge kept v).1 (some k) ps h.1 h.0)
    | inr e ↦ rw e (walk-Below n (judge kept v).1 (some k) ps h.1 h.0)
  ]

  -- Nothing that the walk has passed and kept is below where it stopped.
  pub walk-NotBelow :
      (n : ℕ) (kept : Kept) (r : Option Bytes) (us ps : Pairs Status)
      → IsDescending (us ++ ps)
      → NotBelow r us
      → NotBelow (walk n kept r ps).resume_before (us ++ retain kept (take n ps))
  unfolding walk retain
  walk-NotBelow zero kept r us [] h b = rw append-nil b
  walk-NotBelow zero kept r us (p ∷ ps) h b = rw append-nil b
  walk-NotBelow (suc n) kept r us [] h b = rw append-nil b
  walk-NotBelow (suc n) kept r us ((k, v) ∷ ps) h b = elim (Bool-cases (judge kept v).0) [
    | inl e ↦ rw e (
        walk-NotBelow n (judge kept v).1 (some k) us ps (IsDescending-middle us k v ps h)
          (NotBelow_above us k v ps h))
    | inr e ↦
        rw (e, ← append_assoc us ((k, v) ∷ []) (retain (judge kept v).1 (take n ps)))
          (walk-NotBelow n (judge kept v).1 (some k) (us ++ (k, v) ∷ []) ps (rw append_assoc h)
            (All-append _ us ((k, v) ∷ []) (NotBelow_above us k v ps h) (bytes_lt_irrefl k, tt)))
  ]

  -- Erasing what the walk has marked leaves what the pass keeps of it, and the rest untouched.
  pub erase_all-walk :
      (n : ℕ) (kept : Kept) (r : Option Bytes) (us ps : Pairs Status)
      → IsDescending (us ++ ps)
      → erase_all (walk n kept r ps).kill (us ++ ps) ≡ (us ++ retain kept (take n ps)) ++ drop n ps
  unfolding walk retain
  erase_all-walk zero kept r us [] h = rw (append-nil, append-nil)
  erase_all-walk zero kept r us (p ∷ ps) h = rw append-nil
  erase_all-walk (suc n) kept r us [] h = rw (append-nil, append-nil)
  erase_all-walk (suc n) kept r us ((k, v) ∷ ps) h = elim (Bool-cases (judge kept v).0) [
    | inl e ↦ rw e (
        ap (erase_all (walk n (judge kept v).1 (some k) ps).kill) (erase_middle us k v ps h)
        ∙ erase_all-walk n (judge kept v).1 (some k) us ps (IsDescending-middle us k v ps h))
    | inr e ↦
        rw
          (
            e,
            ← append_assoc us ((k, v) ∷ []) (retain (judge kept v).1 (take n ps)),
            ← append_assoc us ((k, v) ∷ []) ps,
          )
          (erase_all-walk n (judge kept v).1 (some k) (us ++ (k, v) ∷ []) ps (rw append_assoc h))
  ]

  -- The next chunk finds the cursor at the pairs that the walk has not examined.
  pub cursor_from-append :
      (r : Option Bytes) (us ps : Pairs Status)
      → NotBelow r us
      → Below r ps
      → cursor_from r (us ++ ps) ≡ ps
  unfolding cursor_from
  cursor_from-append none us ps h b = rw h
  cursor_from-append (some k) us ps h b = rw (select_none k us h ps) (select_whole k ps b)
