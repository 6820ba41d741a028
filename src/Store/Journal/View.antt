-- ===== src/Store/Journal/View.antt =====
-- The journal as the list of its entries, newest first: what the operations of
-- agent/store/store.go do to it, with the keys and the encoding forgotten.
use mathlib.Core.Path.{subst₂, ap₂}
use mathlib.Core.List.{reverse-cons, append_assoc}
use hyperv_control_plane.Prelude.{
  ℕ, ◌<◌, ◌≤◌, ◌^◌, ◌≡◌, refl, sym, ◌∙◌, ap, Bool, true, not, none, some, List, [], ◌∷◌, ◌++◌, map,
  reverse, inl, inr, arith, select, All, ◌==◌, Bool-cases, if◌then◌else◌, text_eq, text_eq_iff,
}
use hyperv_control_plane.Store.Bytes.{Bytes, bytes_lt, bytes_lt_irrefl, itob, bytes_lt-itob}
use hyperv_control_plane.Store.Bolt.{IsDescending, lookup, insert}
use hyperv_control_plane.Store.Bolt.KeyOrder.{lt_ne, lt_asymm}
use hyperv_control_plane.Store.Journal.{Stored, json, corrupt, JournalEntry, scan_undelivered}
use hyperv_control_plane.Store.Journal.Retain.{Pairs}

pub itob-injective : (a b : ℕ) → a < 2 ^ 64 → b < 2 ^ 64 → itob a ≡ itob b → a ≡ b
itob-injective a b ha hb e = ground (
  arith,
  bytes_lt-itob a b ha hb,
  bytes_lt-itob b a hb ha,
  bytes_lt_irrefl (itob b),
  ap (λ t. bytes_lt t (itob b)) e,
  ap (λ t. bytes_lt (itob b) t) e,
)

module _ {Status : Type 0} where
  -- A pair as AppendStatus writes it, in a bucket whose sequence is `n`.
  abbrev pub Written : ℕ → Bytes × Stored (JournalEntry Status) → Type 0
  Written n (k, json e) = (k ≡ itob e.seq) × (e.seq ≤ n)
  Written n (k, corrupt) = ⊥

  abbrev pub view : Pairs Status → List (JournalEntry Status)
  view [] = []
  view ((k, json e) ∷ ps) = e ∷ view ps
  view ((k, corrupt) ∷ ps) = view ps

  abbrev pub waiting : JournalEntry Status → Bool
  waiting e = not e.delivered

  -- What MarkDelivered does to each entry.
  abbrev pub deliver : ℕ → JournalEntry Status → JournalEntry Status
  deliver seq e = if e.seq == seq then record e { delivered = true } else e

  pub scan-reverse :
      (n : ℕ) (ps qs : Pairs Status)
      → All (Written n) ps
      → scan_undelivered (reverse ps ++ qs)
        ≡ (reverse (select waiting (view ps)) ++ (scan_undelivered qs).0, (scan_undelivered qs).1)
  unfolding scan_undelivered
  scan-reverse n [] qs h = refl
  scan-reverse n ((k, corrupt) ∷ ps) qs h = elim h.0 [ ]
  scan-reverse n ((k, json e) ∷ ps) qs h =
      rw (reverse-cons, append_assoc)
        (scan-reverse n ps ((k, json e) ∷ qs) h.1 ∙ elim (Bool-cases e.delivered) [
          | inl d ↦ simp d
          | inr d ↦ simp (d, reverse-cons, append_assoc)
        ])

  lookup_below :
      (k : Bytes) (ps : Pairs Status) → All (λ q. bytes_lt q.0 k ≡ true) ps → lookup k ps ≡ none
  unfolding lookup
  lookup_below k [] h = refl
  lookup_below k (p ∷ ps) h = rw (lt_ne p.0 k h.0) (lookup_below k ps h.1)

  pub insert_top :
      (k : Bytes) (v : Stored (JournalEntry Status)) (ps : Pairs Status)
      → All (λ q. bytes_lt q.0 k ≡ true) ps
      → insert k v ps ≡ (k, v) ∷ ps
  unfolding insert
  insert_top k v [] h = refl
  insert_top k v ((j, w) ∷ ps) h = rw (lt_ne j k h.0, h.0)

  pub All-lookup :
      (P : Bytes × Stored (JournalEntry Status) → Type 0) (k : Bytes) (ps : Pairs Status)
      {v : Stored (JournalEntry Status)}
      → All P ps
      → lookup k ps ≡ some v
      → P (k, v)
  unfolding lookup
  All-lookup P k [] h e = cc
  All-lookup P k ((j, w) ∷ ps) {v} h e = elim (Bool-cases (text_eq j k)) [
    | inl t ↦
        let same : w ≡ v = ground (arith, rw t at e) in
        subst₂ (λ i x. P (i, x)) ((text_eq_iff j k).0 t) same h.0
    | inr t ↦ All-lookup P k ps h.1 (rw t at e)
  ]

  -- The key of an entry is the key of a number exactly when the entry has that number.
  key_test :
      (s n : ℕ) (j : Bytes) (f : JournalEntry Status)
      → s < 2 ^ 64
      → n < 2 ^ 64
      → Written n (j, json f)
      → text_eq j (itob s) ≡ (f.seq == s)
  key_test s n j f hs hn h = elim (Bool-cases (text_eq j (itob s))) [
    | inl t ↦
        let e = itob-injective f.seq s (omega arith) hs (sym h.0 ∙ (text_eq_iff j (itob s)).0 t) in
        rw t (ground arith)
    | inr t ↦ rw t (ground (arith, h.0, text_eq_iff j (itob s), ap itob))
  ]

  -- A number that no key has changes no entry.
  pub map-deliver-none :
      (s : ℕ) (n : ℕ) (ps : Pairs Status)
      → s < 2 ^ 64
      → n < 2 ^ 64
      → All (Written n) ps
      → lookup (itob s) ps ≡ none
      → map (deliver s) (view ps) ≡ view ps
  unfolding lookup
  map-deliver-none s n [] hs hn h l = refl
  map-deliver-none s n ((j, corrupt) ∷ ps) hs hn h l = elim h.0 [ ]
  map-deliver-none s n ((j, json f) ∷ ps) hs hn h l = elim (Bool-cases (f.seq == s)) [
    | inl q ↦ cc (rw (key_test s n j f hs hn h.0 ∙ q) at l)
    | inr q ↦ simp q (
        ap (λ r. f ∷ r)
          (map-deliver-none s n ps hs hn h.1 (rw (key_test s n j f hs hn h.0 ∙ q) at l)))
  ]

  pub All-insert :
      (P : Bytes × Stored (JournalEntry Status) → Type 0) (k : Bytes)
      (v : Stored (JournalEntry Status)) (ps : Pairs Status)
      → P (k, v)
      → All P ps
      → All P (insert k v ps)
  unfolding insert
  All-insert P k v [] p h = (p, tt)
  All-insert P k v ((j, w) ∷ ps) p h = elim (Bool-cases (text_eq j k)) [
    | inl t ↦ rw t (p, h.1)
    | inr t ↦ elim (Bool-cases (bytes_lt j k)) [
      | inl u ↦ rw (t, u) (p, h)
      | inr u ↦ rw (t, u) (h.0, All-insert P k v ps p h.1)
    ]
  ]

  -- Writing the value that is there changes nothing.
  pub insert-lookup_same :
      (k : Bytes) (v : Stored (JournalEntry Status)) (ps : Pairs Status)
      → IsDescending ps
      → lookup k ps ≡ some v
      → insert k v ps ≡ ps
  unfolding lookup insert
  insert-lookup_same k v [] d l = cc
  insert-lookup_same k v ((j, w) ∷ ps) d l = elim (Bool-cases (text_eq j k)) [
    | inl t ↦
        let same : w ≡ v = ground (arith, rw t at l) in
        rw t (ap₂ (λ i x. (i, x) ∷ ps) (sym ((text_eq_iff j k).0 t)) (sym same))
    | inr t ↦
        let l' = rw t at l in
        let u = lt_asymm k j (All-lookup (λ p. bytes_lt p.0 j ≡ true) k ps d.0 l') in
        rw (t, u) (ap (λ r. (j, w) ∷ r) (insert-lookup_same k v ps d.1 l'))
  ]

  pub view-insert :
      (s n : ℕ) (e : JournalEntry Status) (ps : Pairs Status)
      → s < 2 ^ 64
      → n < 2 ^ 64
      → IsDescending ps
      → All (Written n) ps
      → lookup (itob s) ps ≡ some (json e)
      → view (insert (itob s) (json (record e { delivered = true })) ps) ≡ map (deliver s) (view ps)
  unfolding lookup insert
  view-insert s n e [] hs hn d h l = cc
  view-insert s n e ((j, corrupt) ∷ ps) hs hn d h l = elim h.0 [ ]
  view-insert s n e ((j, json f) ∷ ps) hs hn d h l = elim (Bool-cases (f.seq == s)) [
    | inl q ↦
        let t = key_test s n j f hs hn h.0 ∙ q in
        let below = lookup_below (itob s) ps (rw ((text_eq_iff j (itob s)).0 t) at d.0) in
        let same : f ≡ e = ground (arith, rw t at l) in
        rw t (ground (arith, same, map-deliver-none s n ps hs hn h.1 below))
    | inr q ↦
        let t = key_test s n j f hs hn h.0 ∙ q in
        let l' = rw t at l in
        let u = lt_asymm (itob s) j (All-lookup (λ p. bytes_lt p.0 j ≡ true) (itob s) ps d.0 l') in
        rw (t, u) (simp q (ap (λ r. f ∷ r) (view-insert s n e ps hs hn d.1 h.1 l')))
  ]
