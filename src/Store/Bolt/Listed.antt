-- ===== src/Store/Bolt/Listed.antt =====
-- A bucket that is the list of its pairs: the documented behaviour of bbolt can be met.
use hyperv_control_plane.Prelude.{
  ℕ, ◌+◌, ◌%◌, ◌^◌, ◌≡◌, refl, Bool, true, not, List, [], ◌∷◌, All, select, text_eq, text_eq_iff,
  Bool-cases, inl, inr,
}
use hyperv_control_plane.Store.Bytes.{Bytes, bytes_lt, bytes_lt_total, bytes_lt_trans}
use hyperv_control_plane.Store.Bolt.{Bolt, IsDescending, lookup, insert, erase}

module _ {V : Type 0} where
  All-lt_trans :
      (j k : Bytes) (ps : List (Bytes × V))
      → bytes_lt j k ≡ true
      → All (λ q. bytes_lt q.0 j ≡ true) ps
      → All (λ q. bytes_lt q.0 k ≡ true) ps
  All-lt_trans j k [] h a = a
  All-lt_trans j k ((i, w) ∷ ps) h a = (bytes_lt_trans i j k a.0 h, All-lt_trans j k ps h a.1)

  All-insert :
      (j k : Bytes) (v : V) (ps : List (Bytes × V))
      → bytes_lt k j ≡ true
      → All (λ q. bytes_lt q.0 j ≡ true) ps
      → All (λ q. bytes_lt q.0 j ≡ true) (insert k v ps)
  unfolding insert
  All-insert j k v [] h a = (h, tt)
  All-insert j k v ((i, w) ∷ ps) h a = elim (Bool-cases (text_eq i k)) [
    | inl e ↦ rw e (h, a.1)
    | inr e ↦ elim (Bool-cases (bytes_lt i k)) [
      | inl l ↦ rw (e, l) (h, a)
      | inr l ↦ rw (e, l) (a.0, All-insert j k v ps h a.1)
    ]
  ]

  pub insert-IsDescending :
      (k : Bytes) (v : V) (ps : List (Bytes × V)) → IsDescending ps → IsDescending (insert k v ps)
  unfolding insert
  insert-IsDescending k v [] h = (tt, tt)
  insert-IsDescending k v ((i, w) ∷ ps) h = elim (Bool-cases (text_eq i k)) [
    | inl e ↦ rw e (rw ((text_eq_iff i k).0 e) at h)
    | inr e ↦ elim (Bool-cases (bytes_lt i k)) [
      | inl l ↦ rw (e, l) ((l, All-lt_trans i k ps l h.0), h)
      | inr l ↦
          rw (e, l)
            (All-insert i k v ps (bytes_lt_total i k e l) h.0, insert-IsDescending k v ps h.1)
    ]
  ]

  pub All-select {κ} :
      (P : Bytes × V → Type κ) (f : Bytes × V → Bool) (ps : List (Bytes × V))
      → All P ps
      → All P (select f ps)
  All-select P f [] h = h
  All-select P f (p ∷ ps) h = elim (Bool-cases (f p)) [
    | inl e ↦ rw e (h.0, All-select P f ps h.1)
    | inr e ↦ rw e (All-select P f ps h.1)
  ]

  pub select-IsDescending :
      (f : Bytes × V → Bool) (ps : List (Bytes × V)) → IsDescending ps → IsDescending (select f ps)
  select-IsDescending f [] h = h
  select-IsDescending f (p ∷ ps) h = elim (Bool-cases (f p)) [
    | inl e ↦ rw e (All-select _ f ps h.0, select-IsDescending f ps h.1)
    | inr e ↦ rw e (select-IsDescending f ps h.1)
  ]

module _ {V : Type 0} where
  pub select-eq-erase :
      (k : Bytes) (ps : List (Bytes × V)) → select (λ p. not (text_eq p.0 k)) ps ≡ erase k ps
  unfolding erase
  select-eq-erase k ps = refl

pub record Listed (V : Type 0) : Type 0 where
  pub content : List (Bytes × V)
  pub descending : IsDescending content
  pub counter : ℕ

abbrev pub empty : {V : Type 0} → Listed V
empty = record { content = []; descending = tt; counter = 0 }

-- bbolt's behaviour, met by sorted lists.
abbrev pub listed_bolt : (V : Type 0) → Bolt V
listed_bolt V = record {
  Bucket = Listed V;
  pairs = λ b. b.content;
  sequence = λ b. b.counter;
  get = λ b k. lookup k b.content;
  put = λ b k v. record {
    content = insert k v b.content;
    descending = insert-IsDescending k v b.content b.descending;
    counter = b.counter;
  };
  delete = λ b k. record {
    content = select (λ p. not (text_eq p.0 k)) b.content;
    descending = select-IsDescending (λ p. not (text_eq p.0 k)) b.content b.descending;
    counter = b.counter;
  };
  next_sequence = λ b. record b { counter = (b.counter + 1) % 2 ^ 64 };
  pairs-IsDescending = λ b. b.descending;
  get_lem = λ b k. refl;
  pairs-put = λ b k v. refl;
  pairs-delete = λ b k. select-eq-erase k b.content;
  pairs-next_sequence = λ b. refl;
  sequence-put = λ b k v. refl;
  sequence-delete = λ b k. refl;
  sequence-next_sequence = λ b. refl;
}
