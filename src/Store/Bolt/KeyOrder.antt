-- ===== src/Store/Bolt/KeyOrder.antt =====
-- Lists of pairs in key order: what erasing a key and placing a cursor do to them.
use hyperv_control_plane.Prelude.{
  ◌≡◌, refl, ap, true, false, not, Option, none, some, List, [], ◌∷◌, ◌++◌, inl, inr, select, All,
  Bool-cases, text_eq, text_eq_iff, text_eq_refl,
}
use hyperv_control_plane.Store.Bytes.{Bytes, bytes_lt, bytes_lt_irrefl, bytes_lt_trans}
use hyperv_control_plane.Store.Bolt.{IsDescending, erase}
use hyperv_control_plane.Store.Bolt.Listed.{select-IsDescending}

pub lt_asymm : (j k : Bytes) → bytes_lt j k ≡ true → bytes_lt k j ≡ false
lt_asymm j k h = elim (Bool-cases (bytes_lt k j)) [
  | inl e ↦ cc (bytes_lt_trans j k j h e, bytes_lt_irrefl j)
  | inr e ↦ e
]

pub lt_ne : (j k : Bytes) → bytes_lt j k ≡ true → text_eq j k ≡ false
lt_ne j k h = elim (Bool-cases (text_eq j k)) [
  | inl e ↦ cc (bytes_lt_irrefl k, ap (λ t. bytes_lt t k) ((text_eq_iff j k).0 e))
  | inr e ↦ e
]

pub gt_ne : (j k : Bytes) → bytes_lt k j ≡ true → text_eq j k ≡ false
gt_ne j k h = elim (Bool-cases (text_eq j k)) [
  | inl e ↦ cc (bytes_lt_irrefl k, ap (λ t. bytes_lt k t) ((text_eq_iff j k).0 e))
  | inr e ↦ e
]

module _ {V : Type 0} where
  abbrev pub erase_all : List Bytes → List (Bytes × V) → List (Bytes × V)
  erase_all [] ps = ps
  erase_all (k ∷ ks) ps = erase_all ks (erase k ps)

  -- Every key of the list is below where the cursor stood, and below anything if it did not stand.
  abbrev pub Below : Option Bytes → List (Bytes × V) → Type 0
  Below none ps = Unit
  Below (some k) ps = All (λ q. bytes_lt q.0 k ≡ true) ps

  abbrev pub NotBelow : Option Bytes → List (Bytes × V) → Type 0
  NotBelow none ps = ps ≡ []
  NotBelow (some k) ps = All (λ q. bytes_lt q.0 k ≡ false) ps

  pub erase_below :
      (k : Bytes) (ps : List (Bytes × V)) → All (λ q. bytes_lt q.0 k ≡ true) ps → erase k ps ≡ ps
  unfolding erase
  erase_below k [] h = refl
  erase_below k (p ∷ ps) h = rw (lt_ne p.0 k h.0) (ap (λ r. p ∷ r) (erase_below k ps h.1))

  pub All-last :
      (P : Bytes × V → Type 0) (us ps : List (Bytes × V)) (p : Bytes × V)
      → All P (us ++ p ∷ ps)
      → P p
  All-last P [] ps p h = h.0
  All-last P (a ∷ us) ps p h = All-last P us ps p h.1

  pub All-left : (P : Bytes × V → Type 0) (us ps : List (Bytes × V)) → All P (us ++ ps) → All P us
  All-left P [] ps h = tt
  All-left P (a ∷ us) ps h = (h.0, All-left P us ps h.1)

  pub IsDescending-right : (us ps : List (Bytes × V)) → IsDescending (us ++ ps) → IsDescending ps
  IsDescending-right [] ps h = h
  IsDescending-right (a ∷ us) ps h = IsDescending-right us ps h.1

  -- In key order a key stands once, so that erasing it takes one pair away.
  pub erase_middle :
      (us : List (Bytes × V)) (k : Bytes) (v : V) (ps : List (Bytes × V))
      → IsDescending (us ++ (k, v) ∷ ps)
      → erase k (us ++ (k, v) ∷ ps) ≡ us ++ ps
  unfolding erase
  erase_middle [] k v ps h = rw text_eq_refl (erase_below k ps h.0)
  erase_middle (a ∷ us) k v ps h =
      rw (gt_ne a.0 k (All-last _ us ps (k, v) h.0)) (ap (λ r. a ∷ r) (erase_middle us k v ps h.1))

  pub IsDescending-middle :
      (us : List (Bytes × V)) (k : Bytes) (v : V) (ps : List (Bytes × V))
      → IsDescending (us ++ (k, v) ∷ ps)
      → IsDescending (us ++ ps)
  unfolding erase
  IsDescending-middle us k v ps h =
      rw (erase_middle us k v ps h) at (select-IsDescending (λ p. not (text_eq p.0 k)) _ h)

  -- What stands above a key in key order is not below it.
  pub NotBelow_above :
      (us : List (Bytes × V)) (k : Bytes) (v : V) (ps : List (Bytes × V))
      → IsDescending (us ++ (k, v) ∷ ps)
      → All (λ q. bytes_lt q.0 k ≡ false) us
  NotBelow_above [] k v ps h = tt
  NotBelow_above (a ∷ us) k v ps h =
      (lt_asymm k a.0 (All-last _ us ps (k, v) h.0), NotBelow_above us k v ps h.1)

  pub select_none :
      (k : Bytes) (us : List (Bytes × V))
      → All (λ q. bytes_lt q.0 k ≡ false) us
      → (ps : List (Bytes × V))
      → select (λ p. bytes_lt p.0 k) (us ++ ps) ≡ select (λ p. bytes_lt p.0 k) ps
  select_none k [] h ps = refl
  select_none k (a ∷ us) h ps = rw h.0 (select_none k us h.1 ps)

  pub select_whole :
      (k : Bytes) (ps : List (Bytes × V))
      → All (λ q. bytes_lt q.0 k ≡ true) ps
      → select (λ p. bytes_lt p.0 k) ps ≡ ps
  select_whole k [] h = refl
  select_whole k (p ∷ ps) h = rw h.0 (ap (λ r. p ∷ r) (select_whole k ps h.1))
