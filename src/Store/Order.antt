-- ===== src/Store/Order.antt =====
-- Lists in the order of a number that their elements carry.
use mathlib.Core.List.{append-nil, append_assoc, reverse-cons}
use hyperv_control_plane.Prelude.{
  ℕ, ◌<◌, ◌≡◌, refl, Bool, not, List, [], ◌∷◌, ◌++◌, reverse, inl, inr, arith, select,
  select-append, All, ◌==◌, Bool-cases,
}

module _ {A : Type 0} where
  pub All-zip : (P Q : A → Type 0) (xs : List A) → All P xs → All Q xs → All (λ x. P x × Q x) xs
  All-zip P Q [] h k = tt
  All-zip P Q (x ∷ xs) h k = ((h.0, k.0), All-zip P Q xs h.1 k.1)

  pub All-keep : (P : A → Type 0) (p : A → Bool) (xs : List A) → All P xs → All P (select p xs)
  All-keep P p [] h = tt
  All-keep P p (x ∷ xs) h = elim (Bool-cases (p x)) [
    | inl e ↦ rw e (h.0, All-keep P p xs h.1)
    | inr e ↦ rw e (All-keep P p xs h.1)
  ]

  pub All-reverse :
      (P : A → Type 0) (xs ys : List A) → All P xs → All P ys → All P (reverse xs ++ ys)
  All-reverse P [] ys h k = k
  All-reverse P (x ∷ xs) ys h k =
      rw (reverse-cons, append_assoc) (All-reverse P xs (x ∷ ys) h.1 (h.0, k))

  pub select-reverse : (p : A → Bool) (xs : List A) → select p (reverse xs) ≡ reverse (select p xs)
  select-reverse p [] = refl
  select-reverse p (x ∷ xs) = elim (Bool-cases (p x)) [
    | inl e ↦ simp (reverse-cons, select-append, select-reverse p xs, e)
    | inr e ↦ simp (reverse-cons, select-append, select-reverse p xs, e, append-nil)
  ]

module _ {A : Type 0} (number : A → ℕ) where
  abbrev pub Rising : List A → Type 0
  Rising [] = Unit
  Rising (e ∷ es) = All (λ f. number e < number f) es × Rising es

  abbrev pub Falling : List A → Type 0
  Falling [] = Unit
  Falling (e ∷ es) = All (λ f. number f < number e) es × Falling es

  pub Falling-select : (p : A → Bool) (es : List A) → Falling es → Falling (select p es)
  Falling-select p [] h = tt
  Falling-select p (e ∷ es) h = elim (Bool-cases (p e)) [
    | inl q ↦ rw q (All-keep (λ f. number f < number e) p es h.0, Falling-select p es h.1)
    | inr q ↦ rw q (Falling-select p es h.1)
  ]

  Rising-append :
      (es later : List A)
      → Falling es
      → Rising later
      → All (λ f. All (λ g. number f < number g) later) es
      → Rising (reverse es ++ later)
  Rising-append [] later h r c = r
  Rising-append (e ∷ es) later h r c =
      rw (reverse-cons, append_assoc)
        (Rising-append es (e ∷ later) h.1 (c.0, r) (All-zip _ _ es h.0 c.1))

  All-Unit : (es : List A) → All (λ f. Unit {0}) es
  All-Unit [] = tt
  All-Unit (e ∷ es) = (tt, All-Unit es)

  pub Rising-reverse : (es : List A) → Falling es → Rising (reverse es)
  Rising-reverse es h = simp append-nil at (Rising-append es [] h tt (All-Unit es))

  -- Every element but those of one number.
  abbrev pub other : ℕ → A → Bool
  other s e = not (number e == s)

  select-other : (s : ℕ) (es : List A) → All (λ f. s < number f) es → select (other s) es ≡ es
  select-other s [] h = refl
  select-other s (e ∷ es) h = ground (arith, select-other s es)

  -- Without the number of its first element, a rising list is its tail.
  pub select-other_first :
      (e : A) (es : List A) → Rising (e ∷ es) → select (other (number e)) (e ∷ es) ≡ es
  select-other_first e es h = ground (arith, select-other (number e) es)
