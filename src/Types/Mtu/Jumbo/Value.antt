-- ===== src/Types/Mtu/Jumbo/Value.antt =====
-- JumboValueFor of api/types/mtu.go chooses the smallest offered value that is large enough.
use mathlib.Core.Path.{subst}
use hyperv_control_plane.Prelude.{
  ℤ, pos, ltb_ℤ, ◌≤ℤ◌, ◌≡◌, refl, sym, ap, true, false, not, Option, none, some, List, [], ◌∷◌, ◌⊎◌,
  inl, inr, arith, All, Bool-cases, Text,
}
use hyperv_control_plane.Types.Mtu.Jumbo.{
  jumbo_number, Best, is_empty, choose, best_of, jumbo_value_for, trim_left, digits,
  starts_with_digit,
}

abbrev pub Offered : List Text → Text → Type 0
Offered [] t = ⊥
Offered (v ∷ vs) t = (v ≡ t) ⊎ Offered vs t

abbrev NumberShortOrAbove : ℤ → ℤ → Option ℤ → Type 0
NumberShortOrAbove want n none = Unit
NumberShortOrAbove want n (some m) = (ltb_ℤ m want ≡ true) ⊎ (n ≤ℤ m)

-- A value without a number, with one below `want`, or with one of `n` at least.
abbrev pub ShortOrAbove : ℤ → ℤ → Text → Type 0
ShortOrAbove want n w = NumberShortOrAbove want n (jumbo_number w)

abbrev NumberShort : ℤ → Option ℤ → Type 0
NumberShort want none = Unit
NumberShort want (some m) = ltb_ℤ m want ≡ true

-- A value without a number, or with one below `want`.
abbrev pub Short : ℤ → Text → Type 0
Short want w = NumberShort want (jumbo_number w)

-- What the loop has made of the values in `seen`.
abbrev Chosen : ℤ → List Text → Best → Type 0
Chosen want seen b =
    ((is_empty b.best ≡ false)
      × Offered seen b.best
      × (jumbo_number b.best ≡ some b.best_n)
      × (ltb_ℤ b.best_n want ≡ false)
      × All (ShortOrAbove want b.best_n) seen)
    ⊎ ((is_empty b.best ≡ true) × All (Short want) seen)

number_nonempty : (v : Text) (n : ℤ) → jumbo_number v ≡ some n → is_empty v ≡ false
unfolding jumbo_number trim_left digits starts_with_digit
number_nonempty [] n h = cc
number_nonempty (c ∷ s) n h = refl

lower_option :
    (want n m : ℤ) (o : Option ℤ)
    → n ≤ℤ m
    → NumberShortOrAbove want m o
    → NumberShortOrAbove want n o
lower_option want n m none l h = tt
lower_option want n m (some k) l (inl h) = inl h
lower_option want n m (some k) l (inr h) = inr (omega arith)

All-lower :
    (want n m : ℤ) (ws : List Text)
    → n ≤ℤ m
    → All (ShortOrAbove want m) ws
    → All (ShortOrAbove want n) ws
All-lower want n m [] l h = tt
All-lower want n m (w ∷ ws) l h =
    (lower_option want n m (jumbo_number w) l h.0, All-lower want n m ws l h.1)

number_below : (want n : ℤ) (o : Option ℤ) → NumberShort want o → NumberShortOrAbove want n o
number_below want n none h = tt
number_below want n (some k) h = inl h

All-Short : (want n : ℤ) (ws : List Text) → All (Short want) ws → All (ShortOrAbove want n) ws
All-Short want n [] h = tt
All-Short want n (w ∷ ws) h = (number_below want n (jumbo_number w) h.0, All-Short want n ws h.1)

choose-Chosen :
    (b : Best) (v : Text) (o : Option ℤ) (want : ℤ) (seen : List Text)
    → jumbo_number v ≡ o
    → Chosen want seen b
    → Chosen want (v ∷ seen) (choose b v o want)
unfolding choose
choose-Chosen b v none want seen e (inl (ne, offered, number, fits, least)) =
    inl (ne, inr offered, number, fits, (rw e tt, least))
choose-Chosen b v none want seen e (inr (empty, all_short)) = inr (empty, (rw e tt, all_short))
choose-Chosen b v (some n) want seen e c =
    let kept : choose b v (some n) want ≡ b
        → Chosen want (v ∷ seen) b
        → Chosen want (v ∷ seen) (choose b v (some n) want) =
      λ q h. subst (λ x. Chosen want (v ∷ seen) x) (sym q) h in
    let next : Best = record { best = v; best_n = n } in
    let taken : choose b v (some n) want ≡ next
        → Chosen want (v ∷ seen) next
        → Chosen want (v ∷ seen) (choose b v (some n) want) =
      λ q h. subst (λ x. Chosen want (v ∷ seen) x) (sym q) h in
    elim (Bool-cases (ltb_ℤ n want)) [
      | inl low ↦ kept (rw low refl) (elim c [
        | inl (ne, offered, number, fits, least) ↦
            inl (ne, inr offered, number, fits, (rw e (inl low), least))
        | inr (empty, all_short) ↦ inr (empty, (rw e low, all_short))
      ])
      | inr fits_v ↦ elim c [
        | inr (empty, all_short) ↦ taken (rw (fits_v, empty) refl) (
            inl (
              number_nonempty v n e,
              inl refl,
              e,
              fits_v,
              (rw e (inr (omega arith)), All-Short want n seen all_short),
            ))
        | inl (ne, offered, number, fits, least) ↦ elim (Bool-cases (ltb_ℤ n b.best_n)) [
          | inl smaller ↦ taken (rw (fits_v, ne, smaller) refl) (
              inl (
                number_nonempty v n e,
                inl refl,
                e,
                fits_v,
                (rw e (inr (omega arith)), All-lower want n b.best_n seen (ground arith) least),
              ))
          | inr larger ↦
              kept (rw (fits_v, ne, larger) refl)
                (inl (ne, inr offered, number, fits, (rw e (inr (ground arith)), least)))
        ]
      ]
    ]

abbrev back : List Text → List Text → List Text
back [] seen = seen
back (v ∷ vs) seen = back vs (v ∷ seen)

best_of-Chosen :
    (vs seen : List Text) (want : ℤ) (b : Best)
    → Chosen want seen b
    → Chosen want (back vs seen) (best_of vs want b)
unfolding best_of
best_of-Chosen [] seen want b c = c
best_of-Chosen (v ∷ vs) seen want b c =
    best_of-Chosen vs (v ∷ seen) want (choose b v (jumbo_number v) want)
      (choose-Chosen b v (jumbo_number v) want seen refl c)

Offered-back :
    (vs seen : List Text) (t : Text) → Offered (back vs seen) t → Offered vs t ⊎ Offered seen t
Offered-back [] seen t h = inr h
Offered-back (v ∷ vs) seen t h = elim (Offered-back vs (v ∷ seen) t h) [
  | inl a ↦ inl (inr a)
  | inr (inl a) ↦ inl (inl a)
  | inr (inr a) ↦ inr a
]

All-back : (P : Text → Type 0) (vs seen : List Text) → All P (back vs seen) → All P vs × All P seen
All-back P [] seen h = (tt, h)
All-back P (v ∷ vs) seen h = let (a, b) = All-back P vs (v ∷ seen) h in ((b.0, a), b.1)

-- Either the answer is one of the offered values, with a number of `want` at least, and every
-- offered value with such a number has one that is no smaller; or no offered value has a number of
-- `want` at least, and the answer says so.
pub jumbo_value_for_lem :
    (values : List Text) (want : ℤ)
    → let (v, ok) = jumbo_value_for values want in
      ((ok ≡ true)
        × Offered values v
        × ((n : ℤ) × (jumbo_number v ≡ some n)
            × (ltb_ℤ n want ≡ false)
            × All (ShortOrAbove want n) values))
      ⊎ ((ok ≡ false) × All (Short want) values)
unfolding jumbo_value_for
jumbo_value_for_lem values want =
    let start : Best = record { best = []; best_n = pos 0 } in
    let b = best_of values want start in
    elim (best_of-Chosen values [] want start (inr (refl, tt))) [
      | inl (ne, offered, number, fits, least) ↦ inl (
        ap not ne,
        elim (Offered-back values [] b.best offered) [ inl h ↦ h | inr h ↦ elim h [ ] ],
        (b.best_n, number, fits, (All-back (ShortOrAbove want b.best_n) values [] least).0),
      )
      | inr (empty, all_short) ↦ inr (ap not empty, (All-back (Short want) values [] all_short).0)
    ]
