-- ===== src/Types/Mtu/Jumbo.antt =====
-- The driver values for jumbo frames (api/types/mtu.go): `jumboNumber`, `JumboValueFor` and
-- `JumboNumericFor`.
pub mod Value
use hyperv_control_plane.Prelude.{
  ℕ, zero, suc, ◌+◌, ◌-◌, ◌*◌, ◌/◌, ◌%◌, ◌^◌, ◌<◌, ◌≤◌, ℤ, pos, ltb_ℤ, pos_part, neg_part, wrap64,
  ◌+ℤ◌, ◌-ℤ◌, ◌*ℤ◌, ◌≤ℤ◌, Bool, true, false, not, ◌||◌, ◌&&◌, Option, none, some, List, [], ◌∷◌,
  ltb, leb, ◌==◌, Text, if◌then◌else◌,
}

-- strings.TrimSpace, for what stands before the digits: ASCII's white space.
is_space : ℕ → Bool
is_space c = (leb 9 c && leb c 13) || c == 32

trim_left : Text → Text
unfolding is_space
trim_left [] = []
trim_left (c ∷ s) = let rest = trim_left s in if is_space c then rest else c ∷ s

-- The leading digits and their value. strconv.Atoi refuses what does not fit an int64.
digits : ℕ → Text → ℕ
digits n [] = n
digits n (c ∷ s) =
    let rest = digits (n * 10 + (c - b'0')) s in if leb b'0' c && leb c b'9' then rest else n

starts_with_digit : Text → Bool
starts_with_digit [] = false
starts_with_digit (c ∷ s) = leb b'0' c && leb c b'9'

unfoldable pub jumbo_number : Text → Option ℤ
unfolding trim_left digits starts_with_digit
jumbo_number v =
    let t = trim_left v in
    let n = digits 0 t in
    if not (starts_with_digit t) then none else if ltb n (2 ^ 63) then some (pos n) else none

-- The loop of `JumboValueFor`: the best value so far and its size.
pub record Best : Type 0 where
  pub best : Text
  pub best_n : ℤ

abbrev is_empty : Text → Bool
is_empty [] = true
is_empty (c ∷ s) = false

unfoldable pub choose : Best → Text → Option ℤ → ℤ → Best
choose b v none want = b
choose b v (some n) want =
    if ltb_ℤ n want
    then b
    else if is_empty b.best || ltb_ℤ n b.best_n
    then record { best = v; best_n = n }
    else b

unfoldable pub best_of : List Text → ℤ → Best → Best
unfolding choose
best_of [] want b = b
best_of (v ∷ vs) want b = best_of vs want (choose b v (jumbo_number v) want)

unfoldable pub jumbo_value_for : List Text → ℤ → Text × Bool
unfolding best_of
jumbo_value_for values want =
    let b = best_of values want (record { best = []; best_n = pos 0 }) in
    (b.best, not (is_empty b.best))

abbrev pub jumbo_header_bytes : ℤ
jumbo_header_bytes = pos 14

-- Go's `/` on ints, where both are positive.
abbrev quotient : ℤ → ℤ → ℤ
quotient a b = pos (pos_part a / pos_part b)

-- v = min + ((v-min)/step)*step
round_down : ℤ → ℤ → ℤ → ℤ
round_down min step v =
    if ltb_ℤ (pos 1) step && (ltb_ℤ (pos 0) min && ltb_ℤ min v)
    then wrap64 (min +ℤ wrap64 (quotient (wrap64 (v -ℤ min)) step *ℤ step))
    else v

unfoldable pub jumbo_numeric_for : ℤ → ℤ → ℤ → ℤ → ℤ × Bool
unfolding round_down
jumbo_numeric_for min max step want =
    if leb (pos_part want) 0 || (leb (pos_part max) 0 || ltb_ℤ max want)
    then (pos 0, false)
    else let asked = wrap64 (want +ℤ jumbo_header_bytes) in
      let capped = if ltb_ℤ max asked then max else asked in
      let stepped = round_down min step capped in
      let v = if ltb_ℤ stepped min then min else stepped in
      if ltb_ℤ v want then (pos 0, false) else (v, true)
