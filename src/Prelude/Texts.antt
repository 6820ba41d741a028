-- ===== src/Prelude/Texts.antt =====
-- Go strings and byte slices as lists of their bytes, with the tests that the program makes on
-- them. Case is folded as `strings.ToLower` and `strings.EqualFold` fold ASCII.
use Prim.Native.Char.{code}
use Prim.Native.String.{String}
use hyperv_control_plane.Prelude.Tests.{leb, ◌==◌, if◌then◌else◌}
use Prim.Native.Nat.{ℕ, ◌+◌}
use mathlib.Core.Path.{◌≡◌, refl}
use mathlib.Core.Logic.{◌↔◌}
use mathlib.Core.Bool.{Bool, true, false, ◌&&◌, ◌||◌}
use mathlib.Core.List.{List, [], ◌∷◌, map}
use native.Mathlib.Omega.{arith}

abbrev pub Text : Type 0
Text = List ℕ

-- A literal.
abbrev pub codes : String → Text
codes String.[] = []
codes (String.◌∷◌ c s) = code c ∷ codes s

unfoldable pub text_eq : Text → Text → Bool
text_eq [] [] = true
text_eq [] (y ∷ ys) = false
text_eq (x ∷ xs) [] = false
text_eq (x ∷ xs) (y ∷ ys) = let rest = text_eq xs ys in if x == y then rest else false

pub text_eq_iff : (s t : Text) → (text_eq s t ≡ true) ↔ (s ≡ t)
unfolding text_eq
text_eq_iff [] [] = ground arith
text_eq_iff [] (y ∷ ys) = ground arith
text_eq_iff (x ∷ xs) [] = ground arith
text_eq_iff (x ∷ xs) (y ∷ ys) = ground (arith, text_eq_iff xs ys)

pub text_eq_refl : (s : Text) → text_eq s s ≡ true
text_eq_refl s = (text_eq_iff s s).1 refl

-- strings.ToLower, on a byte and on a string
abbrev pub lower : ℕ → ℕ
lower c = if leb b'A' c && leb c b'Z' then c + 32 else c

unfoldable pub to_lower : Text → Text
to_lower = map lower

-- strings.EqualFold
unfoldable pub equal_fold : Text → Text → Bool
unfolding to_lower text_eq
equal_fold s t = text_eq (to_lower s) (to_lower t)

pub equal_fold_iff : (s t : Text) → (equal_fold s t ≡ true) ↔ (to_lower s ≡ to_lower t)
unfolding equal_fold
equal_fold_iff s t = text_eq_iff (map lower s) (map lower t)

-- strings.HasPrefix, with the prefix first, and strings.Contains, with the needle first
unfoldable pub has_prefix : Text → Text → Bool
has_prefix [] t = true
has_prefix (x ∷ xs) [] = false
has_prefix (x ∷ xs) (y ∷ ys) = let rest = has_prefix xs ys in if x == y then rest else false

unfoldable pub contains : Text → Text → Bool
unfolding has_prefix
contains s [] = has_prefix s []
contains s (y ∷ ys) = let rest = contains s ys in has_prefix s (y ∷ ys) || rest
