-- ===== src/Store/Bytes.antt =====
-- Bucket keys: bbolt orders them by their bytes, and `itob` (agent/store/store.go) writes a
-- sequence number as eight big-endian bytes.
use hyperv_control_plane.Prelude.{
  ℕ, ◌/◌, ◌%◌, ◌^◌, ◌<◌, ◌≡◌, refl, ap, ◌∙◌, Bool, true, false, List, [], ◌∷◌, arith, text_eq, ltb,
  ◌==◌, if◌then◌else◌,
}

abbrev pub Bytes : Type 0
Bytes = List ℕ

-- bytes.Compare(a, b) < 0
unfoldable pub bytes_lt : Bytes → Bytes → Bool
bytes_lt [] [] = false
bytes_lt [] (y ∷ ys) = true
bytes_lt (x ∷ xs) [] = false
bytes_lt (x ∷ xs) (y ∷ ys) = let rest = bytes_lt xs ys in if x == y then rest else ltb x y

pub bytes_lt_irrefl : (s : Bytes) → bytes_lt s s ≡ false
unfolding bytes_lt
bytes_lt_irrefl [] = refl
bytes_lt_irrefl (x ∷ xs) = ground (arith, bytes_lt_irrefl xs)

pub bytes_lt_trans :
    (s t u : Bytes) → bytes_lt s t ≡ true → bytes_lt t u ≡ true → bytes_lt s u ≡ true
unfolding bytes_lt
bytes_lt_trans [] [] u h k = ground arith
bytes_lt_trans [] (y ∷ ys) [] h k = ground arith
bytes_lt_trans [] (y ∷ ys) (z ∷ zs) h k = refl
bytes_lt_trans (x ∷ xs) [] u h k = ground arith
bytes_lt_trans (x ∷ xs) (y ∷ ys) [] h k = ground arith
bytes_lt_trans (x ∷ xs) (y ∷ ys) (z ∷ zs) h k = ground (arith, bytes_lt_trans xs ys zs)

-- Of two different keys one is the smaller.
pub bytes_lt_total :
    (s t : Bytes) → text_eq s t ≡ false → bytes_lt s t ≡ false → bytes_lt t s ≡ true
unfolding bytes_lt text_eq
bytes_lt_total [] [] h k = ground arith
bytes_lt_total [] (y ∷ ys) h k = ground arith
bytes_lt_total (x ∷ xs) [] h k = refl
bytes_lt_total (x ∷ xs) (y ∷ ys) h k = ground (arith, bytes_lt_total xs ys)

-- binary.BigEndian.PutUint64 into eight bytes
unfoldable pub itob : ℕ → Bytes
itob v =
    (v / 2 ^ 56 % 256)
    ∷ (v / 2 ^ 48 % 256)
    ∷ (v / 2 ^ 40 % 256)
    ∷ (v / 2 ^ 32 % 256)
    ∷ (v / 2 ^ 24 % 256)
    ∷ (v / 2 ^ 16 % 256)
    ∷ (v / 2 ^ 8 % 256)
    ∷ (v % 256)
    ∷ []

-- Numbers are compared by one byte and then by what stands below it.
abbrev from_byte : ℕ → ℕ → ℕ → Bool → Bool
from_byte m a b rest = if a / m % 256 == b / m % 256 then rest else ltb (a / m % 256) (b / m % 256)

from_byte_7 :
    (a b : ℕ)
    → from_byte (2 ^ 56) a b (ltb (a % 2 ^ 56) (b % 2 ^ 56)) ≡ ltb (a % 2 ^ 64) (b % 2 ^ 64)
from_byte_7 a b = ground arith

from_byte_6 :
    (a b : ℕ)
    → from_byte (2 ^ 48) a b (ltb (a % 2 ^ 48) (b % 2 ^ 48)) ≡ ltb (a % 2 ^ 56) (b % 2 ^ 56)
from_byte_6 a b = ground arith

from_byte_5 :
    (a b : ℕ)
    → from_byte (2 ^ 40) a b (ltb (a % 2 ^ 40) (b % 2 ^ 40)) ≡ ltb (a % 2 ^ 48) (b % 2 ^ 48)
from_byte_5 a b = ground arith

from_byte_4 :
    (a b : ℕ)
    → from_byte (2 ^ 32) a b (ltb (a % 2 ^ 32) (b % 2 ^ 32)) ≡ ltb (a % 2 ^ 40) (b % 2 ^ 40)
from_byte_4 a b = ground arith

from_byte_3 :
    (a b : ℕ)
    → from_byte (2 ^ 24) a b (ltb (a % 2 ^ 24) (b % 2 ^ 24)) ≡ ltb (a % 2 ^ 32) (b % 2 ^ 32)
from_byte_3 a b = ground arith

from_byte_2 :
    (a b : ℕ)
    → from_byte (2 ^ 16) a b (ltb (a % 2 ^ 16) (b % 2 ^ 16)) ≡ ltb (a % 2 ^ 24) (b % 2 ^ 24)
from_byte_2 a b = ground arith

from_byte_1 :
    (a b : ℕ) → from_byte (2 ^ 8) a b (ltb (a % 2 ^ 8) (b % 2 ^ 8)) ≡ ltb (a % 2 ^ 16) (b % 2 ^ 16)
from_byte_1 a b = ground arith

last_byte :
    (a b : ℕ)
    → (if a % 256 == b % 256 then false else ltb (a % 256) (b % 256)) ≡ ltb (a % 2 ^ 8) (b % 2 ^ 8)
last_byte a b = ground arith

all_bytes : (a b : ℕ) → a < 2 ^ 64 → b < 2 ^ 64 → ltb (a % 2 ^ 64) (b % 2 ^ 64) ≡ ltb a b
all_bytes a b ha hb = ground arith

-- Keys of sequence numbers are ordered as the numbers are, so that a walk in key order is a walk in
-- the order of arrival.
pub bytes_lt-itob : (a b : ℕ) → a < 2 ^ 64 → b < 2 ^ 64 → bytes_lt (itob a) (itob b) ≡ ltb a b
unfolding bytes_lt itob
bytes_lt-itob a b ha hb =
    let e1 = ap (from_byte (2 ^ 8) a b) (last_byte a b) ∙ from_byte_1 a b in
    let e2 = ap (from_byte (2 ^ 16) a b) e1 ∙ from_byte_2 a b in
    let e3 = ap (from_byte (2 ^ 24) a b) e2 ∙ from_byte_3 a b in
    let e4 = ap (from_byte (2 ^ 32) a b) e3 ∙ from_byte_4 a b in
    let e5 = ap (from_byte (2 ^ 40) a b) e4 ∙ from_byte_5 a b in
    let e6 = ap (from_byte (2 ^ 48) a b) e5 ∙ from_byte_6 a b in
    ap (from_byte (2 ^ 56) a b) e6 ∙ from_byte_7 a b ∙ all_bytes a b ha hb
