-- ===== src/Wire.antt =====
-- api/proto/convert.go: the desired-state schema of api/types as the messages of
-- api/proto/ballast.proto, and back. A message is a record with the fields of the message, a pointer
-- to one an `Option`; a list of pointers holds no nil. A nil list and an empty one are one list.
-- Each child has the messages and conversions of one part, and its round trips.
pub mod Enums
pub mod Storage
pub mod Cluster
pub mod Vm
pub mod Networking
pub mod Roles
pub mod Host
pub mod Inventory
pub mod Witness
pub mod Library
pub mod Phase
pub mod Meta
pub mod VmStatus
pub mod Iscsi
pub mod Quorum
pub mod Groups
pub mod ClusterStatus
pub mod Resources
pub mod HostParts
pub mod HostStatus
mod Samples
mod Examples
use hyperv_control_plane.Prelude.{
  ℕ, ◌+◌, ◌-◌, ◌%◌, ◌^◌, ◌<◌, ◌≡◌, refl, sym, ap, ◌∙◌, arith, ltb, ℤ, pos, negsuc, Option, none,
  some, List, [], ◌∷◌, map, All, Text, if◌then◌else◌,
}

-- Go's conversion of an int to an int32, which keeps the low 32 bits.
unfoldable pub int32 : ℤ → ℤ
int32 (pos n) = let r = n % 2 ^ 32 in if ltb r (2 ^ 31) then pos r else negsuc (2 ^ 32 - r - 1)
int32 (negsuc n) = let r = n % 2 ^ 32 in if ltb r (2 ^ 31) then negsuc r else pos (2 ^ 32 - r - 1)

abbrev pub IsInt32 : ℤ → Type 0
IsInt32 (pos n) = n < 2 ^ 31
IsInt32 (negsuc n) = n < 2 ^ 31

pub int32_lem : (z : ℤ) → IsInt32 z → int32 z ≡ z
unfolding int32
int32_lem (pos n) h = ground (arith, h)
int32_lem (negsuc n) h = ground (arith, h)

-- A string that is one of a type's constants.
pub at_constant : (f : Text → Text) {s c : Text} → s ≡ c → f c ≡ c → f s ≡ s
at_constant f e q = ap f e ∙ q ∙ sym e

module _ {ℓ κ} {A : Type ℓ} {B : Type κ} where
  abbrev pub map_option : (A → B) → Option A → Option B
  map_option f none = none
  map_option f (some a) = some (f a)

  -- What the getters of a nil message read.
  abbrev pub or_zero : A → (B → A) → Option B → A
  or_zero zero_ f none = zero_
  or_zero zero_ f (some b) = f b

module _ {ℓ κ} {A : Type ℓ} where
  abbrev pub AllOption : (A → Type κ) → Option A → Type κ
  AllOption p none = Unit
  AllOption p (some a) = p a

pub option_int32 : (o : Option ℤ) → AllOption IsInt32 o → map_option int32 o ≡ o
option_int32 none h = refl
option_int32 (some z) h = ap some (int32_lem z h)

module _ {ℓ κ μ} {A : Type ℓ} {B : Type κ} (P : A → Type μ) (to : A → B) (back : B → A) (k : A → A)
    (law : (a : A) → P a → back (to a) ≡ k a) where
  pub option_onto :
      (o : Option A) → AllOption P o → map_option back (map_option to o) ≡ map_option k o
  option_onto none h = refl
  option_onto (some a) h = ap some (law a h)

  pub list_onto : (xs : List A) → All P xs → map back (map to xs) ≡ map k xs
  list_onto [] h = refl
  list_onto (x ∷ xs) (h, hs) = rw (law x h, list_onto xs hs) refl

module _ {ℓ κ μ} {A : Type ℓ} {B : Type κ} (P : A → Type μ) (to : A → B) (back : B → A)
    (law : (a : A) → P a → back (to a) ≡ a) where
  pub option_back : (o : Option A) → AllOption P o → map_option back (map_option to o) ≡ o
  option_back none h = refl
  option_back (some a) h = ap some (law a h)

  pub list_back : (xs : List A) → All P xs → map back (map to xs) ≡ xs
  list_back [] h = refl
  list_back (x ∷ xs) (h, hs) = rw (law x h, list_back xs hs) refl

module _ {ℓ κ} {A : Type ℓ} {B : Type κ} (to : A → B) (back : B → A)
    (law : (a : A) → back (to a) ≡ a) where
  pub option_back_always : (o : Option A) → map_option back (map_option to o) ≡ o
  option_back_always none = refl
  option_back_always (some a) = ap some (law a)

  pub list_back_always : (xs : List A) → map back (map to xs) ≡ xs
  list_back_always [] = refl
  list_back_always (x ∷ xs) = rw (law x, list_back_always xs) refl
