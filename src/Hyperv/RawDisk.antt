-- ===== src/Hyperv/RawDisk.antt =====
-- agent/hyperv/rawdisk.go: WriteAt and AlignedRange. A disk is its bytes by offset. The write of the
-- operating system is a parameter: the bytes after it, and whether it returned no error.
use mathlib.Core.Path.{ap₂}
use hyperv_control_plane.Prelude.{
  ℕ, ◌+◌, ◌-◌, ◌%◌, ◌≤◌, ◌<◌, ◌^◌, ◌≡◌, refl, ◌⊎◌, inl, inr, ap, ◌∙◌, ℤ, pos, pos_part, ltb_ℤ,
  eqb_ℤ, add64, sub64, rem64, add64_pos, sub64_pos, Bool, true, not, ◌||◌, Option, none, some, List,
  [], ◌∷◌, length, ◌==◌, if◌then◌else◌, arith, Bool-cases,
}

abbrev pub sector_size : ℕ
sector_size = 4096

-- The byte at an index, and 0 past the end.
abbrev pub byte_at : List ℕ → ℕ → ℕ
byte_at [] i = 0
byte_at (b ∷ bs) i = if i == 0 then b else byte_at bs (i - 1)

pub record RawDisk : Type 0 where
  pub size_bytes : ℤ  -- int64
  pub cells : ℕ → ℕ

pub data WriteError : Type 0 where
  negative_offset : WriteError
  not_aligned : WriteError
  past_end : WriteError
  os_failure : WriteError

abbrev pub OsWrite : Type 0
OsWrite = (ℕ → ℕ) → List ℕ → ℕ → (ℕ → ℕ) × Bool

-- What File.WriteAt documents: bytes outside of the range stay, and without an error those of the
-- range are the ones given.
pub record Writes (os_write : OsWrite) : Type 0 where
  pub elsewhere :
      (cells : ℕ → ℕ) (bs : List ℕ) (offset p : ℕ)
      → (p < offset) ⊎ (offset + length bs ≤ p)
      → (os_write cells bs offset).0 p ≡ cells p
  pub written :
      (cells : ℕ → ℕ) (bs : List ℕ) (offset p : ℕ)
      → (os_write cells bs offset).1 ≡ true
      → offset ≤ p
      → p < offset + length bs
      → (os_write cells bs offset).0 p ≡ byte_at bs (p - offset)

unfoldable pub write_at : OsWrite → RawDisk → List ℕ → ℤ → RawDisk × Option WriteError
write_at os_write d bs offset =
    if ltb_ℤ offset (pos 0)
    then (d, some negative_offset)
    else if not (eqb_ℤ (rem64 offset sector_size) (pos 0)) || not (length bs % sector_size == 0)
    then (d, some not_aligned)
    else if ltb_ℤ d.size_bytes (add64 offset (pos (length bs)))
    then (d, some past_end)
    else let (cells, ok) = os_write d.cells bs (pos_part offset) in
      (record d { cells = cells }, if ok then none else some os_failure)

-- An end of a range, moved up to the end of its sector.
unfoldable pub round_up : ℤ → ℤ
round_up end_ =
    let r = rem64 end_ sector_size in
    if eqb_ℤ r (pos 0) then end_ else add64 end_ (sub64 (pos sector_size) r)

unfoldable pub aligned_range : ℤ → ℤ → ℤ × ℤ
unfolding round_up
aligned_range offset len =
    if not (ltb_ℤ (pos 0) len)
    then (offset, pos 0)
    else let start = sub64 offset (rem64 offset sector_size) in
      (start, sub64 (round_up (add64 offset len)) start)

-- Where a range of bytes begins and ends when it is widened to whole sectors.
abbrev pub floor : ℕ → ℕ
floor n = n - n % 4096

abbrev pub ceil : ℕ → ℕ
ceil n = if n % 4096 == 0 then n else n + (4096 - n % 4096)

round_up_lem : (n : ℕ) → n < 2 ^ 62 → round_up (pos n) ≡ pos (ceil n)
unfolding round_up
round_up_lem n h =
    let d = sub64_pos 4096 (n % 4096) (omega arith) (omega arith) in
    let up = add64_pos n (4096 - n % 4096) (omega arith) in
    elim (Bool-cases (n % 4096 == 0)) [
      | inl z ↦ ground (arith, z)
      | inr z ↦ ground (arith, z, ap (add64 (pos n)) d, up)
    ]

pub floor-le-ceil : (offset n : ℕ) → offset ≤ n → floor offset ≤ ceil n
floor-le-ceil offset n h = ground arith

pub ceil_bound : (n : ℕ) → (n ≤ ceil n) × (ceil n < n + 4096) × (ceil n % 4096 ≡ 0)
ceil_bound n = ground arith

pub aligned_range_zero : (offset : ℕ) → aligned_range (pos offset) (pos 0) ≡ (pos offset, pos 0)
unfolding aligned_range
aligned_range_zero offset = refl

-- A range below 2^62 is widened to whole sectors, without a wrap.
pub aligned_range_lem :
    (offset len : ℕ)
    → offset + len < 2 ^ 62
    → 0 < len
    → aligned_range (pos offset) (pos len)
      ≡ (pos (floor offset), pos (ceil (offset + len) - floor offset))
unfolding aligned_range
aligned_range_lem offset len h l =
    let e = ap round_up (add64_pos offset len (omega arith)) ∙ round_up_lem (offset + len) h in
    let s = sub64_pos offset (offset % 4096) (omega arith) (omega arith) in
    let width =
      sub64_pos (ceil (offset + len)) (floor offset)
        (floor-le-ceil offset (offset + len) (omega arith))
        (omega (arith, ceil_bound (offset + len))) in
    ground (arith, s, ap₂ sub64 e s ∙ width)
