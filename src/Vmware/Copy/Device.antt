-- ===== src/Vmware/Copy/Device.antt =====
-- What one range of a copy (agent/vmware/copy.go) does to a byte of the destination.
use mathlib.Core.Path.{subst}
use hyperv_control_plane.Prelude.{
  ℕ, zero, suc, ◌+◌, ◌-◌, ◌^◌, ◌≤◌, ◌<◌, ◌≡◌, refl, sym, ◌∙◌, ap, ◌⊎◌, inl, inr, arith, ℤ, pos,
  add64_pos, Bool, true, false, not, ◌||◌, ◌&&◌, leb, Option, none, some, List, [], ◌∷◌, length,
  take, ltb, Bool-cases, Option-cases, Text, if◌then◌else◌,
}
use hyperv_control_plane.Hyperv.RawDisk.{RawDisk, WriteError, OsWrite, Writes, write_at, byte_at}
use hyperv_control_plane.Vmware.Copy.{CopyError, copy_range, copy_read, as_copy_error}

pub length-take : (n : ℕ) (bs : List ℕ) → n ≤ length bs → length (take n bs) ≡ n
length-take zero bs h = refl
length-take (suc n) [] h = absurd (omega arith)
length-take (suc n) (b ∷ bs) h = omega (arith, length-take n bs)

byte_at-take : (n : ℕ) (bs : List ℕ) (i : ℕ) → i < n → byte_at (take n bs) i ≡ byte_at bs i
byte_at-take zero bs i h = absurd (omega arith)
byte_at-take (suc n) [] i h = refl
byte_at-take (suc n) (b ∷ bs) i h = ground (arith, byte_at-take n bs (i - 1))

-- What a range request of a file documents: the bytes of the range, in order, as far as they come.
pub record Reads (content : ℕ → ℕ) (read : ℤ → ℤ → Option (List ℕ)) : Type 0 where
  pub of_range :
      (offset n i : ℕ) (bs : List ℕ)
      → read (pos offset) (pos n) ≡ some bs
      → i < n
      → n ≤ length bs
      → byte_at bs i ≡ content (offset + i)

-- What a step over [from, to) does to the byte at `p`: with an error, it may have changed it only
-- inside the range and the disk; without, it has the source's byte there.
abbrev pub Inside : ℕ → ℕ → ℕ → Type 0
Inside from_ to_ p = (from_ ≤ p) × (p < to_)

abbrev pub Outside : ℕ → ℕ → ℕ → Type 0
Outside from_ to_ p = (p < from_) ⊎ (to_ ≤ p)

module _ (os_write : OsWrite) (writes : Writes os_write) where
  write_at-size :
      (d : RawDisk) (bs : List ℕ) (offset : ℤ)
      → (write_at os_write d bs offset).0.size_bytes ≡ d.size_bytes
  unfolding write_at
  write_at-size d bs offset = ground arith

  -- A write leaves what is outside its range, and what is outside the disk.
  write_at-Outside :
      (d : RawDisk) (bs : List ℕ) (offset size p : ℕ)
      → d.size_bytes ≡ pos size
      → offset + length bs < 2 ^ 63
      → Outside offset (offset + length bs) p ⊎ (size ≤ p)
      → (write_at os_write d bs (pos offset)).0.cells p ≡ d.cells p
  unfolding write_at
  write_at-Outside d bs offset size p s h (inl out) =
      ground (arith, writes.elsewhere d.cells bs offset p out)
  write_at-Outside d bs offset size p s h (inr past) =
      ground (arith, s, add64_pos offset (length bs) h, writes.elsewhere d.cells bs offset p)

  write_at-Inside :
      (d : RawDisk) (bs : List ℕ) (offset p : ℕ)
      → Inside offset (offset + length bs) p
      → (write_at os_write d bs (pos offset)).1 ≡ none
      → (write_at os_write d bs (pos offset)).0.cells p ≡ byte_at bs (p - offset)
  unfolding write_at
  write_at-Inside d bs offset p h ok = ground (arith, ok, h, writes.written d.cells bs offset p)

  write_at-fits :
      (d : RawDisk) (bs : List ℕ) (offset size : ℕ)
      → d.size_bytes ≡ pos size
      → offset + length bs < 2 ^ 63
      → (write_at os_write d bs (pos offset)).1 ≡ none
      → offset + length bs ≤ size
  unfolding write_at
  write_at-fits d bs offset size s h ok = ground (arith, s, ok, add64_pos offset (length bs) h)

-- What a step does to the byte at `p` of a disk of `size` bytes, from `old` to `new`, where `c` says
-- whether the step covers `p`. Without an error the byte is the source's if the step covers it, and
-- then lies in the disk; with one, it changed at most if it is covered and lies in the disk.
abbrev pub Effect : (ℕ → ℕ) → ℕ → ℕ → Bool → ℕ → ℕ → Option CopyError → Type 0
Effect content size p c old new none =
    (new ≡ (if c then content p else old)) × ((c && not (ltb p size)) ≡ false)
Effect content size p c old new (some e) = ((c && ltb p size) ≡ true) ⊎ (new ≡ old)

module _ (content : ℕ → ℕ) (size p : ℕ) where
  pub Effect-then :
      (c1 c2 : Bool) (old mid new : ℕ) (error : Option CopyError)
      → Effect content size p c1 old mid none
      → Effect content size p c2 mid new error
      → Effect content size p (c1 || c2) old new error
  Effect-then true c2 old mid new none h k = ground arith
  Effect-then false c2 old mid new none h k = ground arith
  Effect-then true c2 old mid new (some e) h k = ground arith
  Effect-then false c2 old mid new (some e) h k = ground arith

  pub Effect-weaken :
      (c1 c2 : Bool) (old new : ℕ) (e : CopyError)
      → Effect content size p c1 old new (some e)
      → Effect content size p (c1 || c2) old new (some e)
  Effect-weaken true c2 old new e h = ground arith
  Effect-weaken false c2 old new e h = inr (ground arith)

abbrev pub inside : ℕ → ℕ → ℕ → Bool
inside from_ to_ p = leb from_ p && ltb p to_

not_in : (from_ to_ p : ℕ) → inside from_ to_ p ≡ false → Outside from_ to_ p
not_in from_ to_ p h = ground arith

not_inside :
    (from_ to_ p size : ℕ)
    → (inside from_ to_ p && ltb p size) ≡ false
    → Outside from_ to_ p ⊎ (size ≤ p)
not_inside from_ to_ p size h = ground arith

module _ (os_write : OsWrite) (writes : Writes os_write) (read_at : Text → ℤ → ℤ → Option (List ℕ))
    (path : Text) (content : ℕ → ℕ) (reads : Reads content (read_at path)) (size p : ℕ) where
  as_copy_error-none : (e : Option WriteError) → as_copy_error e ≡ none → e ≡ none
  as_copy_error-none none h = refl
  as_copy_error-none (some e) h = cc

  -- One range: what is written, and whether it succeeds.
  abbrev RangeEffect : RawDisk → ℕ → ℕ → RawDisk × Option CopyError → Type 0
  RangeEffect d offset n (d', error) =
      (d'.size_bytes ≡ d.size_bytes)
      × Effect content size p (inside offset (offset + n) p) (d.cells p) (d'.cells p) error

  none_read :
      (d : RawDisk) (offset n : ℕ)
      → RangeEffect d offset n (copy_read os_write none d (pos offset) (pos n))
  unfolding copy_read
  none_read d offset n = (refl, inr refl)

  short_read_Effect :
      (d : RawDisk) (bs : List ℕ) (offset n : ℕ)
      → ltb (length bs) n ≡ true
      → RangeEffect d offset n (copy_read os_write (some bs) d (pos offset) (pos n))
  unfolding copy_read
  short_read_Effect d bs offset n short = rw short (refl, inr refl)

  write-Effect :
      (d : RawDisk) (bs : List ℕ) (offset n : ℕ)
      → d.size_bytes ≡ pos size
      → offset + n < 2 ^ 63
      → n ≤ length bs
      → read_at path (pos offset) (pos n) ≡ some bs
      → let r = write_at os_write d (take n bs) (pos offset) in
        RangeEffect d offset n (r.0, as_copy_error r.1)
  write-Effect d bs offset n s h l q =
      let r = write_at os_write d (take n bs) (pos offset) in
      let k = length-take n bs l in
      let same = write_at-size os_write writes d (take n bs) (pos offset) in
      let outside : Outside offset (offset + n) p ⊎ (size ≤ p) → r.0.cells p ≡ d.cells p = λ o.
        write_at-Outside os_write writes d (take n bs) offset size p s (omega (arith, k))
          (subst (λ j. Outside offset (offset + j) p ⊎ (size ≤ p)) (sym k) o) in
      elim (Option-cases r.1) [
        | inr (e, failed) ↦ (
          same,
          subst
              (λ o.
                Effect content size p (inside offset (offset + n) p) (d.cells p) (r.0.cells p)
                  (as_copy_error o))
              (sym failed)
              (elim (Bool-cases (inside offset (offset + n) p && ltb p size)) [
                | inl y ↦ inl y
                | inr m ↦ inr (outside (not_inside offset (offset + n) p size m))
              ]),
        )
        | inl ok ↦ (
          same,
          subst
              (λ o.
                Effect content size p (inside offset (offset + n) p) (d.cells p) (r.0.cells p)
                  (as_copy_error o))
              (sym ok)
              (elim (Bool-cases (inside offset (offset + n) p)) [
                | inr m ↦ (outside (inl (not_in offset (offset + n) p m)) ∙ rw m refl, rw m refl)
                | inl y ↦
                    let at : Inside offset (offset + n) p = ground (arith, y) in
                    let fits =
                      write_at-fits os_write writes d (take n bs) offset size s (omega (arith, k))
                        ok in
                    let back : offset + (p - offset) ≡ p = omega arith in
                    (
                      write_at-Inside os_write writes d (take n bs) offset p
                            (subst (λ j. Inside offset (offset + j) p) (sym k) at) ok
                          ∙ byte_at-take n bs (p - offset) (omega arith)
                          ∙ reads.of_range offset n (p - offset) bs q (omega arith) l
                          ∙ ap content back
                          ∙ rw y refl,
                      ground (arith, y, fits, k),
                    )
              ]),
        )
      ]

  full_read_Effect :
      (d : RawDisk) (bs : List ℕ) (offset n : ℕ)
      → d.size_bytes ≡ pos size
      → offset + n < 2 ^ 63
      → ltb (length bs) n ≡ false
      → read_at path (pos offset) (pos n) ≡ some bs
      → RangeEffect d offset n (copy_read os_write (some bs) d (pos offset) (pos n))
  unfolding copy_read
  full_read_Effect d bs offset n s h full e =
      rw full (write-Effect d bs offset n s h (ground arith) e)

  pub copy_range-Effect :
      (d : RawDisk) (offset n : ℕ)
      → d.size_bytes ≡ pos size
      → offset + n < 2 ^ 63
      → RangeEffect d offset n (copy_range os_write read_at path d (pos offset) (pos n))
  unfolding copy_range
  copy_range-Effect d offset n s h = elim (Option-cases (read_at path (pos offset) (pos n))) [
    | inl e ↦
        subst (λ o. RangeEffect d offset n (copy_read os_write o d (pos offset) (pos n))) (sym e)
          (none_read d offset n)
    | inr (bs, e) ↦
        subst (λ o. RangeEffect d offset n (copy_read os_write o d (pos offset) (pos n))) (sym e)
          (elim (Bool-cases (ltb (length bs) n)) [
            | inl short ↦ short_read_Effect d bs offset n short
            | inr full ↦ full_read_Effect d bs offset n s h full e
          ])
  ]
