-- ===== src/Vmware/Copy/Extents.antt =====
-- The loop over the extents of a pass (CopyDisk in agent/vmware/copy.go).
use mathlib.Core.Path.{subst}
use hyperv_control_plane.Prelude.{
  ℕ, zero, suc, ◌+◌, ◌-◌, ◌/◌, ◌^◌, ◌≤◌, ◌<◌, ◌≡◌, refl, sym, ◌∙◌, ap, inl, inr, arith, ℤ, pos,
  negsuc, pos_part, ltb_ℤ, add64, add64_pos, Bool, true, false, ◌||◌, ◌&&◌, Option, none, some,
  List, [], ◌∷◌, ltb, Bool-cases, Text, All,
}
use hyperv_control_plane.Hyperv.RawDisk.{
  RawDisk, OsWrite, Writes, aligned_range, aligned_range_lem, aligned_range_zero, floor, ceil,
  floor-le-ceil, ceil_bound,
}
use hyperv_control_plane.Vmware.Copy.{
  copy_chunks, read_chunk, copy_extents, Extent, Copied, and_then, context_ended,
}
use hyperv_control_plane.Vmware.Copy.Device.{Reads, Effect-then, Effect-weaken, inside}
use hyperv_control_plane.Vmware.Copy.Chunks.{Ends, copy_chunks-Ends}

-- The destination's bytes an extent covers: those of the sectors it touches. Extents that end at
-- 2^61 or later are left out.
abbrev pub covers : ℕ → Extent → Bool
covers p e =
    ltb_ℤ (pos 0) e.len
    && inside (floor (pos_part e.start)) (ceil (pos_part e.start + pos_part e.len)) p

abbrev pub covered : ℕ → List Extent → Bool
covered p [] = false
covered p (e ∷ es) = covers p e || covered p es

abbrev pub IsBelow : Extent → Type 0
IsBelow e =
    (ltb_ℤ e.start (pos 0) ≡ false)
    × (ltb_ℤ e.len (pos 0) ≡ false)
    × (pos_part e.start + pos_part e.len < 2 ^ 61)

covers_pos :
    (a n p : ℕ)
    → inside (floor a) (ceil (a + suc n)) p ≡ covers p (record { start = pos a; len = pos (suc n) })
covers_pos a n p =
    let some_bytes : ltb 0 (suc n + 0) ≡ true = ground arith in
    ap (λ c. c && inside (floor a) (ceil (a + suc n)) p) (sym some_bytes)

nothing_inside : (a p : ℕ) → inside a (a + 0) p ≡ false
nothing_inside a p = ground arith

module _ (os_write : OsWrite) (writes : Writes os_write) (read_at : Text → ℤ → ℤ → Option (List ℕ))
    (path : Text) (content : ℕ → ℕ) (reads : Reads content (read_at path)) (size p : ℕ) where
  and_then-Ends :
      (c1 c2 : Bool) (d : RawDisk) (o : Option Copied) (k : RawDisk → ℤ → Option Copied)
      → Ends content size p d c1 o
      → ((d' : RawDisk) (copied : ℤ)
          → d'.size_bytes ≡ d.size_bytes
          → Ends content size p d' c2 (k d' copied))
      → Ends content size p d (c1 || c2) (and_then o k)
  and_then-Ends c1 c2 d o k ((d1, copied1, some x), q, (s, f)) rest = rw q (
    (d1, copied1, some x),
    refl,
    (s, Effect-weaken content size p c1 c2 (d.cells p) (d1.cells p) x f),
  )
  and_then-Ends c1 c2 d o k ((d1, copied1, none), q, (s, f)) rest =
      let ((d2, copied2, error), q2, (s2, g)) = rest d1 copied1 s in
      rw q (
        (d2, copied2, error),
        q2,
        (s2 ∙ s, Effect-then content size p c1 c2 (d.cells p) (d1.cells p) (d2.cells p) error f g),
      )

  abbrev copy_range_at : ℤ × ℤ → RawDisk → ℤ → Option Copied
  copy_range_at w d copied =
      copy_chunks os_write read_at (pos_part w.1 / read_chunk + 2) path w.0 (add64 w.0 w.1) d copied

  range-Ends :
      (w : ℤ × ℤ) (a n : ℕ) (d : RawDisk) (copied : ℤ)
      → w ≡ (pos a, pos n)
      → d.size_bytes ≡ pos size
      → a + n + 33554432 < 2 ^ 62
      → Ends content size p d (inside a (a + n) p) (copy_range_at w d copied)
  range-Ends w a n d copied h s b =
      subst (λ w. Ends content size p d (inside a (a + n) p) (copy_range_at w d copied)) (sym h)
        (subst
          (λ e.
            Ends content size p d (inside a (a + n) p)
              (copy_chunks os_write read_at (n / read_chunk + 2) path (pos a) e d copied))
          (sym (add64_pos a n (omega arith)))
          (copy_chunks-Ends os_write writes read_at path content reads size p (n / read_chunk + 2) a
            (a + n) d copied s (omega arith) b (omega arith)))

  extent-Ends :
      (start len : ℤ) (d : RawDisk) (copied : ℤ)
      → IsBelow (record { start = start; len = len })
      → d.size_bytes ≡ pos size
      → Ends content size p d
          (covers p (record { start = start; len = len }))
          (copy_range_at (aligned_range start len) d copied)
  extent-Ends (negsuc a) len d copied (h, k, l) s = absurd (ground (arith, h))
  extent-Ends (pos a) (negsuc n) d copied (h, k, l) s = absurd (ground (arith, k))
  extent-Ends (pos a) (pos zero) d copied (h, k, l) s =
      subst (λ c. Ends content size p d c (copy_range_at (aligned_range (pos a) (pos 0)) d copied))
        (nothing_inside a p)
        (range-Ends (aligned_range (pos a) (pos 0)) a 0 d copied (aligned_range_zero a) s
          (omega (arith, l)))
  extent-Ends (pos a) (pos (suc n)) d copied (h, k, l) s =
      let top : floor a ≤ ceil (a + suc n) = floor-le-ceil a (a + suc n) (omega arith) in
      let bound = ceil_bound (a + suc n) in
      let whole : floor a + (ceil (a + suc n) - floor a) ≡ ceil (a + suc n) = omega arith in
      subst
        (λ c.
          Ends content size p d c (copy_range_at (aligned_range (pos a) (pos (suc n))) d copied))
        (ap (λ m. inside (floor a) m p) whole ∙ covers_pos a n p)
        (range-Ends (aligned_range (pos a) (pos (suc n))) (floor a) (ceil (a + suc n) - floor a) d
          copied (aligned_range_lem a (suc n) (omega (arith, l)) (omega arith)) s
          (omega (arith, l, whole, bound)))

  -- The extents of a pass.
  pub copy_extents-Ends :
      (ended : ℕ → Bool) (i : ℕ) (es : List Extent) (d : RawDisk) (copied : ℤ)
      → All IsBelow es
      → d.size_bytes ≡ pos size
      → Ends content size p d
          (covered p es)
          (copy_extents os_write read_at ended i path es d copied)
  unfolding copy_extents
  copy_extents-Ends ended i [] d copied h s = ((d, copied, none), refl, (refl, (refl, refl)))
  copy_extents-Ends ended i (e ∷ es) d copied (h, hs) s = elim (Bool-cases (ended i)) [
    | inl y ↦ rw y ((d, copied, some context_ended), refl, (refl, inr refl))
    | inr m ↦ rw m (
        and_then-Ends (covers p e) (covered p es) d
          (copy_range_at (aligned_range e.start e.len) d copied)
          (λ d' copied'. copy_extents os_write read_at ended (suc i) path es d' copied')
          (extent-Ends e.start e.len d copied h s)
          (λ d' copied' q. copy_extents-Ends ended (suc i) es d' copied' hs (q ∙ s)))
  ]
