-- ===== src/Vmware/Copy/Chunks.antt =====
-- The loop over the chunks of a range (CopyDisk in agent/vmware/copy.go).
use mathlib.Core.Path.{subst}
use hyperv_control_plane.Prelude.{
  ℕ, zero, suc, ◌+◌, ◌-◌, ◌*◌, ◌^◌, ◌≤◌, ◌<◌, ◌≡◌, refl, sym, ◌∙◌, ◌⊎◌, inl, inr, arith, ℤ, pos,
  ltb_ℤ, add64, add64_pos, sub64_pos, Bool, ◌||◌, Option, none, some, List, ltb, Bool-cases, Text,
  if◌then◌else◌,
}
use hyperv_control_plane.Hyperv.RawDisk.{RawDisk, OsWrite, Writes}
use hyperv_control_plane.Vmware.Copy.{
  CopyError, copy_range, copy_chunks, chunk_size, read_chunk, Copied, after_chunk,
}
use hyperv_control_plane.Vmware.Copy.Device.{
  Reads, Effect, Effect-then, Effect-weaken, inside, copy_range-Effect,
}

chunk_size_lem :
    (a e : ℕ)
    → a ≤ e
    → e < 2 ^ 63
    → chunk_size (pos a) (pos e) ≡ pos (if ltb (e - a) 33554432 then e - a else 33554432)
unfolding chunk_size
chunk_size_lem a e l h = ground (arith, sub64_pos e a l h)

inside_split : (a m e p : ℕ) → a ≤ m → m ≤ e → (inside a m p || inside m e p) ≡ inside a e p
inside_split a m e p h k = ground arith

next_chunk :
    (a n e p : ℕ)
    → (n ≡ 33554432) ⊎ (a + n ≡ e)
    → n ≤ 33554432
    → inside (a + 33554432) e p ≡ inside (a + n) e p
next_chunk a n e p (inl h) l = ground (arith, h)
next_chunk a n e p (inr h) l = ground (arith, h)

module _ (content : ℕ → ℕ) (size p : ℕ) where
  abbrev pub CopiedEffect : RawDisk → Bool → Copied → Type 0
  CopiedEffect d c (d', copied, error) =
      (d'.size_bytes ≡ d.size_bytes) × Effect content size p c (d.cells p) (d'.cells p) error

  -- A loop that ends, having done to the byte at `p` what a step that covers it or not does.
  abbrev pub Ends : RawDisk → Bool → Option Copied → Type 0
  Ends d c o = (r : Copied) × (o ≡ some r) × CopiedEffect d c r

module _ (os_write : OsWrite) (writes : Writes os_write) (read_at : Text → ℤ → ℤ → Option (List ℕ))
    (path : Text) (content : ℕ → ℕ) (reads : Reads content (read_at path)) (size p : ℕ) where
  after_chunk-Ends :
      (a m e : ℕ) (d d' : RawDisk) (error : Option CopyError) (copied : ℤ) (more : Option Copied)
      → a ≤ m
      → m ≤ e
      → d'.size_bytes ≡ d.size_bytes
      → Effect content size p (inside a m p) (d.cells p) (d'.cells p) error
      → Ends content size p d' (inside m e p) more
      → Ends content size p d (inside a e p) (after_chunk error d' copied more)
  after_chunk-Ends a m e d d' (some x) copied more h k s f rest = (
    (d', copied, some x),
    refl,
    (
      s,
      subst (λ c. Effect content size p c (d.cells p) (d'.cells p) (some x))
          (inside_split a m e p h k)
          (Effect-weaken content size p (inside a m p) (inside m e p) (d.cells p) (d'.cells p) x f),
    ),
  )
  after_chunk-Ends a m e d d' none copied more h k s f ((d2, copied2, error), q, (s2, g)) = (
    (d2, copied2, error),
    q,
    (
      s2 ∙ s,
      subst (λ c. Effect content size p c (d.cells p) (d2.cells p) error) (inside_split a m e p h k)
          (Effect-then content size p (inside a m p) (inside m e p) (d.cells p) (d'.cells p)
            (d2.cells p) error f g),
    ),
  )

  abbrev Chunk : ℕ → ℕ → ℕ → RawDisk → ℤ → ℤ → ℤ → Type 0
  Chunk fuel a e d copied n next =
      let r = copy_range os_write read_at path d (pos a) n in
      Ends content size p d (inside a e p) (
        after_chunk r.1 r.0 copied
          (copy_chunks os_write read_at fuel path next (pos e) r.0 (add64 copied n)))

  -- The chunks of [a, e): the loop ends within its fuel, and its effect is that of the whole range.
  pub copy_chunks-Ends :
      (fuel a e : ℕ) (d : RawDisk) (copied : ℤ)
      → d.size_bytes ≡ pos size
      → a ≤ e + 33554432
      → e + 33554432 < 2 ^ 62
      → e + 33554432 < a + fuel * 33554432
      → Ends content size p d
          (inside a e p)
          (copy_chunks os_write read_at fuel path (pos a) (pos e) d copied)
  unfolding copy_chunks
  copy_chunks-Ends zero a e d copied s l b f = absurd (omega arith)
  copy_chunks-Ends (suc fuel) a e d copied s l b f =
      let n : ℕ = if ltb (e - a) 33554432 then e - a else 33554432 in
      let chunk-Ends : (n : ℕ)
          → n ≤ 33554432
          → a + n ≤ e
          → (n ≡ 33554432) ⊎ (a + n ≡ e)
          → Chunk fuel a e d copied (pos n) (pos (a + read_chunk)) =
        λ n short in_ full.
          let r = copy_range os_write read_at path d (pos a) (pos n) in
          let f1 =
            copy_range-Effect os_write writes read_at path content reads size p d a n s
              (omega arith) in
          after_chunk-Ends a (a + n) e d r.0 r.1 copied
            (copy_chunks os_write read_at fuel path (pos (a + read_chunk)) (pos e) r.0
              (add64 copied (pos n)))
            (omega arith) in_ f1.0 f1.1
            (subst
              (λ c. Ends content size p r.0 c (
                copy_chunks os_write read_at fuel path (pos (a + read_chunk)) (pos e) r.0
                  (add64 copied (pos n))))
              (next_chunk a n e p full short)
              (copy_chunks-Ends fuel (a + 33554432) e r.0 (add64 copied (pos n)) (f1.0 ∙ s)
                (omega arith) b (omega arith))) in
      elim (Bool-cases (ltb_ℤ (pos a) (pos e))) [
        | inr done ↦ ((d, copied, none), rw done refl, (refl, ground (arith, done)))
        | inl more ↦ rw more (
            subst (λ k. Chunk fuel a e d copied k (add64 (pos a) (pos read_chunk)))
              (sym (chunk_size_lem a e (ground (arith, more)) (omega arith)))
              (subst (λ k. Chunk fuel a e d copied (pos n) k)
                (sym (add64_pos a read_chunk (omega arith)))
                (chunk-Ends n (ground arith) (ground (arith, more)) (ground (arith, more)))))
      ]
