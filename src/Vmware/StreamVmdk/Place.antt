-- ===== src/Vmware/StreamVmdk/Place.antt =====
-- A grain between its data and the sink (agent/vmware/streamvmdk.go).
use hyperv_control_plane.Prelude.{
  ℕ, ◌+◌, ◌-◌, ◌%◌, ◌^◌, ◌≤◌, ◌<◌, ◌≡◌, inl, inr, arith, ℤ, pos, negsuc, pos_part, ltb_ℤ, sub64_pos,
  Bool, true, false, Bool-cases, not, ◌||◌, Option, none, some, List, length, ◌==◌, All,
}
use hyperv_control_plane.Vmware.Copy.Device.{length-take}
use hyperv_control_plane.Hyperv.RawDisk.{sector_size}
use hyperv_control_plane.Vmware.VmdkHeader.{DecodeError, sectors}
use hyperv_control_plane.Vmware.StreamVmdk.{
  Grain, Progress, Step, stop, go_on, place_at, hand_over, cut_to,
}

-- A grain that lies in a disk, at a whole number of the format's sectors, and is a whole number of the
-- destination's.
abbrev pub Fits : ℤ → Grain → Type 0
Fits capacity g =
    (ltb_ℤ g.offset (pos 0) ≡ false)
    × (pos_part g.offset + length g.bytes ≤ pos_part capacity)
    × (pos_part g.offset % 512 ≡ 0)
    × (length g.bytes % 4096 ≡ 0)

-- A decode that ended without an error has seen the footer.
abbrev pub Finished : Option DecodeError → Progress → Type 0
Finished none p = p.saw_footer ≡ true
Finished (some e) p = Unit

-- What a step keeps, and how many bytes it leaves at most.
abbrev pub Good : ℤ → ℕ → Step → Type 0
Good capacity n (stop e p) = All (Fits capacity) p.grains × Finished e p
Good capacity n (go_on rest p) = All (Fits capacity) p.grains × (length rest ≤ n)

pub sectors_lem : (n : ℕ) → (pos_part (sectors n) % 512 ≡ 0) × (pos_part (sectors n) < 2 ^ 63)
sectors_lem n = ground arith

module _ (inflate : List ℕ → Option (List ℕ)) (sink : ℤ → List ℕ → Bool) where
  length-cut_to : (bs : List ℕ) (rem : ℕ) → length (cut_to (pos rem) bs) ≤ rem
  length-cut_to bs rem = ground (arith, length-take rem bs)

  hand_over-Good :
      (c o : ℕ) (cut rest : List ℕ) (p : Progress)
      → o % 512 ≡ 0
      → o + length cut ≤ c
      → All (Fits (pos c)) p.grains
      → Good (pos c) (length rest) (hand_over inflate sink (pos o) cut rest p)
  unfolding hand_over
  hand_over-Good c o cut rest p a b h = elim (Bool-cases (length cut % sector_size == 0)) [
    | inr n ↦ rw n (h, tt)
    | inl y ↦
        let fits : Fits (pos c) (record { offset = pos o; bytes = cut }) =
          (ground arith, b, a, ground (arith, y)) in
        elim (Bool-cases (sink (pos o) cut)) [
          | inl t ↦ rw (y, t) ((fits, h), omega arith)
          | inr f ↦ rw (y, f) ((fits, h), tt)
        ]
  ]

  place_at-Good :
      (grain_bytes : ℤ) (c o : ℕ) (bs rest : List ℕ) (p : Progress)
      → o % 512 ≡ 0
      → c < 2 ^ 63
      → All (Fits (pos c)) p.grains
      → Good (pos c) (length rest) (place_at inflate sink grain_bytes (pos c) (pos o) bs rest p)
  unfolding place_at
  place_at-Good grain_bytes c o bs rest p a b h =
      elim (Bool-cases (ltb_ℤ grain_bytes (pos (length bs)))) [
        | inl y ↦ rw y (h, tt)
        | inr n ↦ elim (Bool-cases (ltb_ℤ (pos o) (pos 0) || not (ltb_ℤ (pos o) (pos c)))) [
          | inl y ↦ rw (n, y) (h, tt)
          | inr m ↦
              let inside : o < c = ground (arith, m) in
              rw (n, m, sub64_pos c o (omega arith) b)
                (hand_over-Good c o (cut_to (pos (c - o)) bs) rest p a
                  (omega (arith, length-cut_to bs (c - o), inside)) h)
        ]
      ]

  pub place_any-Good :
      (grain_bytes capacity offset : ℤ) (bs rest : List ℕ) (p : Progress)
      → pos_part offset % 512 ≡ 0
      → pos_part capacity < 2 ^ 63
      → All (Fits capacity) p.grains
      → Good capacity (length rest) (place_at inflate sink grain_bytes capacity offset bs rest p)
  unfolding place_at
  place_any-Good grain_bytes (pos c) (pos o) bs rest p a b h =
      place_at-Good grain_bytes c o bs rest p a b h
  place_any-Good grain_bytes (negsuc c) (pos o) bs rest p a b h =
      elim (Bool-cases (ltb_ℤ grain_bytes (pos (length bs)))) [
        | inl y ↦ rw y (h, tt)
        | inr n ↦
            let outside : (ltb_ℤ (pos o) (pos 0) || not (ltb_ℤ (pos o) (negsuc c))) ≡ true =
              ground arith in
            rw (n, outside) (h, tt)
      ]
  place_any-Good grain_bytes capacity (negsuc o) bs rest p a b h =
      elim (Bool-cases (ltb_ℤ grain_bytes (pos (length bs)))) [
        | inl y ↦ rw y (h, tt)
        | inr n ↦
            let outside : (ltb_ℤ (negsuc o) (pos 0) || not (ltb_ℤ (negsuc o) capacity)) ≡ true =
              ground arith in
            rw (n, outside) (h, tt)
      ]
