-- ===== src/Vmware/StreamVmdk/Marker.antt =====
-- One marker and what follows it (agent/vmware/streamvmdk.go).
use mathlib.Core.Path.{subst}
use hyperv_control_plane.Prelude.{
  ℕ, ◌+◌, ◌-◌, ◌≤◌, ◌≡◌, refl, sym, inl, inr, arith, ℤ, pos, pos_part, ltb_ℤ, Bool, Bool-cases,
  Option, none, some, List, ◌++◌, length, take, drop, length-drop, ltb, ◌==◌, All,
}
use hyperv_control_plane.Vmware.VmdkHeader.{
  StreamHeader, marker_eos, sectors, capacity_bytes, vmdk_sector, field,
}
use hyperv_control_plane.Vmware.StreamVmdk.{
  Progress, Step, stop, go_on, place, skip_payload, note_footer, metadata, after_skip, skip_bytes,
  inflated, grain_read, marker_read, read_full, align,
}
use hyperv_control_plane.Vmware.StreamVmdk.Place.{Fits, Good, sectors_lem, place_any-Good}

module _ (inflate : List ℕ → Option (List ℕ)) (sink : ℤ → List ℕ → Bool) where
  Good-fewer :
      (capacity : ℤ) (m n : ℕ) (step : Step) → m ≤ n → Good capacity m step → Good capacity n step
  Good-fewer capacity m n (stop e p) l g = g
  Good-fewer capacity m n (go_on rest p) l (g, k) = (g, omega arith)

  after_skip-Good :
      (capacity : ℤ) (n : ℤ) (rest : List ℕ) (p : Progress)
      → All (Fits capacity) p.grains
      → Good capacity (length rest) (after_skip (skip_bytes n rest) p)
  after_skip-Good capacity n rest p h = elim (Bool-cases (ltb_ℤ (pos 0) n)) [
    | inr still ↦ rw still (h, omega arith)
    | inl y ↦ elim (Bool-cases (ltb (length rest) (pos_part n))) [
      | inl cut ↦ rw (y, cut) (h, tt)
      | inr all ↦ rw (y, all) (h, omega (arith, length-drop (pos_part n) rest))
    ]
  ]

  skip_payload-Good :
      (capacity : ℤ) (val : ℕ) (rest : List ℕ) (p : Progress)
      → All (Fits capacity) p.grains
      → Good capacity (length rest) (skip_payload val rest p)
  unfolding skip_payload
  skip_payload-Good capacity val rest p h = elim (Bool-cases (ltb 0 val)) [
    | inl y ↦ rw y (after_skip-Good capacity (sectors val) rest p h)
    | inr n ↦ rw n (h, omega arith)
  ]

  note_footer-grains : (kind : ℕ) (p : Progress) → (note_footer kind p).grains ≡ p.grains
  note_footer-grains kind p = ground arith

  metadata-Good :
      (capacity : ℤ) (kind val : ℕ) (rest : List ℕ) (p : Progress)
      → All (Fits capacity) p.grains
      → Good capacity (length rest) (metadata kind val rest p)
  unfolding metadata
  metadata-Good capacity kind val rest p h = elim (Bool-cases (kind == marker_eos)) [
    | inr n ↦ rw n (
        skip_payload-Good capacity val rest (note_footer kind p)
          (subst (λ gs. All (Fits capacity) gs) (sym (note_footer-grains kind p)) h))
    | inl y ↦ elim (Bool-cases p.saw_footer) [
      | inl seen ↦ rw (y, seen) (h, refl)
      | inr unseen ↦ rw (y, unseen) (h, tt)
    ]
  ]

  inflated-Good :
      (header : StreamHeader) (val : ℕ) (o : Option (List ℕ)) (rest : List ℕ) (p : Progress)
      → All (Fits (capacity_bytes header)) p.grains
      → Good (capacity_bytes header) (length rest) (inflated inflate sink header val o rest p)
  unfolding inflated place
  inflated-Good header val none rest p h = (h, tt)
  inflated-Good header val (some bs) rest p h =
      place_any-Good inflate sink (sectors header.grain_sectors) (capacity_bytes header)
        (sectors val) bs rest p (sectors_lem val).0 (sectors_lem header.capacity_sectors).1 h

  grain_read-Good :
      (header : StreamHeader) (val size n : ℕ) (marker bs : List ℕ) (p : Progress)
      → All (Fits (capacity_bytes header)) p.grains
      → Good
          (capacity_bytes header)
          (length bs)
          (grain_read inflate sink header val size marker (read_full n bs) p)
  unfolding grain_read
  grain_read-Good header val size n marker bs p h = elim (Bool-cases (ltb (length bs) n)) [
    | inl cut ↦ rw cut (h, tt)
    | inr all ↦ rw all (
        Good-fewer (capacity_bytes header) (length (drop n bs)) (length bs)
          (inflated inflate sink header val (inflate (take size (drop 12 (marker ++ take n bs))))
            (drop n bs) p)
          (omega (arith, length-drop n bs))
          (inflated-Good header val (inflate (take size (drop 12 (marker ++ take n bs))))
            (drop n bs) p h))
  ]

  pub marker_read-Good :
      (header : StreamHeader) (marker rest : List ℕ) (p : Progress)
      → All (Fits (capacity_bytes header)) p.grains
      → Good
          (capacity_bytes header)
          (length rest)
          (marker_read inflate sink header (some (marker, rest)) p)
  unfolding marker_read
  marker_read-Good header marker rest p h = elim (Bool-cases (field 8 4 marker == 0)) [
    | inl y ↦
        rw y (metadata-Good (capacity_bytes header) (field 12 4 marker) (field 0 8 marker) rest p h)
    | inr n ↦ rw n (
        grain_read-Good header (field 0 8 marker) (field 8 4 marker)
          (align (field 8 4 marker + 12) vmdk_sector - vmdk_sector) marker rest p h)
  ]
