-- ===== src/Vmware/StreamVmdk/Grains.antt =====
-- The grains that the decoder of agent/vmware/streamvmdk.go hands over, and its end.
use hyperv_control_plane.Prelude.{
  ℕ, zero, suc, ◌+◌, ◌-◌, ◌*◌, ◌/◌, ◌%◌, ◌^◌, ◌≤◌, ◌<◌, ◌≡◌, refl, ap, inl, inr, arith, ℤ, signed64,
  Bool, Bool-cases, Option, none, some, List, length, take, drop, length-drop, ltb, All,
}
use hyperv_control_plane.Vmware.VmdkHeader.{
  StreamHeader, DecodeError, truncated, skip_failed, no_header, sectors, capacity_bytes,
  parse_stream_header, data_start,
}
use hyperv_control_plane.Vmware.StreamVmdk.{
  Progress, Step, stop, go_on, nothing_yet, place, after_step, skip_bytes, marker_read, decode_step,
  decode_loop, decode_from, decode_parsed, decode_stream_vmdk,
}
use hyperv_control_plane.Vmware.StreamVmdk.Place.{Fits, Finished, Good}
use hyperv_control_plane.Vmware.StreamVmdk.Marker.{marker_read-Good}

-- A decode that ends: with every grain in the disk, and a footer seen unless there is an error.
abbrev pub Ends : ℤ → Option (Progress × Option DecodeError) → Type 0
Ends capacity o =
    (p : Progress) × (error : Option DecodeError) × (o ≡ some (p, error))
    × All (Fits capacity) p.grains
    × Finished error p

module _ (inflate : List ℕ → Option (List ℕ)) (sink : ℤ → List ℕ → Bool) where
  after_step-Ends :
      (capacity : ℤ) (n : ℕ) (step : Step)
      (more : List ℕ → Progress → Option (Progress × Option DecodeError))
      → Good capacity n step
      → ((rest : List ℕ) (p : Progress)
          → length rest ≤ n
          → All (Fits capacity) p.grains
          → Ends capacity (more rest p))
      → Ends capacity (after_step step more)
  after_step-Ends capacity n (stop e p) more (h, f) k = (p, e, refl, h, f)
  after_step-Ends capacity n (go_on rest p) more (h, l) k = k rest p l h

  decode_loop-Ends :
      (fuel : ℕ) (header : StreamHeader) (bs : List ℕ) (p : Progress)
      → length bs < fuel * 512
      → All (Fits (capacity_bytes header)) p.grains
      → Ends (capacity_bytes header) (decode_loop inflate sink fuel header bs p)
  unfolding decode_loop decode_step
  decode_loop-Ends zero header bs p l h = absurd (omega arith)
  decode_loop-Ends (suc fuel) header bs p l h = elim (Bool-cases (ltb (length bs) 512)) [
    | inl cut ↦ rw cut (p, some truncated, refl, h, tt)
    | inr whole ↦
        let enough : 512 ≤ length bs = ground (arith, whole) in
        rw whole (
          after_step-Ends (capacity_bytes header) (length (drop 512 bs))
            (marker_read inflate sink header (some (take 512 bs, drop 512 bs)) p)
            (λ rest p'. decode_loop inflate sink fuel header rest p')
            (marker_read-Good inflate sink header (take 512 bs) (drop 512 bs) p h)
            (λ rest p' k g.
              decode_loop-Ends fuel header rest p' (omega (arith, length-drop 512 bs, k, enough))
                g))
  ]

  decode_from-Ends :
      (header : StreamHeader) (o : Option (List ℕ))
      → Ends (capacity_bytes header) (decode_from inflate sink header o)
  decode_from-Ends header none = (nothing_yet, some skip_failed, refl, tt, tt)
  decode_from-Ends header (some bs) =
      decode_loop-Ends (length bs / 512 + 1) header bs nothing_yet (omega arith) tt

  decode_parsed-Ends :
      (parsed : StreamHeader × Option DecodeError) (bs : List ℕ)
      → Ends (capacity_bytes parsed.0) (decode_parsed inflate sink parsed bs)
  decode_parsed-Ends (header, some e) bs = (nothing_yet, some e, refl, tt, tt)
  decode_parsed-Ends (header, none) bs =
      decode_from-Ends header (skip_bytes (sectors ((data_start header + 2 ^ 64 - 1) % 2 ^ 64)) bs)

  -- Reading a stream ends, whatever the stream is and whatever its deflate streams hold: every grain
  -- handed to the sink lies in the disk that the header declares, at a whole number of 512-byte
  -- sectors, and is a whole number of 4096-byte ones; and without an error the footer was seen.
  pub decode_stream_vmdk-Ends :
      (bs : List ℕ)
      → Ends
          (capacity_bytes (parse_stream_header (take 512 bs)).0)
          (decode_stream_vmdk inflate sink bs)
  unfolding decode_stream_vmdk
  decode_stream_vmdk-Ends bs = elim (Bool-cases (ltb (length bs) 512)) [
    | inl cut ↦ rw cut (nothing_yet, some no_header, refl, tt, tt)
    | inr whole ↦ rw whole (decode_parsed-Ends (parse_stream_header (take 512 bs)) (drop 512 bs))
  ]

  same_sectors : (val : ℕ) → sectors (val + 2 ^ 55) ≡ sectors val
  same_sectors val =
      let e : (val + 2 ^ 55) * 512 % 2 ^ 64 ≡ val * 512 % 2 ^ 64 = omega arith in ap signed64 e

  -- A grain whose marker names a sector is placed where one is whose marker names the sector less
  -- 2^55, whether or not the sector lies in the disk.
  pub place_wraps :
      (header : StreamHeader) (val : ℕ) (bs rest : List ℕ) (p : Progress)
      → place inflate sink header (val + 2 ^ 55) bs rest p ≡ place inflate sink header val bs rest p
  unfolding place
  place_wraps header val bs rest p = rw (same_sectors val) refl
