-- ===== src/Vmware/StreamVmdk.antt =====
-- agent/vmware/streamvmdk.go: a stream-optimised VMDK, read to its grains. A stream is its bytes; what
-- the deflate stream of a grain holds, and whether the sink takes a grain, are parameters. A skip by a
-- negative number of bytes skips nothing.
pub mod Place
pub mod Marker
pub mod Grains
use hyperv_control_plane.Prelude.{
  ℕ, zero, suc, ◌+◌, ◌-◌, ◌*◌, ◌/◌, ◌%◌, ◌^◌, ℤ, pos, pos_part, ltb_ℤ, eqb_ℤ, signed64, add64,
  sub64, rem64, Bool, true, false, not, ◌||◌, Option, none, some, List, [], ◌∷◌, ◌++◌, length, take,
  drop, ltb, ◌==◌, Text, codes, text_eq, if◌then◌else◌,
}
use hyperv_control_plane.Hyperv.RawDisk.{sector_size}
use hyperv_control_plane.Vmware.VmdkHeader.{
  vmdk_sector, marker_eos, marker_footer, field, StreamHeader, DecodeError, no_header, skip_failed,
  truncated, no_footer, metadata_cut, grain_cut, not_deflate, grain_too_long, grain_outside,
  partial_sector, refused, sectors, data_start, capacity_bytes, parse_stream_header,
}

pub record Grain : Type 0 where
  pub offset : ℤ  -- int64
  pub bytes : List ℕ

-- What has been done: the grains handed over, the last one first, the bytes written and whether a
-- footer was seen.
pub record Progress : Type 0 where
  pub grains : List Grain
  pub written : ℤ  -- int64
  pub saw_footer : Bool

abbrev pub nothing_yet : Progress
nothing_yet = record { grains = []; written = pos 0; saw_footer = false }

pub data Step : Type 0 where
  stop : Option DecodeError → Progress → Step
  go_on : List ℕ → Progress → Step

unfoldable pub align : ℕ → ℕ → ℕ
align n to = if n % to == 0 then n else n + to - n % to

-- io.ReadFull: the bytes read and those that follow.
abbrev pub read_full : ℕ → List ℕ → Option (List ℕ × List ℕ)
read_full n bs = if ltb (length bs) n then none else some (take n bs, drop n bs)

abbrev pub skip_bytes : ℤ → List ℕ → Option (List ℕ)
skip_bytes n bs =
    if ltb_ℤ (pos 0) n
    then if ltb (length bs) (pos_part n) then none else some (drop (pos_part n) bs)
    else some bs

abbrev pub after_skip : Option (List ℕ) → Progress → Step
after_skip none p = stop (some metadata_cut) p
after_skip (some rest) p = go_on rest p

-- The payload of a marker without data is skipped.
unfoldable pub skip_payload : ℕ → List ℕ → Progress → Step
skip_payload val rest p =
    if ltb 0 val then after_skip (skip_bytes (sectors val) rest) p else go_on rest p

abbrev pub note_footer : ℕ → Progress → Progress
note_footer kind p = if kind == marker_footer then record p { saw_footer = true } else p

-- A marker without data.
unfoldable pub metadata : ℕ → ℕ → List ℕ → Progress → Step
unfolding skip_payload
metadata kind val rest p =
    if kind == marker_eos
    then stop (if p.saw_footer then none else some no_footer) p
    else skip_payload val rest (note_footer kind p)

-- The loop after a step: it returns, or goes on.
abbrev pub after_step :
    Step
    → (List ℕ → Progress → Option (Progress × Option DecodeError))
    → Option (Progress × Option DecodeError)
after_step (stop e p) more = some (p, e)
after_step (go_on rest p) more = more rest p

-- The bytes of a grain before the end of the disk.
abbrev pub cut_to : ℤ → List ℕ → List ℕ
cut_to rem bs = if ltb_ℤ rem (pos (length bs)) then take (pos_part rem) bs else bs

module _ (inflate : List ℕ → Option (List ℕ)) (sink : ℤ → List ℕ → Bool) where
  -- A grain that lies in the disk, from the check of its length to the sink.
  unfoldable pub hand_over : ℤ → List ℕ → List ℕ → Progress → Step
  hand_over offset cut rest p =
      let handed = record p { grains = record { offset = offset; bytes = cut } ∷ p.grains } in
      if not (length cut % sector_size == 0)
      then stop (some partial_sector) p
      else if sink offset cut
      then go_on rest (record handed { written = add64 p.written (pos (length cut)) })
      else stop (some refused) handed

  -- A grain's data at an offset, from its check against the grain size on.
  unfoldable pub place_at : ℤ → ℤ → ℤ → List ℕ → List ℕ → Progress → Step
  unfolding hand_over
  place_at grain_bytes capacity offset data_ rest p =
      if ltb_ℤ grain_bytes (pos (length data_))
      then stop (some grain_too_long) p
      else if ltb_ℤ offset (pos 0) || not (ltb_ℤ offset capacity)
      then stop (some grain_outside) p
      else hand_over offset (cut_to (sub64 capacity offset) data_) rest p

  unfoldable pub place : StreamHeader → ℕ → List ℕ → List ℕ → Progress → Step
  place h val data_ rest p =
      place_at (sectors h.grain_sectors) (capacity_bytes h) (sectors val) data_ rest p

  abbrev pub inflated : StreamHeader → ℕ → Option (List ℕ) → List ℕ → Progress → Step
  unfolding place
  inflated h val none rest p = stop (some not_deflate) p
  inflated h val (some data_) rest p = place h val data_ rest p

  abbrev pub grain_read : StreamHeader → ℕ → ℕ → List ℕ → Option (List ℕ × List ℕ) → Progress → Step
  unfolding inflated
  grain_read h val size marker none p = stop (some grain_cut) p
  grain_read h val size marker (some (more, rest)) p =
      inflated h val (inflate (take size (drop 12 (marker ++ more)))) rest p

  abbrev pub marker_read : StreamHeader → Option (List ℕ × List ℕ) → Progress → Step
  unfolding grain_read metadata align
  marker_read h none p = stop (some truncated) p
  marker_read h (some (marker, rest)) p =
      let size = field 8 4 marker in
      let val = field 0 8 marker in
      if size == 0
      then metadata (field 12 4 marker) val rest p
      else grain_read h val size marker
          (read_full (align (size + 12) vmdk_sector - vmdk_sector) rest) p

  -- One pass of the loop over the markers.
  unfoldable pub decode_step : StreamHeader → List ℕ → Progress → Step
  unfolding marker_read
  decode_step h bs p = marker_read h (read_full vmdk_sector bs) p

  -- The loop, on fuel; `none` is a loop that has not ended.
  unfoldable pub decode_loop :
      ℕ → StreamHeader → List ℕ → Progress → Option (Progress × Option DecodeError)
  decode_loop zero h bs p = none
  decode_loop (suc fuel) h bs p =
      after_step (decode_step h bs p) (λ rest p'. decode_loop fuel h rest p')

  -- What follows the header, from the skip to the first marker.
  abbrev pub decode_from : StreamHeader → Option (List ℕ) → Option (Progress × Option DecodeError)
  decode_from h none = some (nothing_yet, some skip_failed)
  decode_from h (some bs) = decode_loop (length bs / vmdk_sector + 1) h bs nothing_yet

  abbrev pub decode_parsed :
      StreamHeader × Option DecodeError → List ℕ → Option (Progress × Option DecodeError)
  decode_parsed (h, some e) bs = some (nothing_yet, some e)
  decode_parsed (h, none) bs =
      decode_from h (skip_bytes (sectors ((data_start h + 2 ^ 64 - 1) % 2 ^ 64)) bs)

  abbrev pub decode_read : Option (List ℕ × List ℕ) → Option (Progress × Option DecodeError)
  decode_read none = some (nothing_yet, some no_header)
  decode_read (some (head, bs)) = decode_parsed (parse_stream_header head) bs

  unfoldable pub decode_stream_vmdk : List ℕ → Option (Progress × Option DecodeError)
  decode_stream_vmdk bs = decode_read (read_full vmdk_sector bs)
