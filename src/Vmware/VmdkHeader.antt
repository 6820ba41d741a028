-- ===== src/Vmware/VmdkHeader.antt =====
-- The header of a stream-optimised VMDK and what can be wrong with a stream, as
-- agent/vmware/streamvmdk.go has them.
use hyperv_control_plane.Prelude.{
  ℕ, ◌+◌, ◌*◌, ◌/◌, ◌%◌, ◌^◌, ℤ, pos, eqb_ℤ, signed64, rem64, not, ◌||◌, Option, none, some, List,
  [], ◌∷◌, length, take, drop, ltb, ◌==◌, codes, text_eq, if◌then◌else◌,
}
use hyperv_control_plane.Hyperv.RawDisk.{sector_size}

abbrev pub vmdk_sector : ℕ
vmdk_sector = 512

abbrev pub marker_eos : ℕ
marker_eos = 0

abbrev pub marker_footer : ℕ
marker_footer = 3

-- A number in little-endian order.
abbrev pub little_endian : List ℕ → ℕ
little_endian [] = 0
little_endian (b ∷ bs) = b + 256 * little_endian bs

-- The number in the bytes from `i` on.
abbrev pub field : ℕ → ℕ → List ℕ → ℕ
field i n b = little_endian (take n (drop i b))

pub record StreamHeader : Type 0 where
  pub version : ℕ
  pub flags : ℕ
  pub capacity_sectors : ℕ
  pub grain_sectors : ℕ
  pub descriptor_offset : ℕ
  pub descriptor_size : ℕ
  pub over_head : ℕ
  pub compress_algorithm : ℕ

pub data DecodeError : Type 0 where
  no_header : DecodeError
  too_short : DecodeError
  not_vmdk : DecodeError
  not_stream : DecodeError
  unknown_compression : DecodeError
  no_grain_size : DecodeError
  partial_grain : DecodeError
  partial_capacity : DecodeError
  skip_failed : DecodeError
  truncated : DecodeError
  no_footer : DecodeError
  metadata_cut : DecodeError
  grain_cut : DecodeError
  not_deflate : DecodeError
  grain_too_long : DecodeError
  grain_outside : DecodeError
  partial_sector : DecodeError
  refused : DecodeError

-- uint64(int64(n) * vmdkSector), as the int64 it is.
abbrev pub sectors : ℕ → ℤ
sectors n = signed64 (n * vmdk_sector % 2 ^ 64)

unfoldable pub data_start : StreamHeader → ℕ
data_start h =
    let after_descriptor : ℕ =
      if ltb 0 h.descriptor_size
      then if ltb 0 h.descriptor_offset
        then (h.descriptor_offset + h.descriptor_size) % 2 ^ 64
        else 1
      else 1 in
    if ltb after_descriptor h.over_head then h.over_head else after_descriptor

abbrev pub capacity_bytes : StreamHeader → ℤ
capacity_bytes h = sectors h.capacity_sectors

abbrev read_header : List ℕ → StreamHeader
read_header b = record {
  version = field 4 4 b;
  flags = field 8 4 b;
  capacity_sectors = field 12 8 b;
  grain_sectors = field 20 8 b;
  descriptor_offset = field 28 8 b;
  descriptor_size = field 36 8 b;
  over_head = field 64 8 b;
  compress_algorithm = field 77 2 b;
}

-- The error, if any, with the header.
unfoldable pub parse_stream_header : List ℕ → StreamHeader × Option DecodeError
unfolding text_eq
parse_stream_header b =
    let h = read_header b in
    if ltb (length b) vmdk_sector
    then (h, some too_short)
    else if not (text_eq (take 4 b) (codes "KDMV"))
    then (h, some not_vmdk)
    else if h.flags / 2 ^ 17 % 2 == 0 || (h.flags / 2 ^ 16 % 2 == 0)
    then (h, some not_stream)
    else if not (h.compress_algorithm == 1)
    then (h, some unknown_compression)
    else if h.grain_sectors == 0
    then (h, some no_grain_size)
    else if not (eqb_ℤ (rem64 (sectors h.grain_sectors) sector_size) (pos 0))
    then (h, some partial_grain)
    else if not (eqb_ℤ (rem64 (capacity_bytes h) sector_size) (pos 0))
    then (h, some partial_capacity)
    else (h, none)
