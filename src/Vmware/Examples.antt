-- ===== src/Vmware/Examples.antt =====
-- The theorems on agent/vmware/copy.go at a small disk, and runs of the code.
use hyperv_control_plane.Prelude.{
  Bool, take, ◌++◌, text_eq, ℕ, zero, suc, ◌+◌, ◌-◌, ◌<◌, ◌≡◌, refl, sym, ◌∙◌, ap, arith, ℤ, pos,
  pos_part, add64, sub64, true, false, ◌&&◌, leb, ltb, Option, none, some, List, [], ◌∷◌, length,
  Text, codes, if◌then◌else◌,
}
use hyperv_control_plane.Hyperv.RawDisk.{RawDisk, OsWrite, Writes, byte_at, aligned_range, round_up}
use hyperv_control_plane.Vmware.Copy.{
  Disk, Changes, changed, unavailable, copy_disk, read_path, take_changes,
}
use hyperv_control_plane.Vmware.VmdkHeader.{
  StreamHeader, capacity_bytes, parse_stream_header, data_start,
}
use hyperv_control_plane.Vmware.StreamVmdk.{place, nothing_yet, decode_stream_vmdk}
use hyperv_control_plane.Vmware.StreamVmdk.Grains.{Ends, decode_stream_vmdk-Ends, place_wraps}
use hyperv_control_plane.Vmware.Copy.Device.{Reads}
use hyperv_control_plane.Vmware.Copy.Pass.{PassEffect, copy_disk-PassEffect, full_copy-bytes}

-- A write that succeeds.
abbrev write_all : OsWrite
write_all cells bs offset = (
  (λ p. if leb offset p && ltb p (offset + length bs) then byte_at bs (p - offset) else cells p),
  true,
)

write_all-Writes : Writes write_all
write_all-Writes = record {
  elsewhere = λ cells bs offset p out. ground (arith, out);
  written = λ cells bs offset p ok l u. ground (arith, l, u);
}

-- The bytes of a range of a file that is all sevens.
abbrev sevens : ℕ → List ℕ
sevens zero = []
sevens (suc n) = 7 ∷ sevens n

byte_at-sevens : (n i : ℕ) → i < n → byte_at (sevens n) i ≡ 7
byte_at-sevens zero i h = absurd (omega arith)
byte_at-sevens (suc n) i h = ground (arith, byte_at-sevens n (i - 1))

abbrev read_sevens : Text → ℤ → ℤ → Option (List ℕ)
read_sevens path offset n = some (sevens (pos_part n))

abbrev bytes_of : Option (List ℕ) → List ℕ
bytes_of none = []
bytes_of (some bs) = bs

abbrev disk : Disk
disk = record {
  key = pos 2000;
  label = codes "Hard disk 1";
  path = codes "[ds] vm/vm.vmdk";
  data_path = [];
  size_bytes = pos 8192;
  snapshotted = true;
}

read_sevens-Reads : Reads (λ p. 7) (read_sevens (read_path disk))
read_sevens-Reads = record {
  of_range = λ offset n i bs e l u. ap (λ o. byte_at (bytes_of o) i) (sym e) ∙ byte_at-sevens n i l;
}

abbrev blank : RawDisk
blank = record { size_bytes = pos 12288; cells = λ p. 0 }

abbrev one_extent : Changes
one_extent = changed (record { start = pos 4100; len = pos 10 } ∷ []) (codes "52/1")

copy_disk-PassEffect_example :
    PassEffect
      (λ p. 7)
      12288
      4096
      (record { start = pos 4100; len = pos 10 } ∷ [])
      blank
      (copy_disk write_all read_sevens (λ i. false) one_extent disk (codes "52/0") blank)
unfolding take_changes
copy_disk-PassEffect_example =
    copy_disk-PassEffect write_all write_all-Writes read_sevens disk (λ p. 7) read_sevens-Reads
      (λ i. false) one_extent (codes "52/0") blank 12288 4096 refl ((refl, refl, omega arith), tt)

full_copy-bytes_example :
    PassEffect
      (λ p. 7)
      12288
      4096
      (record { start = pos 0; len = pos 8192 } ∷ [])
      blank
      (copy_disk write_all read_sevens (λ i. false) unavailable disk [] blank)
full_copy-bytes_example =
    full_copy-bytes write_all write_all-Writes read_sevens disk (λ p. 7) read_sevens-Reads
      (λ i. false) blank 8192 12288 4096 refl refl (omega arith) refl

-- A range is widened to the sectors it touches.
aligned_range_run : aligned_range (pos 4100) (pos 10) ≡ (pos 4096, pos 4096)
unfolding aligned_range round_up add64 sub64
aligned_range_run = refl

abbrev zeros : ℕ → List ℕ
zeros zero = []
zeros (suc n) = 0 ∷ zeros n

-- Seven zero bytes after the first of a 64-bit number.
abbrev small64 : ℕ → List ℕ
small64 n = n ∷ zeros 7

-- A stream of a disk of eight sectors, with one grain, a footer and the end of the stream.
abbrev stream : List ℕ
stream =
    codes "KDMV"
    ++ (1 ∷ 0 ∷ 0 ∷ 0 ∷ [])
    ++ (0 ∷ 0 ∷ 3 ∷ 0 ∷ [])
    ++ small64 8
    ++ small64 8
    ++ zeros 36
    ++ small64 1
    ++ zeros 5
    ++ (1 ∷ zeros 434)
    ++ (zeros 8 ++ (5 ∷ zeros 503))
    ++ (zeros 12 ++ (3 ∷ zeros 499))
    ++ zeros 512

abbrev inflate_sevens : List ℕ → Option (List ℕ)
inflate_sevens bs = some (sevens 4096)

abbrev accept : ℤ → List ℕ → Bool
accept offset bs = true

decode_stream_vmdk-Ends_example :
    Ends
      (capacity_bytes (parse_stream_header (take 512 stream)).0)
      (decode_stream_vmdk inflate_sevens accept stream)
decode_stream_vmdk-Ends_example = decode_stream_vmdk-Ends inflate_sevens accept stream

abbrev small_header : StreamHeader
small_header = record {
  version = 1;
  flags = 196608;
  capacity_sectors = 8;
  grain_sectors = 8;
  descriptor_offset = 0;
  descriptor_size = 0;
  over_head = 1;
  compress_algorithm = 1;
}

stream_header : parse_stream_header (take 512 stream) ≡ (small_header, none)
unfolding parse_stream_header text_eq
stream_header = refl

place_wraps_example :
    place inflate_sevens accept small_header 36028797018963968 (sevens 4096) [] nothing_yet
    ≡ place inflate_sevens accept small_header 0 (sevens 4096) [] nothing_yet
place_wraps_example = place_wraps inflate_sevens accept small_header 0 (sevens 4096) [] nothing_yet

-- The data begins after the header, the descriptor or what the header declares, whichever is last.
data_start_run : data_start small_header ≡ 1
unfolding data_start
data_start_run = refl
