-- ===== src/Vmware/Copy.antt =====
-- agent/vmware/copy.go: one pass over one disk, written to a hyperv.RawDisk. What vCenter answers and
-- what a range request reads are parameters, as are the operating system's write and whether the
-- context has ended before an extent. Progress is not reported.
pub mod Device
pub mod Chunks
pub mod Extents
pub mod Pass
use hyperv_control_plane.Prelude.{
  ℕ, zero, suc, ◌+◌, ◌/◌, ◌%◌, ℤ, pos, pos_part, ltb_ℤ, eqb_ℤ, add64, sub64, rem64, Bool, true,
  false, not, ◌||◌, Option, none, some, List, [], ◌∷◌, length, take, ltb, Text, if◌then◌else◌,
}
use hyperv_control_plane.Hyperv.RawDisk.{
  RawDisk, WriteError, OsWrite, write_at, aligned_range, sector_size,
}

-- 32 << 20
abbrev pub read_chunk : ℕ
read_chunk = 33554432

pub record Extent : Type 0 where
  pub start : ℤ  -- int64
  pub len : ℤ  -- int64

pub record Disk : Type 0 where
  pub key : ℤ
  pub label : Text
  pub path : Text
  pub data_path : Text
  pub size_bytes : ℤ
  pub snapshotted : Bool

pub record PassResult : Type 0 where
  pub bytes_copied : ℤ
  pub next_change_id : Text
  pub extents : ℕ
  pub full_read : Bool

pub data CopyError : Type 0 where
  partial_sector : CopyError
  disk_grown : CopyError
  changes_failed : CopyError
  cbt_unavailable : CopyError
  context_ended : CopyError
  read_failed : CopyError
  short_read : ℕ → ℕ → CopyError
  write_failed : WriteError → CopyError

-- ChangedAreas: the extents and the next marker, or an error, which may be ErrCBTUnavailable.
pub data Changes : Type 0 where
  changed : List Extent → Text → Changes
  unavailable : Changes
  change_error : Changes

abbrev is_blank : Text → Bool
is_blank [] = true
is_blank (c ∷ s) = false

unfoldable pub read_path : Disk → Text
read_path d = if is_blank d.data_path then d.path else d.data_path

-- A disk on its way, the bytes copied so far, and the error that stopped it.
abbrev pub Copied : Type 0
Copied = RawDisk × ℤ × Option CopyError

-- Go on unless an error stopped the step; `none` is a loop that has not ended.
abbrev pub and_then : Option Copied → (RawDisk → ℤ → Option Copied) → Option Copied
and_then none k = none
and_then (some (d, copied, some e)) k = some (d, copied, some e)
and_then (some (d, copied, none)) k = k d copied

abbrev pub as_copy_error : Option WriteError → Option CopyError
as_copy_error none = none
as_copy_error (some e) = some (write_failed e)

-- ChangedAreas' answer as CopyDisk takes it: the extents, the marker, and whether all is read.
unfoldable pub take_changes : Changes → Text → ℤ → (List Extent × Text × Bool) × Option CopyError
take_changes (changed es next) change_id size = ((es, next, false), none)
take_changes unavailable change_id size =
    if not (is_blank change_id)
    then (([], [], false), some cbt_unavailable)
    else ((record { start = pos 0; len = size } ∷ [], [], true), none)
take_changes change_error change_id size = (([], [], false), some changes_failed)

-- `copyRange`, with what its request reads: the bytes that arrive before the reader ends, of which
-- ReadFull takes as many as were asked for.
unfoldable pub copy_read : OsWrite → Option (List ℕ) → RawDisk → ℤ → ℤ → RawDisk × Option CopyError
copy_read os_write none d offset len = (d, some read_failed)
copy_read os_write (some bs) d offset len =
    if ltb (length bs) (pos_part len)
    then (d, some (short_read (pos_part len) (length bs)))
    else let (d', e) = write_at os_write d (take (pos_part len) bs) offset in (d', as_copy_error e)

unfoldable pub chunk_size : ℤ → ℤ → ℤ
chunk_size off end_ =
    let left = sub64 end_ off in if ltb_ℤ left (pos read_chunk) then left else pos read_chunk

-- The loop after a chunk: it returns the chunk's error, or goes on.
abbrev pub after_chunk : Option CopyError → RawDisk → ℤ → Option Copied → Option Copied
after_chunk none d copied more = more
after_chunk (some e) d copied more = some (d, copied, some e)

module _ (os_write : OsWrite) (read_at : Text → ℤ → ℤ → Option (List ℕ)) where
  unfoldable pub copy_range : Text → RawDisk → ℤ → ℤ → RawDisk × Option CopyError
  unfolding copy_read
  copy_range path d offset len = copy_read os_write (read_at path offset len) d offset len

  -- The loop over the chunks of an extent, on fuel.
  unfoldable pub copy_chunks : ℕ → Text → ℤ → ℤ → RawDisk → ℤ → Option Copied
  unfolding chunk_size
  copy_chunks zero path off end_ d copied = none
  copy_chunks (suc fuel) path off end_ d copied =
      let n = chunk_size off end_ in
      let (d', error) = copy_range path d off n in
      let more = copy_chunks fuel path (add64 off (pos read_chunk)) end_ d' (add64 copied n) in
      if not (ltb_ℤ off end_) then some (d, copied, none) else after_chunk error d' copied more

abbrev pub nothing_done : PassResult
nothing_done = record { bytes_copied = pos 0; next_change_id = []; extents = 0; full_read = false }

abbrev pub pass_result :
    Text → Bool → ℕ → Option Copied → Option (PassResult × RawDisk × Option CopyError)
pass_result next full n none = none
pass_result next full n (some (d, copied, error)) = some (
  record { bytes_copied = copied; next_change_id = next; extents = n; full_read = full },
  d,
  error,
)

module _ (os_write : OsWrite) (read_at : Text → ℤ → ℤ → Option (List ℕ)) (ended : ℕ → Bool) where
  -- The loop over the extents; `i` of them are done.
  unfoldable pub copy_extents : ℕ → Text → List Extent → RawDisk → ℤ → Option Copied
  copy_extents i path [] d copied = some (d, copied, none)
  copy_extents i path (e ∷ es) d copied =
      let (start, len) = aligned_range e.start e.len in
      let rest : RawDisk → ℤ → Option Copied =
        λ d' copied'. copy_extents (suc i) path es d' copied' in
      if ended i
      then some (d, copied, some context_ended)
      else and_then
          (copy_chunks os_write read_at (pos_part len / read_chunk + 2) path start (add64 start len)
            d copied)
          rest

  -- The rest of CopyDisk, from the extents on.
  unfoldable pub copy_changes :
      Disk
      → (List Extent × Text × Bool) × Option CopyError
      → RawDisk
      → Option (PassResult × RawDisk × Option CopyError)
  copy_changes disk (taken, some e) dst = some (nothing_done, dst, some e)
  copy_changes disk ((es, next, full), none) dst =
      pass_result next full (length es) (copy_extents 0 (read_path disk) es dst (pos 0))

  unfoldable pub copy_disk :
      Changes → Disk → Text → RawDisk → Option (PassResult × RawDisk × Option CopyError)
  unfolding copy_changes
  copy_disk changes disk change_id dst =
      if not (eqb_ℤ (rem64 disk.size_bytes sector_size) (pos 0))
      then some (nothing_done, dst, some partial_sector)
      else if ltb_ℤ dst.size_bytes disk.size_bytes
      then some (nothing_done, dst, some disk_grown)
      else copy_changes disk (take_changes changes change_id disk.size_bytes) dst
