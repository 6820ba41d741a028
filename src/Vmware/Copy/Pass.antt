-- ===== src/Vmware/Copy/Pass.antt =====
-- What CopyDisk of agent/vmware/copy.go leaves on the destination.
use mathlib.Core.Path.{subst}
use hyperv_control_plane.Prelude.{
  ℕ, ◌%◌, ◌^◌, ◌<◌, ◌≡◌, refl, ap, inl, inr, arith, ℤ, pos, ltb_ℤ, eqb_ℤ, rem64, Bool, Option, none,
  some, List, [], length, ltb, Bool-cases, Text, All,
}
use hyperv_control_plane.Hyperv.RawDisk.{RawDisk, OsWrite, Writes, sector_size}
use hyperv_control_plane.Vmware.Copy.{
  CopyError, copy_disk, unavailable, Extent, Disk, Changes, take_changes, PassResult, read_path,
  partial_sector, disk_grown, nothing_done, copy_changes, pass_result,
}
use hyperv_control_plane.Vmware.Copy.Device.{Reads, Effect}
use hyperv_control_plane.Vmware.Copy.Extents.{covered, IsBelow, copy_extents-Ends}

full-IsBelow :
    (z : ℤ) (n : ℕ) → z ≡ pos n → n < 2 ^ 61 → All IsBelow (take_changes unavailable [] z).0.0
unfolding take_changes
full-IsBelow z n e b = rw e ((ground arith, ground arith, omega (arith, b)), tt)

full_covers :
    (z : ℤ) (n p : ℕ)
    → z ≡ pos n
    → n % 4096 ≡ 0
    → covered p (take_changes unavailable [] z).0.0 ≡ ltb p n
unfolding take_changes
full_covers z n p e a = rw e (ground (arith, a))

-- What a pass leaves, for the byte at `p`: it ends, the destination keeps its size, and the byte is
-- as `Effect` says for the extents that the pass takes.
abbrev pub PassEffect :
    (ℕ → ℕ)
    → ℕ
    → ℕ
    → List Extent
    → RawDisk
    → Option (PassResult × RawDisk × Option CopyError)
    → Type 0
PassEffect content size p es dst o =
    (r : PassResult) × (d : RawDisk) × (error : Option CopyError) × (o ≡ some (r, d, error))
    × (d.size_bytes ≡ dst.size_bytes)
    × Effect content size p (covered p es) (dst.cells p) (d.cells p) error

module _ (os_write : OsWrite) (writes : Writes os_write) (read_at : Text → ℤ → ℤ → Option (List ℕ))
    (disk : Disk) (content : ℕ → ℕ) (reads : Reads content (read_at (read_path disk)))
    (ended : ℕ → Bool) where
  refused :
      (size p : ℕ) (es : List Extent) (dst : RawDisk) (e : CopyError)
      → PassEffect content size p es dst (some (nothing_done, dst, some e))
  refused size p es dst e = (nothing_done, dst, some e, refl, refl, inr refl)

  copy_changes-PassEffect :
      (taken : (List Extent × Text × Bool) × Option CopyError) (dst : RawDisk) (size p : ℕ)
      → dst.size_bytes ≡ pos size
      → All IsBelow taken.0.0
      → PassEffect content size p taken.0.0 dst (copy_changes os_write read_at ended disk taken dst)
  unfolding copy_changes
  copy_changes-PassEffect ((es, next, full), some e) dst size p s h = refused size p es dst e
  copy_changes-PassEffect ((es, next, full), none) dst size p s h =
      let ((d, copied, error), q, (same, f)) =
        copy_extents-Ends os_write writes read_at (read_path disk) content reads size p ended 0 es
          dst (pos 0) h s in
      (
        record {
          bytes_copied = copied;
          next_change_id = next;
          extents = length es;
          full_read = full;
        },
        d,
        error,
        ap (pass_result next full (length es)) q,
        same,
        f,
      )

  -- A pass over a disk ends, whatever vCenter, the range requests and the writes answer, given what a
  -- range request and a write document and extents below 2^61. The destination keeps its size.
  -- Without an error, a byte in a sector that an extent touches is the source's and lies in the
  -- destination, and every other byte is as before; with an error, only bytes in those sectors and in
  -- the destination may have changed.
  pub copy_disk-PassEffect :
      (changes : Changes) (change_id : Text) (dst : RawDisk) (size p : ℕ)
      → dst.size_bytes ≡ pos size
      → All IsBelow (take_changes changes change_id disk.size_bytes).0.0
      → PassEffect content size p
          (take_changes changes change_id disk.size_bytes).0.0
          dst
          (copy_disk os_write read_at ended changes disk change_id dst)
  unfolding copy_disk
  copy_disk-PassEffect changes change_id dst size p s h =
      let es = (take_changes changes change_id disk.size_bytes).0.0 in
      elim (Bool-cases (eqb_ℤ (rem64 disk.size_bytes sector_size) (pos 0))) [
        | inr y ↦ rw y (refused size p es dst partial_sector)
        | inl n ↦ elim (Bool-cases (ltb_ℤ dst.size_bytes disk.size_bytes)) [
          | inl y ↦ rw (n, y) (refused size p es dst disk_grown)
          | inr m ↦
              rw (n, m)
                (copy_changes-PassEffect (take_changes changes change_id disk.size_bytes) dst size p
                  s h)
        ]
      ]

  -- A base copy of a disk of whole sectors below 2^61 bytes, where the source has no change tracking,
  -- ends, and the destination keeps its size, given what a range request and a write document. Without
  -- an error the bytes of the disk are the source's and lie in the destination, and those after them
  -- are as before; with an error, only bytes of the disk in the destination may have changed.
  pub full_copy-bytes :
      (dst : RawDisk) (n size p : ℕ)
      → disk.size_bytes ≡ pos n
      → n % 4096 ≡ 0
      → n < 2 ^ 61
      → dst.size_bytes ≡ pos size
      → (r : PassResult) × (d : RawDisk) × (error : Option CopyError) × (copy_disk os_write read_at
            ended unavailable disk [] dst
          ≡ some (r, d, error))
        × (d.size_bytes ≡ dst.size_bytes)
        × Effect content size p (ltb p n) (dst.cells p) (d.cells p) error
  full_copy-bytes dst n size p e a b s =
      let (r, d, error, q, same, f) =
        copy_disk-PassEffect unavailable [] dst size p s (full-IsBelow disk.size_bytes n e b) in
      (
        r,
        d,
        error,
        q,
        same,
        subst (λ c. Effect content size p c (dst.cells p) (d.cells p) error)
            (full_covers disk.size_bytes n p e a) f,
      )
