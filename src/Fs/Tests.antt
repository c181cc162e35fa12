-- ===== src/Fs/Tests.antt =====
-- The file system's theorems on a disk of 40 blocks, the first 5 reserved, with a file of 3 bytes in block 5.
use os_lab.Prelude.{
  ℕ, ◌+◌, ◌/◌, ◌%◌, ◌<◌, ◌≤◌, ◌≡◌, refl, ap, sym, subst, true, none, some, ◌==◌, if◌then◌else◌,
  arith,
}
use os_lab.Prelude.Int.{pos}
use os_lab.Fs.Defs.{Disk, has_bit, test_bit, set_block}
use os_lab.Fs.Bitmap.{in_use}
use os_lab.Fs.Alloc.{Layout}
use os_lab.Fs.Inode.{Inode, Devsw, bmap, readi, writei, itrunc, iupdate}
use os_lab.Fs.Slots.{slot, place, FileOk}
use os_lab.Fs.Readi.{Dense}
use os_lab.Fs.Bits.{all_below, all_below-at}
use os_lab.Fs.Slots.{Held}
use os_lab.Fs.Bmap.{Maps, bmap_lem}
use os_lab.Fs.Trunc.{Truncated, itrunc_lem}
use os_lab.Fs.Inode.{copy_in, write_loop, addr, write_end}
use os_lab.Fs.RoundTrip.{readi-writei}

abbrev disk : Disk
disk = record {
  sb = record {
    size = 40;
    nblocks = 35;
    ninodes = 8;
    nlog = 0;
    logstart = 2;
    inodestart = 2;
    bmapstart = 4;
  };
  block = λ b i. if b == 4 then (if i == 0 then 63 else 0) else (if b == 5 then i + 7 else 0);
}

abbrev file : Inode
file = record {
  inum = 3;
  type = 2;
  major = 0;
  minor = 0;
  nlink = 1;
  size = 3;
  addrs = λ k. if k == 0 then 5 else 0;
}

abbrev no_devices : Devsw
no_devices = record { read = λ m. none; write = λ m. none }

below_5 : all_below 5 (in_use disk) ≡ true
unfolding all_below in_use has_bit test_bit
below_5 = refl

disk-Layout : Layout 5 disk
disk-Layout = record {
  reserved = λ y lo hi. all_below-at 5 (in_use disk) y below_5 hi;
  bitmap = λ y small. omega arith;
  inodes = λ n small. omega arith;
  disjoint = λ n y few small. omega arith;
  positive = omega arith;
  word_size = omega arith;
}

file_slot : (k : ℕ) → slot file disk k ≡ (if k == 0 then 5 else 0)
unfolding slot
file_slot k = ground arith

block_5 : in_use disk 5 ≡ true
unfolding in_use has_bit test_bit
block_5 = refl

file-FileOk : FileOk 5 file disk
file-FileOk = record {
  layout = disk-Layout;
  held = λ k lt ne.
      let only : slot file disk k ≡ 5 =
        let v : slot file disk k ≡ (if k == 0 then 5 else 0) = file_slot k in
        ground (arith, v, ne) in
      subst (Held 5 disk) (sym only)
        record { above = omega arith; inside = omega arith; used = block_5 };
  apart = λ k l lt mt ne same.
      let v : slot file disk k ≡ (if k == 0 then 5 else 0) = file_slot k in
      let w : slot file disk l ≡ (if l == 0 then 5 else 0) = file_slot l in
      ground (arith, v, w, ne, same);
}

file-Dense : Dense 5 file disk
unfolding place
file-Dense = record {
  ok = file-FileOk;
  file = λ z. omega (arith, z);
  bound = omega arith;
  present = λ p lo hi z.
      let row : p / 512 ≡ 0 = omega arith in
      let v : slot file disk (place (p / 512)) ≡ (if place (p / 512) == 0 then 5 else 0) =
        file_slot _ in
      let w : place (p / 512) ≡ 0 = ap place row in ground (arith, v, w, z);
}

abbrev two : ℕ → ℕ
two k = k + 1

bmap_lem_example : Maps 5 file disk 21 (bmap 20 file disk)
unfolding place
bmap_lem_example = bmap_lem 5 file disk 20 (omega arith) file-FileOk

itrunc_lem_example :
    (j : Inode) × (e : Disk) × (itrunc file disk ≡ some (j, e)) × Truncated 5 file disk j e
itrunc_lem_example = itrunc_lem 5 file disk file-FileOk (omega arith)

-- The file of 5 bytes, and its disk.
abbrev file_after : Inode
file_after = record file { size = 5 }

abbrev disk_after : Disk
disk_after = iupdate file_after (set_block 5 (copy_in two 0 2 3 (disk.block 5)) disk)

written : writei no_devices file two 2 3 disk ≡ some (pos 3, file_after, disk_after)
unfolding writei write_loop bmap addr write_end
written = refl

readi-writei_example :
    (out : ℕ → ℕ) × (readi no_devices file_after two 2 3 disk_after
      ≡ some (pos 3, out, file_after, disk_after))
    × ((k : ℕ) → k < 3 → out k ≡ two k % 256)
    × ((k : ℕ) → 3 ≤ k → out k ≡ two k)
readi-writei_example =
    readi-writei no_devices 5 file 2 3 disk file-Dense (omega arith, omega arith) (omega arith)
      (omega arith) (omega arith) two two written
