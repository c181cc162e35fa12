-- ===== src/Fs/Defs.antt =====
-- The block layer of xv6-core/fs.c: the superblock, and balloc, bzero and bfree on the bitmap.
use os_lab.Prelude.{
  ℕ, zero, suc, ◌+◌, ◌-◌, ◌*◌, ◌/◌, ◌%◌, ◌^◌, Bool, Option, none, some, ◌==◌, ltb, if◌then◌else◌,
  write,
}

abbrev pub bpb : ℕ
bpb = 4096

-- The 512 bytes of a block, and the bytes that a `uchar` and a `uint` read there.
abbrev pub Block : Type 0
Block = ℕ → ℕ

abbrev pub byte : Block → ℕ → ℕ
byte b i = b i % 256

abbrev pub word : Block → ℕ → ℕ
word b i = byte b i + 2 ^ 8 * byte b (i + 1) + 2 ^ 16 * byte b (i + 2) + 2 ^ 24 * byte b (i + 3)

pub record Superblock : Type 0 where
  pub size : ℕ
  pub nblocks : ℕ
  pub ninodes : ℕ
  pub nlog : ℕ
  pub logstart : ℕ
  pub inodestart : ℕ
  pub bmapstart : ℕ

-- The superblock in memory, and the blocks as `bread` gives them; a block that is changed and handed to
-- log_write is read back as it was changed.
pub record Disk : Type 0 where
  pub sb : Superblock
  pub block : ℕ → Block

unfoldable pub readsb : (ℕ → Block) → Superblock
readsb block = record {
  size = word (block 1) 0;
  nblocks = word (block 1) 4;
  ninodes = word (block 1) 8;
  nlog = word (block 1) 12;
  logstart = word (block 1) 16;
  inodestart = word (block 1) 20;
  bmapstart = word (block 1) 24;
}

abbrev pub set_block : ℕ → Block → Disk → Disk
set_block b x d = record d { block = write d.block b x }

abbrev pub zeroed : Block
zeroed i = 0

unfoldable pub bzero : ℕ → Disk → Disk
bzero b d = set_block b zeroed d

-- The block of the bitmap with the bit of block `b`.
abbrev pub bblock : ℕ → Disk → ℕ
bblock b d = b / bpb + d.sb.bmapstart

-- `x & 1 << k`, `x | 1 << k` and `x & ~(1 << k)`
unfoldable pub test_bit : ℕ → ℕ → Bool
test_bit x k = x / 2 ^ k % 2 == 1

unfoldable pub or_bit : ℕ → ℕ → ℕ
or_bit x k = if test_bit x k then x else x + 2 ^ k

unfoldable pub clear_bit : ℕ → ℕ → ℕ
clear_bit x k = if test_bit x k then x - 2 ^ k else x

unfoldable pub has_bit : Block → ℕ → Bool
has_bit x bi = test_bit (byte x (bi / 8)) (bi % 8)

unfoldable pub mark_bit : Block → ℕ → Block
mark_bit x bi = write x (bi / 8) (or_bit (byte x (bi / 8)) (bi % 8))

unfoldable pub unmark_bit : Block → ℕ → Block
unmark_bit x bi = write x (bi / 8) (clear_bit (byte x (bi / 8)) (bi % 8))

-- The inner loop of `balloc`, with `n` rounds to go from `bi` on.
unfoldable pub scan_bits : ℕ → ℕ → ℕ → ℕ → Block → Option ℕ
scan_bits zero bi b size x = none
scan_bits (suc n) bi b size x =
    let rest = scan_bits n (bi + 1) b size x in
    if ltb (b + bi) size then (if has_bit x bi then rest else some bi) else none

-- The outer loop, with `n` rounds to go from block `b` on: the block `b` and the bit where the search ends.
unfoldable pub scan_blocks : ℕ → ℕ → Disk → Option (ℕ × ℕ)
scan_blocks zero b d = none
scan_blocks (suc n) b d =
    let rest = scan_blocks n (b + bpb) d in
    if ltb b d.sb.size
    then elim (scan_bits bpb 0 b d.sb.size (d.block (bblock b d))) [
      | none ↦ rest
      | some bi ↦ some (b, bi)
    ]
    else none

unfoldable pub take_block : Disk → Option (ℕ × ℕ) → Option (ℕ × Disk)
take_block d none = none
take_block d (some (b, bi)) =
    some (b + bi, bzero (b + bi) (set_block (bblock b d) (mark_bit (d.block (bblock b d)) bi) d))

-- none is the panic "out of blocks". There are at most `size / 4096 + 1` rounds.
unfoldable pub balloc : Disk → Option (ℕ × Disk)
balloc d = take_block d (scan_blocks (d.sb.size / bpb + 1) 0 d)

-- none is the panic "freeing free block".
unfoldable pub bfree : ℕ → Disk → Option Disk
bfree b d =
    if has_bit (d.block (bblock b d)) (b % bpb)
    then some (set_block (bblock b d) (unmark_bit (d.block (bblock b d)) (b % bpb)) d)
    else none
