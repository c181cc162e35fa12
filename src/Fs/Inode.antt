-- ===== src/Fs/Inode.antt =====
-- The inodes of xv6-core/fs.c: their place on the disk, ilock's load, iupdate, bmap, itrunc, readi and writei.
use os_lab.Prelude.{
  ℕ, zero, suc, ◌+◌, ◌-◌, ◌*◌, ◌/◌, ◌%◌, ◌^◌, Bool, true, false, ◌&&◌, ◌||◌, Option, none, some,
  ◌==◌, ltb, leb, if◌then◌else◌, write, min,
}
use os_lab.Prelude.Int.{ℤ, pos, minus_one}
use os_lab.Fs.Defs.{Block, byte, word, Disk, Superblock, set_block, balloc, bfree}

abbrev pub bsize : ℕ
bsize = 512

abbrev pub ndirect : ℕ
ndirect = 12

abbrev pub nindirect : ℕ
nindirect = 128

abbrev pub maxfile : ℕ
maxfile = 140

abbrev pub t_dev : ℕ
t_dev = 3

abbrev pub ndev : ℕ
ndev = 10

-- An inode in memory: what it shares with the disk, and its number. The shorts are kept as their 16 bits.
pub record Inode : Type 0 where
  pub inum : ℕ
  pub type : ℕ
  pub major : ℕ
  pub minor : ℕ
  pub nlink : ℕ
  pub size : ℕ
  pub addrs : ℕ → ℕ

-- The 16-bit and 32-bit numbers of a block, with the least significant byte first.
abbrev pub half : Block → ℕ → ℕ
half b k = byte b k + 2 ^ 8 * byte b (k + 1)

unfoldable pub put_half : Block → ℕ → ℕ → Block
put_half b k v = write (write b k (v % 256)) (k + 1) (v / 2 ^ 8 % 256)

unfoldable pub put_word : Block → ℕ → ℕ → Block
put_word b k v = put_half (put_half b k (v % 2 ^ 16)) (k + 2) (v / 2 ^ 16 % 2 ^ 16)

-- Eight inodes of 64 bytes stand in a block.
abbrev pub iblock : ℕ → Superblock → ℕ
iblock inum sb = inum / 8 + sb.inodestart

abbrev pub ioffset : ℕ → ℕ
ioffset inum = inum % 8 * 64

-- `memmove(dip->addrs, ip->addrs, sizeof(ip->addrs))`, the first `n` of them
unfoldable pub put_addrs : ℕ → Block → ℕ → (ℕ → ℕ) → Block
put_addrs zero b o addrs = b
put_addrs (suc n) b o addrs = put_word (put_addrs n b o addrs) (o + 12 + 4 * n) (addrs n)

unfoldable pub put_dinode : Block → ℕ → Inode → Block
put_dinode b o i =
    put_addrs 13
      (put_word
        (put_half (put_half (put_half (put_half b o i.type) (o + 2) i.major) (o + 4) i.minor)
          (o + 6) i.nlink)
        (o + 8) i.size)
      o i.addrs

unfoldable pub iupdate : Inode → Disk → Disk
iupdate i d =
    set_block (iblock i.inum d.sb) (put_dinode (d.block (iblock i.inum d.sb)) (ioffset i.inum) i) d

-- The inode that `ilock` reads from the disk.
unfoldable pub load_inode : ℕ → Disk → Inode
load_inode inum d =
    let b = d.block (iblock inum d.sb) in
    let o = ioffset inum in
    record {
      inum = inum;
      type = half b o;
      major = half b (o + 2);
      minor = half b (o + 4);
      nlink = half b (o + 6);
      size = word b (o + 8);
      addrs = λ k. word b (o + 12 + 4 * k);
    }

-- An address in the inode, or a new block for it.
unfoldable pub fill_addr : ℕ → Inode → Option (ℕ × Disk) → Option (ℕ × Inode × Disk)
fill_addr k i none = none
fill_addr k i (some (a, d)) = some (a, record i { addrs = write i.addrs k a }, d)

unfoldable pub addr : ℕ → Inode → Disk → Option (ℕ × Inode × Disk)
addr k i d = if i.addrs k == 0 then fill_addr k i (balloc d) else some (i.addrs k, i, d)

-- An address in the indirect block `ib`, or a new block for it.
unfoldable pub fill_entry : ℕ → ℕ → Inode → Option (ℕ × Disk) → Option (ℕ × Inode × Disk)
fill_entry ib k i none = none
fill_entry ib k i (some (a, d)) = some (a, i, set_block ib (put_word (d.block ib) (4 * k) a) d)

unfoldable pub entry : ℕ → Option (ℕ × Inode × Disk) → Option (ℕ × Inode × Disk)
entry k none = none
entry k (some (ib, i, d)) =
    if word (d.block ib) (4 * k) == 0
    then fill_entry ib k i (balloc d)
    else some (word (d.block ib) (4 * k), i, d)

-- none is a panic, of balloc or "bmap: out of range".
unfoldable pub bmap : ℕ → Inode → Disk → Option (ℕ × Inode × Disk)
bmap bn i d =
    if ltb bn ndirect
    then addr bn i d
    else (if ltb (bn - ndirect) nindirect then entry (bn - ndirect) (addr ndirect i d) else none)

-- `memmove(dst, data + o, m)` and `memmove(data + o, src, m)`, where `dst` and `src` stand at place `tot`
-- of the caller's buffer.
unfoldable pub copy_out : Block → ℕ → ℕ → ℕ → (ℕ → ℕ) → ℕ → ℕ
copy_out b o m tot dst j = if leb tot j && ltb j (tot + m) then byte b (o + (j - tot)) else dst j

unfoldable pub copy_in : (ℕ → ℕ) → ℕ → ℕ → ℕ → Block → Block
copy_in src tot o m b k = if leb o k && ltb k (o + m) then src (tot + (k - o)) else b k

-- `min(n - tot, BSIZE - off%BSIZE)`
abbrev pub chunk : ℕ → ℕ → ℕ → ℕ
chunk n tot off = min (n - tot) (bsize - off % bsize)

-- The loops of `readi` and `writei`; a round moves at least one byte.
unfoldable pub read_loop : ℕ → ℕ → ℕ → ℕ → (ℕ → ℕ) → Inode → Disk → Option ((ℕ → ℕ) × Inode × Disk)
read_loop zero tot off n dst i d = if ltb tot n then none else some (dst, i, d)
read_loop (suc fuel) tot off n dst i d = elim (ltb tot n) [
  | true ↦ elim (bmap (off / bsize) i d) [
    | none ↦ none
    | some (a, j, e) ↦
        read_loop fuel (tot + chunk n tot off) (off + chunk n tot off) n
          (copy_out (e.block a) (off % bsize) (chunk n tot off) tot dst) j e
  ]
  | false ↦ some (dst, i, d)
]

unfoldable pub write_loop : ℕ → ℕ → ℕ → ℕ → (ℕ → ℕ) → Inode → Disk → Option (ℕ × Inode × Disk)
write_loop zero tot off n src i d = if ltb tot n then none else some (off, i, d)
write_loop (suc fuel) tot off n src i d = elim (ltb tot n) [
  | true ↦ elim (bmap (off / bsize) i d) [
    | none ↦ none
    | some (a, j, e) ↦
        write_loop fuel (tot + chunk n tot off) (off + chunk n tot off) n src j
          (set_block a (copy_in src tot (off % bsize) (chunk n tot off) (e.block a)) e)
  ]
  | false ↦ some (off, i, d)
]

-- `ip->major < 0 || ip->major >= NDEV`
abbrev pub bad_major : ℕ → Bool
bad_major m = leb (2 ^ 15) m || leb ndev m

-- `off > ip->size || off + n < off`, on 32-bit words
abbrev pub bad_range : ℕ → ℕ → Inode → Bool
bad_range off n i = ltb i.size off || ltb ((off + n) % 2 ^ 32) off

-- The number of bytes that are read.
abbrev pub clip : ℕ → ℕ → Inode → ℕ
clip off n i = if ltb i.size ((off + n) % 2 ^ 32) then i.size - off else n

unfoldable pub read_end : ℕ → Option ((ℕ → ℕ) × Inode × Disk) → Option (ℤ × (ℕ → ℕ) × Inode × Disk)
read_end n none = none
read_end n (some (dst, i, d)) = some (pos n, dst, i, d)

unfoldable pub write_end : ℕ → Option (ℕ × Inode × Disk) → Option (ℤ × Inode × Disk)
write_end n none = none
write_end n (some (off, i, d)) =
    if ltb 0 n && ltb i.size off
    then some (pos n, record i { size = off }, iupdate (record i { size = off }) d)
    else some (pos n, i, d)

-- `devsw[m].read` and `devsw[m].write`, where there are any.
pub record Devsw : Type 0 where
  pub read : ℕ → Option (Inode → (ℕ → ℕ) → ℕ → ℤ × (ℕ → ℕ))
  pub write : ℕ → Option (Inode → (ℕ → ℕ) → ℕ → ℤ)

module _ (devsw : Devsw) where
  unfoldable pub read_dev : Inode → (ℕ → ℕ) → ℕ → Disk → Option (ℤ × (ℕ → ℕ) × Inode × Disk)
  read_dev i dst n d =
      if bad_major i.major then some (minus_one, dst, i, d) else elim (devsw.read i.major) [
        | none ↦ some (minus_one, dst, i, d)
        | some f ↦ let (r, out) = f i dst n in some (r, out, i, d)
      ]

  unfoldable pub readi : Inode → (ℕ → ℕ) → ℕ → ℕ → Disk → Option (ℤ × (ℕ → ℕ) × Inode × Disk)
  readi i dst off n d =
      if i.type == t_dev
      then read_dev i dst n d
      else (if bad_range off n i
          then some (minus_one, dst, i, d)
          else read_end (clip off n i) (read_loop (clip off n i) 0 off (clip off n i) dst i d))

  unfoldable pub write_dev : Inode → (ℕ → ℕ) → ℕ → Disk → Option (ℤ × Inode × Disk)
  write_dev i src n d =
      if bad_major i.major then some (minus_one, i, d) else elim (devsw.write i.major) [
        | none ↦ some (minus_one, i, d)
        | some f ↦ some (f i src n, i, d)
      ]

  unfoldable pub writei : Inode → (ℕ → ℕ) → ℕ → ℕ → Disk → Option (ℤ × Inode × Disk)
  writei i src off n d =
      if i.type == t_dev
      then write_dev i src n d
      else (if bad_range off n i || ltb (maxfile * bsize) ((off + n) % 2 ^ 32)
          then some (minus_one, i, d)
          else write_end n (write_loop n 0 off n src i d))

-- The first loop of `itrunc`: `n` addresses from `k` on are freed.
unfoldable pub free_direct : ℕ → ℕ → Inode → Disk → Option (Inode × Disk)
free_direct zero k i d = some (i, d)
free_direct (suc n) k i d = elim (i.addrs k == 0) [
  | true ↦ free_direct n (k + 1) i d
  | false ↦ elim (bfree (i.addrs k) d) [
    | none ↦ none
    | some e ↦ free_direct n (k + 1) (record i { addrs = write i.addrs k 0 }) e
  ]
]

-- The second: `n` entries of the block `a` from `j` on.
unfoldable pub free_entries : ℕ → ℕ → Block → Disk → Option Disk
free_entries zero j a d = some d
free_entries (suc n) j a d = elim (word a (4 * j) == 0) [
  | true ↦ free_entries n (j + 1) a d
  | false ↦ elim (bfree (word a (4 * j)) d) [ none ↦ none | some e ↦ free_entries n (j + 1) a e ]
]

unfoldable pub free_indirect : Option (Inode × Disk) → Option (Inode × Disk)
free_indirect none = none
free_indirect (some (i, d)) =
    if i.addrs ndirect == 0
    then some (i, d)
    else elim (free_entries nindirect 0 (d.block (i.addrs ndirect)) d) [
      | none ↦ none
      | some e ↦ elim (bfree (i.addrs ndirect) e) [
        | none ↦ none
        | some f ↦ some (record i { addrs = write i.addrs ndirect 0 }, f)
      ]
    ]

-- none is the panic of `bfree`.
unfoldable pub itrunc : Inode → Disk → Option (Inode × Disk)
itrunc i d = elim (free_indirect (free_direct ndirect 0 i d)) [
  | none ↦ none
  | some (j, e) ↦ some (record j { size = 0 }, iupdate (record j { size = 0 }) e)
]
