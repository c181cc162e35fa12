-- ===== src/Dir/Defs.antt =====
-- Directories of xv6-core/fs.c: namecmp, dirlookup and dirlink.
use os_lab.Prelude.{
  ℕ, zero, suc, ◌+◌, ◌-◌, ◌/◌, ◌%◌, ◌^◌, Bool, true, false, not, ◌&&◌, Option, none, some, ◌==◌,
  ltb, leb, if◌then◌else◌, write,
}
use os_lab.Prelude.Int.{ℤ, pos, negsuc, minus_one}
use os_lab.Fs.Defs.{Disk}
use os_lab.Fs.Inode.{Inode, Devsw, half, put_half, readi, writei}
use os_lab.Icache.Defs.{Icache, Outcome, panics, sleeps, done, iget, iput}

abbrev pub t_dir : ℕ
t_dir = 1

abbrev pub dirsiz : ℕ
dirsiz = 14

-- The size of a `struct dirent`: the number of the inode in 2 bytes, and its name.
abbrev pub dirent_size : ℕ
dirent_size = 16

-- A name is the bytes at the pointer to it.
abbrev pub Name : Type 0
Name = ℕ → ℕ

-- `strncmp(s, t, n) == 0` from place `k` on.
unfoldable pub same_name : ℕ → ℕ → Name → Name → Bool
same_name zero k s t = true
same_name (suc n) k s t =
    let rest = same_name n (k + 1) s t in
    if not (s k == 0) && (s k == t k) then rest else s k == t k

unfoldable pub namecmp : Name → Name → Bool
namecmp s t = same_name dirsiz 0 s t

-- `strncpy(t, s, n)` from place `k` on: the name up to its NUL, and NULs.
unfoldable pub copy_name : ℕ → ℕ → Name → Name → Name
copy_name zero k s t = t
copy_name (suc n) k s t =
    let padded : Name = λ j. if leb k j && ltb j (k + suc n) then 0 else t j in
    let rest = copy_name n (k + 1) s (write t k (s k)) in if s k == 0 then padded else rest

-- `strncpy(de.name, name, DIRSIZ); de.inum = inum`
unfoldable pub dirent : Name → ℕ → (ℕ → ℕ) → ℕ → ℕ
dirent name inum de k =
    if ltb k 2
    then put_half de 0 (inum % 2 ^ 16) k
    else copy_name dirsiz 0 name (λ j. de (2 + j)) (k - 2)

abbrev pub is_16 : ℤ → Bool
is_16 (pos n) = n == 16
is_16 (negsuc n) = false

-- What a search gives: an entry's inode and offset if there is one, with the buffer, the inode of the
-- directory and the disk as the reads leave them.
abbrev pub Searched : Type 0
Searched = Option (ℕ × ℕ) × (ℕ → ℕ) × Inode × Disk

module _ (devsw : Devsw) where
  -- The loop of `dirlookup`, with `n` rounds from `off` on; none is a panic.
  unfoldable pub search_entries : ℕ → ℕ → Name → (ℕ → ℕ) → Inode → Disk → Option Searched
  search_entries zero off name de i d = none
  search_entries (suc n) off name de i d = elim (ltb off i.size) [
    | false ↦ some (none, de, i, d)
    | true ↦ elim (readi devsw i de off dirent_size d) [
      | none ↦ none
      | some (r, read, j, e) ↦ elim (is_16 r) [
        | false ↦ none
        | true ↦ elim (not (half read 0 == 0) && namecmp name (λ k. read (2 + k))) [
          | true ↦ some (some (half read 0, off), read, j, e)
          | false ↦ search_entries n (off + dirent_size) name read j e
        ]
      ]
    ]
  ]

  -- There are at most `size / 16` entries.
  unfoldable pub search_dir : Name → (ℕ → ℕ) → Inode → Disk → Option Searched
  search_dir name de i d =
      if not (i.type == t_dir)
      then none
      else search_entries (i.size / dirent_size + 2) 0 name de i d

  -- `dirlookup` with the directory `i` of the device `dev`: the entry of the inode that is found in the
  -- cache of inodes, and its offset.
  unfoldable pub found_inode :
      ℕ → Icache → Option Searched → Option (Option (ℕ × ℕ) × Icache × Inode × Disk)
  found_inode dev c none = none
  found_inode dev c (some (none, de, i, d)) = some (none, c, i, d)
  found_inode dev c (some (some (inum, off), de, i, d)) = elim (iget dev inum c) [
    | none ↦ none
    | some (k, u) ↦ some (some (k, off), u, i, d)
  ]

  unfoldable pub dirlookup :
      ℕ → Name → (ℕ → ℕ) → Icache → Inode → Disk → Option (Option (ℕ × ℕ) × Icache × Inode × Disk)
  dirlookup dev name de c i d = found_inode dev c (search_dir name de i d)

  -- The loop of `dirlink` that looks for an empty entry: the offset where it stops.
  unfoldable pub find_empty : ℕ → ℕ → (ℕ → ℕ) → Inode → Disk → Option (ℕ × (ℕ → ℕ) × Inode × Disk)
  find_empty zero off de i d = none
  find_empty (suc n) off de i d = elim (ltb off i.size) [
    | false ↦ some (off, de, i, d)
    | true ↦ elim (readi devsw i de off dirent_size d) [
      | none ↦ none
      | some (r, read, j, e) ↦ elim (is_16 r) [
        | false ↦ none
        | true ↦ elim (half read 0 == 0) [
          | true ↦ some (off, read, j, e)
          | false ↦ find_empty n (off + dirent_size) read j e
        ]
      ]
    ]
  ]

  unfoldable pub write_entry :
      Name → ℕ → Option (ℕ × (ℕ → ℕ) × Inode × Disk) → Option (ℤ × Inode × Disk)
  write_entry name inum none = none
  write_entry name inum (some (off, de, i, d)) =
      elim (writei devsw i (dirent name inum de) off dirent_size d) [
        | none ↦ none
        | some (r, j, e) ↦ if is_16 r then some (pos 0, j, e) else none
      ]

  -- The entry is written where the directory has room, or behind its end.
  unfoldable pub with_cache :
      Icache → Option (ℤ × Inode × Disk) → Outcome (ℤ × Icache × Inode × Disk)
  with_cache c none = panics
  with_cache c (some (r, i, d)) = done (r, c, i, d)

  -- The name is there: the reference that `dirlookup` took is given back.
  unfoldable pub refuse : Inode → Outcome (Icache × Disk) → Outcome (ℤ × Icache × Inode × Disk)
  refuse i panics = panics
  refuse i sleeps = sleeps
  refuse i (done (c, d)) = done (minus_one, c, i, d)

  -- `dirlink` after its call of `dirlookup`; `de` is what stands in its variable.
  unfoldable pub link_searched :
      ℕ
      → Name
      → ℕ
      → (ℕ → ℕ)
      → Option (Option (ℕ × ℕ) × Icache × Inode × Disk)
      → Outcome (ℤ × Icache × Inode × Disk)
  link_searched pid name inum de none = panics
  link_searched pid name inum de (some (some (k, off), c, i, d)) = refuse i (iput pid k c d)
  link_searched pid name inum de (some (none, c, i, d)) =
      with_cache c (write_entry name inum (find_empty (i.size / dirent_size + 2) 0 de i d))

  -- By the process `pid`, in the directory `i` of the device `dev`.
  unfoldable pub dirlink :
      ℕ → ℕ → Name → ℕ → (ℕ → ℕ) → Icache → Inode → Disk → Outcome (ℤ × Icache × Inode × Disk)
  dirlink pid dev name inum de c i d = link_searched pid name inum de (dirlookup dev name de c i d)
