-- ===== src/Icache/Defs.antt =====
-- The cache of inodes in xv6-core/fs.c: iinit, ialloc, iget, idup, ilock, iunlock, iput and iunlockput.
use os_lab.Prelude.{
  ℕ, zero, suc, ◌+◌, ◌-◌, ◌%◌, Bool, true, false, not, ◌&&◌, ◌||◌, Option, none, some, ◌==◌, ltb,
  leb, if◌then◌else◌, write, ◌^◌,
}
use os_lab.Locks.Defs.{Sleeplock, initsleeplock, acquiresleep, releasesleep, holdingsleep}
use os_lab.Fs.Defs.{Block, Disk, readsb, set_block}
use os_lab.Fs.Inode.{Inode, half, put_half, iblock, ioffset, iupdate, load_inode, itrunc}

abbrev pub ninode : ℕ
ninode = 50

-- An inode that is cached. There is one device, whose disk the calls take.
pub record Entry : Type 0 where
  pub dev : ℕ
  pub inum : ℕ
  pub ref : ℕ
  pub lock : Sleeplock
  pub valid : Bool
  pub inode : Inode

abbrev pub Icache : Type 0
Icache = ℕ → Entry

-- What a call comes to: a panic, a wait for an inode's lock, or its result.
pub data Outcome (A : Type 0) : Type 0 where
  panics : Outcome A
  sleeps : Outcome A
  done : A → Outcome A

unfoldable pub iinit : (ℕ → Block) → Icache → Disk × Icache
iinit block c = (
  record { sb = readsb block; block = block },
  λ k. if ltb k ninode then record (c k) { lock = initsleeplock } else c k,
)

-- Where the search of `iget` ends: at an entry for the inode, or with the first free one, if there is any.
pub data Found : Type 0 where
  hit : ℕ → Found
  miss : Option ℕ → Found

abbrev pub is_entry : ℕ → ℕ → Entry → Bool
is_entry dev inum e = ltb 0 e.ref && (e.dev == dev) && (e.inum == inum)

-- `empty == 0 && ip->ref == 0` makes the entry `k` the empty slot.
unfoldable pub remember : Option ℕ → ℕ → Entry → Option ℕ
remember (some j) k e = some j
remember none k e = if e.ref == 0 then some k else none

unfoldable pub find_inode : ℕ → ℕ → ℕ → ℕ → Icache → Option ℕ → Found
find_inode zero k dev inum c empty = miss empty
find_inode (suc n) k dev inum c empty =
    let rest = find_inode n (k + 1) dev inum c (remember empty k (c k)) in
    if is_entry dev inum (c k) then hit k else rest

abbrev pub add_ref : ℕ → Icache → Icache
add_ref k c = write c k (record (c k) { ref = (c k).ref + 1 })

abbrev pub recycle : ℕ → ℕ → ℕ → Icache → Icache
recycle k dev inum c = write c k (record (c k) { dev = dev; inum = inum; ref = 1; valid = false })

-- none is the panic "iget: no inodes".
unfoldable pub get_found : ℕ → ℕ → Icache → Found → Option (ℕ × Icache)
get_found dev inum c (hit k) = some (k, add_ref k c)
get_found dev inum c (miss none) = none
get_found dev inum c (miss (some k)) = some (k, recycle k dev inum c)

unfoldable pub iget : ℕ → ℕ → Icache → Option (ℕ × Icache)
iget dev inum c = get_found dev inum c (find_inode ninode 0 dev inum c none)

unfoldable pub idup : ℕ → Icache → ℕ × Icache
idup k c = (k, add_ref k c)

-- The inode with its lock held is read from the disk if it is not there yet.
unfoldable pub fill : ℕ → Sleeplock → Icache → Disk → Outcome Icache
fill k l c d =
    let i = load_inode (c k).inum d in
    if (c k).valid
    then done (write c k (record (c k) { lock = l }))
    else (if i.type == 0
        then panics
        else done (write c k (record (c k) { lock = l; valid = true; inode = i })))

unfoldable pub ilock : ℕ → ℕ → Icache → Disk → Outcome Icache
ilock pid k c d =
    if ltb (c k).ref 1
    then panics
    else elim (acquiresleep pid (c k).lock) [ none ↦ sleeps | some l ↦ fill k l c d ]

unfoldable pub iunlock : ℕ → ℕ → Icache → Outcome Icache
iunlock pid k c =
    if not (holdingsleep pid (c k).lock) || ltb (c k).ref 1
    then panics
    else done (write c k (record (c k) { lock = releasesleep (c k).lock }))

-- The last reference to an inode without links: its content and the inode are freed on the disk.
unfoldable pub free_inode : Entry → Disk → Option (Entry × Disk)
free_inode e d =
    if e.valid && (e.inode.nlink == 0) && (e.ref == 1)
    then elim (itrunc e.inode d) [
      | none ↦ none
      | some (j, f) ↦ some (
        record e { valid = false; inode = record j { type = 0 } },
        iupdate (record j { type = 0 }) f,
      )
    ]
    else some (e, d)

unfoldable pub put_ref : ℕ → Icache → Option (Entry × Disk) → Outcome (Icache × Disk)
put_ref k c none = panics
put_ref k c (some (e, d)) =
    done (write c k (record e { lock = releasesleep e.lock; ref = e.ref - 1 }), d)

unfoldable pub iput : ℕ → ℕ → Icache → Disk → Outcome (Icache × Disk)
iput pid k c d = elim (acquiresleep pid (c k).lock) [
  | none ↦ sleeps
  | some l ↦ put_ref k c (free_inode (record (c k) { lock = l }) d)
]

unfoldable pub iunlockput : ℕ → ℕ → Icache → Disk → Outcome (Icache × Disk)
iunlockput pid k c d = elim (iunlock pid k c) [
  | panics ↦ panics
  | sleeps ↦ sleeps
  | done u ↦ iput pid k u d
]

-- `memset(dip, 0, sizeof(*dip)); dip->type = type`
unfoldable pub fresh_dinode : Block → ℕ → ℕ → Block
fresh_dinode b o type =
    put_half (λ k. if leb o k && ltb k (o + 64) then 0 else b k) o (type % 2 ^ 16)

-- The loop of `ialloc`, with `n` inodes left from `inum` on.
unfoldable pub find_free : ℕ → ℕ → Disk → Option ℕ
find_free zero inum d = none
find_free (suc n) inum d =
    let rest = find_free n (inum + 1) d in
    if half (d.block (iblock inum d.sb)) (ioffset inum) == 0 then some inum else rest

unfoldable pub alloc_found : ℕ → ℕ → Icache → Disk → Option ℕ → Option (ℕ × Icache × Disk)
alloc_found dev type c d none = none
alloc_found dev type c d (some inum) =
    let b = iblock inum d.sb in
    elim (iget dev inum c) [
      | none ↦ none
      | some (k, u) ↦ some (k, u, set_block b (fresh_dinode (d.block b) (ioffset inum) type) d)
    ]

-- none is the panic "ialloc: no inodes", or that of iget.
unfoldable pub ialloc : ℕ → ℕ → Icache → Disk → Option (ℕ × Icache × Disk)
ialloc dev type c d = alloc_found dev type c d (find_free (d.sb.ninodes - 1) 1 d)
