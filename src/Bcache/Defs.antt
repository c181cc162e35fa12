-- ===== src/Bcache/Defs.antt =====
-- The buffer cache of xv6-core/bio.c, and iderw of xv6-core/memide.c.
use os_lab.Prelude.{
  ℕ, zero, suc, ◌+◌, ◌-◌, Bool, true, false, not, ◌&&◌, ◌||◌, Option, none, some, ◌==◌, leb,
  if◌then◌else◌, write,
}
use os_lab.Locks.Defs.{Sleeplock, initsleeplock, acquiresleep, releasesleep, holdingsleep}

abbrev pub nbuf : ℕ
nbuf = 30

-- The node of the list that is no buffer.
abbrev pub head : ℕ
head = 30

-- A buffer without its links; `valid` and `dirty` are its flags.
pub record Buf : Type 0 where
  pub valid : Bool
  pub dirty : Bool
  pub dev : ℕ
  pub blockno : ℕ
  pub lock : Sleeplock
  pub refcnt : ℕ
  pub bytes : ℕ → ℕ

-- The links of all nodes.
pub record Links : Type 0 where
  pub next : ℕ → ℕ
  pub prev : ℕ → ℕ

pub record Bcache : Type 0 where
  pub buf : ℕ → Buf
  pub links : Links

-- The disk in memory, of `disksize` blocks.
pub record Memdisk : Type 0 where
  pub disksize : ℕ
  pub block : ℕ → ℕ → ℕ

-- A panic, a wait for the buffer's lock, or a result. On `lost` a walk along the links did not end.
pub data Outcome (A : Type 0) : Type 0 where
  panics : Outcome A
  lost : Outcome A
  sleeps : Bcache → Outcome A
  done : A → Outcome A

-- `b->next = head.next; b->prev = &head; head.next->prev = b; head.next = b`
unfoldable pub insert_front : ℕ → Links → Links
insert_front b l = record {
  next = write (write l.next b (l.next head)) head b;
  prev = write (write l.prev b head) (l.next head) b;
}

-- `b->next->prev = b->prev; b->prev->next = b->next`
unfoldable pub unlink : ℕ → Links → Links
unlink b l =
    let prev = write l.prev (l.next b) (l.prev b) in
    record { next = write l.next (prev b) (l.next b); prev = prev }

-- The loop of `binit`, with `n` buffers left from `b` on.
unfoldable pub link_all : ℕ → ℕ → Bcache → Bcache
link_all zero b c = c
link_all (suc n) b c = link_all n (b + 1) record {
  buf = write c.buf b (record (c.buf b) { lock = initsleeplock });
  links = insert_front b c.links;
}

unfoldable pub binit : Bcache → Bcache
binit c = link_all nbuf 0 (record c {
  links = record { next = write c.links.next head head; prev = write c.links.prev head head };
})

-- A walk along `follow` from `b` to the head, to the first buffer that passes the test: on fuel, none when
-- it is used up.
unfoldable pub walk : ℕ → (ℕ → ℕ) → (ℕ → Bool) → ℕ → Option (Option ℕ)
walk zero follow test b = none
walk (suc n) follow test b =
    let rest = walk n follow test (follow b) in
    if b == head then some none else (if test b then some (some b) else rest)

abbrev pub is_block : ℕ → ℕ → Bcache → ℕ → Bool
is_block dev blockno c b = ((c.buf b).dev == dev) && ((c.buf b).blockno == blockno)

abbrev pub is_unused : Bcache → ℕ → Bool
is_unused c b = ((c.buf b).refcnt == 0) && not (c.buf b).dirty

unfoldable pub set_buf : ℕ → Buf → Bcache → Bcache
set_buf b x c = record c { buf = write c.buf b x }

-- `acquiresleep`, after the cache's lock was released.
unfoldable pub lock_buf : ℕ → ℕ → Bcache → Outcome (ℕ × Bcache)
lock_buf pid b c = elim (acquiresleep pid (c.buf b).lock) [
  | none ↦ sleeps c
  | some l ↦ done (b, set_buf b (record (c.buf b) { lock = l }) c)
]

unfoldable pub recycle : ℕ → ℕ → ℕ → Bcache → Bcache
recycle b dev blockno c =
    set_buf b
      (record (c.buf b) { dev = dev; blockno = blockno; valid = false; dirty = false; refcnt = 1 })
      c

unfoldable pub bget_unused : ℕ → ℕ → ℕ → Bcache → Option (Option ℕ) → Outcome (ℕ × Bcache)
bget_unused pid dev blockno c none = lost
bget_unused pid dev blockno c (some none) = panics
bget_unused pid dev blockno c (some (some b)) = lock_buf pid b (recycle b dev blockno c)

unfoldable pub bget_cached : ℕ → ℕ → ℕ → Bcache → Option (Option ℕ) → Outcome (ℕ × Bcache)
bget_cached pid dev blockno c none = lost
bget_cached pid dev blockno c (some none) =
    bget_unused pid dev blockno c (walk (nbuf + 1) c.links.prev (is_unused c) (c.links.prev head))
bget_cached pid dev blockno c (some (some b)) =
    lock_buf pid b (set_buf b (record (c.buf b) { refcnt = (c.buf b).refcnt + 1 }) c)

unfoldable pub bget : ℕ → ℕ → ℕ → Bcache → Outcome (ℕ × Bcache)
bget pid dev blockno c =
    bget_cached pid dev blockno c
      (walk (nbuf + 1) c.links.next (is_block dev blockno c) (c.links.next head))

-- `iderw` of memide.c: none is a panic.
unfoldable pub iderw : ℕ → Buf → Memdisk → Option (Buf × Memdisk)
iderw pid b m =
    if not (holdingsleep pid b.lock)
    then none
    else (if b.valid && not b.dirty
        then none
        else (if not (b.dev == 1) || leb m.disksize b.blockno
            then none
            else (if b.dirty
                then some (
                  record b { dirty = false; valid = true },
                  record m { block = write m.block b.blockno b.bytes },
                )
                else some (record b { bytes = m.block b.blockno; valid = true }, m))))

unfoldable pub after_iderw : ℕ → Bcache → Option (Buf × Memdisk) → Outcome (ℕ × Bcache × Memdisk)
after_iderw b c none = panics
after_iderw b c (some (x, m)) = done (b, set_buf b x c, m)

unfoldable pub bread : ℕ → ℕ → ℕ → Bcache → Memdisk → Outcome (ℕ × Bcache × Memdisk)
bread pid dev blockno c m = elim (bget pid dev blockno c) [
  | panics ↦ panics
  | lost ↦ lost
  | sleeps u ↦ sleeps u
  | done (b, u) ↦
      if (u.buf b).valid then done (b, u, m) else after_iderw b u (iderw pid (u.buf b) m)
]

unfoldable pub bwrite : ℕ → ℕ → Bcache → Memdisk → Outcome (ℕ × Bcache × Memdisk)
bwrite pid b c m =
    if not (holdingsleep pid (c.buf b).lock)
    then panics
    else after_iderw b c (iderw pid (record (c.buf b) { dirty = true }) m)

-- The buffer's lock is released, and the buffer moved to the front when no one waits for it. The count is a
-- uint, which a release takes below zero only if it was never raised.
unfoldable pub brelse : ℕ → ℕ → Bcache → Option Bcache
brelse pid b c =
    let x = c.buf b in
    let n = if x.refcnt == 0 then 4294967295 else x.refcnt - 1 in
    let u = set_buf b (record x { lock = releasesleep x.lock; refcnt = n }) c in
    if not (holdingsleep pid x.lock)
    then none
    else some (if n == 0 then record u { links = insert_front b (unlink b u.links) } else u)
