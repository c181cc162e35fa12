-- ===== src/Locks/Defs.antt =====
-- pushcli, popcli and the lock operations of xv6-core/spinlock.c and xv6-core/sleeplock.c.
use os_lab.Prelude.{
  ℕ, ◌+◌, ◌-◌, Bool, true, false, not, ◌&&◌, Option, none, some, ◌==◌, if◌then◌else◌,
}

-- The part of `struct cpu` that the locks use, and whether interrupts are on (FL_IF).
pub record Cpu : Type 0 where
  pub ncli : ℕ
  pub intena : Bool
  pub interrupts : Bool

unfoldable pub pushcli : Cpu → Cpu
pushcli c = record {
  ncli = c.ncli + 1;
  intena = if c.ncli == 0 then c.interrupts else c.intena;
  interrupts = false;
}

-- none is a panic.
unfoldable pub popcli : Cpu → Option Cpu
popcli c =
    if c.interrupts
    then none
    else (if c.ncli == 0
        then none
        else some (record c { ncli = c.ncli - 1; interrupts = (c.ncli - 1 == 0) && c.intena }))

-- `struct spinlock`, less its name and call stack: the processor that holds it.
pub record Spinlock : Type 0 where
  pub locked : Bool
  pub cpu : Option ℕ

abbrev pub is_cpu : ℕ → Option ℕ → Bool
is_cpu i none = false
is_cpu i (some j) = i == j

unfoldable pub holding : ℕ → Spinlock → Bool
holding i l = l.locked && is_cpu i l.cpu

pub data LockResult : Type 0 where
  done : Cpu → Spinlock → LockResult
  -- the loop on xchg goes on
  spins : Cpu → LockResult
  panics : LockResult

-- `acquire` by processor `i`, which is `c`, up to the first xchg and past it where it gets the lock.
unfoldable pub acquire : ℕ → Cpu → Spinlock → LockResult
acquire i c l =
    if holding i l
    then panics
    else (if l.locked
        then spins (pushcli c)
        else done (pushcli c) (record { locked = true; cpu = some i }))

unfoldable pub after_pop : Option Cpu → Spinlock → LockResult
after_pop none l = panics
after_pop (some c) l = done c l

unfoldable pub release : ℕ → Cpu → Spinlock → LockResult
release i c l =
    if not (holding i l)
    then panics
    else after_pop (popcli c) (record { locked = false; cpu = none })

-- `struct sleeplock`, less its spin lock and name.
pub record Sleeplock : Type 0 where
  pub locked : Bool
  pub pid : ℕ

unfoldable pub initsleeplock : Sleeplock
initsleeplock = record { locked = false; pid = 0 }

-- none: the caller sleeps, and tries again when it is woken.
unfoldable pub acquiresleep : ℕ → Sleeplock → Option Sleeplock
acquiresleep pid l = if l.locked then none else some (record { locked = true; pid = pid })

-- The sleepers are woken.
unfoldable pub releasesleep : Sleeplock → Sleeplock
releasesleep l = record { locked = false; pid = 0 }

unfoldable pub holdingsleep : ℕ → Sleeplock → Bool
holdingsleep pid l = l.locked && (l.pid == pid)
