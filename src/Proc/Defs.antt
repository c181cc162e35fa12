-- ===== src/Proc/Defs.antt =====
-- The data of xv6-core/proc.h and the operations of xv6-core/proc.c on the table.
use os_lab.Prelude.{
  ℕ, zero, suc, ◌+◌, Bool, true, false, Option, none, some, List, [], ◌∷◌, ◌==◌, if◌then◌else◌,
  replicate,
}

abbrev pub nproc : ℕ
nproc = 64

pub data ProcState : Type 0 where
  unused embryo sleeping runnable running zombie : ProcState

-- What a process sleeps on: 0, the address of a slot of the table, or another address.
pub data Chan : Type 0 where
  nowhere : Chan
  on_proc on_addr : ℕ → Chan

-- `struct proc`, less the saved registers. A process is named by its index in the table; files and
-- directories by their addresses, 0 for none; `kstack` and `pgdir` say whether there is one.
pub record Proc : Type 0 where
  pub sz : ℕ
  pub pgdir : Bool
  pub kstack : Bool
  pub state : ProcState
  pub pid : ℕ
  pub parent : Option ℕ
  pub chan : Chan
  pub killed : Bool
  pub ofile : List ℕ
  pub cwd : ℕ
  pub name : List ℕ

pub record Ptable : Type 0 where
  pub proc : ℕ → Proc
  pub nextpid : ℕ

abbrev pub is_unused : ProcState → Bool
is_unused unused = true
is_unused s = false

abbrev pub is_zombie : ProcState → Bool
is_zombie zombie = true
is_zombie s = false

abbrev pub is_sleeping : ProcState → Bool
is_sleeping sleeping = true
is_sleeping s = false

abbrev pub is_runnable : ProcState → Bool
is_runnable runnable = true
is_runnable s = false

abbrev pub chan_eq : Chan → Chan → Bool
chan_eq nowhere nowhere = true
chan_eq (on_proc i) (on_proc j) = i == j
chan_eq (on_addr a) (on_addr b) = a == b
chan_eq c d = false

abbrev pub is_child_of : ℕ → Option ℕ → Bool
is_child_of i none = false
is_child_of i (some j) = i == j

abbrev pub put : (ℕ → Proc) → ℕ → Proc → ℕ → Proc
put f i p j = if i == j then p else f j

-- `ptable` as the kernel's image has it, and "initcode".
abbrev pub empty_slot : Proc
empty_slot = record {
  sz = 0;
  pgdir = false;
  kstack = false;
  state = unused;
  pid = 0;
  parent = none;
  chan = nowhere;
  killed = false;
  ofile = replicate 16 0;
  cwd = 0;
  name = replicate 16 0;
}

abbrev pub empty_table : Ptable
empty_table = record { proc = λ i. empty_slot; nextpid = 1 }

abbrev pub initcode : List ℕ
initcode = 105 ∷ 110 ∷ 105 ∷ 116 ∷ 99 ∷ 111 ∷ 100 ∷ 101 ∷ 0 ∷ []

-- The first slot from `i` on, of `n`, that passes the test.
unfoldable pub find_slot : (Proc → Bool) → ℕ → ℕ → (ℕ → Proc) → Option ℕ
find_slot test zero i f = none
find_slot test (suc n) i f =
    let rest = find_slot test n (i + 1) f in if test (f i) then some i else rest
