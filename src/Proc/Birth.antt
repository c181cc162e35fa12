-- ===== src/Proc/Birth.antt =====
-- allocproc, userinit and fork of xv6-core/proc.c.
use os_lab.Prelude.{
  ℕ, ◌+◌, Bool, true, false, Option, none, some, List, [], ◌∷◌, ◌==◌, if◌then◌else◌,
}
use os_lab.Proc.Defs.{
  nproc, Proc, Ptable, is_unused, put, initcode, find_slot, unused, embryo, runnable,
}

-- The rest of `allocproc` once the search for an unused slot has ended: `stack` says whether kalloc
-- finds a page for the kernel stack.
unfoldable pub alloc_at : Bool → Ptable → Option ℕ → Ptable × Option ℕ
alloc_at stack t none = (t, none)
alloc_at stack t (some i) = (
  record {
    proc = put t.proc i (
        if stack
        then record (t.proc i) { state = embryo; pid = t.nextpid; kstack = true }
        else record (t.proc i) { state = unused; pid = t.nextpid; kstack = false });
    nextpid = t.nextpid + 1;
  },
  (if stack then some i else none),
)

unfoldable pub allocproc : Bool → Ptable → Ptable × Option ℕ
allocproc stack t = alloc_at stack t (find_slot (λ p. is_unused p.state) nproc 0 t.proc)

-- The rest of `userinit` after allocproc, for a root directory at address `root`.
unfoldable pub user_into : ℕ → Ptable → Option ℕ → Option Ptable
user_into root a none = none
user_into root a (some i) = some (record a {
  proc = put a.proc i (record (a.proc i) {
    pgdir = true;
    sz = 4096;
    name = initcode;
    cwd = root;
    state = runnable;
  });
})

-- `userinit`; none where it would use a null pointer.
unfoldable pub userinit : ℕ → Ptable → Option Ptable
userinit root t = let a = allocproc true t in user_into root a.0 a.1

-- The loop of `fork` over the open files: only those that are there are copied.
abbrev pub inherit : List ℕ → List ℕ → List ℕ
inherit [] gs = gs
inherit (f ∷ fs) [] = []
inherit (f ∷ fs) (g ∷ gs) = (if f == 0 then g else f) ∷ inherit fs gs

-- What fork copies into the child's slot.
unfoldable pub child_of : Proc → ℕ → Proc → Proc
child_of np cur p = record {
  sz = p.sz;
  pgdir = true;
  kstack = np.kstack;
  state = runnable;
  pid = np.pid;
  parent = some cur;
  chan = np.chan;
  killed = np.killed;
  ofile = inherit p.ofile np.ofile;
  cwd = p.cwd;
  name = p.name;
}

-- The rest of `fork` after allocproc: `copied` says whether copyuvm succeeds, `mother` is the caller's
-- slot. The references to files that the child gets are counted in the file table.
unfoldable pub fork_into : Bool → ℕ → Proc → Ptable → Option ℕ → Ptable × Option ℕ
fork_into copied cur mother a none = (a, none)
fork_into copied cur mother a (some i) =
    if copied
    then (record a { proc = put a.proc i (child_of (a.proc i) cur mother) }, some (a.proc i).pid)
    else (
      record a {
        proc = put a.proc i (record (a.proc i) { pgdir = false; kstack = false; state = unused });
      },
      none,
    )

-- `fork` by process `cur`. The result is the child's pid, or none for -1.
unfoldable pub fork : Bool → Bool → ℕ → Ptable → Ptable × Option ℕ
fork stack copied cur t = let a = allocproc stack t in fork_into copied cur (t.proc cur) a.0 a.1
