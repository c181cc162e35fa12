-- ===== src/Files/Defs.antt =====
-- The data of xv6-core/file.c, and filealloc, filedup and fileclose.
use os_lab.Prelude.{
  ℕ, zero, suc, ◌+◌, ◌-◌, Option, none, some, List, ◌∷◌, ◌==◌, ltb, if◌then◌else◌, write,
}

abbrev pub nfile : ℕ
nfile = 100

abbrev pub nofile : ℕ
nofile = 16

abbrev pub nproc : ℕ
nproc = 64

pub data Kind : Type 0 where
  fd_none fd_pipe fd_inode : Kind

-- `ftable`, less the data of the open files; the descriptors of every process, by its index in the process
-- table; and what fileclose has handed to pipeclose or iput, the latest first. A file is named by its
-- index in `ftable`.
pub record Files : Type 0 where
  pub ref : ℕ → ℕ
  pub kind : ℕ → Kind
  pub ofile : ℕ → ℕ → Option ℕ
  pub given_up : List (ℕ × Kind)

-- A kernel call returns, fails with -1, or panics.
pub data Result : Type 0 where
  returns : ℕ → Files → Result
  fails : Files → Result
  panics : Result

-- The first file from `i` on, of `n`, with no reference.
unfoldable pub find_free : ℕ → ℕ → (ℕ → ℕ) → Option ℕ
find_free zero i ref = none
find_free (suc n) i ref = let rest = find_free n (i + 1) ref in if ref i == 0 then some i else rest

unfoldable pub alloc_at : Files → Option ℕ → Option (ℕ × Files)
alloc_at t none = none
alloc_at t (some i) = some (i, record t { ref = write t.ref i 1 })

unfoldable pub filealloc : Files → Option (ℕ × Files)
filealloc t = alloc_at t (find_free nfile 0 t.ref)

-- none is the panic
unfoldable pub filedup : ℕ → Files → Option Files
filedup i t =
    if ltb (t.ref i) 1 then none else some (record t { ref = write t.ref i (t.ref i + 1) })

unfoldable pub fileclose : ℕ → Files → Option Files
fileclose i t =
    if ltb (t.ref i) 1
    then none
    else (if ltb 0 (t.ref i - 1)
        then some (record t { ref = write t.ref i (t.ref i - 1) })
        else some (record t {
          ref = write t.ref i 0;
          kind = write t.kind i fd_none;
          given_up = (i, t.kind i) ∷ t.given_up;
        }))
