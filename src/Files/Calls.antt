-- ===== src/Files/Calls.antt =====
-- sys_dup, sys_close and sys_pipe keep the reference counts, and never panic.
use os_lab.Prelude.{
  ℕ, ◌+◌, ◌<◌, ◌≤◌, ◌≡◌, inl, inr, refl, ap, Bool, false, Option, none, some, arith, ltb,
  Bool-cases,
}
use os_lab.Files.Defs.{Files, Result, returns, fails, panics, nofile, nproc, filealloc, filedup}
use os_lab.Files.Descriptors.{
  set_fd, argfd, fdalloc, or_panic, dup_into, dup_file, sys_dup, close_file, sys_close, pipealloc,
  pipe_first, pipe_second, close_both, pipe_fd0, pipe_fd1, sys_pipe,
}
use os_lab.Files.Count.{holds, total, total-holds}
use os_lab.Files.Refs.{
  bump, Owes, nothing, also, filealloc-Owes, clear_fd-Owes, fileclose-Owes, fdalloc-Owes,
  fdalloc-Filled,
}

-- The call does not panic, and afterwards every reference count is the number of descriptors that hold the
-- file.
abbrev pub Kept : Result → Type 0
Kept (returns n t) = Owes nothing t
Kept (fails t) = Owes nothing t
Kept panics = ⊥

argfd-holds :
    (p fd : ℕ) (t : Files) {f : ℕ} → argfd p fd t ≡ some f → (fd < nofile) × (t.ofile p fd ≡ some f)
unfolding argfd
argfd-holds p fd t {f} e = elim (Bool-cases (ltb fd nofile)) [
  | inl lt ↦ (ground (arith, lt), ground (arith, lt, e))
  | inr out ↦ absurd (ground (arith, out, e))
]

close_both-Kept :
    (rf wf : ℕ) (u : Files) → Owes (also wf (also rf nothing)) u → Kept (close_both rf wf u)
unfolding close_both or_panic
close_both-Kept rf wf u o =
    let (v, d, s1, o1) = fileclose-Owes (also wf nothing) rf (swap o) in
    let (w, d2, s2, o2) = fileclose-Owes nothing wf o1 in rw (d) (rw (d2) o2)
  where
    swap : Owes (also wf (also rf nothing)) u → Owes (also rf (also wf nothing)) u
    swap o = record { counts = λ i. omega (arith, o.counts i) }

module _ {t : Files} (owes : Owes nothing t) (p : ℕ) (lt : p < nproc) where
  close_file-Kept : (fd : ℕ) (r : Option ℕ) → argfd p fd t ≡ r → Kept (close_file p fd t r)
  unfolding close_file or_panic
  close_file-Kept fd none e = owes
  close_file-Kept fd (some f) e =
      let (fl, held) = argfd-holds p fd t {f = f} e in
      let (u, d, same, after) = fileclose-Owes nothing f (clear_fd-Owes owes p fd f lt fl held) in
      rw (d) after

  pub sys_close-Kept : (fd : ℕ) → Kept (sys_close p fd t)
  unfolding sys_close
  sys_close-Kept fd = close_file-Kept fd (argfd p fd t) refl

  filedup-Kept :
      (fd f : ℕ) (u : Files)
      → 1 ≤ u.ref f
      → ((i : ℕ) → u.ref i + holds (some f) i ≡ total nproc u.ofile i)
      → Kept (or_panic (filedup f u) (λ v. returns fd v))
  unfolding filedup or_panic
  filedup-Kept fd f u h counts =
      let one : ltb (u.ref f) 1 ≡ false = ground arith in
      rw (filedup, one) (record { counts = λ i. ground (arith, bump u.ref f i, counts i) })

  dup_file-Kept : (fd : ℕ) (r : Option ℕ) → argfd p fd t ≡ r → Kept (dup_file p t r)
  unfolding dup_file dup_into or_panic
  dup_file-Kept fd none e = owes
  dup_file-Kept fd (some f) e =
      let (fl, held) = argfd-holds p fd t {f = f} e in
      let shared = total-holds nproc t.ofile p fd f lt fl held in
      elim (fdalloc-Filled t p f lt) [
        | inl full ↦ rw (full) owes
        | inr (fd1, u, d, fl1, held1, same, more) ↦ rw (d) (
            filedup-Kept fd1 f u (omega (arith, shared, owes.counts f, ap (λ r. r f) same))
              (λ i. omega (arith, ap (λ r. r i) same, more i, owes.counts i)))
      ]

  pub sys_dup-Kept : (fd : ℕ) → Kept (sys_dup p fd t)
  unfolding sys_dup
  sys_dup-Kept fd = dup_file-Kept fd (argfd p fd t) refl

module _ (p : ℕ) (lt : p < nproc) where
  pipe_fd1-Kept :
      (rf wf fd0 : ℕ) (t : Files)
      → fd0 < nofile
      → t.ofile p fd0 ≡ some rf
      → Owes (also wf nothing) t
      → Kept (pipe_fd1 p rf wf fd0 t (fdalloc p wf t))
  unfolding pipe_fd1
  pipe_fd1-Kept rf wf fd0 t fl held owes = elim (fdalloc-Owes nothing wf owes p lt) [
    | inl full ↦ rw (full) (
        close_both-Kept rf wf (set_fd p fd0 none t) (record {
          counts = λ i. omega (arith, (clear_fd-Owes owes p fd0 rf lt fl held).counts i);
        }))
    | inr (fd1, u, d, fl1, held1, o) ↦ rw (d) o
  ]

  pipe_fd0-Kept :
      (rf wf : ℕ) (t : Files)
      → Owes (also wf (also rf nothing)) t
      → Kept (pipe_fd0 p rf wf t (fdalloc p rf t))
  unfolding pipe_fd0
  pipe_fd0-Kept rf wf t owes =
      elim (fdalloc-Owes (also wf nothing) {t = t} rf
        (record { counts = λ i. omega (arith, owes.counts i) }) p lt) [
          | inl full ↦ rw (full) (close_both-Kept rf wf t owes)
          | inr (fd0, u, d, fl, held, o) ↦ rw (d) (pipe_fd1-Kept rf wf fd0 u fl held o)
        ]

  module _ (k : ℕ → ℕ → Files → Result)
      (continues : (rf wf : ℕ) (t : Files)
        → Owes (also wf (also rf nothing)) t
        → Kept (k rf wf t)) where
    pipe_second-Kept :
        (page : Bool) (f0 : ℕ) (t : Files)
        → Owes (also f0 nothing) t
        → Kept (pipe_second page f0 t (filealloc t) k)
    unfolding pipe_second or_panic close_both
    pipe_second-Kept page f0 t owes = elim (filealloc-Owes owes) [
      | inl full ↦ let (u, d, s, o) = fileclose-Owes nothing f0 owes in rw (full, d) o
      | inr (f1, u, d, o) ↦ elim (Bool-cases page) [
        | inl there ↦ rw (d, there) (continues f0 f1 _ (record { counts = λ i. o.counts i }))
        | inr missing ↦ rw (d, missing) (close_both-Kept f0 f1 u o)
      ]
    ]

    pipealloc-Kept : (page : Bool) (t : Files) → Owes nothing t → Kept (pipealloc page t k)
    unfolding pipealloc pipe_first
    pipealloc-Kept page t owes = elim (filealloc-Owes owes) [
      | inl full ↦ rw (full) owes
      | inr (f0, u, d, o) ↦ rw (d) (pipe_second-Kept page f0 u o)
    ]

  pub sys_pipe-Kept : (page : Bool) (t : Files) → Owes nothing t → Kept (sys_pipe page p t)
  unfolding sys_pipe
  sys_pipe-Kept page t owes =
      pipealloc-Kept (λ rf wf u. pipe_fd0 p rf wf u (fdalloc p rf u)) pipe_fd0-Kept page t owes

pub data Call : Type 0 where
  dup close : ℕ → Call
  pipe : Bool → Call

abbrev pub run : ℕ → Call → Files → Result
run p (dup fd) t = sys_dup p fd t
run p (close fd) t = sys_close p fd t
run p (pipe page) t = sys_pipe page p t

-- From a table in which every reference count is the number of descriptors that hold the file, dup, close
-- and pipe of any process do not panic, and leave such a table, also where they fail.
pub run-Kept : {t : Files} (p : ℕ) (c : Call) → Owes nothing t → p < nproc → Kept (run p c t)
run-Kept p (dup fd) owes lt = sys_dup-Kept owes p lt fd
run-Kept p (close fd) owes lt = sys_close-Kept owes p lt fd
run-Kept {t} p (pipe page) owes lt = sys_pipe-Kept p lt page t owes
