-- ===== src/Files/Descriptors.antt =====
-- argfd, fdalloc, sys_dup, sys_close and sys_pipe of xv6-core/sysfile.c, and the files of pipealloc in
-- xv6-core/pipe.c. `p` is the calling process.
use os_lab.Prelude.{ℕ, zero, suc, ◌+◌, Bool, Option, none, some, ltb, if◌then◌else◌, write}
use os_lab.Files.Defs.{
  Files, Result, returns, fails, panics, nofile, fd_pipe, filealloc, filedup, fileclose,
}

abbrev pub set_fd : ℕ → ℕ → Option ℕ → Files → Files
set_fd p fd v t = record t { ofile = write t.ofile p (write (t.ofile p) fd v) }

-- A negative descriptor is out of range like a large one.
unfoldable pub argfd : ℕ → ℕ → Files → Option ℕ
argfd p fd t = if ltb fd nofile then t.ofile p fd else none

unfoldable pub find_fd : ℕ → ℕ → (ℕ → Option ℕ) → Option ℕ
find_fd zero fd row = none
find_fd (suc n) fd row =
    let rest = find_fd n (fd + 1) row in elim (row fd) [ none ↦ some fd | some f ↦ rest ]

unfoldable pub fd_at : ℕ → ℕ → Files → Option ℕ → Option (ℕ × Files)
fd_at p f t none = none
fd_at p f t (some fd) = some (fd, set_fd p fd (some f) t)

unfoldable pub fdalloc : ℕ → ℕ → Files → Option (ℕ × Files)
fdalloc p f t = fd_at p f t (find_fd nofile 0 (t.ofile p))

unfoldable pub or_panic : Option Files → (Files → Result) → Result
or_panic none k = panics
or_panic (some t) k = k t

unfoldable pub dup_into : ℕ → Files → Option (ℕ × Files) → Result
dup_into f t none = fails t
dup_into f t (some (fd, u)) = or_panic (filedup f u) (λ v. returns fd v)

unfoldable pub dup_file : ℕ → Files → Option ℕ → Result
dup_file p t none = fails t
dup_file p t (some f) = dup_into f t (fdalloc p f t)

unfoldable pub sys_dup : ℕ → ℕ → Files → Result
sys_dup p fd t = dup_file p t (argfd p fd t)

unfoldable pub close_file : ℕ → ℕ → Files → Option ℕ → Result
close_file p fd t none = fails t
close_file p fd t (some f) = or_panic (fileclose f (set_fd p fd none t)) (λ v. returns 0 v)

unfoldable pub sys_close : ℕ → ℕ → Files → Result
sys_close p fd t = close_file p fd t (argfd p fd t)

-- The files of `pipealloc`: `page` says whether kalloc finds a page for the pipe.
unfoldable pub pipe_second :
    Bool → ℕ → Files → Option (ℕ × Files) → (ℕ → ℕ → Files → Result) → Result
pipe_second page f0 t none k = or_panic (fileclose f0 t) fails
pipe_second page f0 t (some (f1, u)) k =
    if page
    then k f0 f1 (record u { kind = write (write u.kind f0 fd_pipe) f1 fd_pipe })
    else or_panic (fileclose f0 u) (λ v. or_panic (fileclose f1 v) fails)

unfoldable pub pipe_first : Bool → Files → Option (ℕ × Files) → (ℕ → ℕ → Files → Result) → Result
pipe_first page t none k = fails t
pipe_first page t (some (f0, u)) k = pipe_second page f0 u (filealloc u) k

unfoldable pub pipealloc : Bool → Files → (ℕ → ℕ → Files → Result) → Result
pipealloc page t k = pipe_first page t (filealloc t) k

unfoldable pub close_both : ℕ → ℕ → Files → Result
close_both rf wf t = or_panic (fileclose rf t) (λ u. or_panic (fileclose wf u) fails)

unfoldable pub pipe_fd1 : ℕ → ℕ → ℕ → ℕ → Files → Option (ℕ × Files) → Result
pipe_fd1 p rf wf fd0 t none = close_both rf wf (set_fd p fd0 none t)
pipe_fd1 p rf wf fd0 t (some (fd1, u)) = returns fd0 u

unfoldable pub pipe_fd0 : ℕ → ℕ → ℕ → Files → Option (ℕ × Files) → Result
pipe_fd0 p rf wf t none = close_both rf wf t
pipe_fd0 p rf wf t (some (fd0, u)) = pipe_fd1 p rf wf fd0 u (fdalloc p wf u)

-- `sys_pipe`; the result is the first of the two descriptors.
unfoldable pub sys_pipe : Bool → ℕ → Files → Result
sys_pipe page p t = pipealloc page t (λ rf wf u. pipe_fd0 p rf wf u (fdalloc p rf u))
