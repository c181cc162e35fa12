-- ===== src/Files/Tests.antt =====
-- Concrete runs of the file table.
use os_lab.Prelude.{ℕ, zero, suc, ◌≡◌, refl, true, some, none, [], arith, suc}
use os_lab.Files.Defs.{
  Files, Result, returns, fails, panics, fd_none, nofile, nproc, filealloc, alloc_at, find_free,
}
use os_lab.Files.Descriptors.{
  sys_pipe, pipealloc, pipe_first, pipe_second, pipe_fd0, pipe_fd1, fdalloc, fd_at, find_fd,
}
use os_lab.Files.Count.{row, total}
use os_lab.Files.Refs.{Owes, nothing}
use os_lab.Files.Calls.{dup, pipe, run, Kept, run-Kept}

abbrev no_files : Files
no_files = record { ref = λ i. 0; kind = λ i. fd_none; ofile = λ p fd. none; given_up = [] }

abbrev files_after : Result → Files
files_after (returns n t) = t
files_after (fails t) = t
files_after panics = no_files

abbrev piped : Files
piped = files_after (run 3 (pipe true) no_files)

row-empty : (n i : ℕ) → row n (λ fd. none) i ≡ 0
unfolding row
row-empty zero i = refl
row-empty (suc n) i = omega (arith, row-empty n i)

total-empty : (n i : ℕ) → total n (λ p fd. none) i ≡ 0
unfolding total
total-empty zero i = refl
total-empty (suc n) i = omega (arith, total-empty n i, row-empty nofile i)

no_files-Owes : Owes nothing no_files
no_files-Owes = record { counts = λ i. omega (arith, total-empty nproc i) }

pipe_gives_two : (piped.ofile 3 0 ≡ some 0) × (piped.ofile 3 1 ≡ some 1)
unfolding sys_pipe pipealloc pipe_first pipe_second pipe_fd0 pipe_fd1 fdalloc fd_at find_fd
    filealloc alloc_at find_free
pipe_gives_two = (refl, refl)

pipe_keeps : Kept (run 3 (pipe true) no_files)
pipe_keeps = run-Kept 3 (pipe true) no_files-Owes (omega arith)

piped-Owes : Owes nothing piped
unfolding sys_pipe pipealloc pipe_first pipe_second pipe_fd0 pipe_fd1 fdalloc fd_at find_fd
    filealloc alloc_at find_free
piped-Owes = pipe_keeps

run-Kept_example : Kept (run 3 (dup 1) piped)
run-Kept_example = run-Kept 3 (dup 1) piped-Owes (omega arith)
