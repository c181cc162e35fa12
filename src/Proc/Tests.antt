-- ===== src/Proc/Tests.antt =====
-- Concrete runs of the process table.
use os_lab.Prelude.{◌≡◌, refl, true, Option, some, none, ◌==◌}
use os_lab.Proc.Defs.{Ptable, nproc, is_unused, running, find_slot, empty_table}
use os_lab.Proc.Birth.{fork, userinit, user_into, alloc_at, allocproc, fork_into, child_of}
use os_lab.Proc.Steps.{
  kill, schedule, exit, wait, reaped, exit_table, pass_children, pass_one, wakeup1, wait_scan,
}
use os_lab.Proc.Kills.{kill_zero_marks_next}
use os_lab.Proc.Reach.{Reach}

abbrev the : Option Ptable → Ptable
the none = empty_table
the (some t) = t

-- The table after boot, with init running, after a fork, and with the child running.
abbrev boot_table : Ptable
boot_table = the (userinit 7 empty_table)

abbrev init_runs : Ptable
init_runs = schedule 0 boot_table

abbrev forked : Ptable
forked = (fork true true 0 init_runs).0

abbrev child_runs : Ptable
child_runs = schedule 1 forked

abbrev orphaned : Ptable
orphaned = the (exit 0 1 child_runs)

forks_two : (fork true true 0 init_runs).1 ≡ some 2
unfolding userinit user_into allocproc alloc_at find_slot schedule fork fork_into
forks_two = refl

child_running : (child_runs.proc 1).state ≡ running
unfolding userinit user_into allocproc alloc_at find_slot schedule fork fork_into child_of
child_running = refl

child_is_reaped : (wait 0 orphaned).1 ≡ reaped 2 1
unfolding userinit user_into allocproc alloc_at find_slot schedule fork fork_into child_of exit
    exit_table pass_children pass_one wakeup1 wait wait_scan
child_is_reaped = refl

first_free : find_slot (λ p. is_unused p.state) nproc 0 init_runs.proc ≡ some 1
unfolding userinit user_into allocproc alloc_at find_slot schedule
first_free = refl

first_zero : find_slot (λ p. p.pid == 0) nproc 0 init_runs.proc ≡ some 1
unfolding userinit user_into allocproc alloc_at find_slot schedule
first_zero = refl

kill_zero_marks_next_example :
    ((kill 0 init_runs).1 ≡ true)
    × ((fork true true 0 (kill 0 init_runs).0).1 ≡ some init_runs.nextpid)
    × (((fork true true 0 (kill 0 init_runs).0).0.proc 1).killed ≡ true)
kill_zero_marks_next_example = kill_zero_marks_next 0 1 init_runs first_zero first_free
