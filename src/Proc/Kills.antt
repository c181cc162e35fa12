-- ===== src/Proc/Kills.antt =====
-- What `kill` of xv6-core/proc.c does to the slot that it finds.
use os_lab.Prelude.{
  ℕ, zero, suc, ◌+◌, ◌<◌, ◌≡◌, ◌≢◌, ◌⊎◌, inl, inr, refl, Bool, true, false, Option, some, none,
  arith, ◌∙◌, sym, ◌==◌, subst,
}
use os_lab.Proc.Defs.{Proc, Ptable, nproc, is_unused, find_slot, sleeping}
use os_lab.Proc.Birth.{fork, fork_into, allocproc, alloc_at, child_of}
use os_lab.Proc.Steps.{kill, kill_at}
use os_lab.Proc.Scan.{find_slot-some, find_slot-none}

find_slot-ext :
    (test : Proc → Bool) (f g : ℕ → Proc)
    → ((j : ℕ) → test (f j) ≡ test (g j))
    → (n i : ℕ) → find_slot test n i f ≡ find_slot test n i g
unfolding find_slot
find_slot-ext test f g h zero i = refl
find_slot-ext test f g h (suc n) i = ground (arith, h i, find_slot-ext test f g h n (i + 1))

module _ (t : Ptable) (pid : ℕ) where
  -- What kill does once the search for the pid has ended.
  abbrev pub Killed : Ptable × Bool → Type 0
  Killed r =
      ((r ≡ (t, false)) × ((j : ℕ) → j < nproc → ((t.proc j).pid == pid) ≡ false))
      ⊎ ((k : ℕ) × (k < nproc)
          × ((t.proc k).pid ≡ pid)
          × (r.1 ≡ true)
          × ((r.0.proc k).killed ≡ true)
          × ((r.0.proc k).state ≢ sleeping)
          × ((j : ℕ) → k ≢ j → r.0.proc j ≡ t.proc j))

  kill_at-Killed :
      (o : Option ℕ) → find_slot (λ p. p.pid == pid) nproc 0 t.proc ≡ o → Killed (kill_at t o)
  unfolding kill_at
  kill_at-Killed none e = inl (
    refl,
    λ j lt. find_slot-none (λ p. p.pid == pid) t.proc nproc 0 e j (omega arith) (omega arith),
  )
  kill_at-Killed (some k) e =
      let (lo, hi, here, first) = find_slot-some (λ p. p.pid == pid) t.proc nproc 0 {k = k} e in
      inr (
        k,
        omega arith,
        ground (arith, here),
        refl,
        ground arith,
        (λ h. ground arith),
        λ j ne. ground arith,
      )

  -- If a slot of the table has the pid, kill marks such a slot, wakes its process if it sleeps, changes
  -- no other slot and reports success; if none has it, kill fails and changes nothing.
  pub kill_lem : Killed (kill pid t)
  unfolding kill
  kill_lem = kill_at-Killed (find_slot (λ p. p.pid == pid) nproc 0 t.proc) refl

module _ (cur k : ℕ) (t : Ptable) where
  KilledAtBirth : Ptable × Bool → Option ℕ → Type 0
  KilledAtBirth a o =
      let b = alloc_at true a.0 o in
      let c = fork_into true cur (a.0.proc cur) b.0 b.1 in
      (a.1 ≡ true) × (c.1 ≡ some t.nextpid) × ((c.0.proc k).killed ≡ true)

  born_killed : KilledAtBirth (kill_at t (some k)) (some k)
  unfolding KilledAtBirth kill_at alloc_at fork_into child_of
  born_killed = (refl, ground arith, ground arith)

  -- If the first slot with pid 0 is the first unused slot, kill(0) succeeds, and the process that a
  -- fork with memory at hand then puts into the slot is killed from birth.
  pub kill_zero_marks_next :
      find_slot (λ p. p.pid == 0) nproc 0 t.proc ≡ some k
      → find_slot (λ p. is_unused p.state) nproc 0 t.proc ≡ some k
      → ((kill 0 t).1 ≡ true)
        × ((fork true true cur (kill 0 t).0).1 ≡ some t.nextpid)
        × (((fork true true cur (kill 0 t).0).0.proc k).killed ≡ true)
  unfolding kill fork allocproc KilledAtBirth kill_at
  kill_zero_marks_next zero_pid free =
      let same =
        find_slot-ext (λ p. is_unused p.state) (kill_at t (some k)).0.proc t.proc
          (λ j. ground arith) nproc 0
        ∙ free in
      subst
        (λ o.
          KilledAtBirth (kill_at t o)
            (find_slot (λ p. is_unused p.state) nproc 0 (kill_at t o).0.proc))
        (sym zero_pid) (subst (λ o. KilledAtBirth (kill_at t (some k)) o) (sym same) born_killed)
