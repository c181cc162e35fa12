-- ===== src/Dinner/Tests.antt =====
-- A run of the dinner, and the theorems at its states.
use os_lab.Prelude.{ℕ, ◌<◌, ◌≡◌, ◌≢◌, refl, false, arith}
use os_lab.Semaphore.{sem_init, sem_acquire, sem_release, take_one}
use os_lab.Dinner.Defs.{Table, want_eating, run_one, init_table, Reach, action, acquire, next}
use os_lab.Dinner.Count.{holds}
use os_lab.Dinner.Progress.{
  neighbours_never_both_eat, no_deadlock, sleeper_waits_for_holder, is_eating,
}

-- Philosopher 0 says that it is ready, and takes both spoons; 1 comes next and sleeps.
abbrev eating : Table
eating = run_one (run_one (run_one (run_one init_table 0) 0) 0) 0

abbrev waiting : Table
waiting = run_one (run_one (run_one (run_one eating 1) 1) 1) 1

eating-Reach : Reach eating
unfolding run_one sem_init sem_acquire sem_release take_one
eating-Reach =
    Reach.later 0
      (Reach.later 0
        (Reach.later 0 (Reach.later 0 Reach.start (omega arith) refl) (omega arith) refl)
        (omega arith) refl)
      (omega arith) refl

waiting-Reach : Reach waiting
unfolding run_one sem_init sem_acquire sem_release take_one
waiting-Reach =
    Reach.later 1
      (Reach.later 1
        (Reach.later 1 (Reach.later 1 eating-Reach (omega arith) refl) (omega arith) refl)
        (omega arith) refl)
      (omega arith) refl

eating_at : eating.pc 0 ≡ want_eating
unfolding run_one sem_init sem_acquire sem_release take_one
eating_at = refl

neighbours_never_both_eat_example : is_eating (eating.pc 1) ≡ false
unfolding run_one sem_init sem_acquire sem_release take_one
neighbours_never_both_eat_example = neighbours_never_both_eat eating-Reach 0 (omega arith) refl

no_deadlock_example :
    (i : ℕ) × (i < 5)
    × (waiting.sleeping i ≡ false)
    × ((run_one waiting i).pc i ≡ next (waiting.pc i))
no_deadlock_example = no_deadlock waiting-Reach

sleeper_waits_for_holder_example :
    (k : ℕ) × (i : ℕ) × (action 1 (waiting.pc 1) ≡ acquire k)
    × (i < 5)
    × (0 < holds k i (waiting.pc i))
    × (i ≢ 1)
unfolding run_one sem_init sem_acquire sem_release take_one
sleeper_waits_for_holder_example = sleeper_waits_for_holder waiting-Reach 1 (omega arith) refl
