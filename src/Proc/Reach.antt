-- ===== src/Proc/Reach.antt =====
-- The states that the kernel's process table reaches, and what holds in each of them.
use os_lab.Prelude.{
  ℕ, ◌<◌, ◌≡◌, ◌≢◌, inl, inr, refl, ap, Bool, true, Option, none, some, arith, Bool-cases, subst,
  ◌==◌,
}
use os_lab.Proc.Defs.{Proc, Ptable, running, Chan, nproc, put, find_slot, empty_table, is_runnable}
use os_lab.Proc.Birth.{fork, userinit, user_into, allocproc, alloc_at}
use os_lab.Proc.Steps.{
  exit, wait, kill, kill_at, sleep, awake, wakeup, wakeup1, yield, schedule, get_parent_pid,
}
use os_lab.Proc.Family.{Inv, Quiet-Inv, is_alive, in_use}
use os_lab.Proc.Lifecycle.{fork-Inv}
use os_lab.Proc.Ends.{exit-Inv, wait-Inv}

-- Slot 0 becomes init.
abbrev pub Runs : ℕ → Ptable → Type 0
Runs cur t = (cur < nproc) × ((t.proc cur).state ≡ running)

pub data Step (t : Ptable) : Ptable → Type 0 where
  forks : (stack copied : Bool) (cur : ℕ) → Runs cur t → Step t (fork stack copied cur t).0
  exits : (cur : ℕ) {t1 : Ptable} → Runs cur t → exit 0 cur t ≡ some t1 → Step t t1
  waits_for : (cur : ℕ) → Runs cur t → Step t (wait cur t).0
  kills : (pid : ℕ) → Step t (kill pid t).0
  sleeps : (cur : ℕ) (c : Chan) → Runs cur t → Step t (sleep cur c t)
  returns : (cur : ℕ) → Runs cur t → Step t (awake cur t)
  wakes : (c : Chan) → Step t (wakeup c t)
  yields : (cur : ℕ) → Runs cur t → Step t (yield cur t)
  schedules : (i : ℕ) → Step t (schedule i t)

pub data Reach (root : ℕ) : Ptable → Type 0 where
  booted : {t : Ptable} → userinit root empty_table ≡ some t → Reach root t
  stepped : {t u : Ptable} → Reach root t → Step t u → Reach root u

module _ {init : ℕ} {t : Ptable} (inv : Inv init t) where
  -- A change of one slot that keeps its pid and parent and whether it is alive.
  put-Inv :
      (i : ℕ) (p : Proc)
      → p.pid ≡ (t.proc i).pid
      → p.parent ≡ (t.proc i).parent
      → is_alive p.state ≡ is_alive (t.proc i).state
      → in_use p.state ≡ in_use (t.proc i).state
      → Inv init (record t { proc = put t.proc i p })
  put-Inv i p pid parent alive used =
      Quiet-Inv
        (record {
          pid = λ j. ground arith;
          parent = λ j. ground arith;
          alive = λ j. ground arith;
          used = λ j. ground arith;
        })
        inv

  kill_at-Inv : (o : Option ℕ) → Inv init (kill_at t o).0
  unfolding kill_at
  kill_at-Inv none = inv
  kill_at-Inv (some i) = put-Inv i _ refl refl (ground arith) (ground arith)

  wakeup-Inv : (c : Chan) → Inv init (wakeup c t)
  unfolding wakeup wakeup1
  wakeup-Inv c =
      Quiet-Inv
        (record {
          pid = λ j. ground arith;
          parent = λ j. ground arith;
          alive = λ j. ground arith;
          used = λ j. ground arith;
        })
        inv

  schedule-Inv : (i : ℕ) → Inv init (schedule i t)
  unfolding schedule
  schedule-Inv i = elim (Bool-cases (is_runnable (t.proc i).state)) [
    | inl h ↦ rw (schedule, h) (put-Inv i _ refl refl (ground arith) (ground arith))
    | inr h ↦ rw (schedule, h) inv
  ]

Runs-alive : (cur : ℕ) (t : Ptable) → Runs cur t → is_alive (t.proc cur).state ≡ true
Runs-alive cur t (lt, run) = ground arith

step-Inv : {t u : Ptable} → Step t u → Inv 0 t → Inv 0 u
unfolding kill sleep awake yield
step-Inv {t} (forks stack copied cur r) inv = fork-Inv inv stack copied cur r.0 (Runs-alive cur t r)
step-Inv {t} (exits cur r e) inv = exit-Inv 0 cur t inv (Runs-alive cur t r) e
step-Inv {t} (waits_for cur r) inv = wait-Inv 0 cur t inv (Runs-alive cur t r)
step-Inv {t} (kills pid) inv = kill_at-Inv inv (find_slot (λ p. p.pid == pid) nproc 0 t.proc)
step-Inv {t} (sleeps cur c (lt, run)) inv =
    put-Inv inv cur _ refl refl (ground arith) (ground arith)
step-Inv {t} (returns cur (lt, run)) inv = put-Inv inv cur _ refl refl refl refl
step-Inv {t} (wakes c) inv = wakeup-Inv inv c
step-Inv {t} (yields cur (lt, run)) inv = put-Inv inv cur _ refl refl (ground arith) (ground arith)
step-Inv {t} (schedules i) inv = schedule-Inv inv i

the_table : Option Ptable → Ptable
the_table none = empty_table
the_table (some t) = t

boot-Inv : (root : ℕ) {t : Ptable} → userinit root empty_table ≡ some t → Inv 0 t
unfolding userinit user_into allocproc alloc_at find_slot the_table
boot-Inv root {t} e =
    subst (λ x. Inv 0 x) (ap the_table e)
      (record {
        init_slot = omega arith;
        init_alive = refl;
        bounds = λ i lt u. ground arith;
        unique = λ i j il jl ui uj same. ground arith;
        family = λ i lt u ne. absurd (ground arith);
      })

pub Reach-Inv : {root : ℕ} {t : Ptable} → Reach root t → Inv 0 t
Reach-Inv {root} (booted e) = boot-Inv root e
Reach-Inv (stepped r s) = step-Inv s (Reach-Inv r)

-- In every reachable state, the parent's pid that a running process other than init gets is that of a
-- process that is alive.
pub get_parent_pid_lem :
    {root : ℕ} {t : Ptable} (cur : ℕ)
    → Reach root t
    → Runs cur t
    → cur ≢ 0
    → (p : ℕ) × (p < nproc)
      × (is_alive (t.proc p).state ≡ true)
      × (get_parent_pid cur t ≡ some (t.proc p).pid)
unfolding get_parent_pid
get_parent_pid_lem {root} {t} cur r (lt, run) ne =
    let (p, e, pl, a) = (Reach-Inv r).family cur lt (ap in_use (run)) ne in
    (p, pl, a, rw (get_parent_pid, e) refl)
