-- ===== src/Semaphore/Defs.antt =====
-- The data and functions of the semaphores. Each function runs under the semaphore's spin lock, up
-- to its return or its sleep; `sem_acquire` that sleeps runs `acquire_loop` when it wakes.
use os_lab.Prelude.{
  ℕ, Bool, true, false, not, none, some, List, if◌then◌else◌, get_elem?, set, replicate,
}
use os_lab.Prelude.Int.{ℤ, pos, minus_one, is_pos, inc, dec}

-- `struct semaphore`, less its spin lock. `locked` is only tested against 0.
pub record Semaphore : Type 0 where
  pub val : ℤ
  pub owner : ℤ
  pub locked : Bool

abbrev pub Spoons : Type 0
Spoons = List Semaphore

-- A call returns a value, sleeps on the semaphore's address, or has read outside the array.
pub data SemResult : Type 0 where
  returned : ℤ → SemResult
  asleep : SemResult
  out_of_array : SemResult

-- The array as the kernel starts with it: six zeroed entries.
abbrev pub spoons_at_boot : Spoons
spoons_at_boot = replicate 6 (record { val = pos 0; owner = pos 0; locked = false })

unfoldable pub init_one : Semaphore → ℤ → Semaphore × SemResult
init_one x v =
    if x.locked
    then (x, returned minus_one)
    else (record { val = v; owner = minus_one; locked = true }, returned (pos 0))

-- `spoons[i].owner = i; spoons[i].val -= 1;`
unfoldable pub take_one : Semaphore → ℕ → Semaphore
take_one x i = record x { owner = pos i; val = dec x.val }

-- The `while` loop of the `else` branch, from its test on.
unfoldable pub loop_one : Semaphore → ℕ → Semaphore × SemResult
loop_one x i = if not (is_pos x.val) then (x, asleep) else (take_one x i, returned (pos 0))

unfoldable pub acquire_one : Semaphore → ℕ → Semaphore × SemResult
unfolding loop_one
acquire_one x i = if is_pos x.val then (take_one x i, returned (pos 0)) else loop_one x i

unfoldable pub release_one : Semaphore → Semaphore × SemResult
release_one x = (record x { owner = minus_one; val = inc x.val }, returned (pos 0))

-- The call at `spoons[i]`. The code does not compare `i` with the size of the array.
unfoldable pub at_spoon : Spoons → ℕ → (Semaphore → Semaphore × SemResult) → Spoons × SemResult
at_spoon s i f = elim (get_elem? s i) [
  | none ↦ (s, out_of_array)
  | some x ↦ (set s i (f x).0, (f x).1)
]

unfoldable pub sem_init : Spoons → ℕ → ℤ → Spoons × SemResult
unfolding init_one at_spoon
sem_init s i v = at_spoon s i (λ x. init_one x v)

unfoldable pub sem_acquire : Spoons → ℕ → Spoons × SemResult
unfolding acquire_one at_spoon
sem_acquire s i = at_spoon s i (λ x. acquire_one x i)

-- What a sleeper does when it is woken.
unfoldable pub acquire_loop : Spoons → ℕ → Spoons × SemResult
unfolding loop_one at_spoon
acquire_loop s i = at_spoon s i (λ x. loop_one x i)

-- It also wakes every process that sleeps on `&spoons[i]`.
unfoldable pub sem_release : Spoons → ℕ → Spoons × SemResult
unfolding release_one at_spoon
sem_release s i = at_spoon s i release_one
