-- ===== src/Dinner/Defs.antt =====
-- The program of one philosopher, and the system of the five.
use os_lab.Prelude.{ℕ, zero, suc, ◌+◌, ◌%◌, ◌<◌, ◌≡◌, Bool, true, false, ◌==◌, if◌then◌else◌}
use os_lab.Prelude.Int.{pos}
use os_lab.Semaphore.{
  Spoons, SemResult, returned, asleep, out_of_array, spoons_at_boot, sem_init, sem_acquire,
  sem_release,
}

-- Where a philosopher stands: before the call that the comment names. The calls of sleep and printf
-- between them touch no semaphore.
pub data Pc : Type 0 where
  -- sem_acquire(5), sem_release(5) round "ready"
  want_ready print_ready : Pc
  -- the two spoons, in the order of the branch
  want_first want_second : Pc
  -- sem_acquire(5), sem_release(5) round "started eating", with both spoons
  want_eating print_eating : Pc
  -- sem_release((phil_id+1)%5), sem_release(phil_id)
  put_right put_left : Pc
  -- sem_acquire(5), sem_release(5) round "is thinking"
  want_thinking print_thinking : Pc

abbrev pub right : ℕ → ℕ
right i = (i + 1) % 5

abbrev pub is_even : ℕ → Bool
is_even i = i % 2 == 0

abbrev pub first : ℕ → ℕ
first i = if is_even i then i else right i

abbrev pub second : ℕ → ℕ
second i = if is_even i then right i else i

pub data Action : Type 0 where
  acquire release : ℕ → Action

-- The semaphore call at each point, and the point after it.
abbrev pub action : ℕ → Pc → Action
action i want_ready = acquire 5
action i print_ready = release 5
action i want_first = acquire (first i)
action i want_second = acquire (second i)
action i want_eating = acquire 5
action i print_eating = release 5
action i put_right = release (right i)
action i put_left = release i
action i want_thinking = acquire 5
action i print_thinking = release 5

abbrev pub next : Pc → Pc
next want_ready = print_ready
next print_ready = want_first
next want_first = want_second
next want_second = want_eating
next want_eating = print_eating
next print_eating = put_right
next put_right = put_left
next put_left = want_thinking
next want_thinking = print_thinking
next print_thinking = want_first

pub record Table : Type 0 where
  pub spoons : Spoons
  pub pc : ℕ → Pc
  pub sleeping : ℕ → Bool

abbrev pub update {ℓ} : {A : Type ℓ} → (ℕ → A) → ℕ → A → ℕ → A
update f i a j = if i == j then a else f j

-- Does the action wait on semaphore `k`?
abbrev pub waits_on : Action → ℕ → Bool
waits_on (acquire j) k = j == k
waits_on (release j) k = false

-- wakeup(&spoons[k])
abbrev pub wake : Table → ℕ → ℕ → Bool
wake t k j = if waits_on (action j (t.pc j)) k then false else t.sleeping j

abbrev pub after_acquire : Table → ℕ → Spoons × SemResult → Table
after_acquire t i (s, returned v) = record {
  spoons = s;
  pc = update t.pc i (next (t.pc i));
  sleeping = t.sleeping;
}
after_acquire t i (s, asleep) = record t { sleeping = update t.sleeping i true }
after_acquire t i (s, out_of_array) = t

abbrev pub after_release : Table → ℕ → ℕ → Spoons × SemResult → Table
after_release t i k r = record {
  spoons = r.0;
  pc = update t.pc i (next (t.pc i));
  sleeping = wake t k;
}

abbrev pub act : Table → ℕ → Action → Table
act t i (acquire k) = after_acquire t i (sem_acquire t.spoons k)
act t i (release k) = after_release t i k (sem_release t.spoons k)

-- Process `i` runs to its next semaphore call and through it. One that has been woken runs the loop
-- of sem_acquire again, which is sem_acquire (Semaphore.Laws).
unfoldable pub run_one : Table → ℕ → Table
run_one t i = act t i (action i (t.pc i))

-- The six calls of `sem_init(i,1)`.
abbrev pub init_spoons : ℕ → Spoons → Spoons
init_spoons zero s = s
init_spoons (suc n) s = (sem_init (init_spoons n s) n (pos 1)).0

abbrev pub init_table : Table
init_table = record {
  spoons = init_spoons 6 spoons_at_boot;
  pc = λ _. want_ready;
  sleeping = λ _. false;
}

-- Any philosopher that is not asleep may run next.
pub data Reach : Table → Type 0 where
  start : Reach init_table
  later : {t : Table} (i : ℕ) → Reach t → i < 5 → t.sleeping i ≡ false → Reach (run_one t i)
