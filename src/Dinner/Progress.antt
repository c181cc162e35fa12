-- ===== src/Dinner/Progress.antt =====
-- Neighbours do not eat together, and some philosopher can always go on.
use os_lab.Prelude.{
  ℕ, zero, suc, ◌<◌, ◌≡◌, ◌≢◌, refl, Bool, true, false, ◌==◌, arith, some, inl, inr, ◌||◌, dec_lt,
  ℕ_discrete, Bool-cases, subst,
}
use os_lab.Dinner.Defs.{
  Pc, want_ready, want_eating, print_eating, put_right, right, first, second, Action, acquire,
  release, action, next, Table, act, run_one, Reach, after_acquire,
}
use os_lab.Dinner.Count.{holds, holders-two, some_holder}
use os_lab.Dinner.Safety.{held, Reach-Inv, Target, action-Target}
use os_lab.Semaphore.Laws.{val_at, val_at-acquire}
use os_lab.Semaphore.{sem_acquire, Spoons, SemResult, returned, asleep, out_of_array}
use os_lab.Prelude.Int.{pos}

-- The points between taking the second spoon and putting down the first.
abbrev pub is_eating : Pc → Bool
is_eating want_eating = true
is_eating print_eating = true
is_eating put_right = true
is_eating p = false

eating-holds :
    (k i : ℕ) (p : Pc) → is_eating p ≡ true → (k == i || k == right i) ≡ true → 0 < holds k i p
eating-holds k i want_eating e h = ground arith
eating-holds k i p e h = ground arith

-- No two philosophers hold one semaphore, spoon or print lock, at a time.
pub holders_differ :
    {t : Table}
    → Reach t
    → (k i j : ℕ) → k < 6
    → i < 5
    → j < 5
    → 0 < holds k i (t.pc i)
    → 0 < holds k j (t.pc j)
    → i ≡ j
holders_differ {t} r k i j lt il jl hi hj = elim (dec_lt i j) [
  | yes h ↦ absurd (omega (arith, holders-two k i j t.pc 5 h jl, (Reach-Inv r).counted k lt))
  | no h ↦ elim (dec_lt j i) [
    | yes g ↦ absurd (omega (arith, holders-two k j i t.pc 5 g il, (Reach-Inv r).counted k lt))
    | no g ↦ omega arith
  ]
]

-- Philosophers who share a spoon never eat at the same time, in any reachable state.
pub neighbours_never_both_eat :
    {t : Table}
    → Reach t
    → (i : ℕ) → i < 5
    → is_eating (t.pc i) ≡ true
    → is_eating (t.pc (right i)) ≡ false
neighbours_never_both_eat {t} r i lt e = elim (Bool-cases (is_eating (t.pc (right i)))) [
  | inr f ↦ f
  | inl both ↦ absurd (
      omega (
        arith,
        holders_differ r (right i) i (right i) (omega arith) lt (omega arith)
            (eating-holds (right i) i (t.pc i) e (ground arith))
            (eating-holds (right i) (right i) (t.pc (right i)) both (ground arith)),
      ))
]

-- A call that will go through: a release, or an acquire of a free semaphore.
abbrev Ready : Table → Action → Type 0
Ready t (acquire k) = held t k ≡ 0
Ready t (release k) = Unit {0}

abbrev SomeReady : Table → Type 0
SomeReady t = (i : ℕ) × (i < 5) × Ready t (action i (t.pc i))

-- Who holds the print lock is about to release it.
printer-Ready : (t : Table) (i : ℕ) (p : Pc) → i < 5 → 0 < holds 5 i p → Ready t (action i p)
printer-Ready t i want_ready lt h = absurd (omega arith)
printer-Ready t i p lt h = ground arith

-- With the print lock free, who holds a spoon can go on, unless it waits for its second spoon.
holder-Ready :
    (t : Table) (k i : ℕ) (p : Pc)
    → held t 5 ≡ 0
    → i < 5
    → 0 < holds k i p
    → (k ≡ first i → held t (second i) ≡ 0)
    → Ready t (action i p)
holder-Ready t k i want_ready free lt h s = absurd (omega arith)
holder-Ready t k i p free lt h s = ground arith

module _ (t : Table) (free : held t 5 ≡ 0) where
  spoon_ready :
      (k : ℕ) → ((i : ℕ) → i < 5 → k ≡ first i → held t (second i) ≡ 0) → 0 < held t k → SomeReady t
  spoon_ready k s h =
      let (i, lt, mine) = some_holder k t.pc 5 h in
      (i, lt, holder-Ready t k i (t.pc i) free lt mine (s i lt))

  -- With all semaphores free, philosopher 0 can go on.
  zero-Ready : (p : Pc) → held t 0 ≡ 0 → held t 1 ≡ 0 → Ready t (action 0 p)
  zero-Ready want_ready h g = free
  zero-Ready p h g = ground arith

  second_of_zero : (i : ℕ) → i < 5 → 0 ≡ first i → held t 1 ≡ 0 → held t (second i) ≡ 0
  second_of_zero zero lt e h = h
  second_of_zero (suc i) lt e h = absurd (ground arith)

  free_ready : SomeReady t
  free_ready = elim (ℕ_discrete (held t 1) 0) [
    | no h ↦ spoon_ready 1 (λ i lt e. absurd (ground arith)) (omega arith)
    | yes one ↦ elim (ℕ_discrete (held t 3) 0) [
      | no h ↦ spoon_ready 3 (λ i lt e. absurd (ground arith)) (omega arith)
      | yes three ↦ elim (ℕ_discrete (held t 0) 0) [
        | no h ↦ spoon_ready 0 (λ i lt e. second_of_zero i lt e one) (omega arith)
        | yes none ↦ (0, omega arith, zero-Ready (t.pc 0) none one)
      ]
    ]
  ]

some_ready : (t : Table) → SomeReady t
some_ready t = elim (ℕ_discrete (held t 5) 0) [
  | yes free ↦ free_ready t free
  | no busy ↦
      let (i, lt, mine) = some_holder 5 t.pc 5 (omega arith) in
      (i, lt, printer-Ready t i (t.pc i) lt mine)
]

next-ne : (p : Pc) → next p ≢ p
next-ne want_ready = cc
next-ne p = cc

module _ {t : Table} (r : Reach t) (i : ℕ) (lt : i < 5) where
  Ready-awake : Ready t (action i (t.pc i)) → t.sleeping i ≡ false
  Ready-awake rd = elim (Bool-cases (t.sleeping i)) [
    | inr awake ↦ awake
    | inl asl ↦
        let (k, klt, waits, busy) = (Reach-Inv r).sleepers i lt asl in
        absurd (held_not_free k busy (subst (λ a. Ready t a) waits rd))
  ]
    where
      held_not_free : (k : ℕ) → held t k ≡ 1 → held t k ≡ 0 → ⊥
      held_not_free k a b = omega arith

  after_acquire-moves :
      (s : Spoons × SemResult) → s.1 ≡ returned (pos 0) → (after_acquire t i s).pc i ≡ next (t.pc i)
  after_acquire-moves (s, returned v) e = ground arith
  after_acquire-moves (s, asleep) e = absurd (cc)
  after_acquire-moves (s, out_of_array) e = absurd (cc)

  act-moves :
      (a : Action)
      → action i (t.pc i) ≡ a
      → Target i (t.pc i) a
      → Ready t a
      → (act t i a).pc i ≡ next (t.pc i)
  act-moves (acquire k) e tg free =
      let one : val_at t.spoons k ≡ some (pos 1) = ground (arith, (Reach-Inv r).counted k tg) in
      after_acquire-moves (sem_acquire t.spoons k) (val_at-acquire t.spoons k one).0
  act-moves (release k) e tg free = ground arith

  Ready-moves : Ready t (action i (t.pc i)) → (run_one t i).pc i ≡ next (t.pc i)
  unfolding run_one
  Ready-moves rd = act-moves (action i (t.pc i)) refl (action-Target i (t.pc i) lt) rd

-- No deadlock: in every reachable state some philosopher is awake, and its next semaphore call goes
-- through and takes it to its next point.
pub no_deadlock :
    {t : Table}
    → Reach t
    → (i : ℕ) × (i < 5) × (t.sleeping i ≡ false) × ((run_one t i).pc i ≡ next (t.pc i))
no_deadlock {t} r =
    let (i, lt, rd) = some_ready t in (i, lt, Ready-awake r i lt rd, Ready-moves r i lt rd)

waiter_lacks : (k j : ℕ) (p : Pc) → j < 5 → action j p ≡ acquire k → holds k j p ≡ 0
waiter_lacks k j want_ready lt e = refl
waiter_lacks k j p lt e = ground arith

-- No wakeup is lost: a philosopher that sleeps waits for a semaphore that another one holds.
pub sleeper_waits_for_holder :
    {t : Table}
    → Reach t
    → (j : ℕ) → j < 5
    → t.sleeping j ≡ true
    → (k : ℕ) × (i : ℕ) × (action j (t.pc j) ≡ acquire k)
      × (i < 5)
      × (0 < holds k i (t.pc i))
      × (i ≢ j)
sleeper_waits_for_holder {t} r j lt asl =
    let (k, klt, waits, busy) = (Reach-Inv r).sleepers j lt asl in
    let (i, il, mine) = some_holder k t.pc 5 (omega arith) in
    (k, i, waits, il, mine, λ same. absurd (lacks i k same mine waits))
  where
    lacks : (i k : ℕ) → i ≡ j → 0 < holds k i (t.pc i) → action j (t.pc j) ≡ acquire k → ⊥
    lacks i k e h a = ground (arith, waiter_lacks k j (t.pc j) lt a)
