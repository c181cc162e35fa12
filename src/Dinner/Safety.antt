-- ===== src/Dinner/Safety.antt =====
-- What holds at every reachable table: who can eat, and that someone can go on.
use os_lab.Prelude.{
  ℕ, zero, suc, ◌+◌, ◌-◌, ◌≤◌, ◌<◌, ◌≡◌, ◌≢◌, refl, true, false, ◌==◌, arith, if◌then◌else◌, some,
  ℕ_discrete,
}
use os_lab.Dinner.Defs.{
  Pc, want_ready, Action, acquire, release, action, next, update, Table, act, run_one, init_table,
  Reach, start, later, wake, after_acquire,
}
use os_lab.Dinner.Count.{holds, holders, holders-update, Changes, holds-next}
use os_lab.Semaphore.Laws.{val_at, val_at-acquire, acquire-zero, val_at-release}
use os_lab.Semaphore.{
  sem_acquire, sem_release, sem_init, Spoons, SemResult, returned, asleep, out_of_array,
}
use os_lab.Prelude.Int.{pos}

-- How many philosophers hold semaphore `k`.
abbrev pub held : Table → ℕ → ℕ
held t k = holders k 5 t.pc

pub record Inv (t : Table) : Type 0 where
  pub counted : (k : ℕ) → k < 6 → (held t k ≤ 1) × (val_at t.spoons k ≡ some (pos (1 - held t k)))
  pub sleepers :
      (j : ℕ)
      → j < 5
      → t.sleeping j ≡ true
      → (k : ℕ) × (k < 6) × (action j (t.pc j) ≡ acquire k) × (held t k ≡ 1)

init-counted :
    (k : ℕ)
    → k < 6
    → (held init_table k ≤ 1) × (val_at init_table.spoons k ≡ some (pos (1 - held init_table k)))
unfolding sem_init holders
init-counted zero h = (omega arith, refl)
init-counted (suc zero) h = (omega arith, refl)
init-counted (suc (suc zero)) h = (omega arith, refl)
init-counted (suc (suc (suc zero))) h = (omega arith, refl)
init-counted (suc (suc (suc (suc zero)))) h = (omega arith, refl)
init-counted (suc (suc (suc (suc (suc zero))))) h = (omega arith, refl)
init-counted (suc (suc (suc (suc (suc (suc k)))))) h = absurd (omega arith)

Inv-init : Inv init_table
Inv-init = record { counted = init-counted; sleepers = λ j lt e. absurd (cc) }

-- The semaphore of a call is one of the six, and one that is released is held.
abbrev pub Target : ℕ → Pc → Action → Type 0
Target i p (acquire k) = k < 6
Target i p (release k) = (k < 6) × (0 < holds k i p)

pub action-Target : (i : ℕ) (p : Pc) → i < 5 → Target i p (action i p)
action-Target i want_ready h = ground arith
action-Target i p h = ground arith

module _ {t : Table} (inv : Inv t) (i : ℕ) (small : i < 5) (awake : t.sleeping i ≡ false) where
  moved :
      (k : ℕ)
      → holds k i (t.pc i) + holders k 5 (update t.pc i (next (t.pc i)))
        ≡ holds k i (next (t.pc i)) + held t k
  moved k = holders-update k i (next (t.pc i)) t.pc 5 small

  -- The table after a call that takes semaphore `k`.
  taken-Inv :
      (k : ℕ) (r : Spoons × SemResult)
      → ((j : ℕ) → Changes j i (t.pc i) (acquire k))
      → k < 6
      → held t k ≡ 0
      → r.1 ≡ returned (pos 0)
      → ((j : ℕ) → val_at r.0 j ≡ (if k == j then some (pos 0) else val_at t.spoons j))
      → Inv (after_acquire t i r)
  taken-Inv k (s, returned v) c lt zero_held e vals = record {
    counted = λ j jlt. ground (arith, moved j, c j, vals j, inv.counted j jlt);
    sleepers = λ j jlt asl.
        let (m, mlt, act_j, one_held) = inv.sleepers j jlt asl in
        (m, mlt, ground arith, ground (arith, moved m, c m));
  }
  taken-Inv k (s, asleep) c lt zero_held e vals = absurd (cc)
  taken-Inv k (s, out_of_array) c lt zero_held e vals = absurd (cc)

  slept-Inv :
      (k : ℕ)
      → action i (t.pc i) ≡ acquire k
      → k < 6
      → held t k ≡ 1
      → Inv (record t { sleeping = update t.sleeping i true })
  slept-Inv k e lt one_held = record {
    counted = inv.counted;
    sleepers = λ j jlt asl. elim (ℕ_discrete i j) [
      | yes same ↦ (k, lt, ground (arith, e, same), one_held)
      | no other ↦ inv.sleepers j jlt (ground arith)
    ];
  }

  released-Inv :
      (k : ℕ) (s : Spoons)
      → ((j : ℕ) → Changes j i (t.pc i) (release k))
      → k < 6
      → 0 < holds k i (t.pc i)
      → ((j : ℕ) → val_at s j ≡ (if k == j then some (pos 1) else val_at t.spoons j))
      → Inv (record { spoons = s; pc = update t.pc i (next (t.pc i)); sleeping = wake t k })
  released-Inv k s c lt mine vals = record {
    counted = λ j jlt. ground (arith, moved j, c j, vals j, inv.counted j jlt);
    sleepers = λ j jlt asl.
        let was : t.sleeping j ≡ true = ground arith in
        let (m, mlt, act_j, one_held) = inv.sleepers j jlt was in
        let other : i ≢ j = λ same. ground arith in
        let apart : k ≢ m = λ same. ground (arith, act_j) in
        (m, mlt, ground arith, ground (arith, moved m, c m));
  }

  act-Inv :
      (a : Action)
      → action i (t.pc i) ≡ a
      → ((k : ℕ) → Changes k i (t.pc i) a)
      → Target i (t.pc i) a
      → Inv (act t i a)
  act-Inv (acquire k) e c lt = elim (ℕ_discrete (held t k) 0) [
    | yes free ↦
        let one : val_at t.spoons k ≡ some (pos 1) = ground (arith, inv.counted k lt) in
        taken-Inv k (sem_acquire t.spoons k) c lt free (val_at-acquire t.spoons k one).0
          (val_at-acquire t.spoons k one).1
    | no busy ↦
        let none_left : val_at t.spoons k ≡ some (pos 0) = ground (arith, inv.counted k lt) in
        rw (acquire-zero t.spoons k none_left) (slept-Inv k e lt (ground (arith, inv.counted k lt)))
  ]
  act-Inv (release k) e c tg =
      let taken : held t k ≡ 1 = ground (arith, inv.counted k tg.0, moved k, c k) in
      let none_left : val_at t.spoons k ≡ some (pos 0) = ground (arith, inv.counted k tg.0) in
      released-Inv k (sem_release t.spoons k).0 c tg.0 tg.1 (val_at-release t.spoons k none_left)

  pub run_one-Inv : Inv (run_one t i)
  unfolding run_one
  run_one-Inv =
      act-Inv (action i (t.pc i)) refl (λ k. holds-next k i (t.pc i) small)
        (action-Target i (t.pc i) small)

pub Reach-Inv : {t : Table} → Reach t → Inv t
Reach-Inv start = Inv-init
Reach-Inv (later i r small awake) = run_one-Inv (Reach-Inv r) i small awake
