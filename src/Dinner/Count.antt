-- ===== src/Dinner/Count.antt =====
-- How many philosophers hold a semaphore.
use os_lab.Prelude.{
  ℕ, zero, suc, ◌+◌, ◌≤◌, ◌<◌, ◌≡◌, refl, Bool, true, false, ◌==◌, arith, ◌||◌, ℕ_discrete,
}
use os_lab.Dinner.Defs.{
  Pc, want_ready, print_ready, want_first, want_second, want_eating, print_eating, put_right,
  put_left, want_thinking, print_thinking, right, first, Action, acquire, release, action, next,
  update,
}

abbrev pub one_if : Bool → ℕ
one_if true = 1
one_if false = 0

-- How often philosopher `i`, at a point, holds semaphore `k`.
abbrev pub holds : ℕ → ℕ → Pc → ℕ
holds k i want_ready = 0
holds k i print_ready = one_if (k == 5)
holds k i want_first = 0
holds k i want_second = one_if (k == first i)
holds k i want_eating = one_if (k == i || k == right i)
holds k i print_eating = one_if (k == i || k == right i || k == 5)
holds k i put_right = one_if (k == i || k == right i)
holds k i put_left = one_if (k == i)
holds k i want_thinking = 0
holds k i print_thinking = one_if (k == 5)

module _ (k : ℕ) where
  -- How many of the philosophers below `n` hold semaphore `k`, each counted by its holdings.
  unfoldable pub holders : ℕ → (ℕ → Pc) → ℕ
  holders zero pc = 0
  holders (suc n) pc = holds k n (pc n) + holders n pc

  holders-elsewhere :
      (i : ℕ) (p : Pc) (pc : ℕ → Pc) (n : ℕ) → n ≤ i → holders n (update pc i p) ≡ holders n pc
  unfolding holders
  holders-elsewhere i p pc zero out = refl
  holders-elsewhere i p pc (suc n) out = ground (arith, holders-elsewhere i p pc n)

  -- One philosopher's move changes the count by the change of its own holdings.
  pub holders-update :
      (i : ℕ) (p : Pc) (pc : ℕ → Pc) (n : ℕ)
      → i < n
      → holds k i (pc i) + holders n (update pc i p) ≡ holds k i p + holders n pc
  unfolding holders
  holders-update i p pc zero inside = absurd (omega arith)
  holders-update i p pc (suc n) inside = elim (ℕ_discrete i n) [
    | yes top ↦ ground (arith, top, holders-elsewhere i p pc n)
    | no under ↦ ground (arith, under, holders-update i p pc n (omega arith))
  ]

  holders-one : (i : ℕ) (pc : ℕ → Pc) (n : ℕ) → i < n → holds k i (pc i) ≤ holders n pc
  unfolding holders
  holders-one i pc zero inside = absurd (omega arith)
  holders-one i pc (suc n) inside = elim (ℕ_discrete i n) [
    | yes top ↦ ground (arith, top)
    | no under ↦ omega (arith, under, holders-one i pc n (omega arith))
  ]

  -- Two different holders count as two.
  pub holders-two :
      (i j : ℕ) (pc : ℕ → Pc) (n : ℕ)
      → i < j
      → j < n
      → holds k i (pc i) + holds k j (pc j) ≤ holders n pc
  unfolding holders
  holders-two i j pc zero order inside = absurd (omega arith)
  holders-two i j pc (suc n) order inside = elim (ℕ_discrete j n) [
    | yes top ↦ ground (arith, top, holders-one i pc n)
    | no under ↦ omega (arith, under, holders-two i j pc n order (omega arith))
  ]

  -- If the count is positive, it counts someone.
  pub some_holder :
      (pc : ℕ → Pc) (n : ℕ) → 0 < holders n pc → (i : ℕ) × (i < n) × (0 < holds k i (pc i))
  unfolding holders
  some_holder pc zero h = absurd (omega arith)
  some_holder pc (suc n) h = elim (ℕ_discrete (holds k n (pc n)) 0) [
    | no here ↦ (n, omega arith, omega arith)
    | yes none_here ↦ let r = some_holder pc n (omega arith) in (r.0, omega (arith, r.1), r.2)
  ]

-- What a call changes in the holdings of its caller: one semaphore more, or one less.
abbrev pub Changes : ℕ → ℕ → Pc → Action → Type 0
Changes k i p (acquire j) = holds k i (next p) ≡ holds k i p + one_if (k == j)
Changes k i p (release j) = holds k i p ≡ holds k i (next p) + one_if (k == j)

pub holds-next : (k i : ℕ) (p : Pc) → i < 5 → Changes k i p (action i p)
holds-next k i want_ready h = ground arith
holds-next k i p h = ground arith
