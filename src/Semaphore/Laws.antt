-- ===== src/Semaphore/Laws.antt =====
-- What the semaphore functions do, on every branch.
use os_lab.Prelude.{
  ℕ, zero, suc, ◌≡◌, ap, ◌∙◌, refl, true, none, some, List, [], ◌∷◌, if◌then◌else◌, ◌==◌, get_elem?,
  set, arith, Bool-cases, inl, inr, Option,
}
use os_lab.Prelude.Int.{ℤ, pos, minus_one, is_pos, dec, inc-dec, inc}
use os_lab.Semaphore.Defs.{
  Semaphore, Spoons, SemResult, returned, asleep, init_one, at_spoon, sem_init, sem_acquire,
  sem_release, acquire_loop, acquire_one, loop_one, release_one, take_one,
}

pub get_elem?-set_self {ℓ} :
    {A : Type ℓ} (s : List A) (i : ℕ) (x y : A)
    → get_elem? s i ≡ some x
    → get_elem? (set s i y) i ≡ some y
get_elem?-set_self [] i x y h = cc
get_elem?-set_self (z ∷ s) zero x y h = refl
get_elem?-set_self (z ∷ s) (suc i) x y h = get_elem?-set_self s i x y h

set_same {ℓ} : {A : Type ℓ} (s : List A) (i : ℕ) (x : A) → get_elem? s i ≡ some x → set s i x ≡ s
set_same [] i x h = refl
set_same (z ∷ s) zero x h = ground arith
set_same (z ∷ s) (suc i) x h = ap (λ r. z ∷ r) (set_same s i x h)

pub at_spoon-some :
    (s : Spoons) (i : ℕ) {x : Semaphore} (f : Semaphore → Semaphore × SemResult)
    → get_elem? s i ≡ some x
    → at_spoon s i f ≡ (set s i (f x).0, (f x).1)
unfolding at_spoon
at_spoon-some s i f h = rw (h, at_spoon)

set-set : (s : Spoons) (i : ℕ) (x y : Semaphore) → set (set s i x) i y ≡ set s i y
set-set [] i x y = refl
set-set (z ∷ s) zero x y = refl
set-set (z ∷ s) (suc i) x y = ap (λ r. z ∷ r) (set-set s i x y)

-- Two calls in a row at one semaphore.
at_spoon-at_spoon :
    (s : Spoons) (i : ℕ) {x : Semaphore} (f g : Semaphore → Semaphore × SemResult)
    → get_elem? s i ≡ some x
    → at_spoon (at_spoon s i f).0 i g ≡ (set s i (g (f x).0).0, (g (f x).0).1)
at_spoon-at_spoon s i {x} f g h = rw (at_spoon-some s i f h) (
    at_spoon-some (set s i (f x).0) i g (get_elem?-set_self s i x (f x).0 h)
    ∙ ap (λ t. (t, (g (f x).0).1)) (set-set s i (f x).0 (g (f x).0).0))

abbrev pub acquired : Semaphore → ℕ → Semaphore
acquired x i = record x { owner = pos i; val = dec x.val }

pub acquire_one_lem :
    (x : Semaphore) (i : ℕ)
    → acquire_one x i ≡ (if is_pos x.val then (acquired x i, returned (pos 0)) else (x, asleep))
unfolding acquire_one take_one
acquire_one_lem x i = ground arith

pub loop_one_lem :
    (x : Semaphore) (i : ℕ)
    → loop_one x i ≡ (if is_pos x.val then (acquired x i, returned (pos 0)) else (x, asleep))
unfolding loop_one take_one
loop_one_lem x i = ground arith

module _ (s : Spoons) (i : ℕ) {x : Semaphore} (h : get_elem? s i ≡ some x) where
  -- sem_init initialises a semaphore that is not yet in use and returns 0; on one in use it returns
  -- -1 and changes nothing. So a second sem_init, with any value, returns -1 and changes nothing.
  pub sem_init-sem_init :
      (v w : ℤ)
      → (sem_init s i v ≡ (
          if x.locked
          then (s, returned minus_one)
          else (set s i (record { val = v; owner = minus_one; locked = true }), returned (pos 0))))
        × (sem_init (sem_init s i v).0 i w ≡ ((sem_init s i v).0, returned minus_one))
  unfolding sem_init
  sem_init-sem_init v w = elim (Bool-cases x.locked) [
    | inl e ↦
        rw
          (
            at_spoon-at_spoon s i (λ y. init_one y v) (λ y. init_one y w) h,
            at_spoon-some s i (λ y. init_one y v) h,
          )
          (ground (arith, set_same s i x h))
    | inr e ↦
        rw
          (
            at_spoon-at_spoon s i (λ y. init_one y v) (λ y. init_one y w) h,
            at_spoon-some s i (λ y. init_one y v) h,
          )
          (ground arith)
  ]

  -- sem_acquire and a woken sleeper do the same: if the value is positive it falls by one and the
  -- call returns 0; otherwise the caller sleeps and the semaphores stay as they were.
  pub sem_acquire_lem :
      (sem_acquire s i ≡ acquire_loop s i)
      × (sem_acquire s i
          ≡ (if is_pos x.val then (set s i (acquired x i), returned (pos 0)) else (s, asleep)))
  unfolding sem_acquire acquire_loop
  sem_acquire_lem =
      rw (at_spoon-some s i (λ y. acquire_one y i) h, at_spoon-some s i (λ y. loop_one y i) h)
        (ground (arith, acquire_one_lem x i, loop_one_lem x i, set_same s i x h))

  -- Releasing what was acquired gives the value back, and leaves the semaphore with no owner.
  pub sem_release-sem_acquire :
      is_pos x.val ≡ true
      → sem_release (sem_acquire s i).0 i
        ≡ (set s i (record x { owner = minus_one }), returned (pos 0))
  unfolding sem_release sem_acquire release_one
  sem_release-sem_acquire free =
      at_spoon-at_spoon s i (λ y. acquire_one y i) release_one h
      ∙ ground (arith, acquire_one_lem x i, inc-dec x.val)

-- The value of semaphore `k`, if there is one.
abbrev pub val_at : Spoons → ℕ → Option ℤ
val_at [] k = none
val_at (x ∷ s) zero = some x.val
val_at (x ∷ s) (suc k) = val_at s k

val_at-some :
    (s : Spoons) (k : ℕ) {z : ℤ}
    → val_at s k ≡ some z
    → (x : Semaphore) × (get_elem? s k ≡ some x) × (x.val ≡ z)
val_at-some [] k e = absurd (cc)
val_at-some (x ∷ s) zero e = (x, refl, cc)
val_at-some (x ∷ s) (suc k) e = val_at-some s k e

val_at-set :
    (s : Spoons) (i j : ℕ) (x : Semaphore) {z : ℤ}
    → val_at s i ≡ some z
    → val_at (set s i x) j ≡ (if i == j then some x.val else val_at s j)
val_at-set [] i j x e = absurd (cc)
val_at-set (y ∷ s) zero zero x e = refl
val_at-set (y ∷ s) zero (suc j) x e = ground arith
val_at-set (y ∷ s) (suc i) zero x e = ground arith
val_at-set (y ∷ s) (suc i) (suc j) x e = ground (arith, val_at-set s i j x e)

module _ (s : Spoons) (i : ℕ) where
  -- At a positive value sem_acquire returns, and only that value changes.
  pub val_at-acquire :
      {v : ℕ}
      → val_at s i ≡ some (pos (suc v))
      → ((sem_acquire s i).1 ≡ returned (pos 0))
        × ((j : ℕ) → val_at (sem_acquire s i).0 j ≡ (if i == j then some (pos v) else val_at s j))
  val_at-acquire {v} e =
      let (x, here, val) = val_at-some s i e in
      let step = sem_acquire_lem s i here in
      let taken : sem_acquire s i ≡ (set s i (acquired x i), returned (pos 0)) = step.1 ∙ rw val in
      (
        ap (λ r. r.1) taken,
        λ j. ap (λ r. val_at r.0 j) taken ∙ val_at-set s i j (acquired x i) e ∙ rw val,
      )

  -- At 0 it sleeps, and nothing changes.
  pub acquire-zero : val_at s i ≡ some (pos 0) → sem_acquire s i ≡ (s, asleep)
  acquire-zero e = let (x, here, val) = val_at-some s i e in (sem_acquire_lem s i here).1 ∙ rw val

  pub val_at-release :
      {z : ℤ}
      → val_at s i ≡ some z
      → (j : ℕ) → val_at (sem_release s i).0 j ≡ (if i == j then some (inc z) else val_at s j)
  unfolding sem_release release_one
  val_at-release {z} e j =
      let (x, here, val) = val_at-some s i e in
      ap (λ r. val_at r.0 j) (at_spoon-some s i release_one here)
      ∙ val_at-set s i j (release_one x).0 e
      ∙ rw val
