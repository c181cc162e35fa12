-- ===== src/Locks/Spin.antt =====
-- Mutual exclusion of acquire and release in xv6-core/spinlock.c.
use os_lab.Prelude.{
  ℕ, ◌≡◌, ◌≢◌, inl, inr, ap, ◌∙◌, sym, Bool, true, false, none, some, arith, Bool-cases, ℕ_discrete,
  write,
}
use os_lab.Locks.Defs.{
  Cpu, pushcli, Spinlock, holding, done, spins, panics, acquire, after_pop, release,
}

-- A lock with the processors between their acquire and their release.
pub record System : Type 0 where
  pub lock : Spinlock
  pub cpus : ℕ → Cpu
  pub inside : ℕ → Bool

-- A processor outside of the critical section gets the lock, or one inside gives it up.
pub data Step (s : System) : System → Type 0 where
  enters :
      (i : ℕ) (c : Cpu) (l : Spinlock)
      → s.inside i ≡ false
      → acquire i (s.cpus i) s.lock ≡ done c l
      → Step s (record { lock = l; cpus = write s.cpus i c; inside = write s.inside i true })
  leaves :
      (i : ℕ) (c : Cpu) (l : Spinlock)
      → s.inside i ≡ true
      → release i (s.cpus i) s.lock ≡ done c l
      → Step s (record { lock = l; cpus = write s.cpus i c; inside = write s.inside i false })

pub data Reach (cpus : ℕ → Cpu) : System → Type 0 where
  started :
      Reach cpus
        (record { lock = record { locked = false; cpu = none }; cpus = cpus; inside = λ i. false })
  stepped : {s t : System} → Reach cpus s → Step s t → Reach cpus t

-- The lock names the processor that is inside.
pub record Inv (s : System) : Type 0 where
  pub inside_holds : (i : ℕ) → s.inside i ≡ true → (s.lock.locked ≡ true) × (s.lock.cpu ≡ some i)

acquired :
    (i : ℕ) (c d : Cpu) (l m : Spinlock)
    → acquire i c l ≡ done d m
    → (l.locked ≡ false) × (m.locked ≡ true) × (m.cpu ≡ some i)
unfolding acquire holding
acquired i c d l m got = elim (Bool-cases l.locked) [
  | inl held ↦ absurd (ground (arith, held, got))
  | inr free ↦
      let e : record { locked = true; cpu = some i } ≡ m = ground (arith, free, got) in
      (free, sym (ap (λ x. x.locked) e), sym (ap (λ x. x.cpu) e))
]

contradiction : true ≡ false → ⊥
contradiction h = cc

some_same : (i j : ℕ) → some i ≡ some j → i ≡ j
some_same i j e = cc

step-Inv : {s t : System} → Step s t → Inv s → Inv t
unfolding acquire release holding after_pop
step-Inv {s} (enters i c l out got) inv = record {
  inside_holds = λ j h.
      let (free, held, mine) = acquired i (s.cpus i) c s.lock l got in
      elim (ℕ_discrete i j) [
        | yes e ↦ (held, mine ∙ ap some e)
        | no ne ↦ absurd (contradiction (sym (inv.inside_holds j (ground (arith, h))).0 ∙ free))
      ];
}
step-Inv {s} (leaves i c l in_it got) inv = record {
  inside_holds = λ j h. elim (ℕ_discrete i j) [
    | yes e ↦ absurd (ground (arith, h))
    | no ne ↦ absurd (
        ne (
          some_same i j
            (sym (inv.inside_holds i in_it).1 ∙ (inv.inside_holds j (ground (arith, h))).1)))
  ];
}

Reach-Inv : {cpus : ℕ → Cpu} {s : System} → Reach cpus s → Inv s
Reach-Inv started = record { inside_holds = λ i h. absurd (cc) }
Reach-Inv (stepped r s) = step-Inv s (Reach-Inv r)

-- In every reachable state at most one processor is between its acquire and its release; an acquire by
-- it panics, and an acquire by any other spins.
pub mutual_exclusion :
    {cpus : ℕ → Cpu} {s : System} (i j : ℕ)
    → Reach cpus s
    → s.inside i ≡ true
    → (s.inside j ≡ true → i ≡ j)
      × (acquire i (s.cpus i) s.lock ≡ panics)
      × (i ≢ j → acquire j (s.cpus j) s.lock ≡ spins (pushcli (s.cpus j)))
unfolding acquire holding
mutual_exclusion i j r h =
    let (l, c) = (Reach-Inv r).inside_holds i h in
    (
      (λ k. some_same i j (sym c ∙ ((Reach-Inv r).inside_holds j k).1)),
      rw (acquire, holding, l, c) (ground arith),
      (λ ne. rw (acquire, holding, l, c) (ground arith)),
    )
