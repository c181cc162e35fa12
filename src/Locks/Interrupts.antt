-- ===== src/Locks/Interrupts.antt =====
-- pushcli and popcli of xv6-core/spinlock.c are matched.
use os_lab.Prelude.{
  ℕ, zero, suc, ◌+◌, ◌-◌, ◌<◌, ◌≡◌, refl, ap, ◌∙◌, false, Option, none, some, arith, if◌then◌else◌,
  ◌==◌, ◌&&◌,
}
use os_lab.Locks.Defs.{Cpu, pushcli, popcli}

-- Inside a pushcli, interrupts are off.
abbrev pub Consistent : Cpu → Type 0
Consistent c = 0 < c.ncli → c.interrupts ≡ false

abbrev pub push_times : ℕ → Cpu → Cpu
push_times zero c = c
push_times (suc n) c = pushcli (push_times n c)

abbrev pub pop_times : ℕ → Option Cpu → Option Cpu
pop_times zero c = c
pop_times (suc n) none = none
pop_times (suc n) (some c) = pop_times n (popcli c)

-- One popcli undoes one pushcli, but for `intena` outside of every pushcli.
pub popcli-pushcli_one :
    (c : Cpu)
    → Consistent c
    → (d : Cpu) × (popcli (pushcli c) ≡ some d)
      × (d.ncli ≡ c.ncli)
      × (d.interrupts ≡ c.interrupts)
      × (0 < c.ncli → d.intena ≡ c.intena)
unfolding popcli pushcli
popcli-pushcli_one c off = (
  record {
    ncli = c.ncli + 1 - 1;
    intena = if c.ncli == 0 then c.interrupts else c.intena;
    interrupts = (c.ncli + 1 - 1 == 0) && (if c.ncli == 0 then c.interrupts else c.intena);
  },
  ground arith,
  omega arith,
  ground (arith, off),
  λ h. ground arith,
)

popcli-pushcli_inner : (c : Cpu) → Consistent c → 0 < c.ncli → popcli (pushcli c) ≡ some c
popcli-pushcli_inner c off inside =
    let (d, e, n, i, a) = popcli-pushcli_one c off in e ∙ ap some (same d n i (a inside))
  where
    same : (d : Cpu) → d.ncli ≡ c.ncli → d.interrupts ≡ c.interrupts → d.intena ≡ c.intena → d ≡ c
    same d n i a = cc

push_times-Consistent : (n : ℕ) (c : Cpu) → Consistent c → Consistent (push_times n c)
unfolding pushcli
push_times-Consistent zero c off h = off h
push_times-Consistent (suc n) c off h = refl

push_times-ncli : (n : ℕ) (c : Cpu) → (push_times n c).ncli ≡ c.ncli + n
unfolding pushcli
push_times-ncli zero c = omega arith
push_times-ncli (suc n) c = omega (arith, push_times-ncli n c)

-- On a processor where interrupts are off inside of a pushcli, as many popcli undo any number of pushcli:
-- none panics, and the depth and the interrupt flag are as before.
pub popcli-pushcli :
    (n : ℕ) (c : Cpu)
    → Consistent c
    → (d : Cpu) × (pop_times n (some (push_times n c)) ≡ some d)
      × (d.ncli ≡ c.ncli)
      × (d.interrupts ≡ c.interrupts)
popcli-pushcli zero c off = (c, refl, refl, refl)
popcli-pushcli (suc zero) c off = let (d, e, n, i, a) = popcli-pushcli_one c off in (d, e, n, i)
popcli-pushcli (suc (suc n)) c off =
    let (d, e, depth, flag) = popcli-pushcli (suc n) c off in
    let back =
      popcli-pushcli_inner (push_times (suc n) c) (push_times-Consistent (suc n) c off)
        (omega (arith, push_times-ncli (suc n) c)) in
    (d, ap (pop_times (suc n)) back ∙ e, depth, flag)
