-- ===== src/Locks/Tests.antt =====
-- Concrete runs of the locks.
use os_lab.Prelude.{ℕ, ◌≡◌, ◌≢◌, refl, true, false, some, none, write}
use os_lab.Locks.Defs.{Cpu, pushcli, spins, panics, acquire, acquiresleep, holding}
use os_lab.Locks.Spin.{System, Reach, enters, started, stepped, mutual_exclusion}

abbrev running_cpu : Cpu
running_cpu = record { ncli = 0; intena = false; interrupts = true }

abbrev held : System
held = record {
  lock = record { locked = true; cpu = some 1 };
  cpus = write (λ i. running_cpu) 1 (pushcli running_cpu);
  inside = write (λ i. false) 1 true;
}

reaches_held : Reach (λ i. running_cpu) held
unfolding acquire holding
reaches_held =
    stepped started
      (enters 1 (pushcli running_cpu) (record { locked = true; cpu = some 1 }) refl refl)

mutual_exclusion_example :
    (held.inside 0 ≡ true → ◌≡◌ {A = ℕ} 1 0)
    × (acquire 1 (held.cpus 1) held.lock ≡ panics)
    × (◌≢◌ {A = ℕ} 1 0 → acquire 0 (held.cpus 0) held.lock ≡ spins (pushcli (held.cpus 0)))
mutual_exclusion_example = mutual_exclusion 1 0 reaches_held refl

sleeplock_held : acquiresleep 5 (record { locked = true; pid = 4 }) ≡ none
unfolding acquiresleep
sleeplock_held = refl
