-- ===== src/Proc/Family.antt =====
-- The invariant of the process table, and that every operation keeps it.
use os_lab.Prelude.{ℕ, ◌<◌, ◌≡◌, ◌≢◌, ◌∙◌, sym, Bool, true, false, some, arith}
use os_lab.Proc.Defs.{Proc, Ptable, ProcState, unused, sleeping, runnable, running, nproc}

-- Between fork and exit.
abbrev pub is_alive : ProcState → Bool
is_alive sleeping = true
is_alive runnable = true
is_alive running = true
is_alive s = false

abbrev pub in_use : ProcState → Bool
in_use unused = false
in_use s = true

-- Slots in use have different pids below nextpid; init is alive; and the parent of every other slot in
-- use is alive.
pub record Inv (init : ℕ) (t : Ptable) : Type 0 where
  pub init_slot : init < nproc
  pub init_alive : is_alive (t.proc init).state ≡ true
  pub bounds :
      (i : ℕ)
      → i < nproc
      → in_use (t.proc i).state ≡ true
      → (0 < (t.proc i).pid) × ((t.proc i).pid < t.nextpid)
  pub unique :
      (i j : ℕ)
      → i < nproc
      → j < nproc
      → in_use (t.proc i).state ≡ true
      → in_use (t.proc j).state ≡ true
      → (t.proc i).pid ≡ (t.proc j).pid
      → i ≡ j
  pub family :
      (i : ℕ)
      → i < nproc
      → in_use (t.proc i).state ≡ true
      → i ≢ init
      → (p : ℕ) × ((t.proc i).parent ≡ some p) × (p < nproc) × (is_alive (t.proc p).state ≡ true)

-- An operation that keeps pids and parents, and neither frees a slot nor ends or starts a process.
pub record Quiet (f g : ℕ → Proc) : Type 0 where
  pub pid : (i : ℕ) → (g i).pid ≡ (f i).pid
  pub parent : (i : ℕ) → (g i).parent ≡ (f i).parent
  pub alive : (i : ℕ) → is_alive (g i).state ≡ is_alive (f i).state
  pub used : (i : ℕ) → in_use (g i).state ≡ in_use (f i).state

pub Quiet-Inv :
    {init : ℕ} {t : Ptable} {g : ℕ → Proc}
    → Quiet t.proc g
    → Inv init t
    → Inv init (record t { proc = g })
Quiet-Inv {init} {t} {g} q inv = record {
  init_slot = inv.init_slot;
  init_alive = q.alive init ∙ inv.init_alive;
  bounds = λ i lt u. ground (arith, inv.bounds i lt, q.pid i, q.used i);
  unique = λ i j il jl ui uj e.
      inv.unique i j il jl (sym (q.used i) ∙ ui) (sym (q.used j) ∙ uj)
        (sym (q.pid i) ∙ e ∙ q.pid j);
  family = λ i lt u ne.
      let (p, e, pl, a) = inv.family i lt (sym (q.used i) ∙ u) ne in
      (p, q.parent i ∙ e, pl, q.alive p ∙ a);
}
