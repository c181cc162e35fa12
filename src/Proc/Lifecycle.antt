-- ===== src/Proc/Lifecycle.antt =====
-- The steps of the process table, and that each keeps the invariant.
use os_lab.Prelude.{
  ℕ, ◌+◌, ◌<◌, ◌≤◌, ◌≡◌, ◌≢◌, refl, ap, ◌∙◌, sym, Bool, true, false, Option, none, some, arith,
  ℕ_discrete, subst,
}
use os_lab.Proc.Defs.{Proc, Ptable, ProcState, unused, nproc, is_unused, find_slot}
use os_lab.Proc.Birth.{allocproc, fork, child_of, fork_into, alloc_at}
use os_lab.Proc.Scan.{find_slot-some}
use os_lab.Proc.Family.{Inv, is_alive, in_use}

module _ {init : ℕ} {t : Ptable} (inv : Inv init t) where
  -- A slot that was unused, or a zombie, changes and is unused.
  pub freed-Inv :
      (k next : ℕ) (g : ℕ → Proc)
      → is_alive (t.proc k).state ≡ false
      → in_use (g k).state ≡ false
      → ((j : ℕ) → k ≢ j → g j ≡ t.proc j)
      → t.nextpid ≤ next
      → Inv init (record { proc = g; nextpid = next })
  freed-Inv k next g was is same le = record {
    init_slot = inv.init_slot;
    init_alive =
        ap (λ p. is_alive p.state)
          (same init (λ e. clash (subst (λ j. is_alive (t.proc j).state ≡ false) e was)))
        ∙ inv.init_alive;
    bounds = λ i lt u. let e = same i (other i u) in ground (arith, e, inv.bounds i lt);
    unique = λ i j il jl ui uj e.
        ground (arith, same i (other i ui), same j (other j uj), inv.unique i j il jl);
    family = λ i lt u ne.
        let e = same i (other i u) in
        let (p, pe, pl, a) = inv.family i lt (ap (λ q. in_use q.state) (sym e) ∙ u) ne in
        (
          p,
          ap (λ q. q.parent) e ∙ pe,
          pl,
          ap (λ q. is_alive q.state) (same p (λ s. dead p s a)) ∙ a,
        );
  }
    where
      clash : is_alive (t.proc init).state ≡ false → ⊥
      clash h = ground (arith, inv.init_alive)

      other : (i : ℕ) → in_use (g i).state ≡ true → k ≢ i
      other i u e = absurd (false_true (sym is ∙ ap (λ j. in_use (g j).state) e ∙ u))
        where
          false_true : false ≡ true → ⊥
          false_true h = cc

      dead : (p : ℕ) → k ≡ p → is_alive (t.proc p).state ≡ true → ⊥
      dead p s a = ground arith

  -- A slot that was unused becomes a process with the next pid and a living parent.
  born-Inv :
      (k cur : ℕ) (g : ℕ → Proc)
      → k < nproc
      → cur < nproc
      → in_use (t.proc k).state ≡ false
      → is_alive (t.proc cur).state ≡ true
      → (g k).pid ≡ t.nextpid
      → (g k).parent ≡ some cur
      → is_alive (g k).state ≡ true
      → ((j : ℕ) → k ≢ j → g j ≡ t.proc j)
      → 0 < t.nextpid
      → Inv init (record { proc = g; nextpid = t.nextpid + 1 })
  born-Inv k cur g kl cl was mother number parent alive same pos = record {
    init_slot = inv.init_slot;
    init_alive = alive_at init inv.init_alive;
    bounds = λ i lt u. bound i lt u (ℕ_discrete k i);
    unique = λ i j il jl ui uj e. apart i j il jl ui uj e (ℕ_discrete k i) (ℕ_discrete k j);
    family = λ i lt u ne. kin i lt u ne (ℕ_discrete k i);
  }
    where
      alive_at : (p : ℕ) → is_alive (t.proc p).state ≡ true → is_alive (g p).state ≡ true
      alive_at p a = elim (ℕ_discrete k p) [
        | yes e ↦ subst (λ j. is_alive (g j).state ≡ true) e alive
        | no ne ↦ ap (λ q. is_alive q.state) (same p ne) ∙ a
      ]

      old : (i : ℕ) → k ≢ i → in_use (g i).state ≡ true → in_use (t.proc i).state ≡ true
      old i ne u = ap (λ q. in_use q.state) (sym (same i ne)) ∙ u

      bound :
          (i : ℕ)
          → i < nproc
          → in_use (g i).state ≡ true
          → Dec (k ≡ i)
          → (0 < (g i).pid) × ((g i).pid < t.nextpid + 1)
      bound i lt u (yes e) =
          subst (λ j. (0 < (g j).pid) × ((g j).pid < t.nextpid + 1)) e (omega arith)
      bound i lt u (no ne) =
          let b = inv.bounds i lt (old i ne u) in
          let p : (g i).pid ≡ (t.proc i).pid = ap (λ q. q.pid) (same i ne) in omega (arith, b, p)

      fresh : (i : ℕ) → i < nproc → k ≢ i → in_use (g i).state ≡ true → (g i).pid < t.nextpid
      fresh i lt ne u =
          let b = inv.bounds i lt (old i ne u) in
          let p : (g i).pid ≡ (t.proc i).pid = ap (λ q. q.pid) (same i ne) in omega (arith, b, p)

      apart :
          (i j : ℕ)
          → i < nproc
          → j < nproc
          → in_use (g i).state ≡ true
          → in_use (g j).state ≡ true
          → (g i).pid ≡ (g j).pid
          → Dec (k ≡ i)
          → Dec (k ≡ j)
          → i ≡ j
      apart i j il jl ui uj e (yes a) (yes b) = sym a ∙ b
      apart i j il jl ui uj e (yes a) (no b) =
          let p : (g i).pid ≡ t.nextpid = subst (λ x. (g x).pid ≡ t.nextpid) a number in
          absurd (omega (arith, fresh j jl b uj, p, e))
      apart i j il jl ui uj e (no a) (yes b) =
          let p : (g j).pid ≡ t.nextpid = subst (λ x. (g x).pid ≡ t.nextpid) b number in
          absurd (omega (arith, fresh i il a ui, p, e))
      apart i j il jl ui uj e (no a) (no b) =
          inv.unique i j il jl (old i a ui) (old j b uj)
            (ap (λ q. q.pid) (sym (same i a)) ∙ e ∙ ap (λ q. q.pid) (same j b))

      kin :
          (i : ℕ)
          → i < nproc
          → in_use (g i).state ≡ true
          → i ≢ init
          → Dec (k ≡ i)
          → (p : ℕ) × ((g i).parent ≡ some p) × (p < nproc) × (is_alive (g p).state ≡ true)
      kin i lt u ne (yes e) =
          (cur, subst (λ j. (g j).parent ≡ some cur) e parent, cl, alive_at cur mother)
      kin i lt u ne (no o) =
          let (p, pe, pl, a) = inv.family i lt (old i o u) ne in
          (p, ap (λ q. q.parent) (same i o) ∙ pe, pl, alive_at p a)

  nextpid-pos : 0 < t.nextpid
  nextpid-pos =
      let b = inv.bounds init inv.init_slot (alive_used (t.proc init).state inv.init_alive) in
      omega (arith, b)
    where
      alive_used : (s : ProcState) → is_alive s ≡ true → in_use s ≡ true
      alive_used unused h = cc
      alive_used s h = ground arith

  dead_if_free : (p : Proc) → in_use p.state ≡ false → is_alive p.state ≡ false
  dead_if_free p h = ground arith

  free_slot :
      {k : ℕ}
      → find_slot (λ p. is_unused p.state) nproc 0 t.proc ≡ some k
      → (k < nproc) × (in_use (t.proc k).state ≡ false)
  free_slot {k} found =
      let (lo, hi, free, first) =
        find_slot-some (λ p. is_unused p.state) t.proc nproc 0 {k = k} found in
      (omega arith, ground (arith, free))

  fork_into-Inv :
      (stack copied : Bool) (cur : ℕ)
      → cur < nproc
      → is_alive (t.proc cur).state ≡ true
      → (o : Option ℕ) → ((k : ℕ) → o ≡ some k → (k < nproc) × (in_use (t.proc k).state ≡ false))
      → Inv init (fork_into copied cur (t.proc cur) (alloc_at stack t o).0 (alloc_at stack t o).1).0
  unfolding fork_into alloc_at child_of
  fork_into-Inv stack copied cur cl run none free = inv
  fork_into-Inv false copied cur cl run (some k) free =
      freed-Inv k (t.nextpid + 1) _ (dead_if_free (t.proc k) (free k refl).1) (ground arith)
        (λ j ne. ground arith) (omega arith)
  fork_into-Inv true false cur cl run (some k) free =
      freed-Inv k (t.nextpid + 1) _ (dead_if_free (t.proc k) (free k refl).1) (ground arith)
        (λ j ne. ground arith) (omega arith)
  fork_into-Inv true true cur cl run (some k) free =
      born-Inv k cur _ (free k refl).0 cl (free k refl).1 run (ground arith) (ground arith)
        (ground arith) (λ j ne. ground arith) nextpid-pos

  pub fork-Inv :
      (stack copied : Bool) (cur : ℕ)
      → cur < nproc
      → is_alive (t.proc cur).state ≡ true
      → Inv init (fork stack copied cur t).0
  unfolding fork allocproc
  fork-Inv stack copied cur cl run =
      fork_into-Inv stack copied cur cl run (find_slot (λ p. is_unused p.state) nproc 0 t.proc)
        (λ k found. free_slot {k = k} found)
