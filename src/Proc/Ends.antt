-- ===== src/Proc/Ends.antt =====
-- How `exit` and `wait` of xv6-core/proc.c change the table, and that they keep the invariant.
use os_lab.Prelude.{
  ℕ, ◌<◌, ◌≡◌, ◌≢◌, refl, ◌∙◌, sym, true, false, some, arith, if◌then◌else◌, ℕ_discrete, subst,
  replicate,
}
use os_lab.Proc.Defs.{Proc, Ptable, zombie, nproc, is_child_of, put}
use os_lab.Proc.Steps.{
  wakeup1, pass_children, exit, wait, after_wait, reap, WaitResult, reaped, no_children, waits,
  wait_scan, parent_chan, exit_table,
}
use os_lab.Proc.Scan.{
  SameBut, SameBut-trans, SameBut-wakeup1, SameBut-pass_children, parent-pass_children,
  parent-wakeup1, wait_scan-reaped,
}
use os_lab.Proc.Family.{Inv, Quiet-Inv, is_alive, in_use}
use os_lab.Proc.Lifecycle.{freed-Inv}

-- The table that `exit` by `cur` leaves.
pub record Exited (init cur : ℕ) (f g : ℕ → Proc) : Type 0 where
  pub is_zombie_now : (g cur).state ≡ zombie
  pub pid : (j : ℕ) → (g j).pid ≡ (f j).pid
  pub alive : (j : ℕ) → cur ≢ j → is_alive (g j).state ≡ is_alive (f j).state
  pub used : (j : ℕ) → cur ≢ j → in_use (g j).state ≡ in_use (f j).state
  pub parent :
      (j : ℕ)
      → j < nproc
      → (g j).parent ≡ (if is_child_of cur (f j).parent then some init else (f j).parent)

SameBut-alive : {p q : Proc} → SameBut p q → is_alive q.state ≡ is_alive p.state
SameBut-alive s = ground (arith, s.state)

SameBut-used : {p q : Proc} → SameBut p q → in_use q.state ≡ in_use p.state
SameBut-used s = ground (arith, s.state)

exit_table-Exited : (init cur : ℕ) (f : ℕ → Proc) → Exited init cur f (exit_table init cur f)
unfolding exit_table
exit_table-Exited init cur f =
    let closed = put f cur (record (f cur) { ofile = replicate 16 0; cwd = 0 }) in
    let c = parent_chan (f cur).parent in
    let passed = pass_children init cur nproc 0 (wakeup1 c closed) in
    let kept : (j : ℕ) → SameBut (closed j) (passed j) = (λ j.
      SameBut-trans (SameBut-wakeup1 c closed j)
        (SameBut-pass_children init cur nproc 0 (wakeup1 c closed) j)) in
    record {
      is_zombie_now = ground arith;
      pid = λ j. ground (arith, (kept j).pid);
      alive = λ j ne. ground (arith, SameBut-alive (kept j));
      used = λ j ne. ground (arith, SameBut-used (kept j));
      parent = λ j lt. ground (
        arith,
        parent-pass_children init cur nproc 0 (wakeup1 c closed) j (omega arith) (omega arith),
        parent-wakeup1 c closed j,
      );
    }

module _ {init cur : ℕ} {t : Ptable} {g : ℕ → Proc} (inv : Inv init t)
    (e : Exited init cur t.proc g) where
  Exited-Inv : cur ≢ init → is_alive (t.proc cur).state ≡ true → Inv init (record t { proc = g })
  Exited-Inv ne alive = record {
    init_slot = inv.init_slot;
    init_alive = e.alive init ne ∙ inv.init_alive;
    bounds = λ i lt u.
        let b = inv.bounds i lt (was_used i u (ℕ_discrete cur i)) in omega (arith, e.pid i, b);
    unique = λ i j il jl ui uj same.
        inv.unique i j il jl (was_used i ui (ℕ_discrete cur i)) (was_used j uj (ℕ_discrete cur j))
          (sym (e.pid i) ∙ same ∙ e.pid j);
    family =
        λ i lt u other. kin i lt other (inv.family i lt (was_used i u (ℕ_discrete cur i)) other);
  }
    where
      alive_used : (p : Proc) → is_alive p.state ≡ true → in_use p.state ≡ true
      alive_used p h = ground arith

      was_used :
          (i : ℕ) → in_use (g i).state ≡ true → Dec (cur ≡ i) → in_use (t.proc i).state ≡ true
      was_used i u (yes same) =
          subst (λ j. in_use (t.proc j).state ≡ true) same (alive_used (t.proc cur) alive)
      was_used i u (no other) = sym (e.used i other) ∙ u

      kin :
          (i : ℕ)
          → i < nproc
          → i ≢ init
          → (p : ℕ) × ((t.proc i).parent ≡ some p)
            × (p < nproc)
            × (is_alive (t.proc p).state ≡ true)
          → (p : ℕ) × ((g i).parent ≡ some p) × (p < nproc) × (is_alive (g p).state ≡ true)
      kin i lt other (p, pe, pl, a) = elim (ℕ_discrete cur p) [
        | yes same ↦
            (init, ground (arith, e.parent i lt), inv.init_slot, e.alive init ne ∙ inv.init_alive)
        | no apart ↦ (p, ground (arith, e.parent i lt), pl, e.alive p apart ∙ a)
      ]

module _ (init cur : ℕ) (t : Ptable) (inv : Inv init t)
    (alive : is_alive (t.proc cur).state ≡ true) where
  pub exit-Inv : {t1 : Ptable} → exit init cur t ≡ some t1 → Inv init t1
  unfolding exit
  exit-Inv {t1} h = elim (ℕ_discrete cur init) [
    | yes same ↦ absurd (ground arith)
    | no ne ↦
        let done : record t { proc = exit_table init cur t.proc } ≡ t1 = ground arith in
        subst (λ x. Inv init x) done (Exited-Inv inv (exit_table-Exited init cur t.proc) ne alive)
  ]

  after_wait-Inv :
      (r : WaitResult) → wait_scan cur false nproc 0 t.proc ≡ r → Inv init (after_wait cur t r)
  unfolding after_wait reap
  after_wait-Inv (reaped pid k) h =
      let s = wait_scan-reaped cur t.proc false nproc 0 {pid = pid} {k = k} h in
      freed-Inv inv k t.nextpid _ (ground (arith, s.2)) (ground arith) (λ j ne. ground arith)
        (omega arith)
  after_wait-Inv no_children h = inv
  after_wait-Inv waits h =
      Quiet-Inv
        (record {
          pid = λ i. ground arith;
          parent = λ i. ground arith;
          alive = λ i. ground arith;
          used = λ i. ground arith;
        })
        inv

  pub wait-Inv : Inv init (wait cur t).0
  unfolding wait
  wait-Inv = after_wait-Inv (wait_scan cur false nproc 0 t.proc) refl
