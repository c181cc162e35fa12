-- ===== src/Proc/Scan.antt =====
-- What the loops over the process table find and change.
use os_lab.Prelude.{
  ℕ, zero, suc, ◌+◌, ◌<◌, ◌≤◌, ◌≡◌, ◌≢◌, ◌⊎◌, inl, inr, refl, ap, ◌∙◌, Bool, true, false, ◌&&◌,
  ◌||◌, none, some, ◌==◌, arith, if◌then◌else◌, Bool-cases, ℕ_discrete, subst,
}
use os_lab.Proc.Defs.{Proc, sleeping, runnable, zombie, Chan, is_zombie, is_child_of, find_slot}
use os_lab.Proc.Steps.{wakeup1, pass_children, reaped, no_children, waits, wait_scan, pass_one}

module _ (test : Proc → Bool) (f : ℕ → Proc) where
  pub find_slot-some :
      (n i : ℕ) {k : ℕ}
      → find_slot test n i f ≡ some k
      → (i ≤ k) × (k < i + n) × (test (f k) ≡ true) × ((j : ℕ) → i ≤ j → j < k → test (f j) ≡ false)
  unfolding find_slot
  find_slot-some zero i e = absurd (cc)
  find_slot-some (suc n) i {k} e = elim (Bool-cases (test (f i))) [
    | inl here ↦
        let same : i ≡ k = ground arith in
        (
          omega arith,
          omega arith,
          subst (λ j. test (f j) ≡ true) same here,
          λ j lo hi. absurd (omega arith),
        )
    | inr not_here ↦
        let r = find_slot-some n (i + 1) {k = k} (ground arith) in
        (
          omega (arith, r.0),
          omega (arith, r.1),
          r.2,
          λ j lo hi. before (ℕ_discrete i j) not_here (λ g. r.3 j (omega arith) hi),
        )
  ]
    where
      before :
          {i j : ℕ}
          → Dec (i ≡ j)
          → test (f i) ≡ false
          → (i ≢ j → test (f j) ≡ false)
          → test (f j) ≡ false
      before (yes e) h g = subst (λ j. test (f j) ≡ false) e h
      before (no ne) h g = g ne

  pub find_slot-none :
      (n i : ℕ) → find_slot test n i f ≡ none → (j : ℕ) → i ≤ j → j < i + n → test (f j) ≡ false
  unfolding find_slot
  find_slot-none zero i e j lo hi = absurd (omega arith)
  find_slot-none (suc n) i e j lo hi = elim (ℕ_discrete i j) [
    | yes same ↦ subst (λ j. test (f j) ≡ false) same (ground arith)
    | no other ↦ find_slot-none n (i + 1) (ground arith) j (omega arith) (omega arith)
  ]

-- wakeup1 changes the state of a slot and nothing else, and the state only from sleeping to runnable.
pub record SameBut (p q : Proc) : Type 0 where
  pub pid : q.pid ≡ p.pid
  pub chan : q.chan ≡ p.chan
  pub killed : q.killed ≡ p.killed
  pub state : (q.state ≡ p.state) ⊎ ((p.state ≡ sleeping) × (q.state ≡ runnable))

pub SameBut-refl : (p : Proc) → SameBut p p
SameBut-refl p = record { pid = refl; chan = refl; killed = refl; state = inl refl }

pub SameBut-trans : {p q r : Proc} → SameBut p q → SameBut q r → SameBut p r
SameBut-trans a b = record {
  pid = b.pid ∙ a.pid;
  chan = b.chan ∙ a.chan;
  killed = b.killed ∙ a.killed;
  state = ground (arith, a.state, b.state);
}

pub SameBut-wakeup1 : (c : Chan) (f : ℕ → Proc) (i : ℕ) → SameBut (f i) (wakeup1 c f i)
unfolding wakeup1
SameBut-wakeup1 c f i = ground arith

pub parent-wakeup1 : (c : Chan) (f : ℕ → Proc) (i : ℕ) → (wakeup1 c f i).parent ≡ (f i).parent
unfolding wakeup1
parent-wakeup1 c f i = ground arith

module _ (init cur : ℕ) where
  SameBut-pass_one : (i : ℕ) (f : ℕ → Proc) (j : ℕ) → SameBut (f j) (pass_one init cur i f j)
  unfolding pass_one wakeup1
  SameBut-pass_one i f j = ground arith

  parent-pass_one :
      (i : ℕ) (f : ℕ → Proc) (j : ℕ)
      → (pass_one init cur i f j).parent
        ≡ (if (i == j) && is_child_of cur (f j).parent then some init else (f j).parent)
  unfolding pass_one wakeup1
  parent-pass_one i f j = ground arith

  pub SameBut-pass_children :
      (n i : ℕ) (f : ℕ → Proc) (j : ℕ) → SameBut (f j) (pass_children init cur n i f j)
  unfolding pass_children
  SameBut-pass_children zero i f j = SameBut-refl (f j)
  SameBut-pass_children (suc n) i f j =
      SameBut-trans (SameBut-pass_one i f j)
        (SameBut-pass_children n (i + 1) (pass_one init cur i f) j)

  parent-pass_children_out :
      (n i : ℕ) (f : ℕ → Proc) (j : ℕ)
      → j < i
      → (pass_children init cur n i f j).parent ≡ (f j).parent
  unfolding pass_children
  parent-pass_children_out zero i f j h = refl
  parent-pass_children_out (suc n) i f j h =
      parent-pass_children_out n (i + 1) (pass_one init cur i f) j (omega arith)
      ∙ ground (arith, parent-pass_one i f j)

  -- The loop replaces the parent `cur` by `init` in every slot that it passes.
  pub parent-pass_children :
      (n i : ℕ) (f : ℕ → Proc) (j : ℕ)
      → i ≤ j
      → j < i + n
      → (pass_children init cur n i f j).parent
        ≡ (if is_child_of cur (f j).parent then some init else (f j).parent)
  unfolding pass_children
  parent-pass_children zero i f j lo hi = absurd (omega arith)
  parent-pass_children (suc n) i f j lo hi = elim (ℕ_discrete i j) [
    | yes same ↦
        parent-pass_children_out n (i + 1) (pass_one init cur i f) j (omega arith)
        ∙ ground (arith, parent-pass_one i f j)
    | no other ↦
        let kept : (pass_one init cur i f j).parent ≡ (f j).parent =
          ground (arith, parent-pass_one i f j) in
        parent-pass_children n (i + 1) (pass_one init cur i f) j (omega arith) (omega arith)
        ∙ ap (λ q. if is_child_of cur q then some init else q) kept
  ]

module _ (cur : ℕ) (f : ℕ → Proc) where
  zombie_child :
      (p : Proc)
      → (is_child_of cur p.parent && is_zombie p.state) ≡ true
      → (p.state ≡ zombie) × (p.parent ≡ some cur)
  zombie_child p h = ground arith

  -- wait reaps only a zombie child, and gives its pid.
  pub wait_scan-reaped :
      (have : Bool) (n i : ℕ) {pid k : ℕ}
      → wait_scan cur have n i f ≡ reaped pid k
      → (i ≤ k)
        × (k < i + n)
        × ((f k).state ≡ zombie)
        × ((f k).parent ≡ some cur)
        × (pid ≡ (f k).pid)
  unfolding wait_scan
  wait_scan-reaped have zero i e = absurd (ground arith)
  wait_scan-reaped have (suc n) i {pid} {k} e =
      elim (Bool-cases (is_child_of cur (f i).parent && is_zombie (f i).state)) [
        | inl here ↦
            let same : i ≡ k = ground arith in
            let number : pid ≡ (f i).pid = ground arith in
            let z = zombie_child (f i) here in
            (
              omega arith,
              omega arith,
              subst (λ j. (f j).state ≡ zombie) same z.0,
              subst (λ j. (f j).parent ≡ some cur) same z.1,
              subst (λ j. pid ≡ (f j).pid) same number,
            )
        | inr not_here ↦
            let r =
              wait_scan-reaped (have || is_child_of cur (f i).parent) n (i + 1) {pid = pid} {k = k}
                (ground arith) in
            (omega (arith, r.0), omega (arith, r.1), r.2, r.3, r.4)
      ]

  -- It gives up exactly when it has no child or was killed, and waits when a child is there and none
  -- is a zombie.
  pub wait_scan-none :
      (have : Bool) (n i : ℕ)
      → wait_scan cur have n i f ≡ no_children
      → ((f cur).killed ≡ true)
        ⊎ ((have ≡ false) × ((j : ℕ) → i ≤ j → j < i + n → is_child_of cur (f j).parent ≡ false))
  unfolding wait_scan
  wait_scan-none have zero i e = elim (Bool-cases (f cur).killed) [
    | inl k ↦ inl k
    | inr alive ↦ inr (ground arith, λ j lo hi. absurd (omega arith))
  ]
  wait_scan-none have (suc n) i e =
      elim (wait_scan-none (have || is_child_of cur (f i).parent) n (i + 1) (ground arith)) [
        | inl k ↦ inl k
        | inr r ↦ inr (
          ground (arith, r.0),
          λ j lo hi. childless j (ℕ_discrete i j) r.0 (λ ne. r.1 j (omega arith) (omega arith)),
        )
      ]
    where
      childless :
          (j : ℕ)
          → Dec (i ≡ j)
          → (have || is_child_of cur (f i).parent) ≡ false
          → (i ≢ j → is_child_of cur (f j).parent ≡ false)
          → is_child_of cur (f j).parent ≡ false
      childless j (yes same) h g =
          subst (λ k. is_child_of cur (f k).parent ≡ false) same (ground arith)
      childless j (no ne) h g = g ne

  pub wait_scan-waits :
      (have : Bool) (n i : ℕ)
      → wait_scan cur have n i f ≡ waits
      → (j : ℕ) → i ≤ j
      → j < i + n
      → (is_child_of cur (f j).parent && is_zombie (f j).state) ≡ false
  unfolding wait_scan
  wait_scan-waits have zero i e j lo hi = absurd (omega arith)
  wait_scan-waits have (suc n) i e j lo hi = elim (ℕ_discrete i j) [
    | yes same ↦
        subst (λ j. (is_child_of cur (f j).parent && is_zombie (f j).state) ≡ false) same
          (ground arith)
    | no other ↦
        wait_scan-waits (have || is_child_of cur (f i).parent) n (i + 1) (ground arith) j
          (omega arith) (omega arith)
  ]
