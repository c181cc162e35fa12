-- ===== src/Icache/Reach.antt =====
-- The pointers that processes hold to the inodes in memory of xv6-core/fs.c, over all sequences of calls.
use os_lab.Prelude.{
  ℕ, ◌+◌, ◌-◌, ◌<◌, ◌≡◌, ◌≢◌, inl, inr, refl, ap, ◌∙◌, sym, subst, false, some, write, arith,
  ℕ_discrete, dec_lt,
}
use os_lab.Fs.Words.{write_self, write_ne}
use os_lab.Icache.Defs.{Entry, Icache, idup}
use os_lab.Icache.Scan.{Caches, Gets, Gets-iget}
use os_lab.Icache.Counts.{
  World, Step, get, dup, lock, unlock, use_inode, put, Counted, SameEntry, Counts, Counts-write,
  Keeps, Keeps-ilock, Keeps-iunlock, KeepsBoth, KeepsBoth-iput, Counted-Counts,
}

-- What a step keeps.
abbrev Kept : World → World → Type 0
Kept w v = Counted v × ((k : ℕ) → 0 < w.refs k → SameEntry (w.cache k) (v.cache k))

-- A pointer that is held is one to an entry of the cache.
held_inside : (w : World) (k : ℕ) → Counted w → 0 < w.refs k → k < 50
held_inside w k inv held = elim (dec_lt k 50) [
  | yes lt ↦ lt
  | no out ↦ let z : w.refs k ≡ 0 = inv.inside k (omega arith) in absurd (omega (arith, z))
]

SameEntry-Counts : (c u : Icache) (k n : ℕ) → Counts c u k n → (j : ℕ) → SameEntry (c j) (u j)
SameEntry-Counts c u k n counts j = elim (ℕ_discrete k j) [
  | yes s ↦ subst (λ i. SameEntry (c i) (u i)) s counts.identity
  | no ne ↦ record {
    dev = ap (λ (e : Entry). e.dev) (counts.others j ne);
    inum = ap (λ (e : Entry). e.inum) (counts.others j ne);
  }
]

-- A call that counts.
Kept-Counts :
    (w v : World) (k n : ℕ)
    → Counted w
    → Counts w.cache v.cache k n
    → k < 50
    → (0 < n → 0 < (w.cache k).ref)
    → n ≡ v.refs k
    → ((j : ℕ) → k ≢ j → v.refs j ≡ w.refs j)
    → Kept w v
Kept-Counts w v k n inv c small live refs other = (
  Counted-Counts w v k n inv c small live refs other,
  λ j held. SameEntry-Counts w.cache v.cache k n c j,
)

-- The count of pointers after one more, one less, or as many.
refs_self : (w v : World) (k n : ℕ) → v.refs ≡ write w.refs k n → v.refs k ≡ n
refs_self w v k n e = ap (λ f. f k) e ∙ write_self w.refs k n

refs_others :
    (w v : World) (k n : ℕ) → v.refs ≡ write w.refs k n → (j : ℕ) → k ≢ j → v.refs j ≡ w.refs j
refs_others w v k n e j ne = ap (λ f. f j) e ∙ write_ne w.refs k j n ne

-- An entry was free, and now caches an inode that was not cached.
Kept-recycle :
    (w v : World) (dev inum k : ℕ)
    → Counted w
    → k < 50
    → (w.cache k).ref ≡ 0
    → ((j : ℕ) → j < 50 → ¬ Caches dev inum (w.cache j))
    → v.cache k ≡ record (w.cache k) { dev = dev; inum = inum; ref = 1; valid = false }
    → ((j : ℕ) → k ≢ j → v.cache j ≡ w.cache j)
    → v.refs ≡ write w.refs k (w.refs k + 1)
    → Kept w v
Kept-recycle w v dev inum k inv small free absent new others refs = (
  record {
    counted = λ j lt. elim (ℕ_discrete k j) [
      | yes s ↦
          let z : w.refs k ≡ 0 = sym (inv.counted k small) ∙ free in
          subst (λ i. (v.cache i).ref ≡ v.refs i) s
            (ap (λ (e : Entry). e.ref) new ∙ sym (refs_self w v k _ refs ∙ ap (λ m. m + 1) z))
      | no ne ↦
          ap (λ (e : Entry). e.ref) (others j ne)
          ∙ inv.counted j lt
          ∙ sym (refs_others w v k _ refs j ne)
    ];
    inside = λ j le. refs_others w v k _ refs j (λ s. omega (arith, s)) ∙ inv.inside j le;
    unique = λ j l jl ll used same. elim (ℕ_discrete k j) [
      | yes s ↦ elim (ℕ_discrete k l) [
        | yes t ↦ sym s ∙ t
        | no ne ↦
            let e : v.cache l ≡ w.cache l = others l ne in
            let at : v.cache j
                ≡ record (w.cache k) { dev = dev; inum = inum; ref = 1; valid = false } =
              ap v.cache (sym s) ∙ new in
            absurd (
              absent l ll record {
                used = subst (λ (x : Entry). 0 < x.ref) e same.used;
                dev_lem =
                    ap (λ (x : Entry). x.dev) (sym e) ∙ same.dev_lem ∙ ap (λ (x : Entry). x.dev) at;
                inum_lem =
                    ap (λ (x : Entry). x.inum) (sym e)
                    ∙ same.inum_lem
                    ∙ ap (λ (x : Entry). x.inum) at;
              })
      ]
      | no ne ↦ elim (ℕ_discrete k l) [
        | yes t ↦
            let e : v.cache j ≡ w.cache j = others j ne in
            let at : v.cache l
                ≡ record (w.cache k) { dev = dev; inum = inum; ref = 1; valid = false } =
              ap v.cache (sym t) ∙ new in
            absurd (
              absent j jl record {
                used = subst (λ (x : Entry). 0 < x.ref) e used;
                dev_lem =
                    ap (λ (x : Entry). x.dev) (sym e)
                    ∙ sym same.dev_lem
                    ∙ ap (λ (x : Entry). x.dev) at;
                inum_lem =
                    ap (λ (x : Entry). x.inum) (sym e)
                    ∙ sym same.inum_lem
                    ∙ ap (λ (x : Entry). x.inum) at;
              })
        | no n ↦ inv.unique j l jl ll (subst (λ (x : Entry). 0 < x.ref) (others j ne) used) (
            subst (λ (x : Entry). Caches x.dev x.inum (w.cache l)) (others j ne)
              (subst (λ (x : Entry). Caches (v.cache j).dev (v.cache j).inum x) (others l n) same))
      ]
    ];
  },
  λ j held. elim (ℕ_discrete k j) [
    | yes s ↦
        let z : w.refs j ≡ 0 = ap w.refs (sym s) ∙ sym (inv.counted k small) ∙ free in
        absurd (omega (arith, z, held))
    | no ne ↦ record {
      dev = ap (λ (e : Entry). e.dev) (others j ne);
      inum = ap (λ (e : Entry). e.inum) (others j ne);
    }
  ],
)

Kept-iget :
    (w v : World) (dev inum k : ℕ) (u : Icache)
    → Counted w
    → Gets dev inum w.cache (some (k, u))
    → v.cache ≡ u
    → v.refs ≡ write w.refs k (w.refs k + 1)
    → Kept w v
Kept-iget w v dev inum k u inv (small, how, others) cache refs = elim how [
  | inl (here, more) ↦
      Kept-Counts w v k ((w.cache k).ref + 1) inv
        (subst (λ c. Counts w.cache c k ((w.cache k).ref + 1)) (sym cache)
          record {
            at_k = ap (λ (e : Entry). e.ref) more;
            identity = record {
              dev = ap (λ (e : Entry). e.dev) more;
              inum = ap (λ (e : Entry). e.inum) more;
            };
            others = others;
          })
        small (λ p. here.used)
        (ap (λ m. m + 1) (inv.counted k small) ∙ sym (refs_self w v k _ refs))
        (refs_others w v k _ refs)
  | inr (free, absent, new) ↦
      Kept-recycle w v dev inum k inv small free absent (ap (λ f. f k) cache ∙ new)
        (λ j ne. ap (λ f. f j) cache ∙ others j ne) refs
]

-- A call that leaves the count, and one that gives up a pointer.
Kept-same :
    (w v : World) (k : ℕ) (u : Icache)
    → Counted w
    → 0 < w.refs k
    → Counts w.cache u k ((w.cache k).ref)
    → v.cache ≡ u
    → v.refs ≡ w.refs
    → Kept w v
Kept-same w v k u inv held c cache refs =
    let small = held_inside w k inv held in
    Kept-Counts w v k ((w.cache k).ref) inv
      (subst (λ x. Counts w.cache x k ((w.cache k).ref)) (sym cache) c) small (λ p. p)
      (inv.counted k small ∙ sym (ap (λ f. f k) refs)) (λ j ne. ap (λ f. f j) refs)

-- From a state in which the counts are right and no inode is cached twice, every call keeps that so, and a
-- pointer that is held stays one to the same inode.
pub Step-Kept : (w v : World) → Counted w → Step w v → Kept w v
unfolding idup
Step-Kept w v inv (get dev inum k u run cache refs) =
    Kept-iget w v dev inum k u inv (subst (Gets dev inum w.cache) run (Gets-iget dev inum w.cache))
      cache refs
Step-Kept w v inv (dup k j u held run cache refs) =
    let small = held_inside w k inv held in
    let here : k ≡ j = ap (λ (a, b). a) run in
    let more : write w.cache k (record (w.cache k) { ref = (w.cache k).ref + 1 }) ≡ u =
      ap (λ (a, b). b) run in
    let count : v.refs ≡ write w.refs k (w.refs k + 1) =
      subst (λ i. v.refs ≡ write w.refs i (w.refs i + 1)) (sym here) refs in
    Kept-Counts w v k ((w.cache k).ref + 1) inv
      (subst (λ x. Counts w.cache x k ((w.cache k).ref + 1)) (more ∙ sym cache)
        (Counts-write w.cache k (record (w.cache k) { ref = (w.cache k).ref + 1 })
          record { dev = refl; inum = refl }))
      small
      (λ p. let n : (w.cache k).ref ≡ w.refs k = inv.counted k small in omega (arith, n, held))
      (ap (λ m. m + 1) (inv.counted k small) ∙ sym (refs_self w v k _ count))
      (refs_others w v k _ count)
Step-Kept w v inv (lock pid k u held run cache refs) =
    Kept-same w v k u inv held
      (subst (Keeps w.cache k ((w.cache k).ref)) run (Keeps-ilock pid k w.cache w.disk)) cache refs
Step-Kept w v inv (unlock pid k u held run cache refs) =
    Kept-same w v k u inv held
      (subst (Keeps w.cache k ((w.cache k).ref)) run (Keeps-iunlock pid k w.cache)) cache refs
Step-Kept w v inv (use_inode k i held cache refs) =
    Kept-same w v k (write w.cache k (record (w.cache k) { inode = i })) inv held
      (Counts-write w.cache k (record (w.cache k) { inode = i }) record { dev = refl; inum = refl })
      cache refs
Step-Kept w v inv (put pid k u held run cache refs) =
    let small = held_inside w k inv held in
    let n : (w.cache k).ref ≡ w.refs k = inv.counted k small in
    Kept-Counts w v k ((w.cache k).ref - 1) inv
      (subst (λ x. Counts w.cache x k ((w.cache k).ref - 1)) (sym cache)
        (subst (KeepsBoth w.cache k ((w.cache k).ref - 1)) run
          (KeepsBoth-iput pid k w.cache w.disk)))
      small (λ p. omega (arith, p)) (ap (λ m. m - 1) n ∙ sym (refs_self w v k _ refs))
      (refs_others w v k _ refs)

-- The start: no pointer, and no entry in use.
pub record AtBoot (w : World) : Type 0 where
  pub unused : (k : ℕ) → (w.cache k).ref ≡ 0
  pub no_refs : (k : ℕ) → w.refs k ≡ 0

pub data Reach (b : World) : World → Type 0 where
  boot : Reach b b
  step : {w : World} (v : World) → Reach b w → Step w v → Reach b v

-- In every state that calls reach from the start, the count of an entry is the number of pointers to it, and
-- no inode stands in two entries in use.
pub Reach-Counted : (b w : World) → AtBoot b → Reach b w → Counted w
Reach-Counted b w at_boot boot = record {
  counted = λ k lt. at_boot.unused k ∙ sym (at_boot.no_refs k);
  inside = λ k le. at_boot.no_refs k;
  unique = λ j k jl kl used same.
      let z : (b.cache j).ref ≡ 0 = at_boot.unused j in absurd (omega (arith, z, used));
}
Reach-Counted b w at_boot (step v r s) =
    let (inv, kept) = Step-Kept _ w (Reach-Counted b _ at_boot r) s in inv
