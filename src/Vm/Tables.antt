-- ===== src/Vm/Tables.antt =====
-- The entries that a page directory of xv6-core/vm.c leads to, and how walkpgdir changes the tables.
use os_lab.Prelude.{
  ℕ, ◌<◌, ◌≤◌, ◌≡◌, ◌≢◌, ◌⊎◌, inl, inr, refl, ap, ap₂, ◌∙◌, sym, subst, true, false, if◌then◌else◌,
  write, arith, ℕ_discrete, Bool-cases, is_in, distinct,
}
use os_lab.Fs.Words.{write_self, write_ne}
use os_lab.Vm.Defs.{Pte, no_pte, Memory, pdx, ptx, p2v}

-- The page of entries that the directory's entry `k` names.
abbrev pub tab : ℕ → Memory → ℕ → ℕ
tab pgdir m k = p2v (m.table pgdir k).addr

-- The entry of an address, with none present where there is no page for it.
unfoldable pub lookup : ℕ → Memory → ℕ → Pte
lookup pgdir m va =
    if (m.table pgdir (pdx va)).present then m.table (tab pgdir m (pdx va)) (ptx va) else no_pte

-- The directory, its pages of entries and the free pages are apart from each other.
pub record Apart (pgdir : ℕ) (m : Memory) : Type 0 where
  pub from_dir : (k : ℕ) → k < 1024 → (m.table pgdir k).present ≡ true → tab pgdir m k ≢ pgdir
  pub distinct_tables :
      (k l : ℕ)
      → k < 1024
      → l < 1024
      → (m.table pgdir k).present ≡ true
      → (m.table pgdir l).present ≡ true
      → tab pgdir m k ≡ tab pgdir m l
      → k ≡ l
  pub free_dir : (x : ℕ) → is_in x m.free ≡ true → x ≢ pgdir
  pub free_place : (x : ℕ) → is_in x m.free ≡ true → (2147483648 ≤ x) × (x < 4294967296)
  pub free_tables :
      (x k : ℕ)
      → is_in x m.free ≡ true
      → k < 1024
      → (m.table pgdir k).present ≡ true
      → tab pgdir m k ≢ x
  pub free_once : distinct m.free ≡ true

pub lookup-there :
    (pgdir : ℕ) (m : Memory) (va t : ℕ)
    → (m.table pgdir (pdx va)).present ≡ true
    → tab pgdir m (pdx va) ≡ t
    → lookup pgdir m va ≡ m.table t (ptx va)
unfolding lookup
lookup-there pgdir m va t there at = rw (there) (ap (λ x. m.table x (ptx va)) at)

pub lookup-none :
    (pgdir : ℕ) (m : Memory) (va : ℕ)
    → (m.table pgdir (pdx va)).present ≡ false
    → lookup pgdir m va ≡ no_pte
unfolding lookup
lookup-none pgdir m va there = rw (there) refl

-- Addresses of one page have one entry.
pub lookup_page :
    (pgdir : ℕ) (m : Memory) (a b : ℕ)
    → pdx a ≡ pdx b
    → ptx a ≡ ptx b
    → lookup pgdir m b ≡ lookup pgdir m a
unfolding lookup
lookup_page pgdir m a b p q =
    ap₂ (λ x y. if (m.table pgdir x).present then m.table (tab pgdir m x) y else no_pte) (sym p)
      (sym q)

-- The page `t` takes the entry `e` at `va`.
module _ (pgdir : ℕ) (m : Memory) (va t : ℕ) (e : Pte) where
  abbrev pub after_set : Memory
  after_set = record m { table = write m.table t (write (m.table t) (ptx va) e) }

  dir_same : t ≢ pgdir → (k : ℕ) → after_set.table pgdir k ≡ m.table pgdir k
  dir_same ne k = ap (λ (f : ℕ → Pte). f k) (write_ne m.table t pgdir _ ne)

  pub Apart-set_entry : t ≢ pgdir → Apart pgdir m → Apart pgdir after_set
  Apart-set_entry ne a =
      let same = dir_same ne in
      let tabs : (k : ℕ) → tab pgdir after_set k ≡ tab pgdir m k =
        λ k. ap (λ (x : Pte). p2v x.addr) (same k) in
      let old : (k : ℕ)
          → (after_set.table pgdir k).present ≡ true
          → (m.table pgdir k).present ≡ true =
        λ k p. sym (ap (λ (x : Pte). x.present) (same k)) ∙ p in
      record {
        from_dir = λ k lt p q. a.from_dir k lt (old k p) (sym (tabs k) ∙ q);
        distinct_tables = λ k l kl ll p q s.
            a.distinct_tables k l kl ll (old k p) (old l q) (sym (tabs k) ∙ s ∙ tabs l);
        free_dir = a.free_dir;
        free_place = a.free_place;
        free_tables = λ x k i lt p q. a.free_tables x k i lt (old k p) (sym (tabs k) ∙ q);
        free_once = a.free_once;
      }

  -- The entry of that page is `e`, all others are as before.
  pub lookup-set_here :
      t ≢ pgdir
      → (m.table pgdir (pdx va)).present ≡ true
      → tab pgdir m (pdx va) ≡ t
      → (vb : ℕ) → pdx va ≡ pdx vb
      → ptx va ≡ ptx vb
      → lookup pgdir after_set vb ≡ e
  lookup-set_here ne there at vb p q =
      let same = dir_same ne in
      lookup-there pgdir after_set vb t
        (ap (λ (x : Pte). x.present) (same (pdx vb))
          ∙ ap (λ k. (m.table pgdir k).present) (sym p)
          ∙ there)
        (ap (λ (x : Pte). p2v x.addr) (same (pdx vb)) ∙ ap (tab pgdir m) (sym p) ∙ at)
      ∙ ap (λ (f : ℕ → Pte). f (ptx vb)) (write_self m.table t _)
      ∙ ap (write (m.table t) (ptx va) e) (sym q)
      ∙ write_self (m.table t) (ptx va) e

  pub lookup-set_others :
      t ≢ pgdir
      → Apart pgdir m
      → (m.table pgdir (pdx va)).present ≡ true
      → tab pgdir m (pdx va) ≡ t
      → (vb : ℕ) → (pdx va ≢ pdx vb) ⊎ (ptx va ≢ ptx vb)
      → lookup pgdir after_set vb ≡ lookup pgdir m vb
  lookup-set_others ne a there at vb other =
      let same = dir_same ne in
      elim (Bool-cases ((m.table pgdir (pdx vb)).present)) [
        | inr absent ↦
            lookup-none pgdir after_set vb (ap (λ (x : Pte). x.present) (same (pdx vb)) ∙ absent)
            ∙ sym (lookup-none pgdir m vb absent)
        | inl present ↦
            lookup-there pgdir after_set vb (tab pgdir m (pdx vb))
              (ap (λ (x : Pte). x.present) (same (pdx vb)) ∙ present)
              (ap (λ (x : Pte). p2v x.addr) (same (pdx vb)))
            ∙ entry present
            ∙ sym (lookup-there pgdir m vb (tab pgdir m (pdx vb)) present refl)
      ]
    where
      entry :
          (m.table pgdir (pdx vb)).present ≡ true
          → after_set.table (tab pgdir m (pdx vb)) (ptx vb)
            ≡ m.table (tab pgdir m (pdx vb)) (ptx vb)
      entry present = elim (ℕ_discrete t (tab pgdir m (pdx vb))) [
        | no far ↦ ap (λ (f : ℕ → Pte). f (ptx vb)) (write_ne m.table t _ _ far)
        | yes near ↦
            let p : pdx va ≡ pdx vb =
              a.distinct_tables (pdx va) (pdx vb) (omega arith) (omega arith) there present
                (at ∙ near) in
            subst (λ x. after_set.table x (ptx vb) ≡ m.table x (ptx vb)) near
              (ap (λ (f : ℕ → Pte). f (ptx vb)) (write_self m.table t _)
                ∙ write_ne (m.table t) (ptx va) (ptx vb) e
                    (elim other [ inl x ↦ absurd (x p) | inr x ↦ x ]))
      ]
