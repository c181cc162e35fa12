-- ===== src/Dir/Linked.antt =====
-- A directory of xv6-core/fs.c after an entry was written.
use os_lab.Prelude.{
  ℕ, suc, ◌+◌, ◌*◌, ◌%◌, ◌<◌, ◌≤◌, ◌≡◌, ◌≢◌, ◌⊎◌, inl, inr, ap, ◌∙◌, sym, subst, true, false,
  Option, none, some, arith, ℕ_discrete,
}
use os_lab.Prelude.Int.{ℤ, pos}
use os_lab.Fs.Defs.{Disk}
use os_lab.Fs.Inode.{Inode, Devsw}
use os_lab.Fs.Read.{RanOut}
use os_lab.Fs.Write.{Wrote}
use os_lab.Fs.Readi.{Dense}
use os_lab.Icache.Defs.{Icache, Outcome, panics, sleeps, done}
use os_lab.Dir.Defs.{Name, namecmp, dirent}
use os_lab.Dir.Lookup.{entry_inum, entry_name, matches, first_match}
use os_lab.Dir.Entries.{
  entry_written, namecmp_refl, first_match_hit, first_match-none, first_match_same,
  first_match_more,
}
use os_lab.Dir.Room.{entry_kept}

module _ (devsw : Devsw) (meta : ℕ) (i : Inode) (d : Disk) (m : ℕ) (name : Name) (inum : ℕ) where
  -- What a link leaves, in a directory of `k` entries.
  pub record Linked (k : ℕ) (j : Inode) (e : Disk) : Type 0 where
    pub dense : Dense meta j e
    pub size : 16 * k ≡ j.size
    pub found : (off : ℕ) × (first_match k 0 name j e ≡ some (inum, off))
    pub others :
        (other : Name)
        → namecmp other name ≡ false
        → first_match k 0 other j e ≡ first_match m 0 other i d

  abbrev pub LinksEntry : Option (ℤ × Inode × Disk) → Type 0
  LinksEntry none = RanOut meta i d
  LinksEntry (some (r, j, e)) = (r ≡ pos 0) × (k : ℕ) × Linked k j e

  abbrev pub LinksOutcome : Icache → Outcome (ℤ × Icache × Inode × Disk) → Type 0
  LinksOutcome c panics = RanOut meta i d
  LinksOutcome c sleeps = ⊥
  LinksOutcome c (done (r, u, j, e)) = (r ≡ pos 0) × (u ≡ c) × (k : ℕ) × Linked k j e

  -- The entry that was written.
  new_entry :
      (j : Inode) (e : Disk) (q : ℕ) (de : ℕ → ℕ)
      → Wrote i d 0 (16 * q) 16 (dirent name inum de) j e
      → inum < 65536
      → ((k : ℕ) → name k < 256)
      → (entry_inum j e (16 * q) ≡ inum)
        × ((p : Name) → namecmp p (entry_name j e (16 * q)) ≡ namecmp p name)
  new_entry j e q de w small bytes = entry_written name inum de j e (16 * q) small bytes (λ k lt.
      w.inside (16 * q + k) (omega arith) (omega arith)
      ∙ ap (λ t. dirent name inum de t % 256) (omega arith))

  pub Linked-entries :
      (j : Inode) (e : Disk) (q k : ℕ) (de : ℕ → ℕ)
      → Wrote i d 0 (16 * q) 16 (dirent name inum de) j e
      → Dense meta j e
      → 16 * k ≡ j.size
      → 16 * m ≤ 71680
      → inum < 65536
      → 0 < inum
      → ((t : ℕ) → name t < 256)
      → first_match m 0 name i d ≡ none
      → ((q < m) × (entry_inum i d (16 * q) ≡ 0) × (k ≡ m)) ⊎ ((q ≡ m) × (k ≡ suc m))
      → Linked k j e
  Linked-entries j e q k de w dense size bound small some_inum bytes absent how =
      let (here, named) = new_entry j e q de w small bytes in
      let plain : (t : ℕ) → 0 + 16 * t ≡ 16 * t = λ t. omega arith in
      let own : namecmp name name ≡ true = namecmp_refl name in
      let at : matches name j e (16 * q) ≡ true =
        ground (arith, here, named name, own, some_inum) in
      let same : (t : ℕ)
          → t < m
          → q ≢ t
          → (entry_inum j e (16 * t) ≡ entry_inum i d (16 * t))
            × ((p : Name) → matches p j e (16 * t) ≡ matches p i d (16 * t)) =
        λ t lt ne. entry_kept devsw meta i d j e (dirent name inum de) q m t w lt bound ne in
      let before : (t : ℕ) → t < q → t < m → matches name j e (0 + 16 * t) ≡ false = λ t lt ltm.
        let (a, b) = same t ltm (λ s. omega (arith, s)) in
        subst (λ p. matches name j e p ≡ false) (sym (plain t))
          (b name
            ∙ ap (matches name i d) (sym (plain t))
            ∙ first_match-none m 0 name i d absent t ltm) in
      record {
        dense = dense;
        size = size;
        found = (
          16 * q,
          first_match_hit k 0 q name j e (ground (arith, how))
                (λ t lt. before t lt (ground (arith, how, lt)))
                (subst (λ p. matches name j e p ≡ true) (sym (plain q)) at)
              ∙ ap (λ p. some (entry_inum j e p, p)) (plain q)
              ∙ ap (λ v. some (v, 16 * q)) here,
        );
        others = λ other differs.
            let not_new : matches other j e (16 * q) ≡ false =
              ground (arith, named other, differs) in
            let agree : (t : ℕ)
                → t < m
                → (q ≡ t → matches other i d (16 * t) ≡ false)
                → ((entry_inum j e (0 + 16 * t) ≡ entry_inum i d (0 + 16 * t))
                    × (matches other j e (0 + 16 * t) ≡ matches other i d (0 + 16 * t)))
                  ⊎ ((matches other j e (0 + 16 * t) ≡ false)
                      × (matches other i d (0 + 16 * t) ≡ false)) =
              λ t lt empty.
                subst
                  (λ p.
                    ((entry_inum j e p ≡ entry_inum i d p)
                      × (matches other j e p ≡ matches other i d p))
                    ⊎ ((matches other j e p ≡ false) × (matches other i d p ≡ false)))
                  (sym (plain t))
                  (elim (ℕ_discrete q t) [
                    | yes s ↦
                        inr (subst (λ p. matches other j e (16 * p) ≡ false) s not_new, empty s)
                    | no ne ↦ let (a, b) = same t lt ne in inl (a, b other)
                  ]) in
            elim how [
              | inl (lt, empty, km) ↦
                  let free : matches other i d (16 * q) ≡ false = ground (arith, empty) in
                  ap (λ n. first_match n 0 other j e) km
                  ∙ first_match_same m 0 other i d j e (λ t ltm.
                    agree t ltm (λ s. subst (λ p. matches other i d (16 * p) ≡ false) s free))
              | inr (qm, km) ↦
                  let last : matches other j e (0 + 16 * m) ≡ false =
                    subst (λ p. matches other j e p ≡ false) (sym (plain m))
                      (subst (λ p. matches other j e (16 * p) ≡ false) qm not_new) in
                  ap (λ n. first_match n 0 other j e) km
                  ∙ first_match_more m 0 other j e last
                  ∙ first_match_same m 0 other i d j e
                      (λ t ltm. agree t ltm (λ s. absurd (omega (arith, s, qm))))
            ];
      }
