-- ===== src/Icache/Scan.antt =====
-- The search of iget in xv6-core/fs.c.
use os_lab.Prelude.{
  ℕ, zero, suc, ◌+◌, ◌<◌, ◌≤◌, ◌≡◌, ◌≢◌, ◌⊎◌, inl, inr, refl, subst, true, false, Option, none,
  some, ◌==◌, if◌then◌else◌, arith, ℕ_discrete, Bool-cases,
}
use os_lab.Fs.Words.{write_self, write_ne}
use os_lab.Icache.Defs.{
  Entry, Icache, Found, hit, miss, is_entry, remember, find_inode, get_found, iget,
}

-- The entry is in use and is the inode's.
pub record Caches (dev inum : ℕ) (e : Entry) : Type 0 where
  pub used : 0 < e.ref
  pub dev_lem : e.dev ≡ dev
  pub inum_lem : e.inum ≡ inum

Caches-of_test : (dev inum : ℕ) (e : Entry) → is_entry dev inum e ≡ true → Caches dev inum e
Caches-of_test dev inum e h = record {
  used = ground (arith, h);
  dev_lem = ground (arith, h);
  inum_lem = ground (arith, h);
}

test-of_Caches : (dev inum : ℕ) (e : Entry) → Caches dev inum e → is_entry dev inum e ≡ true
test-of_Caches dev inum e h =
    let u : 0 < e.ref = h.used in
    let v : e.dev ≡ dev = h.dev_lem in let w : e.inum ≡ inum = h.inum_lem in ground arith

-- What the search of the entries from `a` up to `b` finds, if it starts with the free entry `empty`.
abbrev pub Finds : ℕ → ℕ → Icache → ℕ → ℕ → Option ℕ → Found → Type 0
Finds dev inum c a b empty (hit k) = (a ≤ k) × (k < b) × Caches dev inum (c k)
Finds dev inum c a b empty (miss none) =
    (empty ≡ none) × ((j : ℕ) → a ≤ j → j < b → 0 < (c j).ref × ¬ Caches dev inum (c j))
Finds dev inum c a b empty (miss (some k)) =
    ((empty ≡ some k) ⊎ ((a ≤ k) × (k < b) × ((c k).ref ≡ 0)))
    × ((j : ℕ) → a ≤ j → j < b → ¬ Caches dev inum (c j))

module _ (dev inum : ℕ) (c : Icache) where
  not_here : (a : ℕ) → is_entry dev inum (c a) ≡ false → ¬ Caches dev inum (c a)
  not_here a other h =
      let t : is_entry dev inum (c a) ≡ true = test-of_Caches dev inum (c a) h in absurd (cc)

  -- The entry `a`, and those after it.
  from :
      (P : ℕ → Type 0) (a b : ℕ)
      → P a
      → ((j : ℕ) → a + 1 ≤ j → j < b → P j)
      → (j : ℕ) → a ≤ j
      → j < b
      → P j
  from P a b now later j lo hi = elim (ℕ_discrete a j) [
    | yes s ↦ subst P s now
    | no n ↦ later j (omega arith) hi
  ]

  Finds-step :
      (a b : ℕ) (empty : Option ℕ)
      → a < b
      → is_entry dev inum (c a) ≡ false
      → (r : Found) → Finds dev inum c (a + 1) b (remember empty a (c a)) r
      → Finds dev inum c a b empty r
  unfolding remember
  Finds-step a b empty lt other (hit k) (lo, hi, e) = (omega arith, hi, e)
  Finds-step a b none lt other (miss none) (start, all) =
      let busy : 0 < (c a).ref = ground (arith, start) in
      (refl, from (λ j. 0 < (c j).ref × ¬ Caches dev inum (c j)) a b (busy, not_here a other) all)
  Finds-step a b (some i) lt other (miss none) (start, all) = absurd (cc)
  Finds-step a b none lt other (miss (some k)) (start, all) =
      (inr (free start), from (λ j. ¬ Caches dev inum (c j)) a b (not_here a other) all)
    where
      free :
          ((if (c a).ref == 0 then some a else none) ≡ some k)
            ⊎ ((a + 1 ≤ k) × (k < b) × ((c k).ref ≡ 0))
          → (a ≤ k) × (k < b) × ((c k).ref ≡ 0)
      free (inl e) = elim (ℕ_discrete ((c a).ref) 0) [
        | yes z ↦
            let same : a ≡ k = ground (arith, e, z) in
            (omega (arith, same), omega (arith, same, lt), subst (λ j. (c j).ref ≡ 0) same z)
        | no n ↦ absurd (ground (arith, e, n))
      ]
      free (inr (lo, hi, z)) = (omega arith, hi, z)
  Finds-step a b (some i) lt other (miss (some k)) (start, all) = (
    elim start [ inl e ↦ inl e | inr (lo, hi, z) ↦ inr (omega arith, hi, z) ],
    from (λ j. ¬ Caches dev inum (c j)) a b (not_here a other) all,
  )

  find_inode_lem :
      (n a : ℕ) (empty : Option ℕ)
      → Finds dev inum c a (a + n) empty (find_inode n a dev inum c empty)
  unfolding find_inode
  find_inode_lem zero a none = (refl, λ j lo hi. absurd (omega arith))
  find_inode_lem zero a (some k) = (inl refl, λ j lo hi. absurd (omega arith))
  find_inode_lem (suc n) a empty = elim (Bool-cases (is_entry dev inum (c a))) [
    | inl here ↦ rw (here) (omega arith, omega arith, Caches-of_test dev inum (c a) here)
    | inr other ↦
        let place : a + 1 + n ≡ a + suc n = omega arith in
        rw (other) (
          Finds-step a (a + suc n) empty (omega arith) other _ (
            subst
              (λ b.
                Finds dev inum c (a + 1) b (remember empty a (c a))
                  (find_inode n (a + 1) dev inum c (remember empty a (c a))))
              place (find_inode_lem n (a + 1) (remember empty a (c a)))))
  ]

  -- What `iget` gives: the entry that caches the inode with a reference more, or else a free entry that now
  -- caches it, not valid, with one reference. No other entry changes. It panics only if all 50 entries are in
  -- use, none of them for the inode.
  abbrev pub Gets : Option (ℕ × Icache) → Type 0
  Gets none = (j : ℕ) → j < 50 → 0 < (c j).ref × ¬ Caches dev inum (c j)
  Gets (some (k, u)) =
      (k < 50)
      × ((Caches dev inum (c k) × (u k ≡ record (c k) { ref = (c k).ref + 1 }))
          ⊎ (((c k).ref ≡ 0)
              × ((j : ℕ) → j < 50 → ¬ Caches dev inum (c j))
              × (u k ≡ record (c k) { dev = dev; inum = inum; ref = 1; valid = false })))
      × ((j : ℕ) → k ≢ j → u j ≡ c j)

  Gets-found : (r : Found) → Finds dev inum c 0 50 none r → Gets (get_found dev inum c r)
  unfolding get_found
  Gets-found (hit k) (lo, hi, e) = (hi, inl (e, write_self c k _), λ j ne. write_ne c k j _ ne)
  Gets-found (miss none) (start, all) = λ j lt. all j (omega arith) lt
  Gets-found (miss (some k)) (start, all) = elim start [
    | inl e ↦ absurd (cc)
    | inr (lo, hi, z) ↦
        (hi, inr (z, λ j lt. all j (omega arith) lt, write_self c k _), λ j ne. write_ne c k j _ ne)
  ]

  pub Gets-iget : Gets (iget dev inum c)
  unfolding iget
  Gets-iget = Gets-found (find_inode 50 0 dev inum c none) (find_inode_lem 50 0 none)
