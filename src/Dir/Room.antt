-- ===== src/Dir/Room.antt =====
-- Where dirlink of xv6-core/fs.c finds room for an entry, and the entries that it leaves.
use os_lab.Prelude.{
  ℕ, zero, suc, ◌+◌, ◌*◌, ◌<◌, ◌≤◌, ◌≡◌, ◌≢◌, inl, inr, ap, ◌∙◌, subst, true, false, some, ◌==◌,
  ltb, if◌then◌else◌, arith, Bool-cases,
}
use os_lab.Fs.Defs.{Disk}
use os_lab.Fs.Inode.{Inode, Devsw}
use os_lab.Fs.Write.{Wrote}
use os_lab.Fs.Readi.{Dense}
use os_lab.Dir.Defs.{Name, find_empty}
use os_lab.Dir.Lookup.{entry_inum, matches, read_entry, read_inum}
use os_lab.Dir.Entries.{entry_same}

-- How many of the `m` entries from `off` on come before the first that is not in use.
unfoldable pub first_empty : ℕ → ℕ → Inode → Disk → ℕ
first_empty zero off i d = 0
first_empty (suc m) off i d =
    let rest = first_empty m (off + 16) i d in if entry_inum i d off == 0 then 0 else suc rest

pub first_empty_lem :
    (m off : ℕ) (i : Inode) (d : Disk)
    → (first_empty m off i d ≤ m)
      × (first_empty m off i d < m → entry_inum i d (off + 16 * first_empty m off i d) ≡ 0)
unfolding first_empty
first_empty_lem zero off i d = (omega arith, λ lt. absurd (omega arith))
first_empty_lem (suc m) off i d = elim (Bool-cases (entry_inum i d off == 0)) [
  | inl z ↦
      let place : off ≡ off + 16 * 0 = omega arith in
      rw (z) (omega arith, λ lt. subst (λ p. entry_inum i d p ≡ 0) place (ground (arith, z)))
  | inr z ↦
      let (le, found) = first_empty_lem m (off + 16) i d in
      let place : off + 16 + 16 * first_empty m (off + 16) i d
          ≡ off + 16 * suc (first_empty m (off + 16) i d) =
        omega arith in
      rw (z)
        (omega (arith, le), λ lt. subst (λ p. entry_inum i d p ≡ 0) place (found (omega arith)))
]

module _ (devsw : Devsw) (meta : ℕ) (i : Inode) (d : Disk) where
  pub find_empty_lem :
      (n m off : ℕ) (de : ℕ → ℕ)
      → m < n
      → off + 16 * m ≡ i.size
      → Dense meta i d
      → (out : ℕ → ℕ) × (find_empty devsw n off de i d
          ≡ some (off + 16 * first_empty m off i d, out, i, d))
  unfolding find_empty first_empty
  find_empty_lem zero m off de lt fits f = absurd (omega arith)
  find_empty_lem (suc n) zero off de lt fits f =
      let t : ltb off i.size ≡ false = ground (arith, fits) in
      let place : off ≡ off + 16 * 0 = omega arith in
      rw (t, find_empty) (de, ap (λ p. some (p, de, i, d)) place)
  find_empty_lem (suc n) (suc m) off de lt fits f =
      let t : ltb off i.size ≡ true = ground (arith, fits) in
      let (out, run, h) = read_entry devsw meta i d de off f (omega (arith, fits)) in
      let inum = read_inum devsw meta i d out off h in
      let (last, rest) = find_empty_lem n m (off + 16) out (omega arith) (omega (arith, fits)) f in
      elim (Bool-cases (entry_inum i d off == 0)) [
        | inl z ↦
            let place : off ≡ off + 16 * 0 = omega arith in
            rw (t, find_empty, run, inum, z) (out, ap (λ p. some (p, out, i, d)) place)
        | inr z ↦
            let place : off + 16 + 16 * first_empty m (off + 16) i d
                ≡ off + 16 * suc (first_empty m (off + 16) i d) =
              omega arith in
            rw (t, find_empty, run, inum, z) (last, rest ∙ ap (λ p. some (p, last, i, d)) place)
      ]

  -- The other entries are as before.
  pub entry_kept :
      (j : Inode) (e : Disk) (src : ℕ → ℕ) (q m k : ℕ)
      → Wrote i d 0 (16 * q) 16 src j e
      → k < m
      → 16 * m ≤ 71680
      → q ≢ k
      → (entry_inum j e (16 * k) ≡ entry_inum i d (16 * k))
        × ((name : Name) → matches name j e (16 * k) ≡ matches name i d (16 * k))
  entry_kept j e src q m k w lt bound ne =
      entry_same i d j e (16 * k) (λ t small. w.outside (16 * k + t) (ground arith) (omega arith))
