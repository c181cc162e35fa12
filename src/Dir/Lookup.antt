-- ===== src/Dir/Lookup.antt =====
-- dirlookup of xv6-core/fs.c on a directory without holes.
use os_lab.Prelude.{
  ℕ, zero, suc, ◌+◌, ◌-◌, ◌*◌, ◌/◌, ◌%◌, ◌^◌, ◌<◌, ◌≤◌, ◌≡◌, inl, inr, refl, ap, ap₂, ◌∙◌, Bool,
  true, false, not, ◌&&◌, Option, none, some, ◌==◌, ltb, if◌then◌else◌, min, arith, Bool-cases,
}
use os_lab.Prelude.Int.{pos}
use os_lab.Fs.Defs.{Disk}
use os_lab.Fs.Inode.{Inode, Devsw, half, readi}
use os_lab.Fs.Slots.{content}
use os_lab.Fs.Readi.{Dense, readi_lem}
use os_lab.Dir.Defs.{Name, same_name, namecmp, search_entries, search_dir}

-- The entry at `off`: the number of its inode, and its name.
abbrev pub entry_inum : Inode → Disk → ℕ → ℕ
entry_inum i d off = half (λ k. content i d (off + k)) 0

abbrev pub entry_name : Inode → Disk → ℕ → Name
entry_name i d off k = content i d (off + (2 + k))

-- The entry is in use, and has the name.
abbrev pub matches : Name → Inode → Disk → ℕ → Bool
matches name i d off = not (entry_inum i d off == 0) && namecmp name (entry_name i d off)

-- The first of the `m` entries from `off` on that has the name.
unfoldable pub first_match : ℕ → ℕ → Name → Inode → Disk → Option (ℕ × ℕ)
first_match zero off name i d = none
first_match (suc m) off name i d =
    let rest = first_match m (off + 16) name i d in
    if matches name i d off then some (entry_inum i d off, off) else rest

pub same_name_lem :
    (n k : ℕ) (s t u : Name)
    → ((j : ℕ) → k ≤ j → j < k + n → t j ≡ u j)
    → same_name n k s t ≡ same_name n k s u
unfolding same_name
same_name_lem zero k s t u h = refl
same_name_lem (suc n) k s t u h =
    let here : t k ≡ u k = h k (omega arith) (omega arith) in
    let rest : same_name n (k + 1) s t ≡ same_name n (k + 1) s u =
      same_name_lem n (k + 1) s t u (λ j lo hi. h j (omega arith) (omega arith)) in
    ap₂ (λ a (r : Bool). if not (s k == 0) && (s k == a) then r else s k == a) here rest

module _ (devsw : Devsw) (meta : ℕ) (i : Inode) (d : Disk) where
  -- Reading an entry.
  pub read_entry :
      (de : ℕ → ℕ) (off : ℕ)
      → Dense meta i d
      → off + 16 ≤ i.size
      → (out : ℕ → ℕ) × (readi devsw i de off 16 d ≡ some (pos 16, out, i, d))
        × ((k : ℕ) → k < 16 → out k ≡ content i d (off + k))
  read_entry de off f fits =
      let bound : i.size ≤ 71680 = f.bound in
      let whole : min 16 (i.size - off) ≡ 16 = omega arith in
      let (out, run, c) =
        readi_lem devsw meta i off 16 d f (omega arith, omega (arith, bound)) de in
      (
        out,
        run ∙ ap (λ m. some (pos m, out, i, d)) whole,
        λ k lt. c.inside k (omega arith) (omega (arith, whole)) ∙ ap (content i d) (omega arith),
      )

  pub read_inum :
      (out : ℕ → ℕ) (off : ℕ)
      → ((k : ℕ) → k < 16 → out k ≡ content i d (off + k))
      → half out 0 ≡ entry_inum i d off
  read_inum out off h =
      ap₂ (λ a b. a % 256 + 2 ^ 8 * (b % 256)) (h 0 (omega arith)) (h 1 (omega arith))

  read_matches :
      (name : Name) (out : ℕ → ℕ) (off : ℕ)
      → ((k : ℕ) → k < 16 → out k ≡ content i d (off + k))
      → (not (half out 0 == 0) && namecmp name (λ k. out (2 + k))) ≡ matches name i d off
  unfolding namecmp
  read_matches name out off h =
      ap₂ (λ a b. not (a == 0) && b) (read_inum out off h)
        (same_name_lem 14 0 name (λ k. out (2 + k)) (entry_name i d off)
          (λ j lo hi. h (2 + j) (omega arith)))

  search_entries_lem :
      (n m off : ℕ) (name : Name) (de : ℕ → ℕ)
      → m < n
      → off + 16 * m ≡ i.size
      → Dense meta i d
      → (out : ℕ → ℕ) × (search_entries devsw n off name de i d
          ≡ some (first_match m off name i d, out, i, d))
  unfolding search_entries first_match
  search_entries_lem zero m off name de lt fits f = absurd (omega arith)
  search_entries_lem (suc n) zero off name de lt fits f =
      let t : ltb off i.size ≡ false = ground (arith, fits) in rw (t, search_entries) (de, refl)
  search_entries_lem (suc n) (suc m) off name de lt fits f =
      let t : ltb off i.size ≡ true = ground (arith, fits) in
      let (out, run, h) = read_entry de off f (omega (arith, fits)) in
      let test = read_matches name out off h in
      let inum = read_inum out off h in
      let (last, rest) =
        search_entries_lem n m (off + 16) name out (omega arith) (omega (arith, fits)) f in
      elim (Bool-cases (matches name i d off)) [
        | inl hit ↦
            rw (t, search_entries, run, test, hit)
              (out, ap (λ a. some (some (a, off), out, i, d)) inum)
        | inr miss ↦ rw (t, search_entries, run, test, miss) (last, rest)
      ]

  -- `dirlookup` finds the first entry in use with the name, changes nothing and does not panic.
  pub search_dir_lem :
      (m : ℕ) (name : Name) (de : ℕ → ℕ)
      → i.type ≡ 1
      → 16 * m ≡ i.size
      → Dense meta i d
      → (out : ℕ → ℕ) × (search_dir devsw name de i d ≡ some (first_match m 0 name i d, out, i, d))
  unfolding search_dir
  search_dir_lem m name de dir fits f =
      let t : not (i.type == 1) ≡ false = ground arith in
      rw (t) (search_entries_lem (i.size / 16 + 2) m 0 name de (omega arith) (omega arith) f)
