-- ===== src/Dir/Entries.antt =====
-- The entries of a directory of xv6-core/fs.c, before and after one is written.
use os_lab.Prelude.{
  ℕ, zero, suc, ◌+◌, ◌-◌, ◌*◌, ◌%◌, ◌^◌, ◌<◌, ◌≤◌, ◌≡◌, ◌⊎◌, inl, inr, refl, ap, ap₂, ◌∙◌, sym,
  subst, Bool, true, false, not, ◌&&◌, none, some, ◌==◌, ltb, leb, if◌then◌else◌, write, arith,
  ℕ_discrete, Bool-cases,
}
use os_lab.Fs.Defs.{Disk}
use os_lab.Fs.Inode.{Inode}
use os_lab.Fs.Words.{write_self, write_ne, half-put_half}
use os_lab.Fs.Slots.{content}
use os_lab.Dir.Defs.{Name, same_name, namecmp, copy_name, dirent}
use os_lab.Dir.Lookup.{entry_inum, entry_name, matches, first_match, same_name_lem}

-- The same 16 bytes are the same entry.
pub entry_same :
    (i : Inode) (d : Disk) (j : Inode) (e : Disk) (p : ℕ)
    → ((k : ℕ) → k < 16 → content j e (p + k) ≡ content i d (p + k))
    → (entry_inum j e p ≡ entry_inum i d p)
      × ((name : Name) → matches name j e p ≡ matches name i d p)
unfolding namecmp
entry_same i d j e p h =
    let inum : entry_inum j e p ≡ entry_inum i d p =
      ap₂ (λ a b. a % 256 + 2 ^ 8 * (b % 256)) (h 0 (omega arith)) (h 1 (omega arith)) in
    (
      inum,
      λ name.
          ap₂ (λ a b. not (a == 0) && b) inum
            (same_name_lem 14 0 name (entry_name j e p) (entry_name i d p)
              (λ k lo hi. h (2 + k) (omega arith))),
    )

-- A copy of a name compares like the name.
pub copy_name_out : (n k : ℕ) (s t : Name) (j : ℕ) → j < k → copy_name n k s t j ≡ t j
unfolding copy_name
copy_name_out zero k s t j lt = refl
copy_name_out (suc n) k s t j lt = elim (Bool-cases (s k == 0)) [
  | inl z ↦ let u : leb k j ≡ false = ground arith in rw (z, u) refl
  | inr z ↦ rw (z) (
      copy_name_out n (k + 1) s (write t k (s k)) j (omega arith)
      ∙ write_ne t k j (s k) (omega arith))
]

copy_name_first : (n k : ℕ) (s t : Name) → copy_name (suc n) k s t k ≡ s k
unfolding copy_name
copy_name_first n k s t = elim (Bool-cases (s k == 0)) [
  | inl z ↦
      let u : leb k k ≡ true = ground arith in
      let v : ltb k (k + suc n) ≡ true = ground arith in rw (z, u, v) (ground (arith, z))
  | inr z ↦
      rw (z) (copy_name_out n (k + 1) s (write t k (s k)) k (omega arith) ∙ write_self t k (s k))
]

copy_name_more :
    (n k : ℕ) (s t : Name)
    → (s k == 0) ≡ false
    → copy_name (suc n) k s t ≡ copy_name n (k + 1) s (write t k (s k))
unfolding copy_name
copy_name_more n k s t z = rw (z) refl

pub same_name-copy_name :
    (n k : ℕ) (q s t : Name) → same_name n k q (copy_name n k s t) ≡ same_name n k q s
unfolding same_name
same_name-copy_name zero k q s t = refl
same_name-copy_name (suc n) k q s t =
    let here = copy_name_first n k s t in
    elim (Bool-cases (s k == 0)) [
      | inl z ↦
          let w : (not (q k == 0) && (q k == s k)) ≡ false = ground (arith, z) in rw (here, w) refl
      | inr z ↦
          let rest : copy_name (suc n) k s t ≡ copy_name n (k + 1) s (write t k (s k)) =
            copy_name_more n k s t z in
          rw (here) (
            ap (λ (r : Bool). if not (q k == 0) && (q k == s k) then r else q k == s k)
              (ap (same_name n (k + 1) q) rest
                ∙ same_name-copy_name n (k + 1) q s (write t k (s k))))
    ]

-- The bytes of a copy are bytes.
pub copy_name_byte :
    (n k : ℕ) (s t : Name)
    → ((j : ℕ) → s j < 256)
    → (j : ℕ) → k ≤ j
    → j < k + n
    → copy_name n k s t j < 256
unfolding copy_name
copy_name_byte zero k s t bytes j lo hi = absurd (omega arith)
copy_name_byte (suc n) k s t bytes j lo hi = elim (Bool-cases (s k == 0)) [
  | inl z ↦
      let u : leb k j ≡ true = ground arith in
      let v : ltb j (k + suc n) ≡ true = ground arith in rw (z, u, v) (omega arith)
  | inr z ↦ rw (z) elim (ℕ_discrete k j) [
    | yes same ↦
        subst (λ i. copy_name n (k + 1) s (write t k (s k)) i < 256) same
          (subst (λ v. v < 256)
            (sym
              (copy_name_out n (k + 1) s (write t k (s k)) k (omega arith) ∙ write_self t k (s k)))
            (bytes k))
    | no ne ↦ copy_name_byte n (k + 1) s (write t k (s k)) bytes j (omega arith) (omega arith)
  ]
]

-- A name matches itself.
pub same_name_refl : (n k : ℕ) (s : Name) → same_name n k s s ≡ true
unfolding same_name
same_name_refl zero k s = refl
same_name_refl (suc n) k s =
    let rest : same_name n (k + 1) s s ≡ true = same_name_refl n (k + 1) s in
    let here : (s k == s k) ≡ true = ground arith in
    rw (rest, here)
      (elim (Bool-cases (not (s k == 0))) [ inl h ↦ rw (h) refl | inr h ↦ rw (h) refl ])

-- Where the entries `off` and on hold what `dirent` makes of a name and a number.
pub entry_written :
    (name : Name) (inum : ℕ) (de : ℕ → ℕ) (j : Inode) (e : Disk) (off : ℕ)
    → inum < 65536
    → ((k : ℕ) → name k < 256)
    → ((k : ℕ) → k < 16 → content j e (off + k) ≡ dirent name inum de k % 256)
    → (entry_inum j e off ≡ inum) × ((q : Name) → namecmp q (entry_name j e off) ≡ namecmp q name)
unfolding namecmp dirent
entry_written name inum de j e off small bytes h =
    let value : inum % 65536 ≡ inum = omega arith in
    let copied : Name = copy_name 14 0 name (λ k. de (2 + k)) in
    (
      ap₂ (λ a b. a % 256 + 2 ^ 8 * (b % 256)) (h 0 (omega arith)) (h 1 (omega arith))
          ∙ omega arith
          ∙ half-put_half de 0 (inum % 2 ^ 16) (omega arith)
          ∙ value,
      λ q.
          same_name_lem 14 0 q (entry_name j e off) copied (λ k lo hi.
            let there : 2 + k - 2 ≡ k = omega arith in
            let byte : copied k < 256 =
              copy_name_byte 14 0 name (λ k. de (2 + k)) bytes k (omega arith) hi in
            let past : ltb (2 + k) 2 ≡ false = ground arith in
            h (2 + k) (omega arith) ∙ rw (past, there) (omega (arith, byte)))
          ∙ same_name-copy_name 14 0 q name (λ k. de (2 + k)),
    )

-- Where the search for a name stops.
pub first_match_hit :
    (n a q : ℕ) (name : Name) (i : Inode) (d : Disk)
    → q < n
    → ((k : ℕ) → k < q → matches name i d (a + 16 * k) ≡ false)
    → matches name i d (a + 16 * q) ≡ true
    → first_match n a name i d ≡ some (entry_inum i d (a + 16 * q), a + 16 * q)
unfolding first_match
first_match_hit zero a q name i d lt before hit = absurd (omega arith)
first_match_hit (suc n) a zero name i d lt before hit =
    let place : a + 16 * 0 ≡ a = omega arith in
    let here : matches name i d a ≡ true = subst (λ p. matches name i d p ≡ true) place hit in
    rw (here) (ap (λ p. some (entry_inum i d p, p)) (sym place))
first_match_hit (suc n) a (suc q) name i d lt before hit =
    let start : a + 16 * 0 ≡ a = omega arith in
    let miss : matches name i d a ≡ false =
      subst (λ p. matches name i d p ≡ false) start (before 0 (omega arith)) in
    let place : a + 16 * suc q ≡ a + 16 + 16 * q = omega arith in
    rw (miss) (
      first_match_hit n (a + 16) q name i d (omega arith)
        (λ k l.
          subst (λ p. matches name i d p ≡ false) (omega arith) (before (k + 1) (omega arith)))
        (subst (λ p. matches name i d p ≡ true) place hit)
      ∙ ap (λ p. some (entry_inum i d p, p)) (sym place))

pub first_match-none :
    (n a : ℕ) (name : Name) (i : Inode) (d : Disk)
    → first_match n a name i d ≡ none
    → (k : ℕ) → k < n
    → matches name i d (a + 16 * k) ≡ false
unfolding first_match
first_match-none zero a name i d e k lt = absurd (omega arith)
first_match-none (suc n) a name i d e k lt = elim (Bool-cases (matches name i d a)) [
  | inl h ↦ absurd (ground (arith, e, h))
  | inr h ↦ elim (ℕ_discrete 0 k) [
    | yes z ↦
        let place : a ≡ a + 16 * k = omega (arith, z) in
        subst (λ p. matches name i d p ≡ false) place h
    | no ne ↦
        let place : a + 16 + 16 * (k - 1) ≡ a + 16 * k = omega arith in
        subst (λ p. matches name i d p ≡ false) place
          (first_match-none n (a + 16) name i d (ground (arith, e, h)) (k - 1) (omega arith))
  ]
]

-- Two directories whose entries agree, or do not match in either.
pub first_match_same :
    (n a : ℕ) (name : Name) (i : Inode) (d : Disk) (j : Inode) (e : Disk)
    → ((k : ℕ)
        → k < n
        → ((entry_inum j e (a + 16 * k) ≡ entry_inum i d (a + 16 * k))
            × (matches name j e (a + 16 * k) ≡ matches name i d (a + 16 * k)))
          ⊎ ((matches name j e (a + 16 * k) ≡ false) × (matches name i d (a + 16 * k) ≡ false)))
    → first_match n a name j e ≡ first_match n a name i d
unfolding first_match
first_match_same zero a name i d j e h = refl
first_match_same (suc n) a name i d j e h =
    let rest : first_match n (a + 16) name j e ≡ first_match n (a + 16) name i d =
      first_match_same n (a + 16) name i d j e (λ k lt.
        let place : a + 16 * (k + 1) ≡ a + 16 + 16 * k = omega arith in
        subst
          (λ p.
            ((entry_inum j e p ≡ entry_inum i d p) × (matches name j e p ≡ matches name i d p))
            ⊎ ((matches name j e p ≡ false) × (matches name i d p ≡ false)))
          place (h (k + 1) (omega arith))) in
    let start : a + 16 * 0 ≡ a = omega arith in
    elim (subst
      (λ p.
        ((entry_inum j e p ≡ entry_inum i d p) × (matches name j e p ≡ matches name i d p))
        ⊎ ((matches name j e p ≡ false) × (matches name i d p ≡ false)))
      start (h 0 (omega arith))) [
        | inl (inum, same) ↦
            ap₂ (λ (b : Bool) r. if b then some (entry_inum j e a, a) else r) same rest
            ∙ ap (λ v. if matches name i d a then some (v, a) else first_match n (a + 16) name i d)
                inum
        | inr (no_j, no_i) ↦ rw (no_j, no_i) rest
      ]

-- One entry more, which does not match.
pub first_match_more :
    (n a : ℕ) (name : Name) (i : Inode) (d : Disk)
    → matches name i d (a + 16 * n) ≡ false
    → first_match (suc n) a name i d ≡ first_match n a name i d
unfolding first_match
first_match_more zero a name i d miss =
    let place : a + 16 * 0 ≡ a = omega arith in
    let here : matches name i d a ≡ false = subst (λ p. matches name i d p ≡ false) place miss in
    rw (here) refl
first_match_more (suc n) a name i d miss =
    let place : a + 16 * suc n ≡ a + 16 + 16 * n = omega arith in
    ap (λ r. if matches name i d a then some (entry_inum i d a, a) else r)
      (first_match_more n (a + 16) name i d (subst (λ p. matches name i d p ≡ false) place miss))

pub namecmp_refl : (s : Name) → namecmp s s ≡ true
unfolding namecmp
namecmp_refl s = same_name_refl 14 0 s
