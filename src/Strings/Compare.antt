-- ===== src/Strings/Compare.antt =====
-- What memcmp and strncmp of xv6-core/string.c decide.
use os_lab.Prelude.{
  ℕ, zero, suc, ◌+◌, ◌≡◌, ◌↔◌, inl, inr, refl, not, ◌&&◌, ◌==◌, List, [], ◌∷◌, arith, if◌then◌else◌,
  Bool-cases,
}
use os_lab.Prelude.Int.{pos, difference_self, eq_of_difference}
use os_lab.Strings.Defs.{Memory, strncmp}

-- The string at an address: the bytes before the first NUL, `n` at most.
abbrev pub string_at : ℕ → ℕ → Memory → List ℕ
string_at zero p m = []
string_at (suc n) p m = let rest = string_at n (p + 1) m in if m p == 0 then [] else m p ∷ rest

-- The `n` bytes at an address.
abbrev pub bytes_at : ℕ → ℕ → Memory → List ℕ
bytes_at zero p m = []
bytes_at (suc n) p m = m p ∷ bytes_at n (p + 1) m

head_eq : {x y : ℕ} {xs ys : List ℕ} → x ∷ xs ≡ y ∷ ys → x ≡ y
head_eq h = cc

tail_eq : {x y : ℕ} {xs ys : List ℕ} → x ∷ xs ≡ y ∷ ys → xs ≡ ys
tail_eq h = cc

string-of_strncmp :
    (n p q : ℕ) (m : Memory) → strncmp p q n m ≡ pos 0 → string_at n p m ≡ string_at n q m
unfolding strncmp
string-of_strncmp zero p q m h = refl
string-of_strncmp (suc n) p q m h = elim (Bool-cases (not (m p == 0) && (m p == m q))) [
  | inl go ↦
      let rest = string-of_strncmp n (p + 1) (q + 1) m (ground (arith, go, h)) in
      ground (arith, go, rest)
  | inr stop ↦
      let same = eq_of_difference (m p) (m q) (ground (arith, stop, h)) in
      ground (arith, stop, same)
]

strncmp-of_string :
    (n p q : ℕ) (m : Memory) → string_at n p m ≡ string_at n q m → strncmp p q n m ≡ pos 0
unfolding strncmp
strncmp-of_string zero p q m h = refl
strncmp-of_string (suc n) p q m h =
    let self = difference_self (m p) in
    elim (Bool-cases (m p == 0)) [
      | inl end ↦ elim (Bool-cases (m q == 0)) [
        | inl end2 ↦ ground (arith, end, end2, self)
        | inr more ↦ absurd (ground (arith, end, more, h))
      ]
      | inr more ↦ elim (Bool-cases (m q == 0)) [
        | inl end2 ↦ absurd (ground (arith, end2, more, h))
        | inr more2 ↦
            let both : m p ∷ string_at n (p + 1) m ≡ m q ∷ string_at n (q + 1) m =
              ground (arith, more, more2, h) in
            let rest = strncmp-of_string n (p + 1) (q + 1) m (tail_eq both) in
            let same = head_eq both in ground (arith, more, same, rest)
      ]
    ]

-- strncmp gives 0 just where the two strings, of `n` bytes at most, are equal.
pub strncmp_lem :
    (n p q : ℕ) (m : Memory) → (strncmp p q n m ≡ pos 0) ↔ (string_at n p m ≡ string_at n q m)
strncmp_lem n p q m = (string-of_strncmp n p q m, strncmp-of_string n p q m)
