-- ===== src/Prelude/Int.antt =====
-- The values of a C `int`, as unbounded integers: `negsuc n` is -(n + 1).
use Prim.Native.Nat.{ℕ, zero, suc, ◌+◌}
use mathlib.Core.Path.{◌≡◌, refl, ap}
use mathlib.Core.Bool.{Bool, true, false}
use native.Mathlib.Omega.{arith}

pub data ℤ : Type 0 where
  pos : ℕ → ℤ
  negsuc : ℕ → ℤ

abbrev pub minus_one : ℤ
minus_one = negsuc 0

-- `0 < z`
abbrev pub is_pos : ℤ → Bool
is_pos (pos zero) = false
is_pos (pos (suc n)) = true
is_pos (negsuc n) = false

-- `z + 1`
abbrev pub inc : ℤ → ℤ
inc (pos n) = pos (n + 1)
inc (negsuc zero) = pos 0
inc (negsuc (suc n)) = negsuc n

-- `z - 1`
abbrev pub dec : ℤ → ℤ
dec (pos zero) = negsuc 0
dec (pos (suc n)) = pos n
dec (negsuc n) = negsuc (suc n)

pub inc-dec : (z : ℤ) → inc (dec z) ≡ z
inc-dec (pos zero) = refl
inc-dec (pos (suc n)) = ground arith
inc-dec (negsuc n) = refl

-- `a - b` of two naturals
abbrev pub difference : ℕ → ℕ → ℤ
difference a zero = pos a
difference zero (suc b) = negsuc b
difference (suc a) (suc b) = difference a b

pub difference_self : (a : ℕ) → difference a a ≡ pos 0
difference_self zero = refl
difference_self (suc a) = difference_self a

pub eq_of_difference : (a b : ℕ) → difference a b ≡ pos 0 → a ≡ b
eq_of_difference zero zero h = refl
eq_of_difference (suc a) zero h = absurd (cc)
eq_of_difference zero (suc b) h = absurd (cc)
eq_of_difference (suc a) (suc b) h = ap suc (eq_of_difference a b h)
