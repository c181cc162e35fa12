-- ===== src/Fs/Bits.antt =====
-- The bits of a bitmap block of xv6-core/fs.c.
use os_lab.Prelude.{
  ℕ, zero, suc, ◌/◌, ◌%◌, ◌<◌, ◌≡◌, ◌≢◌, refl, ap, sym, Bool, true, false, not, ◌&&◌, ◌||◌, ◌==◌,
  write, arith, ℕ_discrete,
}
use os_lab.Fs.Defs.{Block, byte, test_bit, or_bit, clear_bit, has_bit, mark_bit, unmark_bit}

unfoldable pub all_below : ℕ → (ℕ → Bool) → Bool
all_below zero p = true
all_below (suc n) p = p n && all_below n p

pub all_below-at : (n : ℕ) (p : ℕ → Bool) (x : ℕ) → all_below n p ≡ true → x < n → p x ≡ true
unfolding all_below
all_below-at zero p x h lt = absurd (omega arith)
all_below-at (suc n) p x h lt = ground (arith, all_below-at n p x)

abbrev same_bool : Bool → Bool → Bool
same_bool true b = b
same_bool false b = not b

eq_of_same_bool : (a b : Bool) → same_bool a b ≡ true → a ≡ b
eq_of_same_bool true b h = sym h
eq_of_same_bool false b h = ground arith

-- What a set and a cleared bit do to every bit of every byte.
or_table :
    all_below 256 (λ x. all_below 8 (λ k.
      all_below 8 (λ j. same_bool (test_bit (or_bit x k % 256) j) ((k == j) || test_bit x j))))
    ≡ true
unfolding all_below test_bit or_bit
or_table = refl

clear_table :
    all_below 256 (λ x. all_below 8 (λ k.
      all_below 8
        (λ j. same_bool (test_bit (clear_bit x k % 256) j) (not (k == j) && test_bit x j))))
    ≡ true
unfolding all_below test_bit clear_bit
clear_table = refl

test_bit-or_bit :
    (x k j : ℕ)
    → x < 256
    → k < 8
    → j < 8
    → test_bit (or_bit x k % 256) j ≡ ((k == j) || test_bit x j)
test_bit-or_bit x k j xl kl jl =
    eq_of_same_bool _ _
      (all_below-at 8 _ j (all_below-at 8 _ k (all_below-at 256 _ x or_table xl) kl) jl)

test_bit-clear_bit :
    (x k j : ℕ)
    → x < 256
    → k < 8
    → j < 8
    → test_bit (clear_bit x k % 256) j ≡ (not (k == j) && test_bit x j)
test_bit-clear_bit x k j xl kl jl =
    eq_of_same_bool _ _
      (all_below-at 8 _ j (all_below-at 8 _ k (all_below-at 256 _ x clear_table xl) kl) jl)

same_bits : (bi bj : ℕ) → bi / 8 ≡ bj / 8 → (bi % 8 == bj % 8) ≡ (bi == bj)
same_bits bi bj e = ground arith

module _ (x : Block) (bi bj : ℕ) where
  -- A byte of the block that is changed, or not.
  written :
      (v : ℕ) → bi / 8 ≡ bj / 8 → has_bit (write x (bi / 8) v) bj ≡ test_bit (v % 256) (bj % 8)
  unfolding has_bit
  written v e = ap (λ y. test_bit (y % 256) (bj % 8)) (ground arith)

  not_written : (v : ℕ) → bi / 8 ≢ bj / 8 → has_bit (write x (bi / 8) v) bj ≡ has_bit x bj
  unfolding has_bit
  not_written v ne = ap (λ y. test_bit (y % 256) (bj % 8)) (ground arith)

  old_bit : bi / 8 ≡ bj / 8 → test_bit (byte x (bi / 8)) (bj % 8) ≡ has_bit x bj
  unfolding has_bit
  old_bit e = ap (λ i. test_bit (byte x i) (bj % 8)) e

  pub has_bit-mark_bit : has_bit (mark_bit x bi) bj ≡ ((bi == bj) || has_bit x bj)
  unfolding mark_bit
  has_bit-mark_bit = elim (ℕ_discrete (bi / 8) (bj / 8)) [
    | yes e ↦
        let new =
          test_bit-or_bit (byte x (bi / 8)) (bi % 8) (bj % 8) (omega arith) (omega arith)
            (omega arith) in
        let value = written (or_bit (byte x (bi / 8)) (bi % 8)) e in
        ground (arith, new, value, old_bit e, same_bits bi bj e)
    | no ne ↦ ground (arith, not_written (or_bit (byte x (bi / 8)) (bi % 8)) ne)
  ]

  pub has_bit-unmark_bit : has_bit (unmark_bit x bi) bj ≡ (not (bi == bj) && has_bit x bj)
  unfolding unmark_bit
  has_bit-unmark_bit = elim (ℕ_discrete (bi / 8) (bj / 8)) [
    | yes e ↦
        let new =
          test_bit-clear_bit (byte x (bi / 8)) (bi % 8) (bj % 8) (omega arith) (omega arith)
            (omega arith) in
        let value = written (clear_bit (byte x (bi / 8)) (bi % 8)) e in
        ground (arith, new, value, old_bit e, same_bits bi bj e)
    | no ne ↦ ground (arith, not_written (clear_bit (byte x (bi / 8)) (bi % 8)) ne)
  ]
