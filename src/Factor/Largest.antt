-- ===== src/Factor/Largest.antt =====
-- The loop of `flpf` ends, and at the largest prime factor.
use os_lab.Prelude.{
  ℕ, zero, suc, ◌+◌, ◌*◌, ◌/◌, ◌%◌, ◌≤◌, ◌<◌, ◌≡◌, ◌≢◌, ◌⊎◌, inl, inr, Option, some, arith, ◌∙◌,
  refl, subst, sym,
}
use native.Mathlib.Nat.{mod-add-div, le_antisymm, mul-le-mul_right}
use native.Mathlib.Decide.{dec_lt, ℕ_discrete}
use os_lab.Factor.Division.{
  flpf_loop, flpf, Divides, IsPrime, mod-of-Divides, Divides-trans, euclid,
}

pub record IsLargestPrimeFactor (p n : ℕ) : Type 0 where
  pub prime : IsPrime p
  pub divides : Divides p n
  pub largest : (q : ℕ) → IsPrime q → Divides q n → q ≤ p

-- What holds of `num` and `i` at the head of the loop, started at `n`.
record Inv (n num i : ℕ) : Type 0 where
  pos : 0 < num
  big : 2 ≤ i
  least : (d : ℕ) → 2 ≤ d → Divides d num → i ≤ d
  part : Divides num n
  rest : (q : ℕ) → IsPrime q → Divides q n → (q ≤ i) ⊎ Divides q num
  last : num ≡ 1 → IsPrime i × Divides i n

divisor_le_self : (n d : ℕ) → Divides d n → 0 < n → d ≤ n
divisor_le_self n d (zero, e) h = absurd (omega arith)
divisor_le_self n d (suc k, e) h = omega arith

Inv-init : (n : ℕ) → 2 ≤ n → Inv n n 2
Inv-init n h = record {
  pos = omega arith;
  big = omega arith;
  least = λ d le _. le;
  part = (1, omega arith);
  rest = λ q _ d. inr d;
  last = λ e. absurd (omega arith);
}

pos_of_product : (a b c : ℕ) → a * b ≡ c → 0 < c → 0 < b
pos_of_product a zero c e h = absurd (omega arith)
pos_of_product a (suc b) c e h = omega arith

module _ {n num i : ℕ} (inv : Inv n num i) where
  open inv use {pos, big, least, part, rest}

  i-le-num : 1 < num → i ≤ num
  i-le-num h = least num h (1, omega arith)

  module _ (h : num % i ≡ 0) where
    split : i * (num / i) ≡ num
    split = omega (arith, mod-add-div num i, h)

    quotient-pos : 0 < num / i
    quotient-pos = pos_of_product i (num / i) num split pos

    quotient-le : 2 * (num / i) ≤ num
    quotient-le = omega (arith, split, mul-le-mul_right {m = 2} {n = i} (num / i) big)

    i-Divides : Divides i num
    i-Divides = (num / i, split)

    quotient-Divides : Divides (num / i) num
    quotient-Divides = (i, omega (arith, split))

    i-IsPrime : IsPrime i
    i-IsPrime = record {
      big = big;
      only = λ d le dv.
          le_antisymm (divisor_le_self i d dv (omega arith))
            (least d le (Divides-trans d i num dv i-Divides));
    }

    rest-divide : (q : ℕ) → IsPrime q → Divides q n → (q ≤ i) ⊎ Divides q (num / i)
    rest-divide q p d = elim (rest q p d) [
      | inl le ↦ inl le
      | inr dn ↦ elim (dec_lt i q) [
        | yes lt ↦ inr (euclid i (num / i) q p (omega arith) lt (dn.0, dn.1 ∙ sym split))
        | no ge ↦ inl (omega arith)
      ]
    ]

    Inv-divide : Inv n (num / i) i
    Inv-divide = record {
      pos = quotient-pos;
      big = big;
      least = λ d le dv. least d le (Divides-trans d (num / i) num dv quotient-Divides);
      part = Divides-trans (num / i) num n quotient-Divides part;
      rest = rest-divide;
      last = λ _. (i-IsPrime, Divides-trans i num n i-Divides part);
    }

  Inv-step : 1 < num → num % i ≢ 0 → Inv n num (i + 1)
  Inv-step more h = record {
    pos = pos;
    big = omega arith;
    least = λ d le dv. next d le dv;
    part = part;
    rest = λ q p d. grind (arith, rest q p d);
    last = λ e. absurd (omega arith);
  }
    where
      next : (d : ℕ) → 2 ≤ d → Divides d num → i + 1 ≤ d
      next d le dv = elim (ℕ_discrete d i) [
        | yes e ↦ absurd (h (mod-of-Divides i num (subst (λ x. Divides x num) e dv)))
        | no ne ↦ omega (arith, least d le dv)
      ]

largest_at_end : {n num i : ℕ} → Inv n num i → num ≡ 1 → (q : ℕ) → IsPrime q → Divides q n → q ≤ i
largest_at_end inv one q p d = elim (inv.rest q p d) [
  | inl le ↦ le
  | inr dn ↦ absurd (omega (arith, p.big, divisor_le_self _ q dn (omega (arith, inv.pos))))
]

abbrev Found : ℕ → Option ℕ → Type 0
Found n r = (p : ℕ) × (r ≡ some p) × IsLargestPrimeFactor p n

flpf_loop-Found :
    (fuel n num i : ℕ)
    → 0 < fuel
    → 2 * num < fuel + i
    → Inv n num i
    → Found n (flpf_loop fuel num i)
unfolding flpf_loop
flpf_loop-Found zero n num i f g inv = absurd (omega arith)
flpf_loop-Found (suc fuel) n num i f g inv = elim (dec_lt 1 num) [
  | no end ↦
      let one : num ≡ 1 = omega (arith, inv.pos) in
      (
        i,
        ground arith,
        record {
          prime = (inv.last one).0;
          divides = (inv.last one).1;
          largest = λ q p d. largest_at_end inv one q p d;
        },
      )
  | yes more ↦ elim (ℕ_discrete (num % i) 0) [
    | yes z ↦
        let r =
          flpf_loop-Found fuel n (num / i) i (omega (arith, i-le-num inv more, inv.big))
            (omega (arith, i-le-num inv more, quotient-le inv z)) (Inv-divide inv z) in
        (r.0, ground (arith, r.1), r.2)
    | no nz ↦
        let r =
          flpf_loop-Found fuel n num (i + 1) (omega (arith, i-le-num inv more, inv.big))
            (omega arith) (Inv-step inv more nz) in
        (r.0, ground (arith, r.1), r.2)
  ]
]

-- For every argument from 2 on, flpf returns, and what it returns is prime, divides the argument and
-- is at least every prime that divides it; it is no larger than the argument, so that no `int` of the
-- loop overflows.
pub flpf-IsLargestPrimeFactor :
    (n : ℕ) → 2 ≤ n → (p : ℕ) × (flpf n ≡ some p) × IsLargestPrimeFactor p n × (p ≤ n)
unfolding flpf
flpf-IsLargestPrimeFactor n h =
    let r = flpf_loop-Found (2 * n + 1) n n 2 (omega arith) (omega arith) (Inv-init n h) in
    (r.0, r.1, r.2, divisor_le_self n r.0 r.2.divides (omega arith))

-- Below 2 the loop does not run, and the answer is 2, which is no factor of 1.
flpf_below_two : (n : ℕ) → n < 2 → flpf n ≡ some 2
unfolding flpf flpf_loop
flpf_below_two zero h = refl
flpf_below_two (suc zero) h = refl
flpf_below_two (suc (suc n)) h = absurd (omega arith)
