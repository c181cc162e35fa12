-- ===== src/Factor/Division.antt =====
-- The trial division of xv6-core/proc.c, and divisibility.
use os_lab.Prelude.{
  ℕ, zero, suc, ◌+◌, ◌-◌, ◌*◌, ◌/◌, ◌%◌, ◌≤◌, ◌<◌, ◌≡◌, Option, none, some, ◌==◌, arith, ltb,
  if◌then◌else◌, ap, ◌∙◌,
}
use native.Mathlib.Nat.{
  mod-add-div, mod-lt, mul-add-mod_self_left, zero-mod, add-zero, mul-le-mul_left,
}
use native.Mathlib.Decide.{dec_lt, ℕ_discrete}

-- The loop of `flpf`, on fuel; `none` means that the fuel ran out.
unfoldable pub flpf_loop : ℕ → ℕ → ℕ → Option ℕ
flpf_loop zero num i = none
flpf_loop (suc fuel) num i =
    let divided = flpf_loop fuel (num / i) i in
    let stepped = flpf_loop fuel num (i + 1) in
    if ltb 1 num then (if num % i == 0 then divided else stepped) else some i

-- `flpf`: each round lowers 2 * num - i, so this fuel is enough.
unfoldable pub flpf : ℕ → Option ℕ
flpf num = flpf_loop (2 * num + 1) num 2

abbrev pub Divides : ℕ → ℕ → Type 0
Divides d n = (k : ℕ) × (d * k ≡ n)

pub record IsPrime (p : ℕ) : Type 0 where
  pub big : 2 ≤ p
  pub only : (d : ℕ) → 2 ≤ d → Divides d p → d ≡ p

pub Divides-of-mod : (d n : ℕ) → n % d ≡ 0 → Divides d n
Divides-of-mod d n h = (n / d, omega (arith, mod-add-div n d))

mul-add-mod_self_left-zero : (d k : ℕ) → (d * k) % d ≡ 0
mul-add-mod_self_left-zero d k =
    omega (arith, mul-add-mod_self_left d k 0, zero-mod d, ap (λ x. x % d) (add-zero (d * k)))

pub mod-of-Divides : (d n : ℕ) → Divides d n → n % d ≡ 0
mod-of-Divides d n (k, e) = rw (← e, mul-add-mod_self_left-zero d k)

pub Divides-trans : (a b c : ℕ) → Divides a b → Divides b c → Divides a c
Divides-trans a b c (k, e) (l, f) = (k * l, omega (arith, ap (λ x. x * l) e, f))

-- A multiple of q less a multiple of q.
Divides-remainder : (q a r t m k : ℕ) → 0 < q → r + a * t ≡ q → q * k ≡ a * m → Divides q (r * m)
Divides-remainder q a r t m k pos split e = (m - t * k, cancel (omega (arith, spread)))
  where
    spread : q * m ≡ r * m + q * (t * k)
    spread = omega (arith, ap (λ x. x * m) split, ap (λ x. x * t) e)

    below : t * k ≤ m
    below = elim (dec_lt m (t * k)) [
      | yes h ↦ absurd (omega (arith, spread, mul-le-mul_left {m = suc m} {n = t * k} q h))
      | no h ↦ omega arith
    ]

    cancel : q * m ≡ r * m + q * (t * k) → q * (m - t * k) ≡ r * m
    cancel s =
        let u : m ≡ (m - t * k) + t * k = omega (arith, below) in
        omega (arith, s, ap (λ x. q * x) u)

-- Euclid's lemma for a factor below the prime, by division of the prime by the factor.
euclid_below :
    (fuel a m q : ℕ) → a < fuel → IsPrime q → 0 < a → a < q → Divides q (a * m) → Divides q m
euclid_below zero a m q f h pos lt d = absurd (omega arith)
euclid_below (suc fuel) a m q f h pos lt (k, e) = elim (ℕ_discrete a 1) [
  | yes one ↦ (k, e ∙ ap (λ x. x * m) one ∙ omega arith)
  | no more ↦ elim (ℕ_discrete (q % a) 0) [
    | yes zero_rem ↦ absurd (omega (arith, h.only a (omega arith) (Divides-of-mod a q zero_rem)))
    | no rem ↦
        euclid_below fuel (q % a) m q (omega (arith, mod-lt q pos)) h (omega arith)
          (omega (arith, mod-lt q pos))
          (Divides-remainder q a (q % a) (q / a) m k (omega arith) (mod-add-div q a) e)
  ]
]

-- A prime above a factor divides the other factor.
pub euclid : (a m q : ℕ) → IsPrime q → 0 < a → a < q → Divides q (a * m) → Divides q m
euclid a m q h pos lt d = euclid_below (suc a) a m q (omega arith) h pos lt d
