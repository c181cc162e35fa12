-- ===== src/Args/Bounds.antt =====
-- The arguments that xv6-core/syscall.c accepts lie in the caller's memory.
use os_lab.Prelude.{
  ℕ, zero, suc, ◌+◌, ◌-◌, ◌^◌, ◌<◌, ◌≤◌, ◌≡◌, ◌≢◌, inl, inr, ap, ◌∙◌, subst, ◌||◌, Option, none,
  some, ◌==◌, ltb, leb, arith, Bool-cases, ℕ_discrete,
}
use os_lab.Args.Defs.{Caller, add_uint, argint, check_block, argptr, scan_string, fetchstr}

some_same : {i j : ℕ} → some i ≡ some j → i ≡ j
some_same e = cc

check_block_lem :
    (size : ℕ) (u : Caller) (o : Option ℕ) {a : ℕ}
    → u.sz ≤ 2 ^ 31
    → check_block size u o ≡ some a
    → (o ≡ some a) × (size < 2 ^ 31) × (a < u.sz) × (a + size ≤ u.sz)
unfolding check_block
check_block_lem size u none {a} small e = absurd (cc)
check_block_lem size u (some i) {a} small e =
    elim (Bool-cases (leb (2 ^ 31) size || (leb u.sz i || ltb u.sz (add_uint i size)))) [
      | inl bad ↦ absurd (ground (arith, bad, e))
      | inr good ↦
          let same : i ≡ a = some_same (ground (arith, good, e)) in
          let short : size < 2 ^ 31 = ground (arith, good) in
          let low : i < u.sz = ground (arith, good) in
          let end : add_uint i size ≤ u.sz = ground (arith, good) in
          (
            ap some same,
            short,
            omega (arith, same, low),
            omega (arith, same, low, short, end, small),
          )
    ]

-- In a process of at most 2^31 bytes, the block that argptr accepts has a size that is not negative and
-- lies below the end of the process, whatever the address and the size are.
pub argptr_lem :
    (n size : ℕ) (u : Caller) {a : ℕ}
    → u.sz ≤ 2 ^ 31
    → argptr n size u ≡ some a
    → (argint n u ≡ some a) × (size < 2 ^ 31) × (a < u.sz) × (a + size ≤ u.sz)
unfolding argptr
argptr_lem n size u {a} small e = check_block_lem size u (argint n u) {a = a} small e

-- What the result of the string loop says.
abbrev pub Found : ℕ → ℕ → ℕ → (ℕ → ℕ) → Option ℕ → Type 0
Found n s done m none = (j : ℕ) → s ≤ j → j < s + n → m j ≢ 0
Found n s done m (some k) =
    (i : ℕ) × (k ≡ done + i) × (i < n) × (m (s + i) ≡ 0) × ((j : ℕ) → s ≤ j → j < s + i → m j ≢ 0)

Found-suc :
    (n s done : ℕ) (m : ℕ → ℕ) (r : Option ℕ)
    → m s ≢ 0
    → Found n (s + 1) (done + 1) m r
    → Found (suc n) s done m r
Found-suc n s done m none here h = λ j lo hi. elim (ℕ_discrete s j) [
  | yes e ↦ subst (λ k. m k ≢ 0) e here
  | no ne ↦ h j (omega arith) (omega arith)
]
Found-suc n s done m (some k) here (i, e, lt, nul, before) = (
  i + 1,
  omega (arith, e),
  omega (arith, lt),
  ap m (omega arith) ∙ nul,
  λ j lo hi. elim (ℕ_discrete s j) [
    | yes same ↦ subst (λ k. m k ≢ 0) same here
    | no ne ↦ before j (omega arith) (omega arith)
  ],
)

scan_string-Found : (n s done : ℕ) (m : ℕ → ℕ) → Found n s done m (scan_string n s done m)
unfolding scan_string
scan_string-Found zero s done m = λ j lo hi. absurd (omega arith)
scan_string-Found (suc n) s done m = elim (Bool-cases (m s == 0)) [
  | inl end ↦
      let here : m s ≡ 0 = ground (arith, end) in
      let place : s + 0 ≡ s = omega arith in
      rw (end) (0, omega arith, omega arith, ap m place ∙ here, λ j lo hi. absurd (omega arith))
  | inr more ↦ rw (more) (
      Found-suc n s done m (scan_string n (s + 1) (done + 1) m) (ground (arith, more))
        (scan_string-Found n (s + 1) (done + 1) m))
]

-- What the result of fetchstr says of the caller's memory.
abbrev pub StringAt : ℕ → Caller → Option ℕ → Type 0
StringAt addr u none = (j : ℕ) → addr ≤ j → j < u.sz → u.mem j ≢ 0
StringAt addr u (some n) =
    (addr + n < u.sz) × (u.mem (addr + n) ≡ 0) × ((j : ℕ) → addr ≤ j → j < addr + n → u.mem j ≢ 0)

StringAt-of_Found :
    (addr : ℕ) (u : Caller) (r : Option ℕ)
    → addr ≤ u.sz
    → Found (u.sz - addr) addr 0 u.mem r
    → StringAt addr u r
StringAt-of_Found addr u none le h = λ j lo hi. h j lo (omega arith)
StringAt-of_Found addr u (some n) le (i, e, lt, nul, before) =
    let same : n ≡ i = omega (arith, e) in
    (
      omega (arith, same, lt, le),
      ap (λ k. u.mem (addr + k)) same ∙ nul,
      λ j lo hi. before j lo (omega (arith, same)),
    )

-- fetchstr finds the length of a string that ends, with its NUL, below the end of the process; it fails
-- just where no byte from the address to the end of the process is NUL.
pub fetchstr_lem : (addr : ℕ) (u : Caller) → StringAt addr u (fetchstr addr u)
unfolding fetchstr
fetchstr_lem addr u = elim (Bool-cases (leb u.sz addr)) [
  | inl out ↦ rw (out) (λ j lo hi. absurd (ground (arith, out)))
  | inr inside ↦ rw (inside) (
      StringAt-of_Found addr u (scan_string (u.sz - addr) addr 0 u.mem) (ground (arith, inside))
        (scan_string-Found (u.sz - addr) addr 0 u.mem))
]
