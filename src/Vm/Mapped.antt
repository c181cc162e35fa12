-- ===== src/Vm/Mapped.antt =====
-- mappages of xv6-core/vm.c.
use os_lab.Prelude.{
  ℕ, zero, suc, ◌+◌, ◌-◌, ◌*◌, ◌/◌, ◌%◌, ◌^◌, ◌<◌, ◌≤◌, ◌≡◌, ◌≢◌, ◌⊎◌, inl, inr, ap, ◌∙◌, sym, true,
  false, [], arith, dec_lt, ℕ_discrete,
}
use os_lab.Vm.Defs.{Pte, Perm, Memory, Mapping, panics, fails, maps, pdx, map_page, map_loop}
use os_lab.Vm.Tables.{lookup, lookup_page, Apart}
use os_lab.Vm.Walked.{SamePage, OtherPage, entry_of, MapsPage, MapsPage-map_page}

-- Addresses of 32 bits are of the same page just when their numbers of pages agree.
same_page : (a b : ℕ) → a < 2 ^ 32 → b < 2 ^ 32 → a / 4096 ≡ b / 4096 → SamePage a b
same_page a b al bl e = (omega arith, omega arith)

other_page : (a b : ℕ) → a < 2 ^ 32 → b < 2 ^ 32 → a / 4096 ≢ b / 4096 → OtherPage a b
other_page a b al bl ne = elim (ℕ_discrete (pdx a) (pdx b)) [
  | yes s ↦ inr (λ t. ne (omega (arith, s, t)))
  | no n ↦ inl n
]

-- The `n` pages from `a` on.
abbrev pub InPages : ℕ → ℕ → ℕ → Type 0
InPages a n b = (a ≤ b) × (b < a + 4096 * n)

abbrev pub OutOfPages : ℕ → ℕ → ℕ → Type 0
OutOfPages a n b = (b < a) ⊎ (a + 4096 * n ≤ b)

-- What the mapping of `n` pages from `a` on, to those from `pa` on, comes to: a page that is mapped already, no
-- free page, or all are mapped. No address of another page changes.
abbrev pub MapsPages : ℕ → ℕ → ℕ → ℕ → Perm → Memory → Mapping → Type 0
MapsPages pgdir a n pa perm m panics = (b : ℕ) × InPages a n b × ((lookup pgdir m b).present ≡ true)
MapsPages pgdir a n pa perm m (fails u) =
    Apart pgdir u
    × (u.free ≡ [])
    × ((b : ℕ) → b < 2 ^ 32 → OutOfPages a n b → lookup pgdir u b ≡ lookup pgdir m b)
MapsPages pgdir a n pa perm m (maps v) =
    Apart pgdir v
    × ((b : ℕ)
        → b < 2 ^ 32
        → InPages a n b
        → ((lookup pgdir m b).present ≡ false)
          × (lookup pgdir v b ≡ entry_of (pa + (b / 4096 - a / 4096) * 4096) perm))
    × ((b : ℕ) → b < 2 ^ 32 → OutOfPages a n b → lookup pgdir v b ≡ lookup pgdir m b)

-- One page.
MapsPages-one :
    (pgdir a pa : ℕ) (perm : Perm) (m : Memory)
    → a % 4096 ≡ 0
    → a < 2 ^ 32
    → (r : Mapping) → MapsPage pgdir a pa perm m r
    → MapsPages pgdir a 1 pa perm m r
MapsPages-one pgdir a pa perm m al small panics taken = (a, (omega arith, omega arith), taken)
MapsPages-one pgdir a pa perm m al small (fails u) (full, apart, same) =
    (apart, full, λ b bl w. same b)
MapsPages-one pgdir a pa perm m al small (maps v) (apart, free, here, others) = (
  apart,
  λ b bl (lo, hi).
      let row : a / 4096 ≡ b / 4096 = omega arith in
      let (p, q) = same_page a b small bl row in
      let place : pa ≡ pa + (b / 4096 - a / 4096) * 4096 = omega (arith, row) in
      (
        ap (λ (x : Pte). x.present) (lookup_page pgdir m a b p q) ∙ free,
        here b (p, q) ∙ ap (λ x. entry_of x perm) place,
      ),
  λ b bl w. others b (other_page a b small bl (ground (arith, w))),
)

-- A page, and the `n` after it.
MapsPages-more :
    (pgdir a n pa : ℕ) (perm : Perm) (m v : Memory)
    → a % 4096 ≡ 0
    → a + 4096 * n < 2 ^ 32
    → MapsPages pgdir a 1 pa perm m (maps v)
    → (r : Mapping) → MapsPages pgdir (a + 4096) n (pa + 4096) perm v r
    → MapsPages pgdir a (suc n) pa perm m r
MapsPages-more pgdir a n pa perm m v al small (apart, here, others) panics (b, (lo, hi), taken) = (
  b,
  (omega arith, omega arith),
  ap (λ (x : Pte). x.present) (sym (others b (omega arith) (inr (omega arith)))) ∙ taken,
)
MapsPages-more pgdir a n pa perm m v al small (apart, here, others) (fails u) (end, full, same) =
    (end, full, λ b bl w. same b bl (ground (arith, w)) ∙ others b bl (ground (arith, w)))
MapsPages-more pgdir a n pa perm m v al small (apart, here, others) (maps u) (end, later, same) = (
  end,
  λ b bl (lo, hi). elim (dec_lt b (a + 4096)) [
    | yes now ↦
        let (free, entry) = here b bl (lo, omega arith) in (free, same b bl (inl now) ∙ entry)
    | no after ↦
        let (free, entry) = later b bl (omega arith, omega arith) in
        let place : pa + 4096 + (b / 4096 - (a + 4096) / 4096) * 4096
            ≡ pa + (b / 4096 - a / 4096) * 4096 =
          omega arith in
        (
          ap (λ (x : Pte). x.present) (sym (others b bl (inr (omega arith)))) ∙ free,
          entry ∙ ap (λ x. entry_of x perm) place,
        )
  ],
  λ b bl w. same b bl (ground (arith, w)) ∙ others b bl (ground (arith, w)),
)

MapsPages-next :
    (pgdir a n pa : ℕ) (perm : Perm) (m : Memory) (rest : Memory → Mapping)
    → a % 4096 ≡ 0
    → a + 4096 * n < 2 ^ 32
    → (r : Mapping) → MapsPages pgdir a 1 pa perm m r
    → ((v : Memory) → Apart pgdir v → MapsPages pgdir (a + 4096) n (pa + 4096) perm v (rest v))
    → MapsPages pgdir a
        (suc n)
        pa
        perm
        m
        (elim r [ panics ↦ panics | fails u ↦ fails u | maps v ↦ rest v ])
MapsPages-next pgdir a n pa perm m rest al small panics (b, (lo, hi), taken) more =
    (b, (lo, omega arith), taken)
MapsPages-next pgdir a n pa perm m rest al small (fails u) (apart, full, same) more =
    (apart, full, λ b bl w. same b bl (ground (arith, w)))
MapsPages-next pgdir a n pa perm m rest al small (maps v) (apart, here, others) more =
    MapsPages-more pgdir a n pa perm m v al small (apart, here, others) (rest v) (more v apart)

pub map_loop_lem :
    (n pgdir a pa : ℕ) (perm : Perm) (m : Memory)
    → Apart pgdir m
    → a % 4096 ≡ 0
    → a + 4096 * n < 2 ^ 32
    → pa + 4096 * n < 2 ^ 32
    → MapsPages pgdir a (suc n) pa perm m (map_loop n pgdir a pa perm m)
unfolding map_loop
map_loop_lem zero pgdir a pa perm m apart al small fits =
    MapsPages-one pgdir a pa perm m al (omega arith) (map_page pgdir a pa perm m)
      (MapsPage-map_page pgdir a pa perm m apart)
map_loop_lem (suc n) pgdir a pa perm m apart al small fits =
    let next_a : (a + 4096) % 2 ^ 32 ≡ a + 4096 = omega arith in
    let next_pa : (pa + 4096) % 2 ^ 32 ≡ pa + 4096 = omega arith in
    MapsPages-next pgdir a (suc n) pa perm m
      (λ v. map_loop n pgdir ((a + 4096) % 2 ^ 32) ((pa + 4096) % 2 ^ 32) perm v) al small
      (map_page pgdir a pa perm m)
      (MapsPages-one pgdir a pa perm m al (omega arith) (map_page pgdir a pa perm m)
        (MapsPage-map_page pgdir a pa perm m apart))
      (λ v ok.
        rw (next_a, next_pa)
          (map_loop_lem n pgdir (a + 4096) (pa + 4096) perm v ok (omega arith) (omega arith)
            (omega arith)))
