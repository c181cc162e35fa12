-- ===== src/Fs/Bitmap.antt =====
-- balloc and bfree of xv6-core/fs.c on the set of blocks in use.
use os_lab.Prelude.{
  ℕ, zero, suc, ◌+◌, ◌-◌, ◌*◌, ◌/◌, ◌%◌, ◌<◌, ◌≤◌, ◌≡◌, ◌≢◌, inl, inr, refl, ap, ◌∙◌, sym, subst,
  Bool, true, false, not, ◌&&◌, ◌||◌, none, some, ◌==◌, arith, ℕ_discrete, Bool-cases, Option-cases,
  dec_lt, ap₂,
}
use os_lab.Fs.Defs.{
  Block, bpb, Disk, set_block, bblock, has_bit, mark_bit, unmark_bit, scan_bits, scan_blocks,
}
use os_lab.Fs.Bits.{has_bit-mark_bit, has_bit-unmark_bit}

-- Whether the bitmap says that block `b` is in use.
unfoldable pub in_use : Disk → ℕ → Bool
in_use d b = has_bit (d.block (bblock b d)) (b % bpb)

scan_bits_lem :
    (n bi b size : ℕ) (x : Block) {k : ℕ}
    → scan_bits n bi b size x ≡ some k
    → (bi ≤ k)
      × (k < bi + n)
      × (b + k < size)
      × (has_bit x k ≡ false)
      × ((j : ℕ) → bi ≤ j → j < k → has_bit x j ≡ true)
unfolding scan_bits
scan_bits_lem zero bi b size x {k} e = absurd (cc)
scan_bits_lem (suc n) bi b size x {k} e = elim (Bool-cases (has_bit x bi)) [
  | inl used ↦
      let (lo, hi, small, free, before) =
        scan_bits_lem n (bi + 1) b size x {k = k} (ground (arith, e, used)) in
      (
        omega (arith, lo),
        omega (arith, hi),
        small,
        free,
        λ j jl jk. first used before j jl jk (ℕ_discrete bi j),
      )
  | inr free ↦
      let same : bi ≡ k = ground (arith, e, free) in
      (
        omega (arith, same),
        omega (arith, same),
        ground (arith, e, free),
        subst (λ j. has_bit x j ≡ false) same free,
        λ j jl jk. absurd (omega (arith, same)),
      )
]
  where
    first :
        has_bit x bi ≡ true
        → ((j : ℕ) → bi + 1 ≤ j → j < k → has_bit x j ≡ true)
        → (j : ℕ) → bi ≤ j
        → j < k
        → Dec (bi ≡ j)
        → has_bit x j ≡ true
    first used before j jl jk (yes s) = subst (λ i. has_bit x i ≡ true) s used
    first used before j jl jk (no ne) = before j (omega arith) jk

scan_bits-none :
    (n bi b size : ℕ) (x : Block)
    → scan_bits n bi b size x ≡ none
    → (j : ℕ) → bi ≤ j
    → j < bi + n
    → b + j < size
    → has_bit x j ≡ true
unfolding scan_bits
scan_bits-none zero bi b size x e j lo hi small = absurd (omega arith)
scan_bits-none (suc n) bi b size x e j lo hi small = elim (ℕ_discrete bi j) [
  | yes same ↦ subst (λ i. has_bit x i ≡ true) same (ground (arith, e, small, same))
  | no ne ↦
      scan_bits-none n (bi + 1) b size x (ground (arith, e, small, lo)) j (omega arith)
        (omega arith) small
]

-- Block `c + bi`, where `c` is the first that a bitmap block covers.
in_use-at :
    (d : Disk) (c bi : ℕ)
    → c % 4096 ≡ 0
    → bi < 4096
    → in_use d (c + bi) ≡ has_bit (d.block (bblock c d)) bi
unfolding in_use
in_use-at d c bi al lt =
    let place : (c + bi) / 4096 ≡ c / 4096 = omega arith in
    let bit : (c + bi) % 4096 ≡ bi = omega arith in
    ap (λ q. has_bit (d.block (q + d.sb.bmapstart)) ((c + bi) % 4096)) place
    ∙ ap (has_bit (d.block (bblock c d))) bit

-- The blocks from `b` up to `e` are in use.
abbrev pub AllUsed : Disk → ℕ → ℕ → Type 0
AllUsed d b e = (y : ℕ) → b ≤ y → y < e → in_use d y ≡ true

-- All blocks that a bitmap block covers, up to the end of the disk.
AllUsed-of_bits :
    (d : Disk) (b e : ℕ)
    → b % 4096 ≡ 0
    → ((j : ℕ) → 0 ≤ j → j < 0 + 4096 → b + j < e → has_bit (d.block (bblock b d)) j ≡ true)
    → (y : ℕ) → b ≤ y
    → y < b + 4096
    → y < e
    → in_use d y ≡ true
AllUsed-of_bits d b e al bits y lo hi small =
    let place : b + (y - b) ≡ y = omega arith in
    subst (λ z. in_use d z ≡ true) place
      (in_use-at d b (y - b) al (omega arith)
        ∙ bits (y - b) (omega arith) (omega arith) (omega arith))

-- Where the search for a free block ends.
pub record Free (d : Disk) (b c bi : ℕ) : Type 0 where
  pub start : c % 4096 ≡ 0
  pub bit : bi < 4096
  pub from : b ≤ c
  pub inside : c + bi < d.sb.size
  pub free : in_use d (c + bi) ≡ false
  pub lower : AllUsed d b (c + bi)

pub scan_blocks-Free :
    (n b : ℕ) (d : Disk) {c bi : ℕ}
    → b % 4096 ≡ 0
    → scan_blocks n b d ≡ some (c, bi)
    → Free d b c bi
unfolding scan_blocks
scan_blocks-Free zero b d {c} {bi} al e = absurd (cc)
scan_blocks-Free (suc n) b d {c} {bi} al e =
    elim (Option-cases (scan_bits 4096 0 b d.sb.size (d.block (bblock b d)))) [
      | inl full ↦
          let f =
            scan_blocks-Free n (b + 4096) d {c = c} {bi = bi} (omega arith)
              (ground (arith, e, full)) in
          record {
            start = f.start;
            bit = f.bit;
            from = omega (arith, f.from);
            inside = f.inside;
            free = f.free;
            lower = λ y lo hi. elim (dec_lt y (b + 4096)) [
              | yes here ↦
                  AllUsed-of_bits d b d.sb.size al
                    (scan_bits-none 4096 0 b d.sb.size (d.block (bblock b d)) full) y lo here
                    (omega (arith, hi, f.inside))
              | no later ↦ f.lower y (omega arith) hi
            ];
          }
      | inr (k, found) ↦
          let (lo, hi, small, free, before) =
            scan_bits_lem 4096 0 b d.sb.size (d.block (bblock b d)) {k = k} found in
          let at_b : b ≡ c = ground (arith, e, found, small) in
          let at_k : k ≡ bi = ground (arith, e, found, small) in
          let here : Free d b b k = record {
            start = al;
            bit = omega arith;
            from = omega arith;
            inside = small;
            free = in_use-at d b k al (omega arith) ∙ free;
            lower = λ y yl yk.
                let place : b + (y - b) ≡ y = omega arith in
                subst (λ z. in_use d z ≡ true) place
                  (in_use-at d b (y - b) al (omega arith)
                    ∙ before (y - b) (omega arith) (omega arith));
          } in
          subst (λ x. Free d b x bi) at_b (subst (λ x. Free d b b x) at_k here)
    ]

pub scan_blocks-none :
    (n b : ℕ) (d : Disk)
    → b % 4096 ≡ 0
    → d.sb.size < b + n * 4096
    → scan_blocks n b d ≡ none
    → AllUsed d b d.sb.size
unfolding scan_blocks
scan_blocks-none zero b d al enough e = λ y lo hi. absurd (omega arith)
scan_blocks-none (suc n) b d al enough e =
    elim (Option-cases (scan_bits 4096 0 b d.sb.size (d.block (bblock b d)))) [
      | inl full ↦ λ y lo hi. elim (dec_lt y (b + 4096)) [
        | yes here ↦
            AllUsed-of_bits d b d.sb.size al
              (scan_bits-none 4096 0 b d.sb.size (d.block (bblock b d)) full) y lo here hi
        | no later ↦
            scan_blocks-none n (b + 4096) d (omega arith) (omega arith)
              (ground (arith, e, full, lo, hi)) y (omega arith) hi
      ]
      | inr (k, found) ↦ λ y lo hi. absurd (ground (arith, e, found, lo, hi))
    ]

-- The bitmap block with a bit changed by `change`, and the others.
same_block :
    (d : Disk) (c y : ℕ) (x : Block)
    → c / 4096 ≡ y / 4096
    → in_use (set_block (bblock c d) x d) y ≡ has_bit x (y % 4096)
unfolding in_use
same_block d c y x e =
    let hit : (c / 4096 + d.sb.bmapstart == y / 4096 + d.sb.bmapstart) ≡ true = ground arith in
    rw (hit) refl

other_block :
    (d : Disk) (c y : ℕ) (x : Block)
    → c / 4096 ≢ y / 4096
    → in_use (set_block (bblock c d) x d) y ≡ in_use d y
unfolding in_use
other_block d c y x ne =
    let miss : (c / 4096 + d.sb.bmapstart == y / 4096 + d.sb.bmapstart) ≡ false = ground arith in
    rw (miss) refl

module _ (d : Disk) (c bi y : ℕ) where
  in_use-of_block : c / 4096 ≡ y / 4096 → has_bit (d.block (bblock c d)) (y % 4096) ≡ in_use d y
  unfolding in_use
  in_use-of_block e = ap (λ q. has_bit (d.block (q + d.sb.bmapstart)) (y % 4096)) e

  -- Marking a block changes the bitmap there and nowhere else.
  pub in_use-mark :
      c % 4096 ≡ 0
      → bi < 4096
      → in_use (set_block (bblock c d) (mark_bit (d.block (bblock c d)) bi) d) y
        ≡ ((c + bi == y) || in_use d y)
  in_use-mark al lt = elim (ℕ_discrete (c / 4096) (y / 4096)) [
    | yes e ↦
        let place : (bi == y % 4096) ≡ (c + bi == y) = ground arith in
        same_block d c y _ e
        ∙ has_bit-mark_bit (d.block (bblock c d)) bi (y % 4096)
        ∙ ap₂ (λ p q. p || q) place (in_use-of_block e)
    | no ne ↦
        let place : (c + bi == y) ≡ false = ground arith in
        other_block d c y _ ne ∙ ap (λ p. p || in_use d y) (sym place)
  ]

  pub in_use-unmark :
      c % 4096 ≡ 0
      → bi < 4096
      → in_use (set_block (bblock c d) (unmark_bit (d.block (bblock c d)) bi) d) y
        ≡ (not (c + bi == y) && in_use d y)
  in_use-unmark al lt = elim (ℕ_discrete (c / 4096) (y / 4096)) [
    | yes e ↦
        let place : (bi == y % 4096) ≡ (c + bi == y) = ground arith in
        same_block d c y _ e
        ∙ has_bit-unmark_bit (d.block (bblock c d)) bi (y % 4096)
        ∙ ap₂ (λ p q. not p && q) place (in_use-of_block e)
    | no ne ↦
        let place : (c + bi == y) ≡ false = ground arith in
        other_block d c y _ ne ∙ ap (λ p. not p && in_use d y) (sym place)
  ]
