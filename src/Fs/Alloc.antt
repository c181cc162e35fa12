-- ===== src/Fs/Alloc.antt =====
-- What balloc and bfree of xv6-core/fs.c do to the disk.
use os_lab.Prelude.{
  ℕ, ◌+◌, ◌*◌, ◌/◌, ◌%◌, ◌^◌, ◌<◌, ◌≤◌, ◌≡◌, ◌≢◌, inl, inr, refl, ap, ◌∙◌, sym, subst, true, false,
  not, ◌&&◌, ◌||◌, Option, none, some, ◌==◌, arith, Bool-cases, Option-cases, dec_lt,
}
use os_lab.Fs.Defs.{
  Block, Disk, set_block, zeroed, bzero, bblock, has_bit, mark_bit, unmark_bit, scan_blocks,
  take_block, balloc, bfree,
}
use os_lab.Fs.Inode.{iblock}
use os_lab.Fs.Bitmap.{
  in_use, in_use-mark, in_use-unmark, AllUsed, Free, scan_blocks-Free, scan_blocks-none,
}

-- A disk whose first `meta` blocks, with the bitmap and, apart from it, the inodes, are in use.
pub record Layout (meta : ℕ) (d : Disk) : Type 0 where
  pub reserved : AllUsed d 0 meta
  pub bitmap : (y : ℕ) → y < d.sb.size → bblock y d < meta
  pub inodes : (n : ℕ) → n < d.sb.ninodes → iblock n d.sb < meta
  pub disjoint : (n y : ℕ) → n < d.sb.ninodes → y < d.sb.size → iblock n d.sb ≢ bblock y d
  pub positive : 0 < meta
  pub word_size : d.sb.size < 2 ^ 32

-- What changed on the disk when block `x` became a used, zeroed one.
pub record Allocated (meta : ℕ) (d : Disk) (x : ℕ) (e : Disk) : Type 0 where
  pub was_free : in_use d x ≡ false
  pub inside : x < d.sb.size
  pub above : meta ≤ x
  pub same_sb : e.sb ≡ d.sb
  pub used : (y : ℕ) → y < d.sb.size → in_use e y ≡ ((x == y) || in_use d y)
  pub zeros : e.block x ≡ zeroed
  pub others : (y : ℕ) → meta ≤ y → x ≢ y → e.block y ≡ d.block y
  pub layout : Layout meta e
  pub lowest : AllUsed d 0 x

-- Zeroing a block that is not in the bitmap.
in_use-bzero : (x y : ℕ) (d : Disk) → x ≢ bblock y d → in_use (bzero x d) y ≡ in_use d y
unfolding in_use bzero
in_use-bzero x y d ne = let miss : (x == bblock y d) ≡ false = ground arith in rw (miss) refl

bzero_sb : (x : ℕ) (d : Disk) → (bzero x d).sb ≡ d.sb
unfolding bzero
bzero_sb x d = refl

bzero_zeros : (x : ℕ) (d : Disk) → (bzero x d).block x ≡ zeroed
unfolding bzero
bzero_zeros x d = let hit : (x == x) ≡ true = ground arith in rw (hit) refl

bzero_others : (x y : ℕ) (d : Disk) → x ≢ y → (bzero x d).block y ≡ d.block y
unfolding bzero
bzero_others x y d ne = let miss : (x == y) ≡ false = ground arith in rw (miss) refl

pub set_block_others :
    (b y : ℕ) (x : Block) (d : Disk) → b ≢ y → (set_block b x d).block y ≡ d.block y
set_block_others b y x d ne = let miss : (b == y) ≡ false = ground arith in rw (miss) refl

-- The bitmap blocks lie below every block that is not reserved.
not_bitmap :
    (meta : ℕ) (d : Disk) (x y : ℕ) → Layout meta d → meta ≤ x → y < d.sb.size → x ≢ bblock y d
not_bitmap meta d x y l above small same =
    let low : bblock y d < meta = l.bitmap y small in omega (arith, low, same, above)

above-of_free : (meta : ℕ) (d : Disk) (x : ℕ) → Layout meta d → in_use d x ≡ false → meta ≤ x
above-of_free meta d x l free = elim (dec_lt x meta) [
  | yes low ↦ let used : in_use d x ≡ true = l.reserved x (omega arith) low in absurd (cc)
  | no high ↦ omega arith
]

-- The layout rests on the superblock, and on the reserved blocks being in use.
pub Layout-of_sb :
    (meta : ℕ) (d e : Disk) → Layout meta d → e.sb ≡ d.sb → AllUsed e 0 meta → Layout meta e
Layout-of_sb meta d e l same all = record {
  reserved = all;
  bitmap = λ y small.
      subst (λ s. y / 4096 + s.bmapstart < meta) (sym same)
        (l.bitmap y (subst (λ s. y < s.size) same small));
  inodes = λ n small.
      subst (λ s. n / 8 + s.inodestart < meta) (sym same)
        (l.inodes n (subst (λ s. n < s.ninodes) same small));
  disjoint = λ n y few small.
      subst (λ s. n / 8 + s.inodestart ≢ y / 4096 + s.bmapstart) (sym same)
        (l.disjoint n y (subst (λ s. n < s.ninodes) same few) (subst (λ s. y < s.size) same small));
  positive = l.positive;
  word_size = subst (λ s. s.size < 2 ^ 32) (sym same) l.word_size;
}

-- A bit more in use keeps the layout.
Layout-of_used :
    (meta : ℕ) (d e : Disk) (x : ℕ)
    → Layout meta d
    → e.sb ≡ d.sb
    → meta ≤ d.sb.size
    → ((y : ℕ) → y < d.sb.size → in_use e y ≡ ((x == y) || in_use d y))
    → Layout meta e
Layout-of_used meta d e x l same within used = Layout-of_sb meta d e l same (λ y lo hi.
    let old : in_use d y ≡ true = l.reserved y lo hi in
    let new : in_use e y ≡ ((x == y) || in_use d y) = used y (omega arith) in
    elim (Bool-cases (x == y)) [ inl h ↦ new ∙ rw (h) refl | inr h ↦ new ∙ rw (h) old ])

Allocated-take_block :
    (meta : ℕ) (d : Disk) (c bi : ℕ)
    → Layout meta d
    → Free d 0 c bi
    → Allocated meta d
        (c + bi)
        (bzero (c + bi) (set_block (bblock c d) (mark_bit (d.block (bblock c d)) bi) d))
Allocated-take_block meta d c bi l f =
    let x = c + bi in
    let e : Disk = set_block (bblock c d) (mark_bit (d.block (bblock c d)) bi) d in
    let high : meta ≤ x = above-of_free meta d x l f.free in
    let inside : x < d.sb.size = f.inside in
    let changed : (y : ℕ) → y < d.sb.size → in_use (bzero x e) y ≡ ((x == y) || in_use d y) =
      λ y small.
        in_use-bzero x y e (not_bitmap meta d x y l high small)
        ∙ in_use-mark d c bi y f.start f.bit in
    record {
      was_free = f.free;
      inside = inside;
      above = high;
      same_sb = bzero_sb x e;
      used = changed;
      zeros = bzero_zeros x e;
      others = λ y above ne.
          bzero_others x y e ne
          ∙ set_block_others (bblock c d) y _ d
              (λ same. not_bitmap meta d y c l above (omega arith) (sym same));
      layout = Layout-of_used meta d (bzero x e) x l (bzero_sb x e) (omega arith) changed;
      lowest = f.lower;
    }

-- `balloc` gives the lowest free block, marked and zeroed, and changes no other block above the reserved
-- ones; it panics only when all blocks of the disk are in use.
abbrev pub Allocates : ℕ → Disk → Option (ℕ × Disk) → Type 0
Allocates meta d none = AllUsed d 0 d.sb.size
Allocates meta d (some (x, e)) = Allocated meta d x e

pub Allocates-balloc : (meta : ℕ) (d : Disk) → Layout meta d → Allocates meta d (balloc d)
unfolding balloc take_block
Allocates-balloc meta d l = elim (Option-cases (scan_blocks (d.sb.size / 4096 + 1) 0 d)) [
  | inl full ↦
      rw (full) (scan_blocks-none (d.sb.size / 4096 + 1) 0 d (omega arith) (omega arith) full)
  | inr ((c, bi), found) ↦ rw (found) (
      Allocated-take_block meta d c bi l
        (scan_blocks-Free (d.sb.size / 4096 + 1) 0 d (omega arith) found))
]

-- `bfree` panics when the block is free; else it clears that bit of the bitmap and no other.
abbrev pub Frees : ℕ → ℕ → Disk → Option Disk → Type 0
Frees meta b d none = in_use d b ≡ false
Frees meta b d (some e) =
    (in_use d b ≡ true)
    × (e.sb ≡ d.sb)
    × ((y : ℕ) → in_use e y ≡ (not (b == y) && in_use d y))
    × ((y : ℕ) → meta ≤ y → e.block y ≡ d.block y)

pub Frees-bfree :
    (meta b : ℕ) (d : Disk) → Layout meta d → b < d.sb.size → Frees meta b d (bfree b d)
unfolding bfree in_use
Frees-bfree meta b d l small = elim (Bool-cases (has_bit (d.block (bblock b d)) (b % 4096))) [
  | inl used ↦ rw (used) (
    used,
    refl,
    λ y. freed y,
    λ y above.
        set_block_others (bblock b d) y _ d
          (λ same. not_bitmap meta d y b l above small (sym same)),
  )
  | inr free ↦ rw (free) free
]
  where
    cleared : Disk
    cleared = set_block (bblock b d) (unmark_bit (d.block (bblock b d)) (b % 4096)) d

    freed : (y : ℕ) → in_use cleared y ≡ (not (b == y) && in_use d y)
    freed y =
        let start : b / 4096 * 4096 / 4096 ≡ b / 4096 = omega arith in
        let whole : b / 4096 * 4096 + b % 4096 ≡ b = omega arith in
        subst (λ z. in_use cleared y ≡ (not (z == y) && in_use d y)) whole
          (subst
            (λ q.
              in_use
                (set_block (q + d.sb.bmapstart)
                  (unmark_bit (d.block (q + d.sb.bmapstart)) (b % 4096)) d)
                y
              ≡ (not (b / 4096 * 4096 + b % 4096 == y) && in_use d y))
            start (in_use-unmark d (b / 4096 * 4096) (b % 4096) y (omega arith) (omega arith)))

-- Other blocks than the reserved ones may be written freely.
pub in_use-set_block :
    (meta : ℕ) (d : Disk) (b : ℕ) (x : Block)
    → Layout meta d
    → meta ≤ b
    → (y : ℕ) → y < d.sb.size
    → in_use (set_block b x d) y ≡ in_use d y
unfolding in_use
in_use-set_block meta d b x l above y small =
    ap (λ c. has_bit c (y % 4096))
      (set_block_others b (bblock y d) x d (not_bitmap meta d b y l above small))

pub Layout-set_block :
    (meta : ℕ) (d : Disk) (b : ℕ) (x : Block)
    → Layout meta d
    → meta ≤ b
    → meta ≤ d.sb.size
    → Layout meta (set_block b x d)
Layout-set_block meta d b x l above within = record {
  reserved = λ y lo hi. in_use-set_block meta d b x l above y (omega arith) ∙ l.reserved y lo hi;
  bitmap = l.bitmap;
  inodes = l.inodes;
  disjoint = l.disjoint;
  positive = l.positive;
  word_size = l.word_size;
}
