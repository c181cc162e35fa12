-- ===== src/Bcache/Order.antt =====
-- bget and brelse of xv6-core/bio.c on the order of the buffers, most recently used first.
use os_lab.Prelude.{
  ℕ, ◌+◌, ◌<◌, ◌≡◌, inl, inr, refl, ap, ◌∙◌, subst, Bool, true, false, Option, none, some, arith,
  ℕ_discrete, Bool-cases, List, [], ◌∷◌, ◌++◌, length, is_in, distinct, reverse, reverse-cons,
  length-append,
}
use os_lab.Bcache.Defs.{
  head, Bcache, Outcome, panics, walk, is_block, is_unused, set_buf, lock_buf, recycle, bget_unused,
  bget_cached, bget,
}
use os_lab.Bcache.Walk.{find, walk_lem}
use os_lab.Bcache.Ring.{is_in-reverse, Ring}

-- The cache with its buffers in the order `bs`: all 30 of them.
pub record Ordered (bs : List ℕ) (c : Bcache) : Type 0 where
  pub ring : Ring bs c.links
  pub count : length bs ≡ 30
  pub all : (b : ℕ) → b < 30 → is_in b bs ≡ true

-- What `find` tells.
pub find-some :
    (test : ℕ → Bool) (xs : List ℕ) {b : ℕ}
    → find test xs ≡ some b
    → (test b ≡ true) × (is_in b xs ≡ true)
find-some test [] {b} e = absurd (cc)
find-some test (x ∷ xs) {b} e = elim (Bool-cases (test x)) [
  | inl h ↦
      let same : x ≡ b = ground (arith, e, h) in
      (subst (λ y. test y ≡ true) same h, ground (arith, same))
  | inr h ↦
      let (t, member) = find-some test xs {b = b} (ground (arith, e, h)) in
      (t, ground (arith, member))
]

pub find-none :
    (test : ℕ → Bool) (xs : List ℕ)
    → find test xs ≡ none
    → (b : ℕ) → is_in b xs ≡ true
    → test b ≡ false
find-none test [] e b member = absurd (cc)
find-none test (x ∷ xs) e b member = elim (Bool-cases (test x)) [
  | inl h ↦ absurd (ground (arith, e, h))
  | inr h ↦ elim (ℕ_discrete x b) [
    | yes s ↦ subst (λ y. test y ≡ false) s h
    | no n ↦ find-none test xs (ground (arith, e, h)) b (ground (arith, member, n))
  ]
]

length-reverse : (xs : List ℕ) → length (reverse xs) ≡ length xs
length-reverse [] = refl
length-reverse (x ∷ xs) =
    let l : length (reverse xs ++ x ∷ []) ≡ length (reverse xs) + 1 =
      length-append (reverse xs) (x ∷ []) in
    ap length (reverse-cons x xs) ∙ omega (arith, l, length-reverse xs)

module _ (bs : List ℕ) (c : Bcache) where
  -- Both searches end, at the first buffer in their order.
  pub walk_next :
      (test : ℕ → Bool)
      → Ordered bs c
      → walk 31 c.links.next test (c.links.next head) ≡ some (find test bs)
  walk_next test o =
      let d : distinct (head ∷ bs) ≡ true = o.ring.no_twice in
      walk_lem 31 c.links.next test head bs (omega (arith, o.count)) (ground (arith, d))
        o.ring.ahead

  pub walk_prev :
      (test : ℕ → Bool)
      → Ordered bs c
      → walk 31 c.links.prev test (c.links.prev head) ≡ some (find test (reverse bs))
  walk_prev test o =
      let d : distinct (head ∷ bs) ≡ true = o.ring.no_twice in
      let m : is_in head (reverse bs) ≡ is_in head bs = is_in-reverse head bs in
      walk_lem 31 c.links.prev test head (reverse bs) (omega (arith, o.count, length-reverse bs))
        (ground (arith, d, m)) o.ring.behind

  -- The call on the abstract order: the buffer that caches the block, or else the least recently used one
  -- that is neither referenced nor dirty.
  abbrev pub take_unused : ℕ → ℕ → ℕ → Option ℕ → Outcome (ℕ × Bcache)
  take_unused pid dev blockno none = panics
  take_unused pid dev blockno (some b) = lock_buf pid b (recycle b dev blockno c)

  abbrev pub take : ℕ → ℕ → ℕ → Option ℕ → Outcome (ℕ × Bcache)
  take pid dev blockno none = take_unused pid dev blockno (find (is_unused c) (reverse bs))
  take pid dev blockno (some b) =
      lock_buf pid b (set_buf b (record (c.buf b) { refcnt = (c.buf b).refcnt + 1 }) c)

  unused_lem :
      (pid dev blockno : ℕ) (r : Option ℕ)
      → bget_unused pid dev blockno c (some r) ≡ take_unused pid dev blockno r
  unfolding bget_unused
  unused_lem pid dev blockno none = refl
  unused_lem pid dev blockno (some b) = refl

  chosen_lem :
      (pid dev blockno : ℕ)
      → Ordered bs c
      → (r : Option ℕ) → bget_cached pid dev blockno c (some r) ≡ take pid dev blockno r
  unfolding bget_cached
  chosen_lem pid dev blockno o none =
      ap (bget_unused pid dev blockno c) (walk_prev (is_unused c) o)
      ∙ unused_lem pid dev blockno (find (is_unused c) (reverse bs))
  chosen_lem pid dev blockno o (some b) = refl

  -- On a cache whose links list its 30 buffers in the order `bs`, `bget` takes a reference to the buffer of the
  -- block, if there is one; or else gives the block the least recently used buffer that is neither referenced
  -- nor dirty; or panics if there is none.
  pub bget_lem :
      (pid dev blockno : ℕ)
      → Ordered bs c
      → bget pid dev blockno c ≡ take pid dev blockno (find (is_block dev blockno c) bs)
  unfolding bget
  bget_lem pid dev blockno o =
      ap (bget_cached pid dev blockno c) (walk_next (is_block dev blockno c) o)
      ∙ chosen_lem pid dev blockno o (find (is_block dev blockno c) bs)
