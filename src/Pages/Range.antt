-- ===== src/Pages/Range.antt =====
-- What freerange of xv6-core/kalloc.c puts on the free list.
use os_lab.Prelude.{
  ℕ, zero, suc, ◌+◌, ◌*◌, ◌/◌, ◌%◌, ◌<◌, ◌≤◌, ◌≡◌, inl, inr, refl, Bool, true, false, ◌&&◌, ◌||◌,
  Option, some, List, ◌∷◌, ◌==◌, ltb, leb, arith, Bool-cases, is_in, distinct,
}
use os_lab.Pages.Defs.{
  pgsize, kernbase, phystop, is_bad, kfree, free_pages, freerange, page_round_up,
}

-- The page at `x` lies in the range from `p` on, below `vend`.
abbrev pub whole_page : ℕ → ℕ → ℕ → Bool
whole_page p vend x = (x % 4096 == 0) && (leb p x && leb (x + 4096) vend)

-- The list with the whole pages of the range added to it, once each.
pub record Freed (p vend : ℕ) (free : List ℕ) (result : Option (List ℕ)) : Type 0 where
  pub after : List ℕ
  pub done : result ≡ some after
  pub members : (x : ℕ) → is_in x after ≡ (whole_page p vend x || is_in x free)
  pub no_copies : distinct after ≡ true

module _ (end vend : ℕ) (kernel : kernbase ≤ end) (hi : vend ≤ kernbase + phystop) where
  free_pages-Freed :
      (n p : ℕ) (free : List ℕ)
      → p % 4096 ≡ 0
      → end ≤ p
      → vend < p + n * 4096 + 4096
      → ((x : ℕ) → whole_page p vend x ≡ true → is_in x free ≡ false)
      → distinct free ≡ true
      → Freed p vend free (free_pages n end p vend free)
  unfolding free_pages kfree is_bad
  free_pages-Freed zero p free al lo enough new once = record {
    after = free;
    done = refl;
    members = λ x. ground arith;
    no_copies = once;
  }
  free_pages-Freed (suc n) p free al lo enough new once =
      elim (Bool-cases (ltb vend (p + pgsize))) [
        | inl over ↦ record {
          after = free;
          done = ground (arith, over);
          members = λ x. ground (arith, over);
          no_copies = once;
        }
        | inr room ↦
            let good : is_bad end p ≡ false = ground (arith, room) in
            let first : is_in p free ≡ false = new p (ground (arith, room)) in
            let rest =
              free_pages-Freed n (p + 4096) (p ∷ free) (omega arith) (omega arith) (omega arith)
                (λ x h. ground (arith, new x, h)) (ground (arith, first, once)) in
            record {
              after = rest.after;
              done = rw (room, good) rest.done;
              members = λ x. ground (arith, rest.members x, room);
              no_copies = rest.no_copies;
            }
      ]

  -- If the kernel ends between KERNBASE and the first page of the range, and the range ends at or below
  -- PHYSTOP, freerange does not panic: it adds to a free list without copies and without pages of the range
  -- just the whole pages of the range, once each.
  pub freerange-Freed :
      (vstart : ℕ) (free : List ℕ)
      → end ≤ page_round_up vstart
      → ((x : ℕ) → whole_page (page_round_up vstart) vend x ≡ true → is_in x free ≡ false)
      → distinct free ≡ true
      → Freed (page_round_up vstart) vend free (freerange end vstart vend free)
  unfolding freerange
  freerange-Freed vstart free lo new once =
      free_pages-Freed (vend / pgsize) (page_round_up vstart) free (omega arith) lo (omega arith)
        new once
