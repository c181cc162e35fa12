-- ===== src/Pages/Defs.antt =====
-- kfree, kalloc and freerange of xv6-core/kalloc.c. The free list is the list of its pages' addresses; the
-- junk in them is not modelled.
use os_lab.Prelude.{
  ℕ, zero, suc, ◌+◌, ◌-◌, ◌*◌, ◌/◌, ◌%◌, ◌^◌, Bool, not, ◌||◌, Option, none, some, List, [], ◌∷◌,
  ◌==◌, ltb, leb, if◌then◌else◌,
}

abbrev pub pgsize : ℕ
pgsize = 4096

-- `KERNBASE` and `PHYSTOP`
abbrev pub kernbase : ℕ
kernbase = 2147483648

abbrev pub phystop : ℕ
phystop = 234881024

-- `V2P`, on 32 bits
abbrev pub v2p : ℕ → ℕ
v2p v = (v + (2 ^ 32 - kernbase)) % 2 ^ 32

-- The address is not that of a page of physical memory behind the kernel, which ends at `end`.
unfoldable pub is_bad : ℕ → ℕ → Bool
is_bad end v = not (v % pgsize == 0) || (ltb v end || leb phystop (v2p v))

-- none is the panic
unfoldable pub kfree : ℕ → ℕ → List ℕ → Option (List ℕ)
kfree end v free = if is_bad end v then none else some (v ∷ free)

-- The page, if there is one, and the list afterwards.
unfoldable pub kalloc : List ℕ → Option ℕ × List ℕ
kalloc [] = (none, [])
kalloc (v ∷ free) = (some v, free)

abbrev pub page_round_up : ℕ → ℕ
page_round_up a = (a + (pgsize - 1)) / pgsize * pgsize

-- The loop of `freerange` from `p` on.
unfoldable pub free_pages : ℕ → ℕ → ℕ → ℕ → List ℕ → Option (List ℕ)
free_pages zero end p vend free = some free
free_pages (suc n) end p vend free =
    if ltb vend (p + pgsize)
    then some free
    else elim (kfree end p free) [ none ↦ none | some f ↦ free_pages n end (p + pgsize) vend f ]

-- Each round advances by a page, so there are at most `vend / pgsize` of them.
unfoldable pub freerange : ℕ → ℕ → ℕ → List ℕ → Option (List ℕ)
freerange end vstart vend free = free_pages (vend / pgsize) end (page_round_up vstart) vend free
