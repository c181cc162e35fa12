-- ===== src/Pages/Tests.antt =====
-- A concrete range of pages.
use os_lab.Prelude.{◌+◌, ◌≡◌, refl, some, [], ◌∷◌, arith}
use os_lab.Pages.Defs.{kernbase, kfree, is_bad, free_pages, freerange, page_round_up}
use os_lab.Pages.Range.{Freed, freerange-Freed}

two_pages :
    freerange (kernbase + 5000) (kernbase + 5000) (kernbase + 16384) []
    ≡ some ((kernbase + 12288) ∷ (kernbase + 8192) ∷ [])
unfolding freerange free_pages kfree is_bad
two_pages = refl

freerange-Freed_example :
    Freed
      (page_round_up (kernbase + 5000))
      (kernbase + 16384)
      []
      (freerange (kernbase + 5000) (kernbase + 5000) (kernbase + 16384) [])
freerange-Freed_example =
    freerange-Freed (kernbase + 5000) (kernbase + 16384) (omega arith) (omega arith)
      (kernbase + 5000) [] (omega arith) (λ x h. refl) refl
