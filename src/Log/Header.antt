-- ===== src/Log/Header.antt =====
-- What write_head puts into a block, read_head finds there.
use os_lab.Prelude.{
  ℕ, suc, ◌+◌, ◌<◌, ◌≤◌, ◌≡◌, refl, ap, ◌∙◌, List, [], ◌∷◌, arith, get_or, set, take, drop, length,
  length-set,
}
use os_lab.Log.Defs.{Block, header_of, fill_header, put_header}

-- The words of a block are 128.
abbrev pub words : ℕ
words = 128

length-fill_header : (x : Block) (w : ℕ) (bs : List ℕ) → length (fill_header x w bs) ≡ length x
unfolding fill_header
length-fill_header x w [] = refl
length-fill_header x w (b ∷ bs) = length-fill_header (set x w b) (w + 1) bs ∙ length-set x w b

pub length-put_header : (x : Block) (bs : List ℕ) → length (put_header x bs) ≡ length x
unfolding put_header
length-put_header x bs = length-fill_header (set x 0 (length bs)) 1 bs ∙ length-set x 0 (length bs)

-- Filling past a word leaves the words before it.
fill_header-cons :
    (a : ℕ) (x : Block) (w : ℕ) (bs : List ℕ)
    → fill_header (a ∷ x) (suc w) bs ≡ a ∷ fill_header x w bs
unfolding fill_header
fill_header-cons a x w [] = refl
fill_header-cons a x w (b ∷ bs) =
    ap (λ v. fill_header (a ∷ set x w b) v bs) (omega arith)
    ∙ fill_header-cons a (set x w b) (w + 1) bs

take-fill_header :
    (x : Block) (bs : List ℕ) → length bs ≤ length x → take (length bs) (fill_header x 0 bs) ≡ bs
unfolding fill_header
take-fill_header x [] h = refl
take-fill_header [] (b ∷ bs) h = absurd (omega arith)
take-fill_header (a ∷ x) (b ∷ bs) h =
    ap (take (suc (length bs))) (fill_header-cons b x 0 bs)
    ∙ ap (λ r. b ∷ r) (take-fill_header x bs (omega arith))

-- The header read from a block is the one that was written into it, whatever the block held before, if
-- it has its 128 words and the header at most 127 entries.
pub header_of-put_header :
    (x : Block) (bs : List ℕ)
    → length x ≡ words
    → length bs < words
    → header_of (put_header x bs) ≡ bs
unfolding header_of put_header
header_of-put_header [] bs h g = absurd (omega arith)
header_of-put_header (a ∷ x) bs h g =
    ap (λ r. take (get_or r 0 0) (drop 1 r)) (fill_header-cons (length bs) x 0 bs)
    ∙ take-fill_header x bs (omega arith)
