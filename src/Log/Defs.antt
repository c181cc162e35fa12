-- ===== src/Log/Defs.antt =====
-- The data of xv6-core/log.c, and commit and recovery as writes to a disk that may stop at any point.
use os_lab.Prelude.{
  ℕ, zero, suc, ◌+◌, Option, none, some, List, [], ◌∷◌, ◌==◌, ltb, if◌then◌else◌, get_or, set, take,
  drop, length,
}

-- A block as its 128 words, and a disk as a function of the block number.
abbrev pub Block : Type 0
Block = List ℕ

abbrev pub logsize : ℕ
logsize = 30

-- The disk; the blocks that the cache holds modified (B_DIRTY), which are not yet on it; and how many
-- more block writes reach the disk before the machine stops. The cache's clean blocks equal the
-- disk's, and are not kept apart.
pub record Machine : Type 0 where
  pub disk : ℕ → Block
  pub dirty : ℕ → Option Block
  pub writes_left : ℕ

-- The contents of the buffer that `bread` returns.
unfoldable pub bread : Machine → ℕ → Block
bread m b = elim (m.dirty b) [ none ↦ m.disk b | some x ↦ x ]

-- `bwrite` of a buffer with contents `x`: one block, all or nothing, and B_DIRTY is cleared. Once the
-- machine has stopped, nothing happens.
unfoldable pub bwrite : Machine → ℕ → Block → Machine
bwrite m b x = elim m.writes_left [
  | zero ↦ m
  | suc k ↦ record {
    disk = λ c. if b == c then x else m.disk c;
    dirty = λ c. if b == c then none else m.dirty c;
    writes_left = k;
  }
]

-- The header in a block: the first word is `n`, and the block numbers follow.
unfoldable pub header_of : Block → List ℕ
header_of x = take (get_or x 0 0) (drop 1 x)

-- `for(i...) hb->block[i] = log.lh.block[i];` from word `w` on.
unfoldable pub fill_header : Block → ℕ → List ℕ → Block
fill_header x w [] = x
fill_header x w (b ∷ bs) = fill_header (set x w b) (w + 1) bs

unfoldable pub put_header : Block → List ℕ → Block
unfolding fill_header
put_header x bs = fill_header (set x 0 (length bs)) 1 bs

module _ (start : ℕ) where
  unfoldable pub read_head : Machine → List ℕ
  unfolding header_of bread
  read_head m = header_of (bread m start)

  unfoldable pub write_head : Machine → List ℕ → Machine
  write_head m bs = bwrite m start (put_header (bread m start) bs)

  -- The loop of `install_trans` from index `tail` on.
  unfoldable pub install_trans : ℕ → List ℕ → Machine → Machine
  install_trans tail [] m = m
  install_trans tail (b ∷ bs) m =
      install_trans (tail + 1) bs (bwrite m b (bread m (start + tail + 1)))

  -- The loop of `write_log` from index `tail` on.
  unfoldable pub write_log : ℕ → List ℕ → Machine → Machine
  write_log tail [] m = m
  write_log tail (b ∷ bs) m = write_log (tail + 1) bs (bwrite m (start + tail + 1) (bread m b))

  -- `commit`, with the in-memory header `bs`; it leaves that header empty.
  unfoldable pub commit : List ℕ → Machine → Machine
  commit bs m =
      if ltb 0 (length bs)
      then write_head (install_trans 0 bs (write_head (write_log 0 bs m) bs)) []
      else m

  -- `recover_from_log`
  unfoldable pub recover_from_log : Machine → Machine
  recover_from_log m = write_head (install_trans 0 (read_head m) m) []

-- The machine after a crash: the disk survives, the cache is empty.
unfoldable pub reboot : ℕ → Machine → Machine
reboot k m = record { disk = m.disk; dirty = λ _. none; writes_left = k }
