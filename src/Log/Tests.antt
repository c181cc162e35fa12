-- ===== src/Log/Tests.antt =====
-- Commits that crash, and the theorems at concrete logs.
use os_lab.Prelude.{
  ℕ, ◌<◌, ◌≡◌, refl, false, none, some, List, [], ◌∷◌, ◌==◌, arith, length, replicate,
  if◌then◌else◌, inr,
}
use os_lab.Log.Defs.{
  Block, Machine, bread, bwrite, commit, recover_from_log, reboot, header_of, install_trans,
  write_log, write_head, put_header, logsize,
}
use os_lab.Log.Writes.{is_in, IsHome}
use os_lab.Log.Crash.{Committable, recover-commit, commit_lem}
use os_lab.Log.Reserve.{System, Reach, Step, begin_op, log_write, done, log_write-reserved}

abbrev zeroes : Block
zeroes = replicate 128 0

-- Log at block 2; blocks 40 and 41 are modified in the cache; six writes reach the disk.
abbrev machine : ℕ → Machine
machine k = record {
  disk = λ b. if b == 2 then zeroes else b ∷ [];
  dirty = λ b. if b == 40 then some (7 ∷ []) else if b == 41 then some (8 ∷ []) else none;
  writes_left = k;
}

abbrev changed : List ℕ
changed = 40 ∷ 41 ∷ []

changed-Committable : (k : ℕ) → Committable 2 (machine k) changed
unfolding header_of
changed-Committable k = record {
  homes = (inr (omega arith), (inr (omega arith), tt));
  few = omega arith;
  some_block = omega arith;
  empty = refl;
  clean = refl;
  sized = refl;
}

-- After four writes block 40 is new on the disk and 41 is old; recovery makes both new.
torn : (commit 2 changed (machine 4)).disk 41 ≡ 41 ∷ []
unfolding commit write_log write_head install_trans bread bwrite put_header
torn = refl

recover-commit_early :
    (recover_from_log 2 (reboot 9 (commit 2 changed (machine 2)))).disk 41 ≡ 41 ∷ []
recover-commit_early =
    recover-commit 2 (machine 2) changed 9 41 (changed-Committable 2) (omega arith)
      (inr (omega arith))

commit_lem_example :
    ((c : ℕ)
      → IsHome 2 c
      → (commit 2 changed (machine 6)).disk c
        ≡ (if is_in c changed then bread (machine 6) c else (machine 6).disk c))
    × (header_of ((commit 2 changed (machine 6)).disk 2) ≡ [])
commit_lem_example = commit_lem 2 (machine 6) changed (changed-Committable 6) (omega arith)

-- A disk with one block in its log.
abbrev logged : Machine
logged = record {
  disk = λ b. if b == 2 then 1 ∷ 40 ∷ replicate 126 0 else b ∷ [];
  dirty = λ _. none;
  writes_left = 0;
}

-- Two operations have begun.
abbrev begun : System
begun = record {
  log = record { header = []; outstanding = 2; committing = false };
  ops = 0 ∷ 0 ∷ [];
}

begun-Reach : Reach 30 begun
unfolding begin_op
begun-Reach = Reach.later (Reach.later Reach.start (Step.begins _ refl)) (Step.begins _ refl)

log_write-reserved_example :
    (length begun.log.header < logsize)
    × (log_write 30 begun.log 40 ≡ done (record begun.log { header = 40 ∷ [] }))
log_write-reserved_example = log_write-reserved [] (0 ∷ []) 0 40 begun-Reach refl (omega arith)
