-- ===== src/Log/Reserve.antt =====
-- The accounting of begin_op, log_write and end_op: how many blocks the running operations may still
-- log.
use os_lab.Prelude.{
  ℕ, suc, ◌+◌, ◌-◌, ◌*◌, ◌<◌, ◌≤◌, ◌≡◌, refl, Bool, true, false, List, [], ◌∷◌, ◌++◌, ◌==◌, ltb,
  leb, if◌then◌else◌, arith, length, ◌||◌, length-append,
}
use os_lab.Log.Defs.{logsize}
use os_lab.Log.Writes.{is_in}

abbrev pub maxopblocks : ℕ
maxopblocks = 10

-- `struct log`, less its lock and the constant fields; `header` is `lh`.
pub record Log : Type 0 where
  pub header : List ℕ
  pub outstanding : ℕ
  pub committing : Bool

pub data LogResult : Type 0 where
  done : Log → LogResult
  -- the caller sleeps on &log and tests again when it wakes
  asleep : LogResult
  panic : LogResult
  -- `outstanding` has gone below 0
  negative : LogResult
  -- end_op: the caller must commit, and then clear `committing` and wake the sleepers
  must_commit : Log → LogResult

-- One round of the loop of `begin_op`.
unfoldable pub begin_op : Log → LogResult
begin_op l =
    if l.committing
    then asleep
    else (if ltb logsize (length l.header + (l.outstanding + 1) * maxopblocks)
        then asleep
        else done (record l { outstanding = l.outstanding + 1 }))

unfoldable pub end_op : Log → LogResult
end_op l =
    if l.committing
    then panic
    else (if l.outstanding == 0
        then negative
        else (if l.outstanding == 1
            then must_commit (record l { outstanding = 0; committing = true })
            else done (record l { outstanding = l.outstanding - 1 })))

-- The end of `end_op`, after `commit` has emptied the header.
unfoldable pub end_commit : Log → Log
end_commit l = record { header = []; outstanding = l.outstanding; committing = false }

-- `size` is the superblock's nlog. The loop looks the block up, and the header grows only by a new one.
unfoldable pub log_write : ℕ → Log → ℕ → LogResult
log_write size l b =
    if leb logsize (length l.header) || leb (size - 1) (length l.header)
    then panic
    else (if l.outstanding == 0
        then panic
        else done (if is_in b l.header then l else record l { header = l.header ++ b ∷ [] }))

-- A log with its running operations, each by the number of log_write calls it has made.
pub record System : Type 0 where
  pub log : Log
  pub ops : List ℕ

-- The operations keep to their limit of MAXOPBLOCKS calls, and call log_write between their begin_op
-- and end_op. A commit runs with no operation outstanding, and begin_op waits for its end, so it is one
-- step with the end_op that starts it.
pub data Step (size : ℕ) (s : System) : System → Type 0 where
  begins : (l : Log) → begin_op s.log ≡ done l → Step size s (record { log = l; ops = 0 ∷ s.ops })
  writes :
      (xs ys : List ℕ) (u b : ℕ) (l : Log)
      → s.ops ≡ xs ++ u ∷ ys
      → u < maxopblocks
      → log_write size s.log b ≡ done l
      → Step size s (record { log = l; ops = xs ++ suc u ∷ ys })
  ends :
      (xs ys : List ℕ) (u : ℕ) (l : Log)
      → s.ops ≡ xs ++ u ∷ ys
      → end_op s.log ≡ done l
      → Step size s (record { log = l; ops = xs ++ ys })
  commits :
      (xs ys : List ℕ) (u : ℕ) (l : Log)
      → s.ops ≡ xs ++ u ∷ ys
      → end_op s.log ≡ must_commit l
      → Step size s (record { log = end_commit l; ops = xs ++ ys })

-- initlog, after recovery
abbrev pub boot : System
boot = record { log = record { header = []; outstanding = 0; committing = false }; ops = [] }

pub data Reach (size : ℕ) : System → Type 0 where
  start : Reach size boot
  later : {s t : System} → Reach size s → Step size s t → Reach size t

-- The log_write calls that the running operations may still make.
unfoldable pub reserved : List ℕ → ℕ
reserved [] = 0
reserved (u ∷ us) = (maxopblocks - u) + reserved us

reserved-append : (xs ys : List ℕ) → reserved (xs ++ ys) ≡ reserved xs + reserved ys
unfolding reserved
reserved-append [] ys = omega arith
reserved-append (x ∷ xs) ys = omega (arith, reserved-append xs ys)

reserved-le : (us : List ℕ) → reserved us ≤ length us * maxopblocks
unfolding reserved
reserved-le [] = omega arith
reserved-le (u ∷ us) = omega (arith, reserved-le us)

length_zero : (us : List ℕ) → length us ≡ 0 → reserved us ≡ 0
unfolding reserved
length_zero [] h = refl
length_zero (u ∷ us) h = absurd (omega arith)

record Inv (s : System) : Type 0 where
  counted : length s.ops ≡ s.log.outstanding
  idle : s.log.committing ≡ false
  room : length s.log.header + reserved s.ops ≤ logsize

reserved-at :
    (us xs ys : List ℕ) (u : ℕ)
    → us ≡ xs ++ u ∷ ys
    → reserved us ≡ reserved (xs ++ ys) + (maxopblocks - u)
unfolding reserved
reserved-at us xs ys u e = rw e (omega (arith, reserved-append xs (u ∷ ys), reserved-append xs ys))

length-at : (us xs ys : List ℕ) (u : ℕ) → us ≡ xs ++ u ∷ ys → length us ≡ length (xs ++ ys) + 1
length-at us xs ys u e = rw e (omega (arith, length-append xs (u ∷ ys), length-append xs ys))

begins-Inv :
    (s : System) (l : Log)
    → Inv s
    → begin_op s.log ≡ done l
    → Inv (record { log = l; ops = 0 ∷ s.ops })
unfolding begin_op reserved
begins-Inv s l inv e = ground (arith, reserved-le s.ops)

writes-Inv :
    (size : ℕ) (s : System) (xs ys : List ℕ) (u b : ℕ) (l : Log)
    → Inv s
    → s.ops ≡ xs ++ u ∷ ys
    → u < maxopblocks
    → log_write size s.log b ≡ done l
    → Inv (record { log = l; ops = xs ++ suc u ∷ ys })
unfolding log_write
writes-Inv size s xs ys u b l inv at lt e = ground (
  arith,
  length-append s.log.header (b ∷ []),
  reserved-at s.ops xs ys u at,
  reserved-at (xs ++ suc u ∷ ys) xs ys (suc u) refl,
  length-at s.ops xs ys u at,
  length-at (xs ++ suc u ∷ ys) xs ys (suc u) refl,
)

ends-Inv :
    (s : System) (xs ys : List ℕ) (u : ℕ) (l : Log)
    → Inv s
    → s.ops ≡ xs ++ u ∷ ys
    → end_op s.log ≡ done l
    → Inv (record { log = l; ops = xs ++ ys })
unfolding end_op
ends-Inv s xs ys u l inv at e =
    ground (arith, reserved-at s.ops xs ys u at, length-at s.ops xs ys u at)

commits-Inv :
    (s : System) (xs ys : List ℕ) (u : ℕ) (l : Log)
    → Inv s
    → s.ops ≡ xs ++ u ∷ ys
    → end_op s.log ≡ must_commit l
    → Inv (record { log = end_commit l; ops = xs ++ ys })
unfolding end_op end_commit
commits-Inv s xs ys u l inv at e =
    ground (arith, reserved-at s.ops xs ys u at, length-at s.ops xs ys u at, length_zero (xs ++ ys))

Reach-Inv : {size : ℕ} {s : System} → Reach size s → Inv s
unfolding reserved
Reach-Inv start = record { counted = refl; idle = refl; room = omega arith }
Reach-Inv {size} (later {s} r (begins l e)) = begins-Inv s l (Reach-Inv r) e
Reach-Inv {size} (later {s} r (writes xs ys u b l at lt e)) =
    writes-Inv size s xs ys u b l (Reach-Inv r) at lt e
Reach-Inv {size} (later {s} r (ends xs ys u l at e)) = ends-Inv s xs ys u l (Reach-Inv r) at e
Reach-Inv {size} (later {s} r (commits xs ys u l at e)) = commits-Inv s xs ys u l (Reach-Inv r) at e

-- begin_op reserves enough: in every reachable state, an operation that has made fewer than
-- MAXOPBLOCKS calls finds at most LOGSIZE - 1 blocks in the header, and its log_write records the block
-- unless the superblock's log is too small for one block more; only then does it panic.
pub log_write-reserved :
    {size : ℕ} {s : System} (xs ys : List ℕ) (u b : ℕ)
    → Reach size s
    → s.ops ≡ xs ++ u ∷ ys
    → u < maxopblocks
    → (length s.log.header < logsize)
      × (log_write size s.log b ≡ (
          if leb (size - 1) (length s.log.header)
          then panic
          else done (
              if is_in b s.log.header
              then s.log
              else record s.log { header = s.log.header ++ b ∷ [] })))
unfolding log_write
log_write-reserved {size} {s} xs ys u b r at lt =
    let inv = Reach-Inv r in
    ground (arith, reserved-at s.ops xs ys u at, length-at s.ops xs ys u at)
