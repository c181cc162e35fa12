-- ===== src/Console/Reading.antt =====
-- What consoleread of xv6-core/console.c takes from the committed bytes.
use os_lab.Prelude.{
  ℕ, zero, suc, ◌+◌, ◌-◌, ◌^◌, ◌<◌, ◌≤◌, ◌≡◌, ap, ◌∙◌, Bool, true, false, List, [], ◌∷◌, arith,
  if◌then◌else◌, ◌==◌,
}
use os_lab.Console.Defs.{Console, newline, ctrl_d, add_uint}
use os_lab.Console.Keys.{forward, read_loop, consoleread, ReadEnd, returns, gives_up, sleeps}

-- The bytes committed and not yet read.
abbrev pub queue : Console → List ℕ
queue s = forward (s.w - s.r) s.r s.buf

-- What a reader gets from a queue: at most `n` bytes, up to the first newline and that included, or up
-- to ^D, which is taken out only by a read that got nothing before it.
abbrev pub read_queue : Bool → Bool → ℕ → List ℕ → List ℕ × ReadEnd × List ℕ
read_queue killed first zero q = ([], returns, q)
read_queue killed first (suc n) [] = ([], (if killed then gives_up else sleeps (suc n)), [])
read_queue killed first (suc n) (c ∷ q) =
    let rest = read_queue killed false n q in
    if c == ctrl_d
    then ([], returns, if first then q else c ∷ q)
    else (if c == newline then (c ∷ [], returns, q) else (c ∷ rest.0, rest.1, rest.2))

-- What a read leaves, with the queue for the console.
abbrev pub view : List ℕ × ReadEnd × Console → List ℕ × ReadEnd × List ℕ
view r = (r.0, r.1, queue r.2)

queue-forward : (s : Console) (k : ℕ) → s.w ≡ s.r + k → queue s ≡ forward k s.r s.buf
queue-forward s k e = ap (λ n. forward n s.r s.buf) (omega arith)

read_loop-queue :
    (killed first : Bool) (n k : ℕ) (s : Console)
    → s.w ≡ s.r + k
    → s.w < 2 ^ 32
    → view (read_loop killed first n s) ≡ read_queue killed first n (forward k s.r s.buf)
unfolding read_loop forward
read_loop-queue killed first zero k s e small = ground (arith, queue-forward s k e)
read_loop-queue killed first (suc n) zero s e small =
    let empty : (s.r == s.w) ≡ true = ground arith in
    rw (empty) (ground (arith, queue-forward s 0 e))
read_loop-queue killed first (suc n) (suc k) s e small =
    let some_left : (s.r == s.w) ≡ false = ground arith in
    let next : add_uint s.r 1 ≡ s.r + 1 = omega arith in
    let t = record s { r = add_uint s.r 1 } in
    let after : queue t ≡ forward k (s.r + 1) s.buf =
      queue-forward t k (omega arith) ∙ ap (λ i. forward k i s.buf) next in
    let rest =
      read_loop-queue killed false n k t (omega arith) small
      ∙ ap (λ i. read_queue killed false n (forward k i s.buf)) next in
    rw (some_left) (ground (arith, after, rest, queue-forward s (suc k) e))

-- While the write index is below the end of the `uint` range, consoleread takes from the committed bytes
-- what a reader of the queue gets, ends the same way, and leaves the rest of the queue.
pub consoleread_lem :
    (killed : Bool) (n : ℕ) (s : Console)
    → s.r ≤ s.w
    → s.w < 2 ^ 32
    → view (consoleread killed n s) ≡ read_queue killed true n (queue s)
unfolding consoleread
consoleread_lem killed n s le small =
    read_loop-queue killed true n (s.w - s.r) s (omega arith) small
