-- ===== src/Pipe/Defs.antt =====
-- The data and functions of xv6-core/pipe.c.
use os_lab.Prelude.{
  ℕ, zero, suc, ◌+◌, ◌%◌, ◌^◌, Bool, true, false, ◌&&◌, ◌||◌, not, List, [], ◌∷◌, ◌==◌,
  if◌then◌else◌, get_or, set, length,
}

abbrev pub pipesize : ℕ
pipesize = 512

-- `uint` addition
abbrev pub add_uint : ℕ → ℕ → ℕ
add_uint a b = (a + b) % 2 ^ 32

-- `struct pipe`, less its spin lock.
pub record Pipe : Type 0 where
  pub buf : List ℕ
  pub nread : ℕ
  pub nwrite : ℕ
  pub readopen : Bool
  pub writeopen : Bool

-- The channels `&p->nread` and `&p->nwrite`.
pub data Chan : Type 0 where
  on_nread on_nwrite : Chan

-- How a call leaves the lock: it returns, returns -1, or sleeps. A writer that sleeps has the
-- bytes `rest` left and enters its loop again with them.
pub data Outcome : Type 0 where
  returned : ℕ → Outcome
  failed : Outcome
  asleep : Chan → List ℕ → Outcome

-- The pipe afterwards, the channels woken, in order, and the bytes handed to the caller.
pub record Call : Type 0 where
  pub pipe : Pipe
  pub woken : List Chan
  pub got : List ℕ
  pub outcome : Outcome

-- What `pipealloc` makes of a fresh page; kalloc leaves the bytes of `data` as they were.
unfoldable pub pipe_init : List ℕ → Pipe
pipe_init page = record { buf = page; nread = 0; nwrite = 0; readopen = true; writeopen = true }

-- The new pipe, the channel woken, and whether the page is freed.
unfoldable pub pipeclose : Pipe → Bool → Pipe × Chan × Bool
pipeclose p writable =
    let q = if writable then record p { writeopen = false } else record p { readopen = false } in
    (q, (if writable then on_nread else on_nwrite), not q.readopen && not q.writeopen)

unfoldable pub is_full : Pipe → Bool
is_full p = p.nwrite == add_uint p.nread pipesize

unfoldable pub is_empty : Pipe → Bool
is_empty p = p.nread == p.nwrite

-- `p->data[p->nwrite++ % PIPESIZE] = c`
unfoldable pub put : Pipe → ℕ → Pipe
put p c = record p { buf = set p.buf (p.nwrite % pipesize) c; nwrite = add_uint p.nwrite 1 }

-- `p->data[p->nread++ % PIPESIZE]`
unfoldable pub next_byte : Pipe → ℕ
next_byte p = get_or p.buf (p.nread % pipesize) 0

unfoldable pub advance : Pipe → Pipe
advance p = record p { nread = add_uint p.nread 1 }

-- The loop of `pipewrite` over the bytes still to write; `n` is the count that it returns.
unfoldable pub write_loop : Bool → ℕ → Pipe → List ℕ → Call
write_loop killed n p [] = record {
  pipe = p;
  woken = on_nread ∷ [];
  got = [];
  outcome = returned n;
}
write_loop killed n p (c ∷ xs) =
    let rest = write_loop killed n (put p c) xs in
    if is_full p
    then (if not p.readopen || killed
        then record { pipe = p; woken = []; got = []; outcome = failed }
        else record {
          pipe = p;
          woken = on_nread ∷ [];
          got = [];
          outcome = asleep on_nwrite (c ∷ xs);
        })
    else rest

-- The copy loop of `piperead`, with `n` bytes asked for: what it reads, and the pipe.
unfoldable pub read_loop : ℕ → Pipe → List ℕ × Pipe
read_loop zero p = ([], p)
read_loop (suc n) p =
    let rest = read_loop n (advance p) in
    if is_empty p then ([], p) else (next_byte p ∷ rest.0, rest.1)

-- `piperead` from its first test on, as on entry and after each sleep.
unfoldable pub piperead : Bool → Pipe → ℕ → Call
piperead killed p n =
    if is_empty p && p.writeopen
    then (if killed
        then record { pipe = p; woken = []; got = []; outcome = failed }
        else record { pipe = p; woken = []; got = []; outcome = asleep on_nread [] })
    else (let r = read_loop n p in
        record { pipe = r.1; woken = on_nwrite ∷ []; got = r.0; outcome = returned (length r.0) })
