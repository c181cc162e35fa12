-- ===== src/Pipe/History.antt =====
-- A writer and a reader of one pipe, interleaved in any order: what was sent, what was received,
-- and who sleeps. A wakeup on a channel clears the flag of the process that sleeps on it.
use os_lab.Prelude.{
  ℕ, ◌<◌, ◌≡◌, refl, ap, sym, ◌∙◌, inl, inr, Bool, true, false, List, [], ◌∷◌, ◌++◌, ◌-◌, arith,
  take, append_assoc, ◌⊎◌, length, not, ◌||◌, Bool-cases, if◌then◌else◌,
}
use native.Mathlib.Decide.{dec_lt}
use os_lab.Pipe.Defs.{
  Pipe, Chan, on_nread, on_nwrite, Outcome, returned, failed, asleep, Call, pipeclose, piperead,
  is_full, is_empty, pipesize, pipe_init,
}
use os_lab.Pipe.Contents.{used, contents, IsValid}
use os_lab.Pipe.Calls.{pipewrite, pipewrite_lem, piperead_lem, Wrote}

pub record Link : Type 0 where
  pub pipe : Pipe
  pub writer_asleep : Bool
  pub reader_asleep : Bool
  pub sent : List ℕ
  pub received : List ℕ

-- Does the list of wakeups hold the channel?
abbrev pub wakes : Chan → List Chan → Bool
wakes c [] = false
wakes on_nread (on_nread ∷ cs) = true
wakes on_nread (on_nwrite ∷ cs) = wakes on_nread cs
wakes on_nwrite (on_nread ∷ cs) = wakes on_nwrite cs
wakes on_nwrite (on_nwrite ∷ cs) = true

abbrev pub sleeps : Outcome → Bool
sleeps (asleep c rest) = true
sleeps (returned n) = false
sleeps failed = false

-- The link after a call of the writer with `xs` to write, and of the reader.
abbrev pub after_write : Link → List ℕ → Call → Link
after_write l xs c = record {
  pipe = c.pipe;
  writer_asleep = sleeps c.outcome;
  reader_asleep = if wakes on_nread c.woken then false else l.reader_asleep;
  sent = l.sent ++ take (pipesize - used l.pipe) xs;
  received = l.received;
}

abbrev pub after_read : Link → Call → Link
after_read l c = record {
  pipe = c.pipe;
  writer_asleep = if wakes on_nwrite c.woken then false else l.writer_asleep;
  reader_asleep = sleeps c.outcome;
  sent = l.sent;
  received = l.received ++ c.got;
}

abbrev pub after_close : Link → Pipe × Chan × Bool → Link
after_close l r = record {
  pipe = r.0;
  writer_asleep = if wakes on_nwrite (r.1 ∷ []) then false else l.writer_asleep;
  reader_asleep = if wakes on_nread (r.1 ∷ []) then false else l.reader_asleep;
  sent = l.sent;
  received = l.received;
}

-- One call, by a process that is awake. The writer may be resumed by a wakeup or by kill; it then
-- calls with what it has left, or with the bytes of its next pipewrite. Only a process that is not
-- asleep closes its end. A killed writer is taken only while no reader sleeps: pipewrite then returns
-- from a full buffer with no wakeup.
pub data Step (l : Link) : Link → Type 0 where
  write : (xs : List ℕ) → Step l (after_write l xs (pipewrite false l.pipe xs))
  write_killed :
      (xs : List ℕ) → l.reader_asleep ≡ false → Step l (after_write l xs (pipewrite true l.pipe xs))
  read :
      (killed : Bool) (n : ℕ)
      → l.pipe.readopen ≡ true
      → Step l (after_read l (piperead killed l.pipe n))
  close_write : l.writer_asleep ≡ false → Step l (after_close l (pipeclose l.pipe true))
  close_read : l.reader_asleep ≡ false → Step l (after_close l (pipeclose l.pipe false))

pub data Reach (page : List ℕ) : Link → Type 0 where
  start : Reach page (record {
    pipe = pipe_init page;
    writer_asleep = false;
    reader_asleep = false;
    sent = [];
    received = [];
  })
  later : {l m : Link} → Reach page l → Step l m → Reach page m

pub record Inv (l : Link) : Type 0 where
  pub valid : IsValid l.pipe
  pub fifo : l.received ++ contents l.pipe ≡ l.sent
  pub full : l.writer_asleep ≡ true → (is_full l.pipe ≡ true) × (l.pipe.readopen ≡ true)
  pub empty :
      l.reader_asleep ≡ true
      → (is_empty l.pipe ≡ true) × (l.pipe.writeopen ≡ true) × (l.pipe.readopen ≡ true)

-- What a call of the writer leaves, with its outcome.
module _ (killed : Bool) (l : Link) (xs : List ℕ) (inv : Inv l) where
  open inv use {valid, fifo, full, empty}

  abbrev room : ℕ
  room = pipesize - used l.pipe

  abbrev call : Call
  call = pipewrite killed l.pipe xs

  wrote : Wrote killed (length xs) room l.pipe xs call
  wrote = pipewrite_lem killed l.pipe xs valid

  fifo-write : l.received ++ contents call.pipe ≡ l.sent ++ take room xs
  fifo-write =
      ap (λ q. l.received ++ q) wrote.bytes
      ∙ sym (append_assoc l.received (contents l.pipe) (take room xs))
      ∙ ap (λ q. q ++ take room xs) fifo

  -- The three ways out of the loop.
  exits :
      (call.outcome ≡ returned (length xs)) × (call.woken ≡ on_nread ∷ [])
      ⊎ (call.outcome ≡ failed) × (call.woken ≡ []) × ((not l.pipe.readopen || killed) ≡ true)
      ⊎ (sleeps call.outcome ≡ true)
        × (is_full call.pipe ≡ true)
        × (call.woken ≡ on_nread ∷ [])
        × ((not l.pipe.readopen || killed) ≡ false)
  exits = elim (dec_lt room (length xs)) [
    | no h ↦ inl (wrote.all_fit (omega arith))
    | yes h ↦ elim (Bool-cases (not l.pipe.readopen || killed)) [
      | inl g ↦ inr (inl ((wrote.gone h g).0, (wrote.gone h g).1, g))
      | inr g ↦ inr (inr (ground (arith, wrote.waits h g)))
    ]
  ]

  write-Inv : killed ≡ false ⊎ (l.reader_asleep ≡ false) → Inv (after_write l xs call)
  write-Inv h = record {
    valid = wrote.valid;
    fifo = fifo-write;
    full = λ q. ground (arith, exits, wrote.open_same);
    empty = λ q. ground (arith, exits, wrote.open_same, empty);
  }

read-Inv :
    (killed : Bool) (l : Link) (n : ℕ)
    → Inv l
    → l.pipe.readopen ≡ true
    → Inv (after_read l (piperead killed l.pipe n))
read-Inv killed l n inv open_end =
    let spec = piperead_lem killed l.pipe n inv.valid in
    record {
      valid = spec.0;
      fifo =
          append_assoc l.received (piperead killed l.pipe n).got
            (contents (piperead killed l.pipe n).pipe)
          ∙ ap (λ q. l.received ++ q) spec.1
          ∙ inv.fifo;
      full = λ q. ground (arith, spec, inv.full);
      empty = λ q. ground (arith, spec);
    }

close-Inv :
    (l : Link) (writable : Bool)
    → Inv l
    → (if writable then l.writer_asleep else l.reader_asleep) ≡ false
    → Inv (after_close l (pipeclose l.pipe writable))
unfolding pipeclose used contents is_full is_empty
close-Inv l true inv h = record {
  valid = record {
    sized = inv.valid.sized;
    read_word = inv.valid.read_word;
    write_word = inv.valid.write_word;
    fits = inv.valid.fits;
  };
  fifo = inv.fifo;
  full = λ q. cc;
  empty = λ q. cc;
}
close-Inv l false inv h = record {
  valid = record {
    sized = inv.valid.sized;
    read_word = inv.valid.read_word;
    write_word = inv.valid.write_word;
    fits = inv.valid.fits;
  };
  fifo = inv.fifo;
  full = λ q. cc;
  empty = λ q. cc;
}

pub Step-Inv : {l m : Link} → Step l m → Inv l → Inv m
Step-Inv {l} (write xs) inv = write-Inv false l xs inv (inl refl)
Step-Inv {l} (write_killed xs awake) inv = write-Inv true l xs inv (inr awake)
Step-Inv {l} (read killed n o) inv = read-Inv killed l n inv o
Step-Inv {l} (close_write h) inv = close-Inv l true inv h
Step-Inv {l} (close_read h) inv = close-Inv l false inv h

pub Reach-Inv : {page : List ℕ} {l : Link} → length page ≡ pipesize → Reach page l → Inv l
unfolding pipe_init used contents is_full is_empty
Reach-Inv sized start = record { valid = omega arith; fifo = refl; full = λ q. cc; empty = λ q. cc }
Reach-Inv sized (later r st) = Step-Inv st (Reach-Inv sized r)

-- In every reachable state the bytes received, followed by those in the buffer, are the bytes that
-- were put in, in order: nothing is lost, repeated or reordered, across any number of wrap-arounds
-- of the counters.
pub received-append-contents :
    {page : List ℕ} {l : Link}
    → length page ≡ pipesize
    → Reach page l
    → l.received ++ contents l.pipe ≡ l.sent
received-append-contents sized r = (Reach-Inv sized r).fifo

-- A killed writer that fills the buffer returns without waking a reader: at a valid pipe, with more
-- bytes than fit, pipewrite wakes no channel and leaves the buffer full.
pub killed_write_wakes_none :
    (p : Pipe) (xs : List ℕ)
    → IsValid p
    → pipesize - used p < length xs
    → ((pipewrite true p xs).woken ≡ [])
      × ((pipewrite true p xs).outcome ≡ failed)
      × (contents (pipewrite true p xs).pipe ≡ contents p ++ take (pipesize - used p) xs)
killed_write_wakes_none p xs v h =
    let w = pipewrite_lem true p xs v in
    ((w.gone h (ground arith)).1, (w.gone h (ground arith)).0, w.bytes)
