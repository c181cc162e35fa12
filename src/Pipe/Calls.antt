-- ===== src/Pipe/Calls.antt =====
-- What pipewrite, piperead and pipeclose do to the bytes that a pipe holds.
use os_lab.Prelude.{
  ℕ, zero, suc, ◌+◌, ◌-◌, ◌≤◌, ◌<◌, ◌≡◌, refl, ap, ap₂, ◌∙◌, ◌⊎◌, inl, inr, Bool, true, false, not,
  ◌&&◌, ◌||◌, List, [], ◌∷◌, ◌++◌, arith, length, take, drop, take-append-drop, append_assoc,
  append-nil, Bool-cases, if◌then◌else◌,
}
use os_lab.Pipe.Defs.{
  Pipe, pipesize, on_nread, on_nwrite, Outcome, returned, failed, asleep, Call, write_loop,
  read_loop, piperead, put, advance, next_byte, is_full, is_empty,
}
use os_lab.Pipe.Contents.{
  used, contents, IsValid, is_full-iff-used, put-IsValid, used-put, contents-put, advance-IsValid,
  contents-advance, contents-empty,
}

-- The bytes that a call of `pipewrite` has left to write.
abbrev pub pending : Outcome → List ℕ → List ℕ
pending (returned n) xs = []
pending failed xs = xs
pending (asleep c rest) xs = rest

-- What a run of the loop over `xs` has done at a pipe with room for `k` bytes: it put the first `k`,
-- and it stopped early only at a full pipe, by -1 if the reader is gone or the caller was killed, by
-- sleeping if not.
pub record Wrote (killed : Bool) (n k : ℕ) (p : Pipe) (xs : List ℕ) (c : Call) : Type 0 where
  pub valid : IsValid c.pipe
  pub bytes : contents c.pipe ≡ contents p ++ take k xs
  pub open_same : (c.pipe.readopen ≡ p.readopen) × (c.pipe.writeopen ≡ p.writeopen)
  pub all_fit : length xs ≤ k → (c.outcome ≡ returned n) × (c.woken ≡ on_nread ∷ [])
  pub gone :
      k < length xs → (not p.readopen || killed) ≡ true → (c.outcome ≡ failed) × (c.woken ≡ [])
  pub waits :
      k < length xs
      → (not p.readopen || killed) ≡ false
      → (c.outcome ≡ asleep on_nwrite (drop k xs))
        × (is_full c.pipe ≡ true)
        × (c.woken ≡ on_nread ∷ [])

take-nil : (k : ℕ) → take {A = ℕ} k [] ≡ []
take-nil zero = refl
take-nil (suc k) = refl

module _ (killed : Bool) (n : ℕ) (p : Pipe) where
  write_loop-full :
      (c : ℕ) (xs : List ℕ)
      → is_full p ≡ true
      → write_loop killed n p (c ∷ xs) ≡ (
          if not p.readopen || killed
          then record { pipe = p; woken = []; got = []; outcome = failed }
          else record {
            pipe = p;
            woken = on_nread ∷ [];
            got = [];
            outcome = asleep on_nwrite (c ∷ xs);
          })
  unfolding write_loop
  write_loop-full c xs h = rw h

  write_loop-room :
      (c : ℕ) (xs : List ℕ)
      → is_full p ≡ false
      → write_loop killed n p (c ∷ xs) ≡ write_loop killed n (put p c) xs
  unfolding write_loop
  write_loop-room c xs h = rw h

  -- A step that puts a byte carries what the rest of the loop does.
  Wrote-cons :
      (k c : ℕ) (xs : List ℕ) {r : Call}
      → IsValid p
      → is_full p ≡ false
      → Wrote killed n k (put p c) xs r
      → Wrote killed n (suc k) p (c ∷ xs) r
  unfolding put
  Wrote-cons k c xs v h w = record {
    valid = w.valid;
    bytes =
        w.bytes
        ∙ ap (λ q. q ++ take k xs) (contents-put c v h)
        ∙ append_assoc (contents p) (c ∷ []) (take k xs);
    open_same = w.open_same;
    all_fit = λ le. w.all_fit (omega arith);
    gone = λ lt g. w.gone (omega arith) g;
    waits = λ lt g. w.waits (omega arith) g;
  }

-- The loop does what `Wrote` says, on every input.
pub write_loop-Wrote :
    (killed : Bool) (n k : ℕ) (p : Pipe) (xs : List ℕ)
    → IsValid p
    → used p + k ≡ pipesize
    → Wrote killed n k p xs (write_loop killed n p xs)
unfolding write_loop
write_loop-Wrote killed n k p [] v h = record {
  valid = v;
  bytes = rw (take-nil k, append-nil);
  open_same = (refl, refl);
  all_fit = λ _. (refl, refl);
  gone = λ lt. absurd (omega arith);
  waits = λ lt. absurd (omega arith);
}
write_loop-Wrote killed n zero p (c ∷ xs) v h =
    let full : is_full p ≡ true = ground (arith, is_full-iff-used v) in
    rw (write_loop-full killed n p c xs full) (ground (arith, append-nil (contents p)))
write_loop-Wrote killed n (suc k) p (c ∷ xs) v h =
    let room : is_full p ≡ false = ground (arith, is_full-iff-used v) in
    rw (write_loop-room killed n p c xs room) (
      Wrote-cons killed n p k c xs v room (
        write_loop-Wrote killed n k (put p c) xs (put-IsValid c v room)
          (omega (arith, used-put c v room))))

-- What the copy loop of `piperead` takes from the front, and what it leaves.
pub record Took (n : ℕ) (p : Pipe) (r : List ℕ × Pipe) : Type 0 where
  pub valid : IsValid r.1
  pub bytes : r.0 ≡ take n (contents p)
  pub left : contents r.1 ≡ drop n (contents p)
  pub open_same : (r.1.readopen ≡ p.readopen) × (r.1.writeopen ≡ p.writeopen)

open-advance :
    (p : Pipe) → ((advance p).readopen ≡ p.readopen) × ((advance p).writeopen ≡ p.writeopen)
unfolding advance
open-advance p = (refl, refl)

pub read_loop-Took : (n : ℕ) (p : Pipe) → IsValid p → Took n p (read_loop n p)
unfolding read_loop
read_loop-Took zero p v = record { valid = v; bytes = refl; left = refl; open_same = (refl, refl) }
read_loop-Took (suc n) p v = elim (Bool-cases (is_empty p)) [
  | inl e ↦ rw e (record {
    valid = v;
    bytes = rw (contents-empty v e);
    left = rw (contents-empty v e);
    open_same = (refl, refl);
  })
  | inr h ↦ rw h (
      let t = read_loop-Took n (advance p) (advance-IsValid v h) in
      record {
        valid = t.valid;
        bytes = rw (contents-advance v h) (ap (λ bs. next_byte p ∷ bs) t.bytes);
        left = rw (contents-advance v h) t.left;
        open_same = (t.open_same.0 ∙ (open-advance p).0, t.open_same.1 ∙ (open-advance p).1);
      })
]

-- `pipewrite` of a list of bytes: the loop, told to return their number.
unfoldable pub pipewrite : Bool → Pipe → List ℕ → Call
pipewrite killed p xs = write_loop killed (length xs) p xs

-- pipewrite appends as many of the caller's bytes as the buffer has room for, in order, and nothing
-- else; it returns their number if all fit, and at a full buffer it returns -1 if no reader is left or
-- the caller was killed, and sleeps with exactly the unwritten bytes left to do otherwise.
pub pipewrite_lem :
    (killed : Bool) (p : Pipe) (xs : List ℕ)
    → IsValid p
    → Wrote killed (length xs) (pipesize - used p) p xs (pipewrite killed p xs)
unfolding pipewrite
pipewrite_lem killed p xs v =
    write_loop-Wrote killed (length xs) (pipesize - used p) p xs v (omega (arith, v.fits))

-- What piperead does: -1 or sleep at an empty pipe with its write end open, else a prefix.
abbrev pub ReadSpec : Bool → Pipe → ℕ → Call → Type 0
ReadSpec killed p n c =
    IsValid c.pipe
    × (c.got ++ contents c.pipe ≡ contents p)
    × ((c.pipe ≡ p)
          × (is_empty p ≡ true)
          × (p.writeopen ≡ true)
          × (c.outcome ≡ (if killed then failed else asleep on_nread []))
          × (c.woken ≡ [])
        ⊎ (c.got ≡ take n (contents p))
          × (c.outcome ≡ returned (length c.got))
          × (c.woken ≡ on_nwrite ∷ []))

piperead_waits :
    (killed : Bool) (p : Pipe) (n : ℕ)
    → IsValid p
    → (is_empty p && p.writeopen) ≡ true
    → ReadSpec killed p n (piperead killed p n)
unfolding piperead
piperead_waits true p n v h = rw h (v, refl, inl (refl, ground arith, ground arith, refl, refl))
piperead_waits false p n v h = rw h (v, refl, inl (refl, ground arith, ground arith, refl, refl))

piperead_runs :
    (killed : Bool) (p : Pipe) (n : ℕ)
    → (is_empty p && p.writeopen) ≡ false
    → piperead killed p n ≡ record {
      pipe = (read_loop n p).1;
      woken = on_nwrite ∷ [];
      got = (read_loop n p).0;
      outcome = returned (length (read_loop n p).0);
    }
unfolding piperead
piperead_runs killed p n h = rw h

-- piperead on every branch: it takes bytes from the front only and loses none. At an empty pipe with
-- its write end open it returns -1 if the caller was killed and sleeps if not; in every other case it
-- hands over the first n bytes (fewer if fewer are there), returns their number and wakes the writers.
pub piperead_lem :
    (killed : Bool) (p : Pipe) (n : ℕ) → IsValid p → ReadSpec killed p n (piperead killed p n)
piperead_lem killed p n v = elim (Bool-cases (is_empty p && p.writeopen)) [
  | inl waits ↦ piperead_waits killed p n v waits
  | inr go ↦ rw (piperead_runs killed p n go) (
      let t = read_loop-Took n p v in
      (
        t.valid,
        ap₂ ◌++◌ t.bytes t.left ∙ take-append-drop n (contents p),
        inr (t.bytes, refl, refl),
      ))
]
