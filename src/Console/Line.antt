-- ===== src/Console/Line.antt =====
-- What the editing keys of consoleintr in xv6-core/console.c do to the line that is being edited.
use os_lab.Prelude.{
  ℕ, zero, suc, ◌+◌, ◌-◌, ◌%◌, ◌^◌, ◌<◌, ◌≤◌, ◌≡◌, refl, ap, ap₂, ◌∙◌, sym, Bool, false, ◌||◌,
  Option, some, List, [], ◌∷◌, ◌++◌, arith, if◌then◌else◌, length, append_assoc, append-nil, subst,
  ◌==◌, reverse, reverse-append, reverse-cons, reverse-reverse, write,
}
use os_lab.Console.Defs.{Console, input_buf, newline, add_uint, dec_uint, sub_uint}
use os_lab.Console.Keys.{
  forward, no_digits, backward, is_digit, rub, at_start, erase, kill_line, retype, replace_line,
  ctrl_n, ctrl_r,
}

abbrev pub has_newline : List ℕ → Bool
has_newline [] = false
has_newline (c ∷ cs) = (c == newline) || has_newline cs

pub has_newline-append :
    (xs ys : List ℕ) → has_newline (xs ++ ys) ≡ (has_newline xs || has_newline ys)
has_newline-append [] ys = refl
has_newline-append (x ∷ xs) ys = ground (arith, has_newline-append xs ys)

forward-suc :
    (n i : ℕ) (buf : ℕ → ℕ) → forward (suc n) i buf ≡ forward n i buf ++ (buf ((i + n) % 128) ∷ [])
unfolding forward
forward-suc zero i buf = ap (λ k. buf (k % 128) ∷ []) (omega arith)
forward-suc (suc n) i buf =
    ap (λ cs. buf (i % 128) ∷ cs)
      (forward-suc n (i + 1) buf
        ∙ ap (λ k. forward n (i + 1) buf ++ (buf (k % 128) ∷ [])) (omega arith))

-- The line between the write index and the edit index fits the buffer, holds no newline, and is not
-- close to the end of the `uint` range.
pub record Ready (s : Console) : Type 0 where
  pub read_le : s.r ≤ s.w
  pub write_le : s.w ≤ s.e
  pub fits : s.e ≤ s.r + 128
  pub small : s.r + 512 < 2 ^ 32
  pub plain : has_newline (forward (s.e - s.w) s.w s.buf) ≡ false

abbrev pub line : Console → List ℕ
line s = forward (s.e - s.w) s.w s.buf

-- All but the edited line is as before.
pub record SameRest (s t : Console) : Type 0 where
  pub r : t.r ≡ s.r
  pub w : t.w ≡ s.w
  pub history : t.history ≡ s.history
  pub wakes : t.wakes ≡ s.wakes

erase_lem :
    (n : ℕ) (s : Console)
    → s.e ≡ s.w + n
    → s.e < 2 ^ 32
    → has_newline (forward n s.w s.buf) ≡ false
    → ((erase n s).e ≡ s.w) × ((erase n s).buf ≡ s.buf) × SameRest s (erase n s)
unfolding erase rub
erase_lem zero s e small plain =
    (omega arith, refl, record { r = refl; w = refl; history = refl; wakes = refl })
erase_lem (suc n) s e small plain =
    let last : dec_uint s.e ≡ s.w + n = omega (arith, e, small) in
    let split =
      sym (has_newline-append (forward n s.w s.buf) (s.buf ((s.w + n) % 128) ∷ []))
      ∙ ap has_newline (sym (forward-suc n s.w s.buf))
      ∙ plain in
    let not_yet : at_start s ≡ false = ground (arith, last, split) in
    let t = erase_lem n (rub s) last (omega arith) (ground (arith, split)) in
    rw (not_yet)
      (t.0, t.1, record { r = t.2.r; w = t.2.w; history = t.2.history; wakes = t.2.wakes })

pub forward-write :
    (i w k c : ℕ) (buf : ℕ → ℕ)
    → k ≡ w + i
    → i < 128
    → forward (suc i) w (write buf (k % 128) c) ≡ forward i w buf ++ (c ∷ [])
unfolding forward
forward-write zero w k c buf e lt = ground arith
forward-write (suc i) w k c buf e lt =
    ap₂ ◌∷◌ (ground arith) (forward-write i (w + 1) k c buf (omega arith) (omega arith))

retype_lem :
    (cs : List ℕ) (i : ℕ) (s : Console)
    → s.e ≡ s.w + i
    → i + length cs ≤ 128
    → s.w + 256 < 2 ^ 32
    → ((retype i cs s).e ≡ s.w + (i + length cs))
      × (forward (i + length cs) s.w (retype i cs s).buf ≡ forward i s.w s.buf ++ cs)
      × SameRest s (retype i cs s)
unfolding retype
retype_lem [] i s e fits small = (
  omega arith,
  ap (λ n. forward n s.w s.buf) (omega arith) ∙ sym (append-nil (forward i s.w s.buf)),
  record { r = refl; w = refl; history = refl; wakes = refl },
)
retype_lem (c ∷ cs) i s e fits small =
    let put_at : add_uint s.w i ≡ s.w + i = omega arith in
    let next : add_uint s.e 1 ≡ s.w + (i + 1) = omega arith in
    let t = record s {
      e = add_uint s.e 1;
      buf = write s.buf (add_uint s.w i % input_buf) c;
      shown = c ∷ s.shown;
    } in
    let (te, tl, tr) = retype_lem cs (i + 1) t next (omega arith) small in
    let one : forward (i + 1) s.w t.buf ≡ forward i s.w s.buf ++ (c ∷ []) =
      ap (λ m. forward m s.w t.buf) (omega arith)
      ∙ forward-write i s.w (add_uint s.w i) c s.buf put_at (omega arith) in
    (
      omega (arith, te),
      ap (λ n. forward n s.w (retype (i + 1) cs t).buf) (omega arith)
          ∙ tl
          ∙ ap (λ x. x ++ cs) one
          ∙ append_assoc (forward i s.w s.buf) (c ∷ []) cs,
      record { r = tr.r; w = tr.w; history = tr.history; wakes = tr.wakes },
    )

pub kill_line_lem :
    (s : Console)
    → Ready s
    → ((kill_line s).e ≡ s.w) × ((kill_line s).buf ≡ s.buf) × SameRest s (kill_line s)
unfolding kill_line
kill_line_lem s ready =
    let n : sub_uint s.e s.w ≡ s.e - s.w = omega (arith, ready) in
    erase_lem (sub_uint s.e s.w) s (omega (arith, ready)) (omega (arith, ready))
      (ap (λ k. has_newline (forward k s.w s.buf)) n ∙ ready.plain)

length-no_digits : (n i : ℕ) (buf : ℕ → ℕ) → length (no_digits n i buf) ≤ n
unfolding no_digits
length-no_digits zero i buf = omega arith
length-no_digits (suc n) i buf = ground (arith, length-no_digits n (i + 1) buf)

length-backward : (n i : ℕ) (buf : ℕ → ℕ) → length (backward n i buf) ≡ n
unfolding backward
length-backward zero i buf = refl
length-backward (suc n) i buf = omega (arith, length-backward n i buf)

replace_line_lem :
    (cs : List ℕ) (s : Console)
    → Ready s
    → length cs ≤ 128
    → (t : Console) × (replace_line cs s ≡ some t)
      × (line t ≡ cs)
      × (t.e ≡ s.w + length cs)
      × SameRest s t
unfolding replace_line forward
replace_line_lem cs s ready short =
    let (ke, kb, kr) = kill_line_lem s ready in
    let (te, tl, tr) =
      retype_lem cs 0 (kill_line s) (omega (arith, ke, kr.w)) (omega arith)
        (omega (arith, kr.w, ready)) in
    (
      retype 0 cs (kill_line s),
      ground arith,
      ap₂ (λ n w. forward n w (retype 0 cs (kill_line s)).buf) (omega (arith, te, tr.w)) tr.w ∙ tl,
      omega (arith, te, kr.w),
      record {
        r = tr.r ∙ kr.r;
        w = tr.w ∙ kr.w;
        history = tr.history ∙ kr.history;
        wakes = tr.wakes ∙ kr.wakes;
      },
    )

backward_lem : (n i : ℕ) (buf : ℕ → ℕ) → backward n i buf ≡ reverse (forward n i buf)
unfolding backward forward
backward_lem zero i buf = refl
backward_lem (suc n) i buf =
    ap (λ cs. buf ((i + n) % 128) ∷ cs) (backward_lem n i buf)
    ∙ sym (
        ap reverse (forward-suc n i buf)
        ∙ reverse-append (forward n i buf) (buf ((i + n) % 128) ∷ []))

-- The bytes of a line that are no digits, in order.
abbrev pub without_digits : List ℕ → List ℕ
without_digits [] = []
without_digits (c ∷ cs) = if is_digit c then without_digits cs else c ∷ without_digits cs

no_digits_lem : (n i : ℕ) (buf : ℕ → ℕ) → no_digits n i buf ≡ without_digits (forward n i buf)
unfolding no_digits forward
no_digits_lem zero i buf = refl
no_digits_lem (suc n) i buf = ground (arith, no_digits_lem n (i + 1) buf)

has_newline-reverse : (xs : List ℕ) → has_newline (reverse xs) ≡ has_newline xs
has_newline-reverse [] = refl
has_newline-reverse (x ∷ xs) =
    ap has_newline (reverse-cons x xs)
    ∙ has_newline-append (reverse xs) (x ∷ [])
    ∙ ground (arith, has_newline-reverse xs)

has_newline-without_digits :
    (xs : List ℕ) → has_newline xs ≡ false → has_newline (without_digits xs) ≡ false
has_newline-without_digits [] h = refl
has_newline-without_digits (x ∷ xs) h = ground (arith, has_newline-without_digits xs)

-- A key that replaces the edited line of `s` by `cs` and leaves the console ready.
pub record Replaces (s : Console) (cs : List ℕ) (result : Option Console) : Type 0 where
  pub after : Console
  pub done : result ≡ some after
  pub new_line : line after ≡ cs
  pub ready : Ready after
  pub rest : SameRest s after

replace_line-Replaces :
    (cs : List ℕ) (s : Console)
    → Ready s
    → length cs ≤ s.e - s.w
    → has_newline cs ≡ false
    → Replaces s cs (replace_line cs s)
replace_line-Replaces cs s ready short plain =
    let (t, d, l, e, rest) = replace_line_lem cs s ready (omega (arith, ready)) in
    record {
      after = t;
      done = d;
      new_line = l;
      ready = record {
        read_le = omega (arith, rest.r, rest.w, ready);
        write_le = omega (arith, rest.w, e);
        fits = omega (arith, rest.r, e, ready);
        small = omega (arith, rest.r, ready);
        plain = ap has_newline l ∙ plain;
      };
      rest = rest;
    }

-- On a ready console ^R reverses the line that is being edited, touches nothing else, and leaves the
-- console ready.
pub ctrl_r_lem : (s : Console) → Ready s → Replaces s (reverse (line s)) (ctrl_r s)
unfolding ctrl_r
ctrl_r_lem s ready =
    let same = backward_lem (s.e - s.w) s.w s.buf in
    subst (λ cs. Replaces s cs (replace_line (backward (s.e - s.w) s.w s.buf) s)) same
      (replace_line-Replaces (backward (s.e - s.w) s.w s.buf) s ready
        (omega (arith, length-backward (s.e - s.w) s.w s.buf))
        (ap has_newline same ∙ has_newline-reverse (line s) ∙ ready.plain))

-- On a ready console ^N deletes the digits from the line that is being edited, touches nothing else, and
-- leaves the console ready.
pub ctrl_n_lem : (s : Console) → Ready s → Replaces s (without_digits (line s)) (ctrl_n s)
unfolding ctrl_n
ctrl_n_lem s ready =
    let same = no_digits_lem (s.e - s.w) s.w s.buf in
    subst (λ cs. Replaces s cs (replace_line (no_digits (s.e - s.w) s.w s.buf) s)) same
      (replace_line-Replaces (no_digits (s.e - s.w) s.w s.buf) s ready
        (length-no_digits (s.e - s.w) s.w s.buf)
        (ap has_newline same ∙ has_newline-without_digits (line s) ready.plain))

-- On a ready console, ^R pressed twice brings the line back.
pub ctrl_r-ctrl_r :
    (s : Console)
    → Ready s
    → (t u : Console) × (ctrl_r s ≡ some t) × (ctrl_r t ≡ some u) × (line u ≡ line s) × SameRest s u
ctrl_r-ctrl_r s ready =
    let a = ctrl_r_lem s ready in
    let b = ctrl_r_lem a.after a.ready in
    (
      a.after,
      b.after,
      a.done,
      b.done,
      b.new_line ∙ ap reverse a.new_line ∙ reverse-reverse (line s),
      record {
        r = b.rest.r ∙ a.rest.r;
        w = b.rest.w ∙ a.rest.w;
        history = b.rest.history ∙ a.rest.history;
        wakes = b.rest.wakes ∙ a.rest.wakes;
      },
    )
