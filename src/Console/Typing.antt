-- ===== src/Console/Typing.antt =====
-- What typing, ^T and tab in consoleintr of xv6-core/console.c do to the line.
use os_lab.Prelude.{
  ℕ, zero, suc, ◌+◌, ◌-◌, ◌%◌, ◌<◌, ◌≤◌, ◌≡◌, ◌≢◌, refl, ap, ap₂, ◌∙◌, sym, some, [], ◌∷◌, ◌++◌,
  arith, ◌⊎◌, write,
}
use os_lab.Console.Defs.{Console, newline, add_uint, c_str, save_command}
use os_lab.Console.Keys.{forward, push, enter, type_key, save_line, commit}
use os_lab.Console.Line.{
  Ready, line, SameRest, has_newline, has_newline-append, forward-write, Replaces,
}

forward-write_out :
    (i w k c : ℕ) (buf : ℕ → ℕ)
    → w + i ≤ k
    → k < w + 128
    → forward i w (write buf (k % 128) c) ≡ forward i w buf
unfolding forward
forward-write_out zero w k c buf lo hi = refl
forward-write_out (suc i) w k c buf lo hi =
    ap₂ ◌∷◌ (ground arith) (forward-write_out i (w + 1) k c buf (omega arith) (omega arith))

module _ (s : Console) (ready : Ready s) (room : s.e < s.r + 128) where
  push_lem :
      (c : ℕ)
      → ((push c s).e ≡ s.e + 1) × (line (push c s) ≡ line s ++ (c ∷ [])) × SameRest s (push c s)
  unfolding push
  push_lem c =
      let next : add_uint s.e 1 ≡ s.e + 1 = omega (arith, ready) in
      (
        next,
        ap (λ n. forward n s.w (write s.buf (s.e % 128) c)) (omega (arith, ready, next))
            ∙ forward-write (s.e - s.w) s.w s.e c s.buf (omega (arith, ready))
                (omega (arith, ready)),
        record { r = refl; w = refl; history = refl; wakes = refl },
      )

  -- On a ready console with room for two more bytes, an ordinary character is added at the end of the
  -- line, touches nothing else, and leaves the console ready.
  pub type_key_lem :
      (c : ℕ)
      → c ≢ 0
      → c ≢ 4
      → c ≢ 10
      → c ≢ 13
      → s.e + 1 < s.r + 128
      → Replaces s (line s ++ (c ∷ [])) (type_key c s)
  unfolding type_key enter
  type_key_lem c c0 c4 c10 c13 two =
      let (e, l, rest) = push_lem c in
      record {
        after = push c s;
        done = ground (arith, e, ready);
        new_line = l;
        ready = record {
          read_le = omega (arith, rest.r, rest.w, ready);
          write_le = omega (arith, rest.w, e, ready);
          fits = omega (arith, rest.r, e, ready);
          small = omega (arith, rest.r, ready);
          plain =
              ap has_newline l ∙ has_newline-append (line s) (c ∷ []) ∙ ground (arith, ready.plain);
        };
        rest = rest;
      }

  abbrev with_history : Console
  with_history = record (push newline s) { history = save_command (c_str (line s)) s.history }

  forward-push : forward (s.e - s.w) s.w (push newline s).buf ≡ line s
  unfolding push
  forward-push =
      forward-write_out (s.e - s.w) s.w s.e newline s.buf (omega (arith, ready))
        (omega (arith, ready))

  save_line-push : save_line (push newline s) ≡ some with_history
  unfolding save_line
  save_line-push =
      let (e, l, rest) = push_lem newline in
      let n : (push newline s).e - 1 - (push newline s).w ≡ s.e - s.w = omega (arith, e, rest.w) in
      let same : forward (s.e - s.w) s.w (push newline s).buf ≡ line s = forward-push in
      rw (n) (ground (arith, same, rest.w, rest.history, ready))

  -- On a ready console with room, newline or return commits the line and the newline to the reader, wakes
  -- it, and saves the line in the history.
  pub newline_lem :
      (c : ℕ)
      → (c ≡ 10) ⊎ (c ≡ 13)
      → (t : Console) × (type_key c s ≡ some t)
        × (t.w ≡ s.e + 1)
        × (t.e ≡ t.w)
        × (forward (t.w - s.w) s.w t.buf ≡ line s ++ (newline ∷ []))
        × (t.wakes ≡ s.wakes + 1)
        × (t.history ≡ save_command (c_str (line s)) s.history)
  unfolding commit type_key enter
  newline_lem c is_end =
      let (e, l, rest) = push_lem newline in
      (
        commit with_history,
        ground (arith, save_line-push, is_end, ready),
        e,
        refl,
        ap (λ w. forward ((push newline s).e - w) w (push newline s).buf) (sym rest.w) ∙ l,
        ap (λ k. k + 1) rest.wakes,
        refl,
      )
