-- ===== src/Console/Keys.antt =====
-- consoleintr, consoleread and consolewrite of xv6-core/console.c.
use os_lab.Prelude.{
  ℕ, zero, suc, ◌+◌, ◌-◌, ◌%◌, Bool, true, false, not, ◌&&◌, ◌||◌, Option, none, some, List, [],
  ◌∷◌, ◌==◌, ltb, leb, if◌then◌else◌, length, write,
}
use os_lab.Console.Defs.{
  Console, input_buf, newline, ctrl_d, backspace, add_uint, dec_uint, sub_uint, c_str, save_command,
  search,
}

abbrev pub putc : ℕ → Console → Console
putc c s = record s { shown = c ∷ s.shown }

-- The loops that read the edited line: `n` bytes from index `i` on, those that pass the test, and
-- backwards.
unfoldable pub forward : ℕ → ℕ → (ℕ → ℕ) → List ℕ
forward zero i buf = []
forward (suc n) i buf = buf (i % input_buf) ∷ forward n (i + 1) buf

abbrev pub is_digit : ℕ → Bool
is_digit c = leb 48 c && leb c 57

unfoldable pub no_digits : ℕ → ℕ → (ℕ → ℕ) → List ℕ
no_digits zero i buf = []
no_digits (suc n) i buf =
    let rest = no_digits n (i + 1) buf in
    let c = buf (i % input_buf) in if is_digit c then rest else c ∷ rest

unfoldable pub backward : ℕ → ℕ → (ℕ → ℕ) → List ℕ
backward zero i buf = []
backward (suc n) i buf = buf ((i + n) % input_buf) ∷ backward n i buf

unfoldable pub rub : Console → Console
rub s = putc backspace (record s { e = dec_uint s.e })

-- Where the loop that erases the line stops.
abbrev pub at_start : Console → Bool
at_start s = (s.e == s.w) || (s.buf (dec_uint s.e % input_buf) == newline)

unfoldable pub erase : ℕ → Console → Console
erase zero s = s
erase (suc n) s = let rest = erase n (rub s) in if at_start s then s else rest

unfoldable pub kill_line : Console → Console
kill_line s = erase (sub_uint s.e s.w) s

-- The loop that writes the edited line, from its byte `i` on.
unfoldable pub retype : ℕ → List ℕ → Console → Console
retype i [] s = s
retype i (c ∷ cs) s =
    retype (i + 1) cs
      (putc c (record s { e = add_uint s.e 1; buf = write s.buf (add_uint s.w i % input_buf) c }))

-- `newBuf` has 128 bytes: none where the loop reads outside of it.
unfoldable pub replace_line : List ℕ → Console → Option Console
replace_line cs s = if leb (length cs) input_buf then some (retype 0 cs (kill_line s)) else none

unfoldable pub ctrl_n : Console → Option Console
ctrl_n s = replace_line (no_digits (s.e - s.w) s.w s.buf) s

unfoldable pub ctrl_r : Console → Option Console
ctrl_r s = replace_line (backward (s.e - s.w) s.w s.buf) s

unfoldable pub ctrl_t : Console → Console
ctrl_t s = putc (add_uint 97 s.w) (record s { e = add_uint s.e 1 })

unfoldable pub ctrl_e : Console → Console
ctrl_e s = putc (add_uint 97 (add_uint s.e 1)) (record s { e = add_uint s.e 1 })

unfoldable pub rub_out : Console → Console
rub_out s = if s.e == s.w then s else rub s

-- The loop that shows the completed text.
unfoldable pub show_text : List ℕ → Console → Console
show_text [] s = s
show_text (c ∷ cs) s = show_text cs (putc c (record s { e = add_uint s.e 1 }))

-- Tab; none where the typed text and its NUL do not fit into `complete_result`.
unfoldable pub complete : Console → Option Console
complete s =
    let s1 = kill_line s in
    let k = sub_uint s.e s1.e in
    let text = search s.history (c_str (forward k s.w s.buf)) in
    if ltb k input_buf then some (show_text text (record s1 { result = text })) else none

unfoldable pub push : ℕ → Console → Console
push c s = putc c (record s { buf = write s.buf (s.e % input_buf) c; e = add_uint s.e 1 })

-- `save_command` of the bytes before the newline; none where they do not fit into `buffer`.
unfoldable pub save_line : Console → Option Console
save_line s =
    let n = s.e - 1 - s.w in
    if ltb n input_buf
    then some (record s { history = save_command (c_str (forward n s.w s.buf)) s.history })
    else none

unfoldable pub commit : Console → Console
commit s = record s { w = s.e; wakes = s.wakes + 1 }

abbrev pub is_full : Console → Bool
is_full s = not (ltb (sub_uint s.e s.r) input_buf)

unfoldable pub enter : ℕ → Console → Option Console
enter c s =
    let t = push c s in
    if c == newline
    then elim (save_line t) [ none ↦ none | some u ↦ some (commit u) ]
    else (if (c == ctrl_d) || (t.e == add_uint t.r input_buf) then some (commit t) else some t)

-- The default case.
unfoldable pub type_key : ℕ → Console → Option Console
type_key c s = if (c == 0) || is_full s then some s else enter (if c == 13 then newline else c) s

-- The body of the loop of `consoleintr` for the key `c`, a byte; ^P only lists the processes later.
unfoldable pub key : ℕ → Console → Option Console
key c s =
    if c == 14
    then ctrl_n s
    else if c == 18
    then ctrl_r s
    else if c == 20
    then some (ctrl_t s)
    else if c == 5
    then some (ctrl_e s)
    else if c == 16
    then some s
    else if c == 21
    then some (kill_line s)
    else if (c == 8) || (c == 127)
    then some (rub_out s)
    else if c == 9
    then complete s
    else type_key c s

unfoldable pub consoleintr : List ℕ → Console → Option Console
consoleintr [] s = some s
consoleintr (c ∷ cs) s = elim (key c s) [ none ↦ none | some t ↦ consoleintr cs t ]

-- How `consoleread` leaves its loop: it returns, returns -1, or sleeps with `n` bytes still to read.
pub data ReadEnd : Type 0 where
  returns : ReadEnd
  gives_up : ReadEnd
  sleeps : ℕ → ReadEnd

-- The loop of `consoleread` with `n` bytes to go; `first` says that none was read. The bytes read, how
-- it ends, and the console afterwards.
unfoldable pub read_loop : Bool → Bool → ℕ → Console → List ℕ × ReadEnd × Console
read_loop killed first zero s = ([], returns, s)
read_loop killed first (suc n) s =
    let c = s.buf (s.r % input_buf) in
    let t = record s { r = add_uint s.r 1 } in
    let rest = read_loop killed false n t in
    if s.r == s.w
    then (if killed then ([], gives_up, s) else ([], sleeps (suc n), s))
    else (if c == ctrl_d
        then ([], returns, if first then t else s)
        else (if c == newline then (c ∷ [], returns, t) else (c ∷ rest.0, rest.1, rest.2)))

unfoldable pub consoleread : Bool → ℕ → Console → List ℕ × ReadEnd × Console
consoleread killed n s = read_loop killed true n s

unfoldable pub consolewrite : List ℕ → Console → Console
consolewrite [] s = s
consolewrite (c ∷ cs) s = consolewrite cs (putc (c % 256) s)
