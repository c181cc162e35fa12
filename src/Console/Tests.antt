-- ===== src/Console/Tests.antt =====
-- Concrete runs of the console.
use os_lab.Prelude.{
  ℕ, ◌+◌, ◌-◌, ◌<◌, ◌≡◌, ◌⊎◌, inl, refl, true, false, some, List, [], ◌∷◌, ◌++◌, arith, get_or,
  replicate, ◌≤◌,
}
use os_lab.Console.Defs.{Console, newline, c_str, save_command, search, is_prefix}
use os_lab.Console.Keys.{forward, type_key, consoleread, consoleintr, read_loop}
use os_lab.Console.History.{search_lem}
use os_lab.Console.Line.{Ready, line}
use os_lab.Console.Typing.{newline_lem}
use os_lab.Console.Reading.{view, queue, read_queue, consoleread_lem}
use os_lab.Console.Completion.{ctrl_t_blocks}

-- "l1" being typed after "ls\n" was committed, with "ls" and "cat" in the history.
abbrev bytes : List ℕ
bytes = 108 ∷ 115 ∷ 10 ∷ 108 ∷ 49 ∷ []

abbrev commands : List (List ℕ)
commands = (108 ∷ 115 ∷ []) ∷ (99 ∷ 97 ∷ 116 ∷ []) ∷ []

abbrev typing : Console
typing = record {
  buf = λ i. get_or bytes i 0;
  r = 0;
  w = 3;
  e = 5;
  history = λ i. get_or commands i [];
  result = [];
  shown = [];
  wakes = 1;
}

-- The same with "l" typed.
abbrev typing_l : Console
typing_l = record typing { e = 4 }

typing-Ready : Ready typing
unfolding forward
typing-Ready = record {
  read_le = omega arith;
  write_le = omega arith;
  fits = omega arith;
  small = omega arith;
  plain = refl;
}

newline_lem_example :
    (t : Console) × (type_key 10 typing ≡ some t)
    × (t.w ≡ typing.e + 1)
    × (t.e ≡ t.w)
    × (forward (t.w - typing.w) typing.w t.buf ≡ line typing ++ (newline ∷ []))
    × (t.wakes ≡ typing.wakes + 1)
    × (t.history ≡ save_command (c_str (line typing)) typing.history)
newline_lem_example = newline_lem typing typing-Ready (omega arith) 10 (inl refl)

reads_a_line : (consoleread false 10 typing).0 ≡ 108 ∷ 115 ∷ 10 ∷ []
unfolding consoleread read_loop
reads_a_line = refl

consoleread_lem_example :
    view (consoleread false 10 typing) ≡ read_queue false true 10 (queue typing)
consoleread_lem_example = consoleread_lem false 10 typing (omega arith) (omega arith)

search_lem_example :
    (is_prefix (108 ∷ []) (search typing.history (108 ∷ [])) ≡ true)
    × ((search typing.history (108 ∷ []) ≡ 108 ∷ [])
        ⊎ ((j : ℕ) × (0 ≤ j)
            × (j < 0 + 15)
            × (search typing.history (108 ∷ []) ≡ typing.history j)))
    × ((k : ℕ)
        → k < 15
        → is_prefix (108 ∷ []) (typing.history k) ≡ true
        → (j : ℕ) × (j < 0 + 15) × (search typing.history (108 ∷ []) ≡ typing.history j))
search_lem_example = search_lem typing.history (108 ∷ [])

ctrl_t_blocks_example :
    (t : Console) × (consoleintr (replicate 128 20) typing ≡ some t)
    × ((c : ℕ) → type_key c t ≡ some t)
ctrl_t_blocks_example = ctrl_t_blocks 128 typing typing-Ready (omega arith) (omega arith)
