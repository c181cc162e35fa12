-- ===== src/Strings/Tests.antt =====
-- Concrete runs of the string routines.
use os_lab.Prelude.{◌≡◌, refl, [], ◌∷◌, get_or, some}
use os_lab.Strings.Defs.{Memory, memmove, strlen}
use os_lab.Strings.Moves.{moved, memmove_lem}

-- "sh" at 0 and "shell" at 10
abbrev words : Memory
words i =
    get_or (115 ∷ 104 ∷ 0 ∷ 0 ∷ 0 ∷ 0 ∷ 0 ∷ 0 ∷ 0 ∷ 0 ∷ 115 ∷ 104 ∷ 101 ∷ 108 ∷ 108 ∷ 0 ∷ []) i 0

length_of_shell : strlen 20 10 words ≡ some 5
unfolding strlen
length_of_shell = refl

-- overlapping, upwards
memmove_lem_example : memmove 11 10 5 words 13 ≡ moved 11 10 5 words 13
memmove_lem_example = memmove_lem 11 10 5 words 13
