-- ===== src/Console/Defs.antt =====
-- The data of xv6-core/console.c, save_command and search.
use os_lab.Prelude.{
  ℕ, zero, suc, ◌+◌, ◌-◌, ◌%◌, ◌^◌, Bool, true, false, not, ◌&&◌, List, [], ◌∷◌, ◌==◌,
  if◌then◌else◌, write,
}

abbrev pub input_buf : ℕ
input_buf = 128

-- The codes of newline, ^D and BACKSPACE.
abbrev pub newline : ℕ
newline = 10

abbrev pub ctrl_d : ℕ
ctrl_d = 4

abbrev pub backspace : ℕ
backspace = 256

-- `uint` addition, and `x - 1`
abbrev pub add_uint : ℕ → ℕ → ℕ
add_uint a b = (a + b) % 2 ^ 32

abbrev pub dec_uint : ℕ → ℕ
dec_uint a = (a + (2 ^ 32 - 1)) % 2 ^ 32

abbrev pub sub_uint : ℕ → ℕ → ℕ
sub_uint a b = (a + (2 ^ 32 - b)) % 2 ^ 32

-- `input`, with `cmd_history` and `complete_result` as strings without their NUL; what consputc has
-- shown, the latest first; and how often the reader was woken.
pub record Console : Type 0 where
  pub buf : ℕ → ℕ
  pub r : ℕ
  pub w : ℕ
  pub e : ℕ
  pub history : ℕ → List ℕ
  pub result : List ℕ
  pub shown : List ℕ
  pub wakes : ℕ

-- A C string: the bytes before the first NUL.
unfoldable pub c_str : List ℕ → List ℕ
c_str [] = []
c_str (c ∷ cs) = let rest = c_str cs in if c == 0 then [] else c ∷ rest

-- Whether the loops of `save_command` copy the string: it does not start with a blank and is not empty.
abbrev pub moves : List ℕ → Bool
moves [] = false
moves (c ∷ cs) = not (c == 32)

unfoldable pub shift_one : ℕ → (ℕ → List ℕ) → ℕ → List ℕ
shift_one i h = if moves (h i) then write h (i + 1) (h i) else h

-- The loop of `save_command` from entry `n - 1` down.
unfoldable pub shift : ℕ → (ℕ → List ℕ) → ℕ → List ℕ
shift zero h = h
shift (suc n) h = shift n (shift_one n h)

unfoldable pub save_command : List ℕ → (ℕ → List ℕ) → ℕ → List ℕ
save_command line h = write (shift 14 h) 0 line

abbrev pub is_prefix : List ℕ → List ℕ → Bool
is_prefix [] ys = true
is_prefix (x ∷ xs) [] = false
is_prefix (x ∷ xs) (y ∷ ys) = (x == y) && is_prefix xs ys

-- The loop of `search` over `n` entries from `i` on; `text` is complete_result.
unfoldable pub search_from : ℕ → ℕ → (ℕ → List ℕ) → List ℕ → List ℕ
search_from zero i h text = text
search_from (suc n) i h text = search_from n (i + 1) h (if is_prefix text (h i) then h i else text)

unfoldable pub search : (ℕ → List ℕ) → List ℕ → List ℕ
search h text = search_from 15 0 h text
