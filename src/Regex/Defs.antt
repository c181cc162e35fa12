-- ===== src/Regex/Defs.antt =====
-- match, matchhere and matchstar of xv6-core/grep.c, on strings without their NUL.
use os_lab.Prelude.{ℕ, Bool, true, false, ◌||◌, List, [], ◌∷◌, ◌==◌, if◌then◌else◌}

-- The codes of '*', '$', '.' and '^'.
abbrev pub star : ℕ
star = 42

abbrev pub dollar : ℕ
dollar = 36

abbrev pub dot : ℕ
dot = 46

abbrev pub caret : ℕ
caret = 94

abbrev pub fits : ℕ → ℕ → Bool
fits c t = (t == c) || (c == dot)

-- `matchstar`, where `here` is matchhere of the rest of the pattern.
unfoldable pub matchstar : ℕ → (List ℕ → Bool) → List ℕ → Bool
matchstar c here [] = here []
matchstar c here (t ∷ ts) =
    let rest = matchstar c here ts in
    if here (t ∷ ts) then true else (if fits c t then rest else false)

abbrev pub is_nil : List ℕ → Bool
is_nil [] = true
is_nil (t ∷ ts) = false

-- `*text!='\0' && (re[0]=='.' || re[0]==*text)`, and then the rest
abbrev pub match_one : ℕ → (List ℕ → Bool) → List ℕ → Bool
match_one r here [] = false
match_one r here (t ∷ ts) = if fits r t then here ts else false

unfoldable pub matchhere : List ℕ → List ℕ → Bool
matchhere [] text = true
matchhere (r ∷ []) text = if r == dollar then is_nil text else match_one r (matchhere []) text
matchhere (r ∷ q ∷ re) text =
    let starred = matchstar r (matchhere re) text in
    let plain = match_one r (matchhere (q ∷ re)) text in if q == star then starred else plain

-- The loop of `match`.
unfoldable pub match_anywhere : List ℕ → List ℕ → Bool
match_anywhere re [] = matchhere re []
match_anywhere re (t ∷ ts) =
    let rest = match_anywhere re ts in if matchhere re (t ∷ ts) then true else rest

unfoldable pub match : List ℕ → List ℕ → Bool
match [] text = match_anywhere [] text
match (r ∷ re) text = if r == caret then matchhere re text else match_anywhere (r ∷ re) text
