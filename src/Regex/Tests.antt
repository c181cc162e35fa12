-- ===== src/Regex/Tests.antt =====
-- Concrete patterns.
use os_lab.Prelude.{ℕ, ◌≡◌, refl, true, false, List, [], ◌∷◌}
use os_lab.Regex.Defs.{match, matchhere, match_anywhere, matchstar}

-- "^a.*b$" and "accb"
abbrev pattern_rest : List ℕ
pattern_rest = 97 ∷ 46 ∷ 42 ∷ 98 ∷ 36 ∷ []

abbrev text : List ℕ
text = 97 ∷ 99 ∷ 99 ∷ 98 ∷ []

matches : match (94 ∷ pattern_rest) text ≡ true
unfolding match matchhere matchstar
matches = refl

no_match : match (98 ∷ 99 ∷ []) text ≡ false
unfolding match match_anywhere matchhere
no_match = refl
