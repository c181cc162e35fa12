-- ===== src/Regex/Matching.antt =====
-- The matcher of xv6-core/grep.c finds just the strings that its patterns describe.
use os_lab.Prelude.{ℕ, ◌≡◌, Bool, true, not, List, [], ◌∷◌, ◌++◌, ◌==◌}
use os_lab.Regex.Defs.{star, dollar, fits}

-- Whether the first element of the pattern stands for a single byte: it is not starred, and is not the
-- final '$'.
abbrev pub is_single : ℕ → List ℕ → Bool
is_single r [] = not (r == dollar)
is_single r (q ∷ re) = not (q == star)

-- The pattern describes a beginning of the text.
pub data Matches : List ℕ → List ℕ → Type 0 where
  all : {re text : List ℕ} → re ≡ [] → Matches re text
  at_end : {re text : List ℕ} → re ≡ dollar ∷ [] → text ≡ [] → Matches re text
  one :
      {re text : List ℕ} (r t : ℕ) (rest ts : List ℕ)
      → re ≡ r ∷ rest
      → text ≡ t ∷ ts
      → is_single r rest ≡ true
      → fits r t ≡ true
      → Matches rest ts
      → Matches re text
  stop :
      {re text : List ℕ} (c : ℕ) (rest : List ℕ)
      → re ≡ c ∷ star ∷ rest
      → Matches rest text
      → Matches re text
  more :
      {re text : List ℕ} (c t : ℕ) (rest ts : List ℕ)
      → re ≡ c ∷ star ∷ rest
      → text ≡ t ∷ ts
      → fits c t ≡ true
      → Matches re ts
      → Matches re text

-- Some place of the text begins with what the pattern describes.
abbrev pub Somewhere : List ℕ → List ℕ → Type 0
Somewhere re text = (pre post : List ℕ) × (text ≡ pre ++ post) × Matches re post
