-- ===== src/Console/History.antt =====
-- What save_command and search of xv6-core/console.c do with the command history.
use os_lab.Prelude.{
  ℕ, zero, suc, ◌+◌, ◌<◌, ◌≤◌, ◌≡◌, ◌≢◌, ◌⊎◌, inl, inr, refl, ap, ◌∙◌, sym, true, false, ◌&&◌, List,
  [], ◌∷◌, arith, if◌then◌else◌, Bool-cases, ltb, subst,
}
use os_lab.Console.Defs.{moves, shift_one, shift, save_command, is_prefix, search_from, search}

shift-zero : (n : ℕ) (h : ℕ → List ℕ) → shift n h 0 ≡ h 0
unfolding shift shift_one
shift-zero zero h = refl
shift-zero (suc n) h = shift-zero n (shift_one n h) ∙ ground arith

shift-suc :
    (n : ℕ) (h : ℕ → List ℕ) (i : ℕ)
    → shift n h (i + 1) ≡ (if ltb i n && moves (h i) then h i else h (i + 1))
unfolding shift shift_one
shift-suc zero h i = ground arith
shift-suc (suc n) h i = ground (arith, shift-suc n (shift_one n h) i)

-- save_command puts the line first and moves every entry down by one, except that an entry that is empty
-- or starts with a blank is not copied over its successor.
pub save_command_lem :
    (line : List ℕ) (h : ℕ → List ℕ)
    → (save_command line h 0 ≡ line)
      × ((i : ℕ) → i < 14 → save_command line h (i + 1) ≡ (if moves (h i) then h i else h (i + 1)))
unfolding save_command
save_command_lem line h = (refl, λ i lt. ground (arith, shift-suc 14 h i))

prefix_refl : (xs : List ℕ) → is_prefix xs xs ≡ true
prefix_refl [] = refl
prefix_refl (x ∷ xs) = ground (arith, prefix_refl xs)

prefix_trans :
    (xs ys zs : List ℕ) → is_prefix xs ys ≡ true → is_prefix ys zs ≡ true → is_prefix xs zs ≡ true
prefix_trans [] ys zs h k = refl
prefix_trans (x ∷ xs) [] zs h k = absurd (cc)
prefix_trans (x ∷ xs) (y ∷ ys) [] h k = absurd (cc)
prefix_trans (x ∷ xs) (y ∷ ys) (z ∷ zs) h k = ground (arith, prefix_trans xs ys zs)

module _ (h : ℕ → List ℕ) where
  abbrev extend : ℕ → List ℕ → List ℕ
  extend i text = if is_prefix text (h i) then h i else text

  prefix-extend : (i : ℕ) (text : List ℕ) → is_prefix text (extend i text) ≡ true
  prefix-extend i text = ground (arith, prefix_refl text)

  search_from-prefix : (n i : ℕ) (text : List ℕ) → is_prefix text (search_from n i h text) ≡ true
  unfolding search_from
  search_from-prefix zero i text = prefix_refl text
  search_from-prefix (suc n) i text =
      prefix_trans text (extend i text) (search_from n (i + 1) h (extend i text))
        (prefix-extend i text) (search_from-prefix n (i + 1) (extend i text))

  -- Where a text comes from that the loop may leave.
  abbrev Source : ℕ → ℕ → List ℕ → List ℕ → Type 0
  Source n i text found = (found ≡ text) ⊎ ((j : ℕ) × (i ≤ j) × (j < i + n) × (found ≡ h j))

  search_from-Source : (n i : ℕ) (text : List ℕ) → Source n i text (search_from n i h text)
  unfolding search_from
  search_from-Source zero i text = inl refl
  search_from-Source (suc n) i text = elim (search_from-Source n (i + 1) (extend i text)) [
    | inr (j, lo, hi, e) ↦ inr (j, omega arith, omega arith, e)
    | inl e ↦ elim (Bool-cases (is_prefix text (h i))) [
      | inl fits ↦ inr (i, omega arith, omega arith, e ∙ ground arith)
      | inr other ↦ inl (e ∙ ground arith)
    ]
  ]

  -- If an entry extends the text, the text left is an entry.
  search_from-found :
      (n i k : ℕ) (text : List ℕ)
      → i ≤ k
      → k < i + n
      → is_prefix text (h k) ≡ true
      → (j : ℕ) × (j < i + n) × (search_from n i h text ≡ h j)
  unfolding search_from
  search_from-found zero i k text lo hi fits = absurd (omega arith)
  search_from-found (suc n) i k text lo hi fits = elim (Bool-cases (is_prefix text (h i))) [
    | inl here ↦
        let same : extend i text ≡ h i = ground arith in
        elim (search_from-Source n (i + 1) (extend i text)) [
          | inr (j, jlo, jhi, e) ↦ (j, omega arith, e)
          | inl e ↦ (i, omega arith, e ∙ same)
        ]
    | inr other ↦
        let ne : i ≢ k = (λ e. not_both (subst (λ j. is_prefix text (h j) ≡ false) e other)) in
        let (j, jhi, e) = search_from-found n (i + 1) k text (omega arith) (omega arith) fits in
        let same : text ≡ extend i text = ground arith in
        (j, omega arith, ap (search_from n (i + 1) h) (sym same) ∙ e)
  ]
    where
      not_both : is_prefix text (h k) ≡ false → ⊥
      not_both e = ground arith

-- The text that search leaves begins with the text that was typed; it is that text or an entry of the
-- history; and it is an entry if one of the entries begins with the text.
pub search_lem :
    (h : ℕ → List ℕ) (text : List ℕ)
    → (is_prefix text (search h text) ≡ true)
      × ((search h text ≡ text) ⊎ ((j : ℕ) × (0 ≤ j) × (j < 0 + 15) × (search h text ≡ h j)))
      × ((k : ℕ)
          → k < 15
          → is_prefix text (h k) ≡ true
          → (j : ℕ) × (j < 0 + 15) × (search h text ≡ h j))
unfolding search
search_lem h text = (
  search_from-prefix h 15 0 text,
  search_from-Source h 15 0 text,
  λ k lt fits. search_from-found h 15 0 k text (omega arith) (omega arith) fits,
)
