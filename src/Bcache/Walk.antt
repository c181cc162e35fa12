-- ===== src/Bcache/Walk.antt =====
-- Walks along the links of a list, in one direction, and what writes to the links do to them.
use os_lab.Prelude.{
  ℕ, zero, suc, ◌<◌, ◌≡◌, ◌≢◌, refl, ◌∙◌, sym, Bool, true, false, ◌||◌, Option, none, some, ◌==◌,
  if◌then◌else◌, write, arith, Bool-cases, List, [], ◌∷◌, ◌++◌, length, is_in, distinct, inl, inr,
}
use os_lab.Fs.Words.{write_self, write_ne}
use os_lab.Bcache.Defs.{walk, head}

-- Following the links from `a` one meets `xs` and then `z`.
abbrev pub Walks : (ℕ → ℕ) → ℕ → List ℕ → ℕ → Type 0
Walks f a [] z = f a ≡ z
Walks f a (x ∷ xs) z = (f a ≡ x) × Walks f x xs z

-- The last of `a ∷ xs`, and the first of `xs` followed by `z`.
unfoldable pub last : ℕ → List ℕ → ℕ
last a [] = a
last a (x ∷ xs) = last x xs

unfoldable pub first_or : ℕ → List ℕ → ℕ
first_or z [] = z
first_or z (x ∷ xs) = x

pub first_or-Walks :
    (f : ℕ → ℕ) (a : ℕ) (xs : List ℕ) (z : ℕ) → Walks f a xs z → f a ≡ first_or z xs
unfolding first_or
first_or-Walks f a [] z e = e
first_or-Walks f a (x ∷ xs) z (e, p) = e

pub last-Walks : (f : ℕ → ℕ) (a : ℕ) (xs : List ℕ) (z : ℕ) → Walks f a xs z → f (last a xs) ≡ z
unfolding last
last-Walks f a [] z e = e
last-Walks f a (x ∷ xs) z (e, p) = last-Walks f x xs z p

pub after-Walks :
    (f : ℕ → ℕ) (a : ℕ) (xs : List ℕ) (b : ℕ) (ys : List ℕ) (z : ℕ)
    → Walks f a (xs ++ b ∷ ys) z
    → Walks f b ys z
after-Walks f a [] b ys z (e, p) = p
after-Walks f a (x ∷ xs) b ys z (e, p) = after-Walks f x xs b ys z p

away : (p x : ℕ) (xs : List ℕ) → is_in p (x ∷ xs) ≡ false → (p ≢ x) × (is_in p xs ≡ false)
away p x xs h = (λ s. ground (arith, h, s), ground (arith, h))

write-Walks :
    (f : ℕ → ℕ) (p v a : ℕ) (xs : List ℕ) (z : ℕ)
    → is_in p (a ∷ xs) ≡ false
    → Walks f a xs z
    → Walks (write f p v) a xs z
write-Walks f p v a [] z h e = let (ne, t) = away p a [] h in write_ne f p a v ne ∙ e
write-Walks f p v a (x ∷ xs) z h (e, path) =
    let (ne, t) = away p a (x ∷ xs) h in (write_ne f p a v ne ∙ e, write-Walks f p v x xs z t path)

-- What is not in a list is not its last.
not_last : (p a : ℕ) (xs : List ℕ) → is_in p (a ∷ xs) ≡ false → last a xs ≢ p
unfolding last
not_last p a [] h = let (ne, t) = away p a [] h in λ s. ne (sym s)
not_last p a (x ∷ xs) h = let (ne, t) = away p a (x ∷ xs) h in not_last p x xs t

pub is_in-append : (x : ℕ) (xs ys : List ℕ) → is_in x (xs ++ ys) ≡ (is_in x xs || is_in x ys)
is_in-append x [] ys = refl
is_in-append x (y ∷ xs) ys =
    let h : is_in x (xs ++ ys) ≡ (is_in x xs || is_in x ys) = is_in-append x xs ys in
    ground (arith, h)

distinct_tail :
    (x : ℕ) (xs : List ℕ) → distinct (x ∷ xs) ≡ true → (is_in x xs ≡ false) × (distinct xs ≡ true)
distinct_tail x xs h = (ground (arith, h), ground (arith, h))

-- The node `b` is taken out.
pub remove_lem :
    (f : ℕ → ℕ) (a : ℕ) (xs : List ℕ) (b : ℕ) (ys : List ℕ) (z : ℕ)
    → distinct (a ∷ xs ++ b ∷ ys) ≡ true
    → Walks f a (xs ++ b ∷ ys) z
    → Walks (write f (last a xs) (f b)) a (xs ++ ys) z
unfolding last
remove_lem f a [] b [] z d (e, p) = write_self f a (f b) ∙ p
remove_lem f a [] b (y ∷ ys) z d (e, (q, p)) =
    let (out, rest) = distinct_tail a (b ∷ y ∷ ys) d in
    let (ne, t) = away a b (y ∷ ys) out in
    (write_self f a (f b) ∙ q, write-Walks f a (f b) y ys z t p)
remove_lem f a (x ∷ xs) b ys z d (e, p) =
    let (out, rest) = distinct_tail a (x ∷ xs ++ b ∷ ys) d in
    let apart : is_in a (x ∷ xs) ≡ false =
      let h : is_in a (x ∷ (xs ++ b ∷ ys)) ≡ (is_in a (x ∷ xs) || is_in a (b ∷ ys)) =
        is_in-append a (x ∷ xs) (b ∷ ys) in
      ground (arith, h, out) in
    (write_ne f (last x xs) a (f b) (not_last a x xs apart) ∙ e, remove_lem f x xs b ys z rest p)

-- The node `b` comes in front, or behind.
pub insert_first_lem :
    (f : ℕ → ℕ) (a b : ℕ) (xs : List ℕ) (z : ℕ)
    → is_in a (b ∷ xs) ≡ false
    → is_in b xs ≡ false
    → Walks f a xs z
    → Walks (write (write f b (f a)) a b) a (b ∷ xs) z
insert_first_lem f a b [] z out new e =
    let (ne, t) = away a b [] out in
    (
      write_self (write f b (f a)) a b,
      write_ne (write f b (f a)) a b b ne ∙ write_self f b (f a) ∙ e,
    )
insert_first_lem f a b (x ∷ xs) z out new (e, p) =
    let (ne, t) = away a b (x ∷ xs) out in
    (
      write_self (write f b (f a)) a b,
      (
        write_ne (write f b (f a)) a b b ne ∙ write_self f b (f a) ∙ e,
        write-Walks (write f b (f a)) a b x xs z t (write-Walks f b (f a) x xs z new p),
      ),
    )

pub insert_last_lem :
    (f : ℕ → ℕ) (a b : ℕ) (xs : List ℕ) (z : ℕ)
    → distinct (a ∷ xs) ≡ true
    → is_in b (a ∷ xs) ≡ false
    → Walks f a xs z
    → Walks (write (write f b z) (last a xs) b) a (xs ++ b ∷ []) z
unfolding last
insert_last_lem f a b [] z d new e =
    let (ne, t) = away b a [] new in
    (
      write_self (write f b z) a b,
      write_ne (write f b z) a b b (λ s. ne (sym s)) ∙ write_self f b z,
    )
insert_last_lem f a b (x ∷ xs) z d new (e, p) =
    let (out, rest) = distinct_tail a (x ∷ xs) d in
    let (ne, t) = away b a (x ∷ xs) new in
    (
      write_ne (write f b z) (last x xs) a b (not_last a x xs out) ∙ write_ne f b a z ne ∙ e,
      insert_last_lem f x b xs z rest t p,
    )

-- The first buffer of a list that passes a test.
abbrev pub find : (ℕ → Bool) → List ℕ → Option ℕ
find test [] = none
find test (x ∷ xs) = if test x then some x else find test xs

-- A walk that has one round more than there are nodes ends, at the first that passes the test.
pub walk_lem :
    (n : ℕ) (f : ℕ → ℕ) (test : ℕ → Bool) (a : ℕ) (xs : List ℕ)
    → length xs < n
    → is_in head xs ≡ false
    → Walks f a xs head
    → walk n f test (f a) ≡ some (find test xs)
unfolding walk
walk_lem zero f test a xs lt out p = absurd (omega arith)
walk_lem (suc n) f test a [] lt out e =
    let t : (f a == 30) ≡ true = ground (arith, e) in rw (t) refl
walk_lem (suc n) f test a (x ∷ xs) lt out (e, p) =
    let (ne, away_rest) = away head x xs out in
    let ih : walk n f test (f x) ≡ some (find test xs) =
      walk_lem n f test x xs (omega arith) away_rest p in
    let t : (x == 30) ≡ false = ground (arith, ne) in
    rw (e, t, ih) (elim (Bool-cases (test x)) [ inl h ↦ rw (h) refl | inr h ↦ rw (h) refl ])
