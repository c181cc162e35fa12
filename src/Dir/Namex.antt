-- ===== src/Dir/Namex.antt =====
-- skipelem and namex of xv6-core/fs.c on every path.
use os_lab.Prelude.{
  ℕ, zero, suc, ◌<◌, ◌≤◌, ◌≡◌, refl, ap, ap₂, ◌∙◌, sym, subst, Bool, false, Option, none, some,
  ◌==◌, if◌then◌else◌, arith, Bool-cases, List, [], ◌∷◌, ◌++◌, take, length, replicate, is_in, inl,
  inr,
}
use os_lab.Icache.Defs.{Icache}
use os_lab.Dir.PathNames.{skip_slashes, element, after_element, next_element, skipelem}

length-skip_slashes : (xs : List ℕ) → length (skip_slashes xs) ≤ length xs
unfolding skip_slashes
length-skip_slashes [] = omega arith
length-skip_slashes (x ∷ xs) =
    let rest = length-skip_slashes xs in
    elim (Bool-cases (x == 47)) [
      | inl h ↦ rw (h) (omega (arith, rest))
      | inr h ↦ rw (h) (omega arith)
    ]

length-after_element : (xs : List ℕ) → length (after_element xs) ≤ length xs
unfolding after_element
length-after_element [] = omega arith
length-after_element (x ∷ xs) =
    let rest = length-after_element xs in
    elim (Bool-cases (x == 47)) [
      | inl h ↦ rw (h) (omega arith)
      | inr h ↦ rw (h) (omega (arith, rest))
    ]

-- The head of what is behind the slashes is no slash.
not_slash : (xs : List ℕ) (y : ℕ) (ys : List ℕ) → skip_slashes xs ≡ y ∷ ys → (y == 47) ≡ false
unfolding skip_slashes
not_slash [] y ys e = absurd (cc)
not_slash (x ∷ xs) y ys e = elim (Bool-cases (x == 47)) [
  | inl h ↦ not_slash xs y ys (ground (arith, e, h))
  | inr h ↦ ground (arith, e, h)
]

rest_or : Option (List ℕ × List ℕ) → List ℕ
rest_or none = []
rest_or (some (es, rest)) = rest

shorter :
    (zs name rest : List ℕ)
    → ((y : ℕ) (ys : List ℕ) → zs ≡ y ∷ ys → (y == 47) ≡ false)
    → next_element zs ≡ some (name, rest)
    → length rest < length zs
unfolding next_element after_element skip_slashes rest_or
shorter [] name rest h e = absurd (cc)
shorter (y ∷ ys) name rest h e =
    let t : (y == 47) ≡ false = h y ys refl in
    let same : skip_slashes (if y == 47 then y ∷ ys else after_element ys) ≡ rest = ap rest_or e in
    let less : length rest ≤ length ys =
      subst (λ r. length r ≤ length ys)
        (ap (λ (b : Bool). skip_slashes (if b then y ∷ ys else after_element ys)) (sym t) ∙ same)
        (let one = length-skip_slashes (after_element ys) in
          let two = length-after_element ys in omega (arith, one, two)) in
    omega (arith, less)

-- Every element makes the path shorter.
pub skipelem_shorter :
    (path name rest : List ℕ) → skipelem path ≡ some (name, rest) → length rest < length path
unfolding skipelem
skipelem_shorter path name rest e =
    let less = shorter (skip_slashes path) name rest (λ y ys s. not_slash path y ys s) e in
    let most = length-skip_slashes path in omega (arith, less, most)

skip_none : (x : ℕ) (xs : List ℕ) → (x == 47) ≡ false → skip_slashes (x ∷ xs) ≡ x ∷ xs
unfolding skip_slashes
skip_none x xs t = rw (t) refl

skip_slashes-replicate :
    (n : ℕ) (xs : List ℕ) → skip_slashes (replicate n 47 ++ xs) ≡ skip_slashes xs
unfolding skip_slashes
skip_slashes-replicate zero xs = refl
skip_slashes-replicate (suc n) xs = skip_slashes-replicate n xs

element-append : (es rest : List ℕ) → is_in 47 es ≡ false → element (es ++ 47 ∷ rest) ≡ es
unfolding element
element-append [] rest h = refl
element-append (x ∷ es) rest h =
    let t : (x == 47) ≡ false = ground (arith, h) in
    rw (t) (ap (λ ys. x ∷ ys) (element-append es rest (ground (arith, h))))

after_element-append :
    (es rest : List ℕ) → is_in 47 es ≡ false → after_element (es ++ 47 ∷ rest) ≡ 47 ∷ rest
unfolding after_element
after_element-append [] rest h = refl
after_element-append (x ∷ es) rest h =
    let t : (x == 47) ≡ false = ground (arith, h) in
    rw (t) (after_element-append es rest (ground (arith, h)))

-- `skipelem` of slashes, an element and more slashes gives the element, cut to DIRSIZ bytes, and the rest
-- without its leading slashes.
pub skipelem_lem :
    (n : ℕ) (x : ℕ) (es rest : List ℕ)
    → is_in 47 (x ∷ es) ≡ false
    → skipelem (replicate n 47 ++ ((x ∷ es) ++ 47 ∷ rest))
      ≡ some (take 14 (x ∷ es), skip_slashes rest)
unfolding skipelem next_element skip_slashes
skipelem_lem n x es rest h =
    let t : (x == 47) ≡ false = ground (arith, h) in
    let start : skip_slashes (x ∷ es ++ 47 ∷ rest) ≡ x ∷ es ++ 47 ∷ rest =
      skip_none x (es ++ 47 ∷ rest) t in
    let whole : skip_slashes (replicate n 47 ++ ((x ∷ es) ++ 47 ∷ rest)) ≡ x ∷ es ++ 47 ∷ rest =
      skip_slashes-replicate n ((x ∷ es) ++ 47 ∷ rest) ∙ start in
    ap next_element whole
    ∙ ap₂ (λ a b. some (take 14 a, skip_slashes b)) (element-append (x ∷ es) rest h)
        (after_element-append (x ∷ es) rest h)
