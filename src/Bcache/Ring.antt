-- ===== src/Bcache/Ring.antt =====
-- The links of xv6-core/bio.c as one list, in both directions.
use os_lab.Prelude.{
  ℕ, ◌≡◌, ◌≢◌, refl, ap, ap₂, ◌∙◌, sym, subst, true, false, not, ◌&&◌, ◌||◌, ◌==◌, write, arith,
  List, [], ◌∷◌, ◌++◌, append_assoc, is_in, distinct, reverse, reverse-cons, reverse-append,
  reverse-reverse,
}
use os_lab.Fs.Words.{write_ne}
use os_lab.Bcache.Defs.{head, Links, insert_front, unlink}
use os_lab.Bcache.Walk.{
  Walks, last, first_or, first_or-Walks, after-Walks, is_in-append, remove_lem, insert_first_lem,
  insert_last_lem,
}

-- The list `bs` is what one meets from the head along `next`, and backwards along `prev`.
pub record Ring (bs : List ℕ) (l : Links) : Type 0 where
  pub ahead : Walks l.next head bs head
  pub behind : Walks l.prev head (reverse bs) head
  pub no_twice : distinct (head ∷ bs) ≡ true

last-append : (a : ℕ) (xs : List ℕ) (x : ℕ) → last a (xs ++ x ∷ []) ≡ x
unfolding last
last-append a [] x = refl
last-append a (y ∷ xs) x = last-append y xs x

last-reverse : (a : ℕ) (xs : List ℕ) → last a (reverse xs) ≡ first_or a xs
unfolding first_or last
last-reverse a [] = refl
last-reverse a (x ∷ xs) = ap (last a) (reverse-cons x xs) ∙ last-append a (reverse xs) x

first_or-reverse : (a : ℕ) (xs : List ℕ) → first_or a (reverse xs) ≡ last a xs
first_or-reverse a xs = sym (last-reverse a (reverse xs)) ∙ ap (last a) (reverse-reverse xs)

pub is_in-reverse : (x : ℕ) (xs : List ℕ) → is_in x (reverse xs) ≡ is_in x xs
is_in-reverse x [] = refl
is_in-reverse x (y ∷ xs) =
    let tail : is_in x (reverse xs) ≡ is_in x xs = is_in-reverse x xs in
    let snoc : is_in x (reverse xs ++ y ∷ []) ≡ (is_in x (reverse xs) || is_in x (y ∷ [])) =
      is_in-append x (reverse xs) (y ∷ []) in
    ap (is_in x) (reverse-cons y xs) ∙ snoc ∙ ground (arith, tail)

distinct-snoc : (xs : List ℕ) (x : ℕ) → distinct (xs ++ x ∷ []) ≡ (not (is_in x xs) && distinct xs)
distinct-snoc [] x = refl
distinct-snoc (y ∷ xs) x =
    let tail : distinct (xs ++ x ∷ []) ≡ (not (is_in x xs) && distinct xs) = distinct-snoc xs x in
    let more : is_in y (xs ++ x ∷ []) ≡ (is_in y xs || is_in y (x ∷ [])) =
      is_in-append y xs (x ∷ []) in
    let flip : (x == y) ≡ (y == x) = ground arith in rw (tail, more) (ground (arith, flip))

distinct-reverse : (xs : List ℕ) → distinct (reverse xs) ≡ distinct xs
distinct-reverse [] = refl
distinct-reverse (x ∷ xs) =
    ap distinct (reverse-cons x xs)
    ∙ distinct-snoc (reverse xs) x
    ∙ ap₂ (λ p q. not p && q) (is_in-reverse x xs) (distinct-reverse xs)

distinct_head-reverse : (a : ℕ) (xs : List ℕ) → distinct (a ∷ reverse xs) ≡ distinct (a ∷ xs)
distinct_head-reverse a xs = ap₂ (λ p q. not p && q) (is_in-reverse a xs) (distinct-reverse xs)

reverse_middle :
    (xs : List ℕ) (b : ℕ) (ys : List ℕ) → reverse (xs ++ b ∷ ys) ≡ reverse ys ++ b ∷ reverse xs
reverse_middle xs b ys =
    reverse-append xs (b ∷ ys)
    ∙ ap (λ r. r ++ reverse xs) (reverse-cons b ys)
    ∙ append_assoc (reverse ys) (b ∷ []) (reverse xs)

pub Ring-insert_front :
    (bs : List ℕ) (b : ℕ) (l : Links)
    → Ring bs l
    → is_in b (head ∷ bs) ≡ false
    → Ring (b ∷ bs) (insert_front b l)
unfolding insert_front
Ring-insert_front bs b l r new =
    let d : distinct (head ∷ bs) ≡ true = r.no_twice in
    let at : last head (reverse bs) ≡ l.next head =
      last-reverse head bs ∙ sym (first_or-Walks l.next head bs head r.ahead) in
    let back_new : is_in b (head ∷ reverse bs) ≡ false =
      ap (λ p. (head == b) || p) (is_in-reverse b bs) ∙ new in
    record {
      ahead =
          insert_first_lem l.next head b bs head (ground (arith, d, new)) (ground (arith, new))
            r.ahead;
      behind =
          subst (λ xs. Walks (write (write l.prev b head) (l.next head) b) head xs head)
            (sym (reverse-cons b bs))
            (subst (λ p. Walks (write (write l.prev b head) p b) head (reverse bs ++ b ∷ []) head)
              at
              (insert_last_lem l.prev head b (reverse bs) head (distinct_head-reverse head bs ∙ d)
                back_new r.behind));
      no_twice = ground (arith, d, new);
    }

distinct_middle :
    (a : ℕ) (xs : List ℕ) (b : ℕ) (ys : List ℕ)
    → distinct (a ∷ xs ++ b ∷ ys) ≡ true
    → distinct (a ∷ xs ++ ys) ≡ true
distinct_middle a [] b ys d = ground (arith, d)
distinct_middle a (x ∷ xs) b ys d =
    let rest : distinct (x ∷ xs ++ ys) ≡ true = distinct_middle x xs b ys (ground (arith, d)) in
    let one : is_in a (xs ++ b ∷ ys) ≡ (is_in a xs || is_in a (b ∷ ys)) =
      is_in-append a xs (b ∷ ys) in
    let two : is_in a (xs ++ ys) ≡ (is_in a xs || is_in a ys) = is_in-append a xs ys in
    ground (arith, d, rest, one, two)

-- The node after `b` is another.
next_apart :
    (a : ℕ) (xs : List ℕ) (b : ℕ) (ys : List ℕ)
    → distinct (a ∷ xs ++ b ∷ ys) ≡ true
    → first_or a ys ≢ b
unfolding first_or
next_apart a xs b [] d s =
    let one : is_in a (xs ++ b ∷ []) ≡ (is_in a xs || is_in a (b ∷ [])) =
      is_in-append a xs (b ∷ []) in
    ground (arith, d, one, s)
next_apart a [] b (y ∷ ys) d s = ground (arith, d, s)
next_apart a (x ∷ xs) b (y ∷ ys) d s = next_apart x xs b (y ∷ ys) (ground (arith, d)) s

pub Ring-unlink :
    (xs : List ℕ) (b : ℕ) (ys : List ℕ) (l : Links)
    → Ring (xs ++ b ∷ ys) l
    → Ring (xs ++ ys) (unlink b l)
unfolding unlink
Ring-unlink xs b ys l r =
    let d : distinct (head ∷ xs ++ b ∷ ys) ≡ true = r.no_twice in
    let back : Walks l.prev head (reverse ys ++ b ∷ reverse xs) head =
      subst (λ zs. Walks l.prev head zs head) (reverse_middle xs b ys) r.behind in
    let before : l.prev b ≡ last head xs =
      first_or-Walks l.prev b (reverse xs) head
        (after-Walks l.prev head (reverse ys) b (reverse xs) head back)
      ∙ first_or-reverse head xs in
    let after : l.next b ≡ first_or head ys =
      first_or-Walks l.next b ys head (after-Walks l.next head xs b ys head r.ahead) in
    let apart : l.next b ≢ b = λ s. next_apart head xs b ys d (sym after ∙ s) in
    let still : write l.prev (l.next b) (l.prev b) b ≡ last head xs =
      write_ne l.prev (l.next b) b (l.prev b) apart ∙ before in
    record {
      ahead =
          subst (λ p. Walks (write l.next p (l.next b)) head (xs ++ ys) head) (sym still)
            (remove_lem l.next head xs b ys head d r.ahead);
      behind =
          subst (λ zs. Walks (write l.prev (l.next b) (l.prev b)) head zs head)
            (sym (reverse-append xs ys))
            (subst (λ p. Walks (write l.prev p (l.prev b)) head (reverse ys ++ reverse xs) head)
              (last-reverse head ys ∙ sym after)
              (remove_lem l.prev head (reverse ys) b (reverse xs) head
                (subst (λ zs. distinct (head ∷ zs) ≡ true) (reverse_middle xs b ys)
                  (distinct_head-reverse head (xs ++ b ∷ ys) ∙ d))
                back));
      no_twice = distinct_middle head xs b ys d;
    }

-- The node that was taken out is none of the rest.
middle_new :
    (a : ℕ) (xs : List ℕ) (b : ℕ) (ys : List ℕ)
    → distinct (a ∷ xs ++ b ∷ ys) ≡ true
    → is_in b (a ∷ xs ++ ys) ≡ false
middle_new a [] b ys d = ground (arith, d)
middle_new a (x ∷ xs) b ys d =
    let rest : is_in b (x ∷ xs ++ ys) ≡ false = middle_new x xs b ys (ground (arith, d)) in
    let one : is_in a (xs ++ b ∷ ys) ≡ (is_in a xs || is_in a (b ∷ ys)) =
      is_in-append a xs (b ∷ ys) in
    ground (arith, d, rest, one)

-- `brelse` moves a buffer to the front of the list.
pub Ring-to_front :
    (xs : List ℕ) (b : ℕ) (ys : List ℕ) (l : Links)
    → Ring (xs ++ b ∷ ys) l
    → Ring (b ∷ xs ++ ys) (insert_front b (unlink b l))
Ring-to_front xs b ys l r =
    let d : distinct (head ∷ xs ++ b ∷ ys) ≡ true = r.no_twice in
    Ring-insert_front (xs ++ ys) b (unlink b l) (Ring-unlink xs b ys l r)
      (middle_new head xs b ys d)
