-- ===== src/Bcache/Reach.antt =====
-- The buffer cache of xv6-core/bio.c over all sequences of calls.
use os_lab.Prelude.{
  ℕ, zero, suc, ◌+◌, ◌-◌, ◌<◌, ◌≡◌, inl, inr, refl, ap, ◌∙◌, sym, subst, true, false, ltb, not,
  ◌||◌, Option, none, some, ◌==◌, if◌then◌else◌, write, arith, ℕ_discrete, Bool-cases, List, [],
  ◌∷◌, ◌++◌, length, is_in, length-append,
}
use os_lab.Fs.Words.{write_self, write_ne}
use os_lab.Locks.Defs.{initsleeplock, releasesleep, holdingsleep}
use os_lab.Bcache.Defs.{
  head, Buf, Bcache, sleeps, done, set_buf, bget, brelse, insert_front, unlink, link_all, binit,
}
use os_lab.Bcache.Walk.{is_in-append}
use os_lab.Bcache.Ring.{Ring, Ring-to_front, Ring-insert_front}
use os_lab.Bcache.Order.{Ordered}
use os_lab.Bcache.Bget.{
  SameBlock, Right, RightAfter, RightOutcome, RightAfter-set_buf, Ordered-set_buf, bget-Right,
}

-- A buffer divides the order.
pub split_at :
    (b : ℕ) (bs : List ℕ) → is_in b bs ≡ true → (xs : List ℕ) × (ys : List ℕ) × (bs ≡ xs ++ b ∷ ys)
split_at b [] h = absurd (cc)
split_at b (x ∷ bs) h = elim (ℕ_discrete x b) [
  | yes s ↦ ([], bs, ap (λ y. y ∷ bs) s)
  | no n ↦
      let (xs, ys, e) = split_at b bs (ground (arith, h, n)) in (x ∷ xs, ys, ap (λ zs. x ∷ zs) e)
]

Ordered-to_front :
    (xs : List ℕ) (b : ℕ) (ys : List ℕ) (c : Bcache)
    → Ordered (xs ++ b ∷ ys) c
    → Ordered (b ∷ xs ++ ys) (record c { links = insert_front b (unlink b c.links) })
Ordered-to_front xs b ys c o = record {
  ring = Ring-to_front xs b ys c.links o.ring;
  count = omega (arith, o.count, length-append xs (b ∷ ys), length-append xs ys);
  all = λ i lt.
      let old : is_in i (xs ++ b ∷ ys) ≡ true = o.all i lt in
      let one : is_in i (xs ++ b ∷ ys) ≡ (is_in i xs || is_in i (b ∷ ys)) =
        is_in-append i xs (b ∷ ys) in
      let two : is_in i (xs ++ ys) ≡ (is_in i xs || is_in i ys) = is_in-append i xs ys in
      ground (arith, old, one, two);
}

abbrev pub RightOption : Bcache → Option Bcache → Type 0
RightOption c none = Unit {0}
RightOption c (some u) = RightAfter c u

-- So does `brelse`, which moves a buffer that is no longer used to the front.
pub brelse-Right : (pid b : ℕ) (c : Bcache) → b < 30 → Right c → RightOption c (brelse pid b c)
unfolding brelse
brelse-Right pid b c small r = elim (Bool-cases (not (holdingsleep pid (c.buf b).lock))) [
  | inl t ↦ rw (t) tt
  | inr t ↦
      let n = if (c.buf b).refcnt == 0 then 4294967295 else (c.buf b).refcnt - 1 in
      let x : Buf = record (c.buf b) { lock = releasesleep (c.buf b).lock; refcnt = n } in
      let (q, kept) = RightAfter-set_buf b x c record { dev = refl; blockno = refl } r in
      elim (Bool-cases (n == 0)) [
        | inl z ↦
            let (xs, ys, e) = split_at b r.order (r.ordered.all b small) in
            rw (t, z)
              (
                record {
                  order = b ∷ xs ++ ys;
                  ordered = Ordered-to_front xs b ys (set_buf b x c) (
                      Ordered-set_buf (xs ++ b ∷ ys) b x c
                        (subst (λ zs. Ordered zs c) e r.ordered));
                  one_copy = q.one_copy;
                },
                kept,
              )
        | inr z ↦ rw (t, z) (q, kept)
      ]
]

set_buf_refcnt : (b : ℕ) (x : Buf) (c : Bcache) → ((set_buf b x c).buf b).refcnt ≡ x.refcnt
unfolding set_buf
set_buf_refcnt b x c = ap (λ (y : Buf). y.refcnt) (write_self c.buf b x)

-- On a cache whose links list its 30 buffers, `brelse` by the holder of a buffer with a reference takes one
-- reference; the buffer goes to the front of the order when none is left, and stays where it is otherwise.
pub brelse_lem :
    (pid b n : ℕ) (xs ys : List ℕ) (c : Bcache)
    → Ordered (xs ++ b ∷ ys) c
    → holdingsleep pid (c.buf b).lock ≡ true
    → (c.buf b).refcnt ≡ n + 1
    → (u : Bcache) × (brelse pid b c ≡ some u)
      × ((u.buf b).refcnt ≡ n)
      × Ordered (if n == 0 then b ∷ xs ++ ys else xs ++ b ∷ ys) u
unfolding brelse
brelse_lem pid b n xs ys c o held count =
    let m = if (c.buf b).refcnt == 0 then 4294967295 else (c.buf b).refcnt - 1 in
    let x : Buf = record (c.buf b) { lock = releasesleep (c.buf b).lock; refcnt = m } in
    let less : m ≡ n = ground (arith, count) in
    let here : ((set_buf b x c).buf b).refcnt ≡ n = set_buf_refcnt b x c ∙ less in
    elim (Bool-cases (n == 0)) [
      | inl z ↦
          let zero_left : (m == 0) ≡ true = ap (λ k. k == 0) less ∙ z in
          rw (z, held, zero_left)
            (
              _,
              refl,
              here,
              Ordered-to_front xs b ys (set_buf b x c) (Ordered-set_buf (xs ++ b ∷ ys) b x c o),
            )
      | inr z ↦
          let some_left : (m == 0) ≡ false = ap (λ k. k == 0) less ∙ z in
          rw (z, held, some_left) (_, refl, here, Ordered-set_buf (xs ++ b ∷ ys) b x c o)
    ]

-- The loop of `binit`: the buffers below `b` are linked, and none has a device.
link_all-Ordered :
    (n b : ℕ) (bs : List ℕ) (c : Bcache)
    → b + n ≡ 30
    → Ring bs c.links
    → length bs ≡ b
    → ((i : ℕ) → is_in i bs ≡ ltb i b)
    → (cs : List ℕ) × Ordered cs (link_all n b c)
unfolding link_all
link_all-Ordered zero b bs c end r len members = (
  bs,
  record {
    ring = r;
    count = omega (arith, len, end);
    all = λ i lt. members i ∙ ground (arith, end, lt);
  },
)
link_all-Ordered (suc n) b bs c end r len members =
    link_all-Ordered n (b + 1) (b ∷ bs) _ (omega (arith, end))
      (Ring-insert_front bs b c.links r
        (let m : is_in b bs ≡ ltb b b = members b in ground (arith, m, end)))
      (omega (arith, len)) (λ i. let m : is_in i bs ≡ ltb i b = members i in ground (arith, m))

link_all_dev : (n b : ℕ) (c : Bcache) (i : ℕ) → ((link_all n b c).buf i).dev ≡ (c.buf i).dev
unfolding link_all
link_all_dev zero b c i = refl
link_all_dev (suc n) b c i = link_all_dev n (b + 1) _ i ∙ elim (ℕ_discrete b i) [
  | yes s ↦
      subst (λ j. (write c.buf b (record (c.buf b) { lock = initsleeplock }) j).dev ≡ (c.buf j).dev)
        s (ap (λ (y : Buf). y.dev) (write_self c.buf b _))
  | no ne ↦ ap (λ (y : Buf). y.dev) (write_ne c.buf b i _ ne)
]

pub binit-Right : (c : Bcache) → ((i : ℕ) → (c.buf i).dev ≡ 0) → Right (binit c)
unfolding binit
binit-Right c unused =
    let start : Bcache = record c {
      links = record { next = write c.links.next head head; prev = write c.links.prev head head };
    } in
    let (order, o) =
      link_all-Ordered 30 0 [] start refl
        record {
          ahead = write_self c.links.next head head;
          behind = write_self c.links.prev head head;
          no_twice = refl;
        }
        refl (λ i. ground arith) in
    record {
      order = order;
      ordered = o;
      one_copy = λ a b al bl used dev blockno. absurd (used (link_all_dev 30 0 start a ∙ unused a));
    }

-- What processes do to the cache: bget, whether it waits for the buffer or returns it, brelse, and changes of
-- the flags, the data and the lock of a buffer.
pub data Step (c u : Bcache) : Type 0 where
  waits : (pid dev blockno : ℕ) → bget pid dev blockno c ≡ sleeps u → Step c u
  gets : (pid dev blockno b : ℕ) → bget pid dev blockno c ≡ done (b, u) → Step c u
  releases : (pid b : ℕ) → b < 30 → brelse pid b c ≡ some u → Step c u
  changes : (b : ℕ) (x : Buf) → SameBlock (c.buf b) x → u ≡ set_buf b x c → Step c u

pub Step-Right : (c u : Bcache) → Right c → Step c u → RightAfter c u
Step-Right c u r (waits pid dev blockno run) =
    subst (RightOutcome c) run (bget-Right c r pid dev blockno)
Step-Right c u r (gets pid dev blockno b run) =
    subst (RightOutcome c) run (bget-Right c r pid dev blockno)
Step-Right c u r (releases pid b small run) =
    subst (RightOption c) run (brelse-Right pid b c small r)
Step-Right c u r (changes b x same e) =
    subst (RightAfter c) (sym e) (RightAfter-set_buf b x c same r)

pub data Reach (b : Bcache) : Bcache → Type 0 where
  boot : Reach b (binit b)
  step : {c u : Bcache} → Reach b c → Step c u → Reach b u

-- In every state that calls reach from `binit`, before which no buffer has a device, the links are one list of
-- the 30 buffers in both directions, and no block of a device stands in two buffers.
pub Reach-Right : (b c : Bcache) → ((i : ℕ) → (b.buf i).dev ≡ 0) → Reach b c → Right c
Reach-Right b c unused boot = binit-Right b unused
Reach-Right b c unused (step r s) =
    let (right, kept) = Step-Right _ c (Reach-Right b _ unused r) s in right
