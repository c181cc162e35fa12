-- ===== src/Bcache/Bget.antt =====
-- What bget of xv6-core/bio.c keeps: one buffer for a block, and the blocks of buffers in use.
use os_lab.Prelude.{
  ℕ, ◌<◌, ◌≡◌, ◌≢◌, inl, inr, refl, ap, ◌∙◌, sym, subst, true, false, write, arith, ℕ_discrete,
  Option-cases, List, reverse,
}
use os_lab.Fs.Words.{write_self, write_ne}
use os_lab.Locks.Defs.{acquiresleep}
use os_lab.Bcache.Defs.{
  Buf, Bcache, Outcome, panics, lost, sleeps, done, is_block, is_unused, set_buf, lock_buf, recycle,
  bget,
}
use os_lab.Bcache.Walk.{find}
use os_lab.Bcache.Order.{Ordered, find-some, find-none, take_unused, bget_lem}

-- No block of a device stands in two buffers. A buffer of device 0 was never used.
abbrev pub OneCopy : Bcache → Type 0
OneCopy c =
    (a b : ℕ)
    → a < 30
    → b < 30
    → (c.buf a).dev ≢ 0
    → (c.buf a).dev ≡ (c.buf b).dev
    → (c.buf a).blockno ≡ (c.buf b).blockno
    → a ≡ b

-- The buffer keeps its block.
pub record SameBlock (x y : Buf) : Type 0 where
  pub dev : y.dev ≡ x.dev
  pub blockno : y.blockno ≡ x.blockno

-- A change of a buffer that is not of its block.
pub OneCopy-set_buf :
    (b : ℕ) (x : Buf) (c : Bcache) → SameBlock (c.buf b) x → OneCopy c → OneCopy (set_buf b x c)
unfolding set_buf
OneCopy-set_buf b x c same one a e al el used dev blockno =
    one a e al el (λ z. used (at_dev a ∙ z)) (sym (at_dev a) ∙ dev ∙ at_dev e)
      (sym (at_blockno a) ∙ blockno ∙ at_blockno e)
  where
    at_dev : (i : ℕ) → (write c.buf b x i).dev ≡ (c.buf i).dev
    at_dev i = elim (ℕ_discrete b i) [
      | yes s ↦
          subst (λ j. (write c.buf b x j).dev ≡ (c.buf j).dev) s
            (ap (λ (y : Buf). y.dev) (write_self c.buf b x) ∙ same.dev)
      | no n ↦ ap (λ (y : Buf). y.dev) (write_ne c.buf b i x n)
    ]

    at_blockno : (i : ℕ) → (write c.buf b x i).blockno ≡ (c.buf i).blockno
    at_blockno i = elim (ℕ_discrete b i) [
      | yes s ↦
          subst (λ j. (write c.buf b x j).blockno ≡ (c.buf j).blockno) s
            (ap (λ (y : Buf). y.blockno) (write_self c.buf b x) ∙ same.blockno)
      | no n ↦ ap (λ (y : Buf). y.blockno) (write_ne c.buf b i x n)
    ]

-- A buffer that takes a block no other has.
OneCopy-recycle :
    (b dev blockno : ℕ) (c : Bcache)
    → ((i : ℕ) → i < 30 → is_block dev blockno c i ≡ false)
    → OneCopy c
    → OneCopy (recycle b dev blockno c)
unfolding recycle set_buf
OneCopy-recycle b dev blockno c absent one a e al el used same_dev same_blockno =
    elim (ℕ_discrete b a) [
      | yes s ↦ elim (ℕ_discrete b e) [
        | yes t ↦ sym s ∙ t
        | no n ↦
            let x = write_ne c.buf b e _ n in
            let y : write c.buf b new a ≡ new =
              ap (write c.buf b new) (sym s) ∙ write_self c.buf b new in
            absurd (
              clash e el
                (sym (ap (λ (z : Buf). z.dev) x) ∙ sym same_dev ∙ ap (λ (z : Buf). z.dev) y)
                (sym (ap (λ (z : Buf). z.blockno) x)
                  ∙ sym same_blockno
                  ∙ ap (λ (z : Buf). z.blockno) y))
      ]
      | no m ↦ elim (ℕ_discrete b e) [
        | yes t ↦
            let x = write_ne c.buf b a new m in
            let y : write c.buf b new e ≡ new =
              ap (write c.buf b new) (sym t) ∙ write_self c.buf b new in
            absurd (
              clash a al (sym (ap (λ (z : Buf). z.dev) x) ∙ same_dev ∙ ap (λ (z : Buf). z.dev) y) (
                sym (ap (λ (z : Buf). z.blockno) x) ∙ same_blockno ∙ ap (λ (z : Buf). z.blockno) y))
        | no n ↦
            let x = write_ne c.buf b a new m in
            let y = write_ne c.buf b e new n in
            one a e al el (λ z. used (ap (λ (w : Buf). w.dev) x ∙ z))
              (sym (ap (λ (w : Buf). w.dev) x) ∙ same_dev ∙ ap (λ (w : Buf). w.dev) y)
              (sym (ap (λ (w : Buf). w.blockno) x) ∙ same_blockno ∙ ap (λ (w : Buf). w.blockno) y)
      ]
    ]
  where
    new : Buf
    new = record (c.buf b) {
      dev = dev;
      blockno = blockno;
      valid = false;
      dirty = false;
      refcnt = 1;
    }

    clash : (i : ℕ) → i < 30 → (c.buf i).dev ≡ dev → (c.buf i).blockno ≡ blockno → ⊥
    clash i lt p q =
        let t : is_block dev blockno c i ≡ false = absent i lt in ground (arith, t, p, q)

-- The state of the cache is right, with its buffers in some order.
pub record Right (c : Bcache) : Type 0 where
  pub order : List ℕ
  pub ordered : Ordered order c
  pub one_copy : OneCopy c

-- A buffer with a reference, or that is dirty, keeps its block.
abbrev pub Keeps : Bcache → Bcache → Type 0
Keeps c u = (b : ℕ) → is_unused c b ≡ false → SameBlock (c.buf b) (u.buf b)

abbrev pub RightAfter : Bcache → Bcache → Type 0
RightAfter c u = Right u × Keeps c u

-- The same of what a call comes to.
abbrev pub RightOutcome : Bcache → Outcome (ℕ × Bcache) → Type 0
RightOutcome c panics = Unit {0}
RightOutcome c lost = ⊥
RightOutcome c (sleeps u) = RightAfter c u
RightOutcome c (done (b, u)) = RightAfter c u

Keeps-set_buf :
    (b : ℕ) (x : Buf) (c : Bcache)
    → SameBlock (c.buf b) x
    → (i : ℕ) → SameBlock (c.buf i) ((set_buf b x c).buf i)
unfolding set_buf
Keeps-set_buf b x c same i = elim (ℕ_discrete b i) [
  | yes s ↦
      subst (λ j. SameBlock (c.buf j) (write c.buf b x j)) s
        (subst (SameBlock (c.buf b)) (sym (write_self c.buf b x)) same)
  | no n ↦ record {
    dev = ap (λ (y : Buf). y.dev) (write_ne c.buf b i x n);
    blockno = ap (λ (y : Buf). y.blockno) (write_ne c.buf b i x n);
  }
]

pub Ordered-set_buf :
    (bs : List ℕ) (b : ℕ) (x : Buf) (c : Bcache) → Ordered bs c → Ordered bs (set_buf b x c)
unfolding set_buf
Ordered-set_buf bs b x c o = record { ring = o.ring; count = o.count; all = o.all }

pub RightAfter-set_buf :
    (b : ℕ) (x : Buf) (c : Bcache) → SameBlock (c.buf b) x → Right c → RightAfter c (set_buf b x c)
RightAfter-set_buf b x c same r = (
  record {
    order = r.order;
    ordered = Ordered-set_buf r.order b x c r.ordered;
    one_copy = OneCopy-set_buf b x c same r.one_copy;
  },
  λ i u. Keeps-set_buf b x c same i,
)

RightOutcome-lock_buf :
    (pid b : ℕ) (c u : Bcache) → RightAfter c u → RightOutcome c (lock_buf pid b u)
unfolding lock_buf
RightOutcome-lock_buf pid b c u (r, kept) = elim (Option-cases (acquiresleep pid (u.buf b).lock)) [
  | inl busy ↦ rw (busy, lock_buf) (r, kept)
  | inr (l, got) ↦
      let (q, more) =
        RightAfter-set_buf b (record (u.buf b) { lock = l }) u record { dev = refl; blockno = refl }
          r in
      rw (got, lock_buf)
        (
          q,
          λ i t.
              let first = kept i t in
              let second =
                Keeps-set_buf b (record (u.buf b) { lock = l }) u
                  record { dev = refl; blockno = refl } i in
              record { dev = second.dev ∙ first.dev; blockno = second.blockno ∙ first.blockno },
        )
]

RightAfter-recycle :
    (b dev blockno : ℕ) (c : Bcache)
    → Right c
    → is_unused c b ≡ true
    → ((i : ℕ) → i < 30 → is_block dev blockno c i ≡ false)
    → RightAfter c (recycle b dev blockno c)
unfolding recycle set_buf
RightAfter-recycle b dev blockno c r unused absent = (
  record {
    order = r.order;
    ordered = record { ring = r.ordered.ring; count = r.ordered.count; all = r.ordered.all };
    one_copy = OneCopy-recycle b dev blockno c absent r.one_copy;
  },
  λ i used. elim (ℕ_discrete b i) [
    | yes s ↦ let t : is_unused c i ≡ true = ap (is_unused c) (sym s) ∙ unused in absurd (cc)
    | no n ↦ record {
      dev = ap (λ (y : Buf). y.dev) (write_ne c.buf b i _ n);
      blockno = ap (λ (y : Buf). y.blockno) (write_ne c.buf b i _ n);
    }
  ],
)

module _ (c : Bcache) (r : Right c) (pid dev blockno : ℕ) where
  RightOutcome-unused :
      ((i : ℕ) → i < 30 → is_block dev blockno c i ≡ false)
      → RightOutcome c
          (take_unused r.order c pid dev blockno (find (is_unused c) (reverse r.order)))
  RightOutcome-unused absent = elim (Option-cases (find (is_unused c) (reverse r.order))) [
    | inl full ↦ rw (full) tt
    | inr (b, found) ↦
        let (unused, member) = find-some (is_unused c) (reverse r.order) {b = b} found in
        rw (found) (
          RightOutcome-lock_buf pid b c (recycle b dev blockno c)
            (RightAfter-recycle b dev blockno c r unused absent))
  ]

  -- `bget` ends, keeps the order of the buffers and the blocks in one copy each, and gives no buffer another
  -- block that is referenced or dirty.
  pub bget-Right : RightOutcome c (bget pid dev blockno c)
  bget-Right =
      subst (RightOutcome c) (sym (bget_lem r.order c pid dev blockno r.ordered))
        (elim (Option-cases (find (is_block dev blockno c) r.order)) [
          | inl absent ↦ rw (absent) (
              RightOutcome-unused
                (λ i lt. find-none (is_block dev blockno c) r.order absent i (r.ordered.all i lt)))
          | inr (b, found) ↦ rw (found) (
              RightOutcome-lock_buf pid b c _
                (RightAfter-set_buf b _ c record { dev = refl; blockno = refl } r))
        ])
