-- ===== src/Fs/Grown.antt =====
-- How an inode of xv6-core/fs.c and the disk grow when blocks are allocated for it and written.
use os_lab.Prelude.{
  ℕ, ◌<◌, ◌≤◌, ◌≡◌, ◌≢◌, ◌⊎◌, inl, inr, refl, ap, ◌∙◌, sym, subst, true, false, ◌||◌, ◌==◌, arith,
  ℕ_discrete, Bool-cases,
}
use os_lab.Fs.Defs.{Disk}
use os_lab.Fs.Bitmap.{in_use}
use os_lab.Fs.Inode.{Inode}
use os_lab.Fs.Slots.{slot, content, FileOk}
use os_lab.Fs.Filled.{Filled, FileOk-Filled, content-Filled}

-- No slot of the inode holds `y`.
abbrev pub Foreign : Inode → Disk → ℕ → Type 0
Foreign i d y = (k : ℕ) → k < 141 → slot i d k ≢ y

pub record Grown (meta : ℕ) (i : Inode) (d : Disk) (j : Inode) (e : Disk) : Type 0 where
  pub ok : FileOk meta j e
  pub same_sb : e.sb ≡ d.sb
  pub header : j ≡ record i { addrs = j.addrs }
  pub kept : (k : ℕ) → k < 141 → slot i d k ≢ 0 → slot j e k ≡ slot i d k
  pub slots : (k : ℕ) → k < 141 → (slot j e k ≡ slot i d k) ⊎ (in_use d (slot j e k) ≡ false)
  pub used : (y : ℕ) → y < d.sb.size → in_use d y ≡ true → in_use e y ≡ true
  pub frame :
      (y : ℕ) → y < d.sb.size → meta ≤ y → in_use d y ≡ true → Foreign i d y → e.block y ≡ d.block y

pub Grown-refl : (meta : ℕ) (i : Inode) (d : Disk) → FileOk meta i d → Grown meta i d i d
Grown-refl meta i d ok = record {
  ok = ok;
  same_sb = refl;
  header = refl;
  kept = λ k lt ne. refl;
  slots = λ k lt. inl refl;
  used = λ y lt u. u;
  frame = λ y lt above u fo. refl;
}

-- A foreign block stays foreign.
Foreign-Grown :
    (meta : ℕ) (i : Inode) (d : Disk) (j : Inode) (e : Disk) (y : ℕ)
    → Grown meta i d j e
    → in_use d y ≡ true
    → Foreign i d y
    → Foreign j e y
Foreign-Grown meta i d j e y g u fo k lt same = elim (g.slots k lt) [
  | inl old ↦ fo k lt (sym old ∙ same)
  | inr free ↦ let v : in_use d y ≡ false = ap (in_use d) (sym same) ∙ free in absurd (cc)
]

-- What is free after the first step was free before it.
still_free :
    (meta : ℕ) (i : Inode) (d : Disk) (j : Inode) (e : Disk) (k : Inode) (f : Disk) (s : ℕ)
    → Grown meta i d j e
    → Grown meta j e k f
    → s < 141
    → in_use e (slot k f s) ≡ false
    → in_use d (slot k f s) ≡ false
still_free meta i d j e k f s g h lt free = elim (Bool-cases (in_use d (slot k f s))) [
  | inl u ↦
      let some_block : slot k f s ≢ 0 = λ z.
        let v : in_use e 0 ≡ true = g.ok.layout.reserved 0 (omega arith) g.ok.layout.positive in
        let w : in_use e 0 ≡ false = ap (in_use e) (sym z) ∙ free in absurd (cc) in
      let inside : slot k f s < f.sb.size = (h.ok.held s lt some_block).inside in
      let v : in_use e (slot k f s) ≡ true =
        g.used (slot k f s) (subst (λ x. slot k f s < x.size) (h.same_sb ∙ g.same_sb) inside) u in
      absurd (cc)
  | inr u ↦ u
]

pub Grown-trans :
    (meta : ℕ) (i : Inode) (d : Disk) (j : Inode) (e : Disk) (k : Inode) (f : Disk)
    → Grown meta i d j e
    → Grown meta j e k f
    → Grown meta i d k f
Grown-trans meta i d j e k f g h = record {
  ok = h.ok;
  same_sb = h.same_sb ∙ g.same_sb;
  header = h.header ∙ ap (λ (x : Inode). record x { addrs = k.addrs }) g.header;
  kept = λ s lt ne. h.kept s lt (λ z. ne (sym (g.kept s lt ne) ∙ z)) ∙ g.kept s lt ne;
  slots = λ s lt. elim (h.slots s lt) [
    | inl same ↦ elim (g.slots s lt) [
      | inl old ↦ inl (same ∙ old)
      | inr free ↦ inr (ap (in_use d) same ∙ free)
    ]
    | inr free ↦ inr (still_free meta i d j e k f s g h lt free)
  ];
  used = λ y lt u. h.used y (subst (λ s. y < s.size) (sym g.same_sb) lt) (g.used y lt u);
  frame = λ y lt above u fo.
      h.frame y (subst (λ s. y < s.size) (sym g.same_sb) lt) above (g.used y lt u)
        (Foreign-Grown meta i d j e y g u fo)
      ∙ g.frame y lt above u fo;
}

Grown-Filled :
    (meta : ℕ) (i : Inode) (d : Disk) (k x : ℕ) (j : Inode) (e : Disk)
    → FileOk meta i d
    → k < 141
    → slot i d k ≡ 0
    → j ≡ record i { addrs = j.addrs }
    → Filled meta i d k x j e
    → Grown meta i d j e
Grown-Filled meta i d k x j e ok small empty header f = record {
  ok = FileOk-Filled meta i d k x j e ok f;
  same_sb = f.same_sb;
  header = header;
  kept = λ l lt ne. f.old l lt (λ s. ne (ap (slot i d) (sym s) ∙ empty));
  slots = λ l lt. elim (ℕ_discrete k l) [
    | yes s ↦ inr (ap (in_use d) (ap (slot j e) (sym s) ∙ f.new) ∙ f.was_free)
    | no n ↦ inl (f.old l lt n)
  ];
  used = λ y lt u. f.used y lt ∙ ap (λ b. (x == y) || b) u ∙ ground arith;
  frame = λ y lt above u fo.
      f.block_old y above
        (λ s. let v : in_use d y ≡ false = ap (in_use d) (sym s) ∙ f.was_free in absurd (cc))
        (fo 12 (omega arith));
}

-- What `bmap` promises of the block `a` that it gives for the slot `k`.
pub record Mapped (meta : ℕ) (i : Inode) (d : Disk) (k a : ℕ) (j : Inode) (e : Disk) : Type 0 where
  pub grown : Grown meta i d j e
  pub at_slot : slot j e k ≡ a
  pub nonzero : a ≢ 0
  pub same : (p : ℕ) → p < 71680 → content j e p ≡ content i d p

pub Mapped-Filled :
    (meta : ℕ) (i : Inode) (d : Disk) (k x : ℕ) (j : Inode) (e : Disk)
    → FileOk meta i d
    → k < 141
    → slot i d k ≡ 0
    → j ≡ record i { addrs = j.addrs }
    → Filled meta i d k x j e
    → Mapped meta i d k x j e
Mapped-Filled meta i d k x j e ok small empty header f = record {
  grown = Grown-Filled meta i d k x j e ok small empty header f;
  at_slot = f.new;
  nonzero =
      let low : 0 < meta = ok.layout.positive in
      let high : meta ≤ x = f.above in λ z. omega (arith, low, high, z);
  same = content-Filled meta i d k x j e ok f empty;
}

pub Mapped-refl :
    (meta : ℕ) (i : Inode) (d : Disk) (k : ℕ)
    → FileOk meta i d
    → slot i d k ≢ 0
    → Mapped meta i d k (slot i d k) i d
Mapped-refl meta i d k ok ne = record {
  grown = Grown-refl meta i d ok;
  at_slot = refl;
  nonzero = ne;
  same = λ p lt. refl;
}

-- At most one block is free, which is when the two allocations of `bmap` can fail.
abbrev pub Scarce : Disk → Type 0
Scarce d =
    (y z : ℕ) → y < d.sb.size → z < d.sb.size → in_use d y ≡ false → in_use d z ≡ false → y ≡ z
