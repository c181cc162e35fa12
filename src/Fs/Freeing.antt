-- ===== src/Fs/Freeing.antt =====
-- The blocks of a file of xv6-core/fs.c are freed one after the other.
use os_lab.Prelude.{
  ℕ, ◌<◌, ◌≤◌, ◌≡◌, ◌≢◌, ◌⊎◌, inl, inr, refl, ap, ◌∙◌, sym, subst, Bool, true, false, not, ◌&&◌,
  ◌||◌, some, ◌==◌, arith, ℕ_discrete, Bool-cases, Option-cases,
}
use os_lab.Fs.Defs.{Disk, bfree}
use os_lab.Fs.Bitmap.{in_use}
use os_lab.Fs.Alloc.{Layout, Layout-of_sb, Frees, Frees-bfree}
use os_lab.Fs.Inode.{Inode}
use os_lab.Fs.Slots.{slot, FileOk}

-- The disk `e`, after the blocks in the slots `done` of the inode were freed.
pub record Freeing (meta : ℕ) (i : Inode) (d : Disk) (done : ℕ → Bool) (e : Disk) : Type 0 where
  pub layout : Layout meta e
  pub same_sb : e.sb ≡ d.sb
  pub blocks : (y : ℕ) → meta ≤ y → e.block y ≡ d.block y
  pub freed : (k : ℕ) → k < 141 → done k ≡ true → slot i d k ≢ 0 → in_use e (slot i d k) ≡ false
  pub kept :
      (y : ℕ)
      → 0 < y
      → ((k : ℕ) → k < 141 → done k ≡ true → slot i d k ≢ y)
      → in_use e y ≡ in_use d y

pub Freeing-none :
    (meta : ℕ) (i : Inode) (d : Disk) (done : ℕ → Bool)
    → Layout meta d
    → ((k : ℕ) → k < 141 → done k ≡ false)
    → Freeing meta i d done d
Freeing-none meta i d done l no_slot = record {
  layout = l;
  same_sb = refl;
  blocks = λ y above. refl;
  freed = λ k lt y. let n : done k ≡ false = no_slot k lt in absurd (cc);
  kept = λ y pos fo. refl;
}

module _ (meta : ℕ) (i : Inode) (d : Disk) (done later : ℕ → Bool) (k : ℕ) (e : Disk) where
  -- An empty slot.
  pub Freeing-skip :
      ((l : ℕ) → l < 141 → later l ≡ ((k == l) || done l))
      → slot i d k ≡ 0
      → Freeing meta i d done e
      → Freeing meta i d later e
  Freeing-skip more empty f = record {
    layout = f.layout;
    same_sb = f.same_sb;
    blocks = f.blocks;
    freed = λ l lt y ne. elim (ℕ_discrete k l) [
      | yes s ↦ absurd (ne (ap (slot i d) (sym s) ∙ empty))
      | no n ↦
          let m : later l ≡ ((k == l) || done l) = more l lt in
          f.freed l lt (ground (arith, m, y, n)) ne
    ];
    kept = λ y pos fo. f.kept y pos (λ l lt h.
        fo l lt (let m : later l ≡ ((k == l) || done l) = more l lt in ground (arith, m, h)));
  }

  -- The block is still in use: no slot that was freed shares it.
  still_used :
      FileOk meta i d
      → k < 141
      → done k ≡ false
      → slot i d k ≢ 0
      → Freeing meta i d done e
      → in_use e (slot i d k) ≡ true
  still_used ok small todo ne f =
      f.kept (slot i d k) (omega (arith, ne)) (λ l lt h same.
        let s : k ≡ l = ok.apart k l small lt ne (sym same) in
        let v : done k ≡ true = ap done s ∙ h in absurd (cc))
      ∙ (ok.held k small ne).used

  Freeing-freed :
      FileOk meta i d
      → k < 141
      → done k ≡ false
      → slot i d k ≢ 0
      → ((l : ℕ) → l < 141 → later l ≡ ((k == l) || done l))
      → Freeing meta i d done e
      → (g : Disk) → Frees meta (slot i d k) e (some g)
      → Freeing meta i d later g
  Freeing-freed ok small todo ne more f g (used, same, bits, blocks) = record {
    layout = Layout-of_sb meta e g f.layout same (λ y lo hi.
        let high : meta ≤ slot i d k = (ok.held k small ne).above in
        let b : in_use g y ≡ (not (slot i d k == y) && in_use e y) = bits y in
        let u : in_use e y ≡ true = f.layout.reserved y lo hi in
        let apart : (slot i d k == y) ≡ false = ground (arith, high, hi) in b ∙ rw (apart, u) refl);
    same_sb = same ∙ f.same_sb;
    blocks = λ y above. blocks y above ∙ f.blocks y above;
    freed = λ l lt y some_block. elim (ℕ_discrete k l) [
      | yes s ↦
          let hit : (slot i d k == slot i d l) ≡ true =
            let t : slot i d k ≡ slot i d l = ap (slot i d) s in ground (arith, t) in
          bits (slot i d l) ∙ rw (hit) refl
      | no n ↦
          let m : later l ≡ ((k == l) || done l) = more l lt in
          let old : in_use e (slot i d l) ≡ false =
            f.freed l lt (ground (arith, m, y, n)) some_block in
          bits (slot i d l)
          ∙ rw (old) (elim (Bool-cases (slot i d k == slot i d l)) [
            | inl h ↦ rw (h) refl
            | inr h ↦ rw (h) refl
          ])
    ];
    kept = λ y pos fo.
        let miss : (slot i d k == y) ≡ false =
          let apart : slot i d k ≢ y =
            fo k small
              (let m : later k ≡ ((k == k) || done k) = more k small in ground (arith, m)) in
          ground (arith, apart) in
        bits y
        ∙ rw (miss) (
            f.kept y pos (λ l lt h.
              fo l lt
                (let m : later l ≡ ((k == l) || done l) = more l lt in ground (arith, m, h))));
  }

  -- `bfree` of the next block succeeds.
  pub Freeing-free :
      FileOk meta i d
      → k < 141
      → done k ≡ false
      → slot i d k ≢ 0
      → ((l : ℕ) → l < 141 → later l ≡ ((k == l) || done l))
      → Freeing meta i d done e
      → (g : Disk) × (bfree (slot i d k) e ≡ some g) × Freeing meta i d later g
  Freeing-free ok small todo ne more f =
      let inside : slot i d k < e.sb.size =
        subst (λ s. slot i d k < s.size) (sym f.same_sb) (ok.held k small ne).inside in
      let r : Frees meta (slot i d k) e (bfree (slot i d k) e) =
        Frees-bfree meta (slot i d k) e f.layout inside in
      elim (Option-cases (bfree (slot i d k) e)) [
        | inl panic ↦
            let free : in_use e (slot i d k) ≡ false = subst (Frees meta (slot i d k) e) panic r in
            let used : in_use e (slot i d k) ≡ true = still_used ok small todo ne f in absurd (cc)
        | inr (g, run) ↦ (
          g,
          run,
          Freeing-freed ok small todo ne more f g (subst (Frees meta (slot i d k) e) run r),
        )
      ]

-- More slots count as freed, if they were empty.
pub Freeing-widen :
    (meta : ℕ) (i : Inode) (d : Disk) (done later : ℕ → Bool) (e : Disk)
    → ((l : ℕ) → l < 141 → done l ≡ true → later l ≡ true)
    → ((l : ℕ) → l < 141 → later l ≡ true → (done l ≡ true) ⊎ (slot i d l ≡ 0))
    → Freeing meta i d done e
    → Freeing meta i d later e
Freeing-widen meta i d done later e up down f = record {
  layout = f.layout;
  same_sb = f.same_sb;
  blocks = f.blocks;
  freed = λ k lt y ne. elim (down k lt y) [ inl h ↦ f.freed k lt h ne | inr z ↦ absurd (ne z) ];
  kept = λ y pos fo. f.kept y pos (λ k lt h. fo k lt (up k lt h));
}
