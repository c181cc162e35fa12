-- ===== src/Fs/Filled.antt =====
-- A block more in an empty slot of an inode of xv6-core/fs.c.
use os_lab.Prelude.{
  ℕ, ◌/◌, ◌%◌, ◌<◌, ◌≤◌, ◌≡◌, ◌≢◌, refl, ap, ◌∙◌, sym, subst, true, false, ◌||◌, ◌==◌, arith,
  ℕ_discrete,
}
use os_lab.Fs.Defs.{byte, Disk, zeroed}
use os_lab.Fs.Bitmap.{in_use}
use os_lab.Fs.Alloc.{Layout}
use os_lab.Fs.Inode.{Inode}
use os_lab.Fs.Slots.{
  slot, place, content, Held, FileOk, place_bound, place_apart, content_hole, content-at,
}

-- An inode and a disk to which a free block `x` was added in the empty slot `k`.
pub record Filled (meta : ℕ) (i : Inode) (d : Disk) (k x : ℕ) (j : Inode) (e : Disk) : Type 0 where
  pub layout : Layout meta e
  pub same_sb : e.sb ≡ d.sb
  pub above : meta ≤ x
  pub inside : x < d.sb.size
  pub was_free : in_use d x ≡ false
  pub used : (y : ℕ) → y < d.sb.size → in_use e y ≡ ((x == y) || in_use d y)
  pub new : slot j e k ≡ x
  pub old : (l : ℕ) → l < 141 → k ≢ l → slot j e l ≡ slot i d l
  pub block_new : e.block x ≡ zeroed
  pub block_old : (y : ℕ) → meta ≤ y → x ≢ y → slot i d 12 ≢ y → e.block y ≡ d.block y

module _ (meta : ℕ) (i : Inode) (d : Disk) (k x : ℕ) (j : Inode) (e : Disk) where
  Held-Filled : (y : ℕ) → Filled meta i d k x j e → Held meta d y → Held meta e y
  Held-Filled y f h =
      let small : y < d.sb.size = h.inside in
      record {
        above = h.above;
        inside = subst (λ s. y < s.size) (sym f.same_sb) small;
        used = f.used y small ∙ ap (λ b. (x == y) || b) h.used ∙ ground arith;
      }

  -- The new block is in no slot.
  fresh : (l : ℕ) → l < 141 → FileOk meta i d → Filled meta i d k x j e → slot i d l ≢ x
  fresh l small ok f same =
      let low : 0 < meta = ok.layout.positive in
      let high : meta ≤ x = f.above in
      let h : Held meta d (slot i d l) = ok.held l small (omega (arith, low, high, same)) in
      let free : in_use d x ≡ false = f.was_free in
      let used : in_use d x ≡ true = ap (in_use d) (sym same) ∙ h.used in absurd (cc)

  nonzero : FileOk meta i d → Filled meta i d k x j e → x ≢ 0
  nonzero ok f z =
      let low : 0 < meta = ok.layout.positive in
      let high : meta ≤ x = f.above in omega (arith, low, high, z)

  pub Held-new : FileOk meta i d → Filled meta i d k x j e → Held meta e x
  Held-new ok f =
      let small : x < d.sb.size = f.inside in
      record {
        above = f.above;
        inside = subst (λ s. x < s.size) (sym f.same_sb) small;
        used = f.used x small ∙ ground arith;
      }

  pub FileOk-Filled : FileOk meta i d → Filled meta i d k x j e → FileOk meta j e
  FileOk-Filled ok f = record {
    layout = f.layout;
    held = λ l lt ne. elim (ℕ_discrete k l) [
      | yes s ↦ subst (Held meta e) (sym f.new ∙ ap (slot j e) s) (Held-new ok f)
      | no n ↦
          let same = f.old l lt n in
          subst (Held meta e) (sym same) (Held-Filled _ f (ok.held l lt (λ z. ne (same ∙ z))))
    ];
    apart = λ l m lt mt ne same. elim (ℕ_discrete k l) [
      | yes s ↦ elim (ℕ_discrete k m) [
        | yes t ↦ sym s ∙ t
        | no n ↦
            absurd (fresh m mt ok f (sym (f.old m mt n) ∙ sym same ∙ ap (slot j e) (sym s) ∙ f.new))
      ]
      | no n ↦ elim (ℕ_discrete k m) [
        | yes t ↦
            absurd (fresh l lt ok f (sym (f.old l lt n) ∙ same ∙ ap (slot j e) (sym t) ∙ f.new))
        | no o ↦
            ok.apart l m lt mt (λ z. ne (f.old l lt n ∙ z))
              (sym (f.old l lt n) ∙ same ∙ f.old m mt o)
      ]
    ];
  }

  -- The file reads as before: the new block is zeroed, as a missing one reads.
  pub content-Filled :
      FileOk meta i d
      → Filled meta i d k x j e
      → slot i d k ≡ 0
      → (p : ℕ) → p < 71680
      → content j e p ≡ content i d p
  content-Filled ok f empty p small =
      let l = place (p / 512) in
      let lt : l < 141 = place_bound (p / 512) (omega arith) in
      elim (ℕ_discrete k l) [
        | yes s ↦
            content-at j e p x (ap (slot j e) (sym s) ∙ f.new) (nonzero ok f)
            ∙ ap (λ b. byte b (p % 512)) f.block_new
            ∙ sym (content_hole i d p (ap (slot i d) (sym s) ∙ empty))
        | no n ↦ elim (ℕ_discrete (slot i d l) 0) [
          | yes z ↦ content_hole j e p (f.old l lt n ∙ z) ∙ sym (content_hole i d p z)
          | no ne ↦
              let h : Held meta d (slot i d l) = ok.held l lt ne in
              let ok_apart : slot i d 12 ≢ slot i d l =
                λ c. place_apart (p / 512) (ok.apart l 12 lt (omega arith) ne (sym c)) in
              let same : e.block (slot i d l) ≡ d.block (slot i d l) =
                f.block_old (slot i d l) h.above (λ c. fresh l lt ok f (sym c)) ok_apart in
              content-at j e p (slot i d l) (f.old l lt n) ne
              ∙ ap (λ b. byte b (p % 512)) same
              ∙ sym (content-at i d p (slot i d l) refl ne)
        ]
      ]
