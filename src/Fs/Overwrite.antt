-- ===== src/Fs/Overwrite.antt =====
-- A block of a file of xv6-core/fs.c is overwritten, as writei does.
use os_lab.Prelude.{
  ℕ, ◌+◌, ◌-◌, ◌*◌, ◌/◌, ◌%◌, ◌<◌, ◌≤◌, ◌≡◌, ◌≢◌, ◌⊎◌, inl, inr, refl, ap, ◌∙◌, sym, subst, true,
  false, ltb, leb, arith, ℕ_discrete, Bool-cases, dec_lt,
}
use os_lab.Fs.Defs.{Block, byte, word, Disk, set_block}
use os_lab.Fs.Alloc.{in_use-set_block, Layout-set_block, set_block_others}
use os_lab.Fs.Words.{write_self}
use os_lab.Fs.Inode.{Inode, copy_in}
use os_lab.Fs.Slots.{
  slot, place, content, Held, FileOk, place_bound, place_apart, place_eq, slot-addrs, slot-entry,
  slot-none, content-at, content_hole,
}
use os_lab.Fs.Grown.{Grown}

pub copy_in_in :
    (src : ℕ → ℕ) (tot o m : ℕ) (b : Block) (k : ℕ)
    → o ≤ k
    → k < o + m
    → copy_in src tot o m b k ≡ src (tot + (k - o))
unfolding copy_in
copy_in_in src tot o m b k lo hi =
    let t : leb o k ≡ true = ground arith in
    let u : ltb k (o + m) ≡ true = ground arith in rw (t, u) refl

pub copy_in_out :
    (src : ℕ → ℕ) (tot o m : ℕ) (b : Block) (k : ℕ)
    → (k < o) ⊎ (o + m ≤ k)
    → copy_in src tot o m b k ≡ b k
unfolding copy_in
copy_in_out src tot o m b k (inl lo) = let t : leb o k ≡ false = ground arith in rw (t) refl
copy_in_out src tot o m b k (inr hi) =
    let t : ltb k (o + m) ≡ false = ground arith in
    rw (t) (elim (Bool-cases (leb o k)) [ inl h ↦ rw (h) refl | inr h ↦ rw (h) refl ])

-- A block of the file is overwritten.
module _ (meta : ℕ) (j : Inode) (e : Disk) (bn a : ℕ) (x : Block) where
  pub slot-set_block :
      FileOk meta j e
      → bn < 140
      → slot j e (place bn) ≡ a
      → a ≢ 0
      → (k : ℕ) → slot j (set_block a x e) k ≡ slot j e k
  slot-set_block ok small at ne k = elim (dec_lt k 13) [
    | yes direct ↦ slot-addrs j (set_block a x e) k direct ∙ sym (slot-addrs j e k direct)
    | no high ↦ elim (ℕ_discrete (j.addrs 12) 0) [
      | yes z ↦
          slot-none j (set_block a x e) k (omega arith) z ∙ sym (slot-none j e k (omega arith) z)
      | no some_block ↦
          let apart : a ≢ j.addrs 12 = λ s. place_apart bn (
            ok.apart (place bn) 12 (place_bound bn small) (omega arith) (λ z. ne (sym at ∙ z))
              (at ∙ s ∙ sym (slot-addrs j e 12 (omega arith)))) in
          slot-entry j (set_block a x e) k (omega arith) some_block
          ∙ ap (λ b. word b (4 * (k - 13))) (set_block_others a (j.addrs 12) x e apart)
          ∙ sym (slot-entry j e k (omega arith) some_block)
    ]
  ]

  Held-at : FileOk meta j e → bn < 140 → slot j e (place bn) ≡ a → a ≢ 0 → Held meta e a
  Held-at ok small at ne =
      subst (Held meta e) at (ok.held (place bn) (place_bound bn small) (λ z. ne (sym at ∙ z)))

  FileOk-set_block :
      FileOk meta j e → bn < 140 → slot j e (place bn) ≡ a → a ≢ 0 → FileOk meta j (set_block a x e)
  FileOk-set_block ok small at ne =
      let same = slot-set_block ok small at ne in
      let h : Held meta e a = Held-at ok small at ne in
      let above : meta ≤ a = h.above in
      let inside : a < e.sb.size = h.inside in
      record {
        layout = Layout-set_block meta e a x ok.layout above (omega (arith, above, inside));
        held = λ k lt some_block.
            let g : Held meta e (slot j e k) = ok.held k lt (λ z. some_block (same k ∙ z)) in
            subst (Held meta (set_block a x e)) (sym (same k)) record {
              above = g.above;
              inside = g.inside;
              used = in_use-set_block meta e a x ok.layout above (slot j e k) g.inside ∙ g.used;
            };
        apart = λ k l lt mt some_block eq.
            ok.apart k l lt mt (λ z. some_block (same k ∙ z)) (sym (same k) ∙ eq ∙ same l);
      }

  pub Grown-set_block :
      FileOk meta j e
      → bn < 140
      → slot j e (place bn) ≡ a
      → a ≢ 0
      → Grown meta j e j (set_block a x e)
  Grown-set_block ok small at ne =
      let same = slot-set_block ok small at ne in
      let above : meta ≤ a = (Held-at ok small at ne).above in
      record {
        ok = FileOk-set_block ok small at ne;
        same_sb = refl;
        header = refl;
        kept = λ k lt some_block. same k;
        slots = λ k lt. inl (same k);
        used = λ y lt u. in_use-set_block meta e a x ok.layout above y lt ∙ u;
        frame = λ y lt high u fo.
            set_block_others a y x e (λ s. fo (place bn) (place_bound bn small) (at ∙ s));
      }

  pub content-set_block :
      FileOk meta j e
      → bn < 140
      → slot j e (place bn) ≡ a
      → a ≢ 0
      → (p : ℕ) → p / 512 ≡ bn
      → content j (set_block a x e) p ≡ byte x (p % 512)
  content-set_block ok small at ne p row =
      content-at j (set_block a x e) p a
        (slot-set_block ok small at ne (place (p / 512)) ∙ ap (λ r. slot j e (place r)) row ∙ at) ne
      ∙ ap (λ b. byte b (p % 512)) (write_self e.block a x)

  pub content_others :
      FileOk meta j e
      → bn < 140
      → slot j e (place bn) ≡ a
      → a ≢ 0
      → (p : ℕ) → p < 71680
      → p / 512 ≢ bn
      → content j (set_block a x e) p ≡ content j e p
  content_others ok small at ne p lt row =
      let same = slot-set_block ok small at ne (place (p / 512)) in
      elim (ℕ_discrete (slot j e (place (p / 512))) 0) [
        | yes z ↦ content_hole j (set_block a x e) p (same ∙ z) ∙ sym (content_hole j e p z)
        | no m ↦
            let apart : a ≢ slot j e (place (p / 512)) = λ s. row (
              place_eq _ _ (
                ok.apart (place (p / 512)) (place bn) (place_bound _ (omega arith))
                  (place_bound bn small) m (sym s ∙ sym at))) in
            content-at j (set_block a x e) p (slot j e (place (p / 512))) same m
            ∙ ap (λ b. byte b (p % 512)) (set_block_others a _ x e apart)
            ∙ sym (content-at j e p (slot j e (place (p / 512))) refl m)
      ]
