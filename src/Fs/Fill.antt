-- ===== src/Fs/Fill.antt =====
-- A new block for an address of an inode of xv6-core/fs.c, and for an entry of its indirect block.
use os_lab.Prelude.{
  ℕ, ◌-◌, ◌*◌, ◌^◌, ◌<◌, ◌≤◌, ◌≡◌, ◌≢◌, refl, ap, ◌∙◌, sym, subst, true, false, write, arith,
  ℕ_discrete, dec_lt,
}
use os_lab.Fs.Defs.{word, Disk, Superblock, zeroed, set_block}
use os_lab.Fs.Bitmap.{in_use}
use os_lab.Fs.Alloc.{Allocated, in_use-set_block, Layout-set_block, set_block_others}
use os_lab.Fs.Inode.{Inode, put_word}
use os_lab.Fs.Words.{write_self, write_ne, word-put_word, word-put_word-Apart}
use os_lab.Fs.Slots.{slot, Held, FileOk, slot-addrs, slot-entry, slot-none}
use os_lab.Fs.Filled.{Filled}

word-zeroed : (k : ℕ) → word zeroed k ≡ 0
word-zeroed k = refl

-- The indirect block, when the inode has one, is in use.
pub Held-indirect :
    (meta : ℕ) (i : Inode) (d : Disk) → FileOk meta i d → i.addrs 12 ≢ 0 → Held meta d (i.addrs 12)
Held-indirect meta i d ok ne =
    let at : slot i d 12 ≡ i.addrs 12 = slot-addrs i d 12 (omega arith) in
    subst (Held meta d) at (ok.held 12 (omega arith) (λ z. ne (sym at ∙ z)))

not_free : (meta : ℕ) (d : Disk) (x y : ℕ) → Held meta d y → in_use d x ≡ false → x ≢ y
not_free meta d x y h free same =
    let u : in_use d y ≡ true = h.used in
    let v : in_use d y ≡ false = ap (in_use d) (sym same) ∙ free in absurd (cc)

module _ (meta : ℕ) (i : Inode) (d : Disk) (x : ℕ) (e : Disk) where
  new_nonzero : FileOk meta i d → Allocated meta d x e → x ≢ 0
  new_nonzero ok a z =
      let low : 0 < meta = ok.layout.positive in
      let high : meta ≤ x = a.above in omega (arith, low, high, z)

  -- The entries are those of before: none, or in an indirect block that has not moved.
  entries_kept :
      (k l : ℕ)
      → 13 ≤ l
      → FileOk meta i d
      → slot i d k ≡ 0
      → k < 13
      → Allocated meta d x e
      → slot (record i { addrs = write i.addrs k x }) e l ≡ slot i d l
  entries_kept k l high ok empty small a =
      let j = record i { addrs = write i.addrs k x } in
      elim (ℕ_discrete k 12) [
        | yes k12 ↦
            let at : j.addrs 12 ≡ x = ap (write i.addrs k x) (sym k12) ∙ write_self i.addrs k x in
            let none_before : i.addrs 12 ≡ 0 =
              sym (slot-addrs i d 12 (omega arith)) ∙ ap (slot i d) (sym k12) ∙ empty in
            slot-entry j e l high (λ z. new_nonzero ok a (sym at ∙ z))
            ∙ ap (λ b. word (e.block b) (4 * (l - 13))) at
            ∙ ap (λ b. word b (4 * (l - 13))) a.zeros
            ∙ sym (slot-none i d l high none_before)
        | no n ↦
            let at : j.addrs 12 ≡ i.addrs 12 = write_ne i.addrs k 12 x n in
            elim (ℕ_discrete (i.addrs 12) 0) [
              | yes z ↦ slot-none j e l high (at ∙ z) ∙ sym (slot-none i d l high z)
              | no ne ↦
                  let h : Held meta d (i.addrs 12) = Held-indirect meta i d ok ne in
                  slot-entry j e l high (λ z. ne (sym at ∙ z))
                  ∙ ap (λ b. word (e.block b) (4 * (l - 13))) at
                  ∙ ap (λ b. word b (4 * (l - 13)))
                      (a.others (i.addrs 12) h.above (not_free meta d x (i.addrs 12) h a.was_free))
                  ∙ sym (slot-entry i d l high ne)
            ]
      ]

  -- A new block for an address of the inode.
  pub Filled-addr :
      (k : ℕ)
      → k < 13
      → FileOk meta i d
      → slot i d k ≡ 0
      → Allocated meta d x e
      → Filled meta i d k x (record i { addrs = write i.addrs k x }) e
  Filled-addr k small ok empty a =
      let j = record i { addrs = write i.addrs k x } in
      record {
        layout = a.layout;
        same_sb = a.same_sb;
        above = a.above;
        inside = a.inside;
        was_free = a.was_free;
        used = a.used;
        new = slot-addrs j e k small ∙ write_self i.addrs k x;
        old = λ l lt ne. elim (dec_lt l 13) [
          | yes low ↦ slot-addrs j e l low ∙ write_ne i.addrs k l x ne ∙ sym (slot-addrs i d l low)
          | no high ↦ entries_kept k l (omega arith) ok empty small a
        ];
        block_new = a.zeros;
        block_old = λ y above ne other. a.others y above ne;
      }

  -- A new block for an entry of the indirect block.
  pub Filled-entry :
      (k : ℕ)
      → 13 ≤ k
      → k < 141
      → FileOk meta i d
      → i.addrs 12 ≢ 0
      → Allocated meta d x e
      → Filled meta i d k x i
          (set_block (i.addrs 12) (put_word (e.block (i.addrs 12)) (4 * (k - 13)) x) e)
  Filled-entry k low small ok some_block a =
      let ib = i.addrs 12 in
      let f : Disk = set_block ib (put_word (e.block ib) (4 * (k - 13)) x) e in
      let at : slot i d 12 ≡ ib = slot-addrs i d 12 (omega arith) in
      let h : Held meta d ib = Held-indirect meta i d ok some_block in
      let other : x ≢ ib = not_free meta d x ib h a.was_free in
      let above : meta ≤ ib = h.above in
      let inside : x < d.sb.size = a.inside in
      let size : x < 2 ^ 32 =
        let w : d.sb.size < 2 ^ 32 = ok.layout.word_size in omega (arith, w, inside) in
      let sizes : e.sb.size ≡ d.sb.size = ap (λ (s : Superblock). s.size) a.same_sb in
      let new_entry : word (f.block ib) (4 * (k - 13)) ≡ x =
        ap (λ b. word b (4 * (k - 13))) (write_self e.block ib _)
        ∙ word-put_word (e.block ib) (4 * (k - 13)) x size in
      let old_entry : (l : ℕ)
          → 13 ≤ l
          → k ≢ l
          → word (f.block ib) (4 * (l - 13)) ≡ word (d.block ib) (4 * (l - 13)) =
        λ l high ne.
          ap (λ b. word b (4 * (l - 13))) (write_self e.block ib _)
          ∙ word-put_word-Apart (e.block ib) (4 * (k - 13)) x (4 * (l - 13)) (ground arith)
          ∙ ap (λ b. word b (4 * (l - 13))) (a.others ib above other) in
      record {
        layout =
            let v : meta ≤ x = a.above in
            Layout-set_block meta e ib _ a.layout above (omega (arith, v, inside, sizes));
        same_sb = a.same_sb;
        above = a.above;
        inside = a.inside;
        was_free = a.was_free;
        used = λ y lt.
            in_use-set_block meta e ib _ a.layout above y (omega (arith, lt, sizes)) ∙ a.used y lt;
        new = slot-entry i f k low some_block ∙ new_entry;
        old = λ l lt ne. elim (dec_lt l 13) [
          | yes direct ↦ slot-addrs i f l direct ∙ sym (slot-addrs i d l direct)
          | no high ↦
              slot-entry i f l (omega arith) some_block
              ∙ old_entry l (omega arith) ne
              ∙ sym (slot-entry i d l (omega arith) some_block)
        ];
        block_new = set_block_others ib x _ e (λ s. other (sym s)) ∙ a.zeros;
        block_old =
            λ y high ne apart. set_block_others ib y _ e (λ s. apart (at ∙ s)) ∙ a.others y high ne;
      }
