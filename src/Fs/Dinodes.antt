-- ===== src/Fs/Dinodes.antt =====
-- iupdate of xv6-core/fs.c and the other inodes of the disk.
use os_lab.Prelude.{
  ℕ, zero, suc, ◌+◌, ◌-◌, ◌*◌, ◌/◌, ◌%◌, ◌^◌, ◌<◌, ◌≤◌, ◌≡◌, ◌≢◌, ◌⊎◌, refl, ap, ap₂, ◌∙◌, sym,
  subst, write, arith, ℕ_discrete, dec_lt,
}
use os_lab.Fs.Defs.{Block, byte, word, Disk}
use os_lab.Fs.Bitmap.{in_use}
use os_lab.Fs.Alloc.{Layout, set_block_others}
use os_lab.Fs.Inode.{Inode, half, put_addrs, put_dinode, iupdate, load_inode, iblock, ioffset}
use os_lab.Fs.Dinode.{SameInode}
use os_lab.Fs.Fill.{Held-indirect}
use os_lab.Fs.Defs.{has_bit, bblock}
use os_lab.Fs.Words.{write_self, byte-put_half-Apart, byte-put_word-Apart}
use os_lab.Fs.Slots.{
  slot, place, content, Held, FileOk, place_bound, slot-addrs, slot-entry, slot-none, content-at,
  content_hole,
}

byte-put_addrs :
    (b : Block) (o : ℕ) (addrs : ℕ → ℕ) (n j : ℕ)
    → (j < o) ⊎ (o + 12 + 4 * n ≤ j)
    → byte (put_addrs n b o addrs) j ≡ byte b j
unfolding put_addrs
byte-put_addrs b o addrs zero j w = refl
byte-put_addrs b o addrs (suc n) j w =
    byte-put_word-Apart (put_addrs n b o addrs) (o + 12 + 4 * n) (addrs n) j (ground (arith, w))
    ∙ byte-put_addrs b o addrs n j (ground (arith, w))

byte-put_dinode :
    (b : Block) (o : ℕ) (i : Inode) (j : ℕ)
    → (j < o) ⊎ (o + 64 ≤ j)
    → byte (put_dinode b o i) j ≡ byte b j
unfolding put_dinode
byte-put_dinode b o i j w =
    byte-put_addrs _ o i.addrs 13 j (ground (arith, w))
    ∙ byte-put_word-Apart _ (o + 8) i.size j (ground (arith, w))
    ∙ byte-put_half-Apart _ (o + 6) i.nlink j (ground (arith, w))
    ∙ byte-put_half-Apart _ (o + 4) i.minor j (ground (arith, w))
    ∙ byte-put_half-Apart _ (o + 2) i.major j (ground (arith, w))
    ∙ byte-put_half-Apart b o i.type j (ground (arith, w))

-- The 64 bytes of another inode are as before.
pub byte-iupdate :
    (i : Inode) (d : Disk) (n k : ℕ)
    → i.inum ≢ n
    → k < 64
    → byte ((iupdate i d).block (iblock n d.sb)) (ioffset n + k)
      ≡ byte (d.block (iblock n d.sb)) (ioffset n + k)
unfolding iupdate
byte-iupdate i d n k ne small = elim (ℕ_discrete (i.inum / 8) (n / 8)) [
  | yes row ↦
      let same : iblock i.inum d.sb ≡ iblock n d.sb = omega (arith, row) in
      ap
        (λ b.
          byte
            (write d.block (iblock i.inum d.sb)
              (put_dinode (d.block (iblock i.inum d.sb)) (ioffset i.inum) i) b)
            (ioffset n + k))
        (sym same)
      ∙ ap (λ x. byte x (ioffset n + k)) (write_self d.block (iblock i.inum d.sb) _)
      ∙ byte-put_dinode (d.block (iblock i.inum d.sb)) (ioffset i.inum) i (ioffset n + k)
          (ground arith)
      ∙ ap (λ b. byte (d.block b) (ioffset n + k)) same
  | no other ↦
      ap (λ x. byte x (ioffset n + k))
        (set_block_others (iblock i.inum d.sb) (iblock n d.sb) _ d (omega arith))
]

-- The numbers that two blocks hold at `o`, when their bytes there agree.
module _ (x y : Block) (o : ℕ) (h : (k : ℕ) → k < 64 → byte x (o + k) ≡ byte y (o + k)) where
  same_byte : (k j : ℕ) → o + k ≡ j → k < 64 → byte x j ≡ byte y j
  same_byte k j e small = subst (λ z. byte x z ≡ byte y z) e (h k small)

  same_half : (k j : ℕ) → o + k ≡ j → k + 2 ≤ 64 → half x j ≡ half y j
  same_half k j e small =
      ap₂ (λ a b. a + 2 ^ 8 * b) (same_byte k j e (omega arith))
        (same_byte (k + 1) (j + 1) (omega arith) (omega arith))

  same_word : (k j : ℕ) → o + k ≡ j → k + 4 ≤ 64 → word x j ≡ word y j
  same_word k j e small =
      ap₂ (λ a b. a + b)
        (ap₂ (λ a b. a + b) (same_half k j e (omega arith))
          (ap (λ a. 2 ^ 16 * a) (same_byte (k + 2) (j + 2) (omega arith) (omega arith))))
        (ap (λ a. 2 ^ 24 * a) (same_byte (k + 3) (j + 3) (omega arith) (omega arith)))

-- `iupdate` of an inode leaves the others on the disk.
pub load_inode-iupdate_other :
    (i : Inode) (d : Disk) (n : ℕ)
    → i.inum ≢ n
    → SameInode (load_inode n (iupdate i d)) (load_inode n d)
unfolding load_inode iupdate
load_inode-iupdate_other i d n ne =
    let x = (iupdate i d).block (iblock n d.sb) in
    let y = d.block (iblock n d.sb) in
    let o = ioffset n in
    let h : (k : ℕ) → k < 64 → byte x (o + k) ≡ byte y (o + k) =
      λ k small. byte-iupdate i d n k ne small in
    record {
      inum = refl;
      type = same_half x y o h 0 o (omega arith) (omega arith);
      major = same_half x y o h 2 (o + 2) refl (omega arith);
      minor = same_half x y o h 4 (o + 4) refl (omega arith);
      nlink = same_half x y o h 6 (o + 6) refl (omega arith);
      size = same_word x y o h 8 (o + 8) refl (omega arith);
      addrs = λ k lt. same_word x y o h (12 + 4 * k) (o + 12 + 4 * k) (omega arith) (omega arith);
    }

-- The file itself is as before: its blocks lie above the reserved ones.
module _ (meta : ℕ) (i j : Inode) (d : Disk) where
  iupdate_sb : (iupdate i d).sb ≡ d.sb
  unfolding iupdate
  iupdate_sb = refl

  iupdate_others : (y : ℕ) → iblock i.inum d.sb ≢ y → (iupdate i d).block y ≡ d.block y
  unfolding iupdate
  iupdate_others y ne = set_block_others (iblock i.inum d.sb) y _ d ne

  pub in_use-iupdate :
      Layout meta d
      → i.inum < d.sb.ninodes
      → (y : ℕ) → y < d.sb.size
      → in_use (iupdate i d) y ≡ in_use d y
  unfolding in_use iupdate
  in_use-iupdate l small y lt =
      ap (λ b. has_bit b (y % 4096))
        (set_block_others (iblock i.inum d.sb) (bblock y d) _ d (l.disjoint i.inum y small lt))

  pub above_iblock :
      Layout meta d → i.inum < d.sb.ninodes → (y : ℕ) → meta ≤ y → (iupdate i d).block y ≡ d.block y
  above_iblock l small y high =
      let low : iblock i.inum d.sb < meta = l.inodes i.inum small in
      iupdate_others y (λ s. omega (arith, low, high, s))

  pub slot-iupdate :
      FileOk meta j d → i.inum < d.sb.ninodes → (k : ℕ) → slot j (iupdate i d) k ≡ slot j d k
  slot-iupdate ok small k = elim (dec_lt k 13) [
    | yes direct ↦ slot-addrs j (iupdate i d) k direct ∙ sym (slot-addrs j d k direct)
    | no high ↦ elim (ℕ_discrete (j.addrs 12) 0) [
      | yes z ↦ slot-none j (iupdate i d) k (omega arith) z ∙ sym (slot-none j d k (omega arith) z)
      | no ne ↦
          slot-entry j (iupdate i d) k (omega arith) ne
          ∙ ap (λ b. word b (4 * (k - 13)))
              (above_iblock ok.layout small (j.addrs 12) (Held-indirect meta j d ok ne).above)
          ∙ sym (slot-entry j d k (omega arith) ne)
    ]
  ]

  pub content-iupdate :
      FileOk meta j d
      → i.inum < d.sb.ninodes
      → (p : ℕ) → p < 71680
      → content j (iupdate i d) p ≡ content j d p
  content-iupdate ok small p lt =
      let same = slot-iupdate ok small (place (p / 512)) in
      elim (ℕ_discrete (slot j d (place (p / 512))) 0) [
        | yes z ↦ content_hole j (iupdate i d) p (same ∙ z) ∙ sym (content_hole j d p z)
        | no ne ↦
            let h : Held meta d (slot j d (place (p / 512))) =
              ok.held _ (place_bound _ (omega arith)) ne in
            content-at j (iupdate i d) p _ same ne
            ∙ ap (λ b. byte b (p % 512)) (above_iblock ok.layout small _ h.above)
            ∙ sym (content-at j d p _ refl ne)
      ]

  Layout-iupdate :
      Layout meta d → meta ≤ d.sb.size → i.inum < d.sb.ninodes → Layout meta (iupdate i d)
  unfolding iupdate
  Layout-iupdate l within small = record {
    reserved = λ y lo hi. in_use-iupdate l small y (omega arith) ∙ l.reserved y lo hi;
    bitmap = l.bitmap;
    inodes = l.inodes;
    disjoint = l.disjoint;
    positive = l.positive;
    word_size = l.word_size;
  }

  pub FileOk-iupdate :
      FileOk meta j d → meta ≤ d.sb.size → i.inum < d.sb.ninodes → FileOk meta j (iupdate i d)
  FileOk-iupdate ok within small =
      let same = slot-iupdate ok small in
      record {
        layout = Layout-iupdate ok.layout within small;
        held = λ k lt ne.
            let h : Held meta d (slot j d k) = ok.held k lt (λ z. ne (same k ∙ z)) in
            subst (Held meta (iupdate i d)) (sym (same k)) record {
              above = h.above;
              inside = subst (λ s. slot j d k < s.size) (sym iupdate_sb) h.inside;
              used = in_use-iupdate ok.layout small (slot j d k) h.inside ∙ h.used;
            };
        apart = λ k l lt mt ne eq.
            ok.apart k l lt mt (λ z. ne (same k ∙ z)) (sym (same k) ∙ eq ∙ same l);
      }
