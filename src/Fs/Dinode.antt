-- ===== src/Fs/Dinode.antt =====
-- The inodes on the disk of xv6-core/fs.c: iupdate, and what ilock reads after it.
use os_lab.Prelude.{
  ℕ, zero, suc, ◌+◌, ◌*◌, ◌^◌, ◌<◌, ◌≤◌, ◌≡◌, ◌⊎◌, inl, inr, refl, ap, ◌∙◌, sym, subst, write,
  arith, ℕ_discrete,
}
use os_lab.Fs.Defs.{Block, word, Disk}
use os_lab.Fs.Inode.{
  Inode, half, put_half, put_word, put_addrs, put_dinode, iupdate, load_inode, iblock, ioffset,
}
use os_lab.Fs.Words.{
  write_self, half-put_half, half-put_half-Apart, half-put_word-Apart, word-put_word-Apart,
  word-put_word,
}

-- The fields fit their C types.
pub record Fits (i : Inode) : Type 0 where
  pub type : i.type < 65536
  pub major : i.major < 65536
  pub minor : i.minor < 65536
  pub nlink : i.nlink < 65536
  pub size : i.size < 2 ^ 32
  pub addrs : (k : ℕ) → k < 13 → i.addrs k < 2 ^ 32

-- The inodes agree on what the disk keeps.
pub record SameInode (i j : Inode) : Type 0 where
  pub inum : i.inum ≡ j.inum
  pub type : i.type ≡ j.type
  pub major : i.major ≡ j.major
  pub minor : i.minor ≡ j.minor
  pub nlink : i.nlink ≡ j.nlink
  pub size : i.size ≡ j.size
  pub addrs : (k : ℕ) → k < 13 → i.addrs k ≡ j.addrs k

module _ (b : Block) (o : ℕ) (addrs : ℕ → ℕ) where
  half-put_addrs :
      (n j : ℕ)
      → (j + 2 ≤ o + 12) ⊎ (o + 12 + 4 * n ≤ j)
      → half (put_addrs n b o addrs) j ≡ half b j
  unfolding put_addrs
  half-put_addrs zero j w = refl
  half-put_addrs (suc n) j w =
      half-put_word-Apart (put_addrs n b o addrs) (o + 12 + 4 * n) (addrs n) j (ground (arith, w))
      ∙ half-put_addrs n j (ground (arith, w))

  word-put_addrs_apart :
      (n j : ℕ)
      → (j + 4 ≤ o + 12) ⊎ (o + 12 + 4 * n ≤ j)
      → word (put_addrs n b o addrs) j ≡ word b j
  unfolding put_addrs
  word-put_addrs_apart zero j w = refl
  word-put_addrs_apart (suc n) j w =
      word-put_word-Apart (put_addrs n b o addrs) (o + 12 + 4 * n) (addrs n) j (ground (arith, w))
      ∙ word-put_addrs_apart n j (ground (arith, w))

  word-put_addrs :
      (n k : ℕ) → k < n → addrs k < 2 ^ 32 → word (put_addrs n b o addrs) (o + 12 + 4 * k) ≡ addrs k
  unfolding put_addrs
  word-put_addrs zero k lt fits = absurd (omega arith)
  word-put_addrs (suc n) k lt fits = elim (ℕ_discrete n k) [
    | yes same ↦
        ap
          (λ m. word (put_word (put_addrs n b o addrs) (o + 12 + 4 * n) (addrs n)) (o + 12 + 4 * m))
          (sym same)
        ∙ word-put_word (put_addrs n b o addrs) (o + 12 + 4 * n) (addrs n)
            (subst (λ m. addrs m < 2 ^ 32) (sym same) fits)
        ∙ ap addrs same
    | no ne ↦
        word-put_word-Apart (put_addrs n b o addrs) (o + 12 + 4 * n) (addrs n) (o + 12 + 4 * k)
          (ground arith)
        ∙ word-put_addrs n k (omega arith) fits
  ]

-- What is read from the 64 bytes at `o` of a block, after they were written.
module _ (b : Block) (o : ℕ) (i : Inode) where
  abbrev shorts : Block
  shorts =
      put_half (put_half (put_half (put_half b o i.type) (o + 2) i.major) (o + 4) i.minor) (o + 6)
        i.nlink

  half-put_dinode : (j : ℕ) → (j + 2 ≤ o + 8) → half (put_dinode b o i) j ≡ half shorts j
  unfolding put_dinode
  half-put_dinode j w =
      half-put_addrs (put_word shorts (o + 8) i.size) o i.addrs 13 j (inl (omega arith))
      ∙ half-put_word-Apart shorts (o + 8) i.size j (inr (omega arith))

  type_lem : i.type < 65536 → half (put_dinode b o i) o ≡ i.type
  type_lem f =
      half-put_dinode o (omega arith)
      ∙ half-put_half-Apart _ (o + 6) _ o (inr (omega arith))
      ∙ half-put_half-Apart _ (o + 4) _ o (inr (omega arith))
      ∙ half-put_half-Apart _ (o + 2) _ o (inr (omega arith))
      ∙ half-put_half b o i.type f

  major_lem : i.major < 65536 → half (put_dinode b o i) (o + 2) ≡ i.major
  major_lem f =
      half-put_dinode (o + 2) (omega arith)
      ∙ half-put_half-Apart _ (o + 6) _ (o + 2) (inr (omega arith))
      ∙ half-put_half-Apart _ (o + 4) _ (o + 2) (inr (omega arith))
      ∙ half-put_half _ (o + 2) i.major f

  minor_lem : i.minor < 65536 → half (put_dinode b o i) (o + 4) ≡ i.minor
  minor_lem f =
      half-put_dinode (o + 4) (omega arith)
      ∙ half-put_half-Apart _ (o + 6) _ (o + 4) (inr (omega arith))
      ∙ half-put_half _ (o + 4) i.minor f

  nlink_lem : i.nlink < 65536 → half (put_dinode b o i) (o + 6) ≡ i.nlink
  nlink_lem f = half-put_dinode (o + 6) (omega arith) ∙ half-put_half _ (o + 6) i.nlink f

  size_lem : i.size < 2 ^ 32 → word (put_dinode b o i) (o + 8) ≡ i.size
  unfolding put_dinode
  size_lem f =
      word-put_addrs_apart (put_word shorts (o + 8) i.size) o i.addrs 13 (o + 8) (inl (omega arith))
      ∙ word-put_word shorts (o + 8) i.size f

  addrs_lem :
      (k : ℕ) → k < 13 → i.addrs k < 2 ^ 32 → word (put_dinode b o i) (o + 12 + 4 * k) ≡ i.addrs k
  unfolding put_dinode
  addrs_lem k lt f = word-put_addrs (put_word shorts (o + 8) i.size) o i.addrs 13 k lt f

-- The inode that is read from the disk after `iupdate` is the one that was written.
pub load_inode-iupdate :
    (i : Inode) (d : Disk) → Fits i → SameInode (load_inode i.inum (iupdate i d)) i
unfolding load_inode iupdate
load_inode-iupdate i d f =
    let b = d.block (iblock i.inum d.sb) in
    let o = ioffset i.inum in
    let x = put_dinode b o i in
    let at : write d.block (iblock i.inum d.sb) x (iblock i.inum d.sb) ≡ x =
      write_self d.block _ x in
    record {
      inum = refl;
      type = ap (λ y. half y o) at ∙ type_lem b o i f.type;
      major = ap (λ y. half y (o + 2)) at ∙ major_lem b o i f.major;
      minor = ap (λ y. half y (o + 4)) at ∙ minor_lem b o i f.minor;
      nlink = ap (λ y. half y (o + 6)) at ∙ nlink_lem b o i f.nlink;
      size = ap (λ y. word y (o + 8)) at ∙ size_lem b o i f.size;
      addrs = λ k lt. ap (λ y. word y (o + 12 + 4 * k)) at ∙ addrs_lem b o i k lt (f.addrs k lt);
    }
