-- ===== src/Fs/Bmap.antt =====
-- bmap of xv6-core/fs.c.
use os_lab.Prelude.{
  ℕ, ◌+◌, ◌-◌, ◌*◌, ◌<◌, ◌≤◌, ◌≡◌, ◌≢◌, refl, ap, ◌∙◌, sym, subst, true, false, ◌||◌, Option, none,
  some, ◌==◌, ltb, write, arith, ℕ_discrete, dec_lt,
}
use os_lab.Fs.Defs.{word, Disk, balloc}
use os_lab.Fs.Bitmap.{in_use, AllUsed}
use os_lab.Fs.Alloc.{Allocated, Allocates, Allocates-balloc, in_use-set_block}
use os_lab.Fs.Inode.{Inode, addr, fill_addr, entry, fill_entry, bmap}
use os_lab.Fs.Slots.{slot, place, FileOk, slot-addrs, slot-entry, slot-none}
use os_lab.Fs.Fill.{Held-indirect, Filled-addr, Filled-entry}
use os_lab.Fs.Grown.{Grown-trans, Mapped, Mapped-refl, Mapped-Filled, Scarce}

-- What `bmap` promises: the block of the slot `k`, or a panic for the want of blocks.
abbrev pub Maps : ℕ → Inode → Disk → ℕ → Option (ℕ × Inode × Disk) → Type 0
Maps meta i d k none = Scarce d
Maps meta i d k (some (a, j, e)) = Mapped meta i d k a j e

-- The same of one allocation: it panics when no block is free, and takes at most one.
abbrev Once : ℕ → Inode → Disk → ℕ → Option (ℕ × Inode × Disk) → Type 0
Once meta i d k none = AllUsed d 0 d.sb.size
Once meta i d k (some (a, j, e)) = Mapped meta i d k a j e × (AllUsed e 0 e.sb.size → Scarce d)

-- No block is free.
Scarce-of_full : (d : Disk) → AllUsed d 0 d.sb.size → Scarce d
Scarce-of_full d full y z yl zl yf zf = let u = full y (omega arith) yl in absurd (cc)

-- One was, before `x` was allocated.
Scarce-of_last :
    (meta : ℕ) (d : Disk) (x : ℕ) (e : Disk)
    → Allocated meta d x e
    → AllUsed e 0 e.sb.size
    → Scarce d
Scarce-of_last meta d x e a full y z yl zl yf zf = sym (last y yl yf) ∙ last z zl zf
  where
    last : (y : ℕ) → y < d.sb.size → in_use d y ≡ false → x ≡ y
    last y yl yf =
        let u : in_use e y ≡ true =
          full y (omega arith) (subst (λ s. y < s.size) (sym a.same_sb) yl) in
        let v : in_use e y ≡ ((x == y) || in_use d y) = a.used y yl in ground (arith, u, v, yf)

Once-fill_addr :
    (meta : ℕ) (i : Inode) (d : Disk) (k : ℕ)
    → k < 13
    → FileOk meta i d
    → slot i d k ≡ 0
    → (r : Option (ℕ × Disk)) → Allocates meta d r
    → Once meta i d k (fill_addr k i r)
unfolding fill_addr
Once-fill_addr meta i d k small ok empty none full = full
Once-fill_addr meta i d k small ok empty (some (x, e)) a = (
  Mapped-Filled meta i d k x (record i { addrs = write i.addrs k x }) e ok (omega arith) empty refl
      (Filled-addr meta i d x e k small ok empty a),
  Scarce-of_last meta d x e a,
)

pub Once-addr :
    (meta : ℕ) (i : Inode) (d : Disk) (k : ℕ)
    → k < 13
    → FileOk meta i d
    → Once meta i d k (addr k i d)
unfolding addr
Once-addr meta i d k small ok = elim (ℕ_discrete (i.addrs k) 0) [
  | yes z ↦
      let t : (i.addrs k == 0) ≡ true = ground arith in
      rw (t) (
        Once-fill_addr meta i d k small ok (slot-addrs i d k small ∙ z) (balloc d)
          (Allocates-balloc meta d ok.layout))
  | no ne ↦
      let t : (i.addrs k == 0) ≡ false = ground arith in
      let at : slot i d k ≡ i.addrs k = slot-addrs i d k small in
      rw (t) (
        subst (λ a. Mapped meta i d k a i d) at (Mapped-refl meta i d k ok (λ z. ne (sym at ∙ z))),
        Scarce-of_full d,
      )
]

module _ (meta : ℕ) (i : Inode) (d : Disk) (k : ℕ) where
  Once-fill_entry :
      13 ≤ k
      → k < 141
      → FileOk meta i d
      → i.addrs 12 ≢ 0
      → slot i d k ≡ 0
      → (r : Option (ℕ × Disk)) → Allocates meta d r
      → Once meta i d k (fill_entry (i.addrs 12) (k - 13) i r)
  unfolding fill_entry
  Once-fill_entry low small ok ne empty none full = full
  Once-fill_entry low small ok ne empty (some (x, e)) a = (
    Mapped-Filled meta i d k x i _ ok small empty refl
        (Filled-entry meta i d x e k low small ok ne a),
    λ full. Scarce-of_last meta d x e a (λ y lo hi.
        sym (
          in_use-set_block meta e (i.addrs 12) _ a.layout (Held-indirect meta i d ok ne).above y hi)
        ∙ full y lo hi),
  )

  Once-entry :
      13 ≤ k
      → k < 141
      → FileOk meta i d
      → i.addrs 12 ≢ 0
      → Once meta i d k (entry (k - 13) (some (i.addrs 12, i, d)))
  unfolding entry
  Once-entry low small ok ne =
      let at : slot i d k ≡ word (d.block (i.addrs 12)) (4 * (k - 13)) = slot-entry i d k low ne in
      elim (ℕ_discrete (word (d.block (i.addrs 12)) (4 * (k - 13))) 0) [
        | yes z ↦
            let t : (word (d.block (i.addrs 12)) (4 * (k - 13)) == 0) ≡ true = ground (arith, z) in
            rw (t) (
              Once-fill_entry low small ok ne (at ∙ z) (balloc d)
                (Allocates-balloc meta d ok.layout))
        | no m ↦
            let t : (word (d.block (i.addrs 12)) (4 * (k - 13)) == 0) ≡ false = ground (arith, m) in
            rw (t) (
              subst (λ a. Mapped meta i d k a i d) at
                  (Mapped-refl meta i d k ok (λ z. m (sym at ∙ z))),
              Scarce-of_full d,
            )
      ]

pub Maps-of_Once :
    (meta : ℕ) (i : Inode) (d : Disk) (k : ℕ) (r : Option (ℕ × Inode × Disk))
    → Once meta i d k r
    → Maps meta i d k r
Maps-of_Once meta i d k none full = Scarce-of_full d full
Maps-of_Once meta i d k (some (a, j, e)) (m, last) = m

-- The entry, after the indirect block was found or allocated.
Maps-trans :
    (meta : ℕ) (i : Inode) (d : Disk) (k ib : ℕ) (j : Inode) (e : Disk)
    → Mapped meta i d 12 ib j e × (AllUsed e 0 e.sb.size → Scarce d)
    → (r : Option (ℕ × Inode × Disk)) → Once meta j e k r
    → Maps meta i d k r
Maps-trans meta i d k ib j e (m, last) none full = last full
Maps-trans meta i d k ib j e (m, last) (some (a, q, f)) (n, last_two) = record {
  grown = Grown-trans meta i d j e q f m.grown n.grown;
  at_slot = n.at_slot;
  nonzero = n.nonzero;
  same = λ p lt. n.same p lt ∙ m.same p lt;
}

Maps-indirect :
    (meta : ℕ) (i : Inode) (d : Disk) (k : ℕ)
    → 13 ≤ k
    → k < 141
    → (r : Option (ℕ × Inode × Disk)) → Once meta i d 12 r
    → Maps meta i d k (entry (k - 13) r)
unfolding entry
Maps-indirect meta i d k low small none full = Scarce-of_full d full
Maps-indirect meta i d k low small (some (ib, j, e)) (m, last) =
    let at : ib ≡ j.addrs 12 = sym m.at_slot ∙ slot-addrs j e 12 (omega arith) in
    let n : Once meta j e k (entry (k - 13) (some (j.addrs 12, j, e))) =
      Once-entry meta j e k low small m.grown.ok (λ z. m.nonzero (at ∙ z)) in
    Maps-trans meta i d k ib j e (m, last) (entry (k - 13) (some (ib, j, e)))
      (subst (λ b. Once meta j e k (entry (k - 13) (some (b, j, e)))) (sym at) n)

-- On a well-formed file and below MAXFILE, `bmap` gives the block of a block number, with a zeroed one
-- allocated where there was none. The file reads as before, stays well-formed and keeps its blocks, and the
-- blocks of other files are untouched. It panics only on a disk with at most one free block.
pub bmap_lem :
    (meta : ℕ) (i : Inode) (d : Disk) (bn : ℕ)
    → bn < 140
    → FileOk meta i d
    → Maps meta i d (place bn) (bmap bn i d)
unfolding bmap place
bmap_lem meta i d bn small ok = elim (dec_lt bn 12) [
  | yes direct ↦
      let t : ltb bn 12 ≡ true = ground arith in
      rw (t) (Maps-of_Once meta i d bn (addr bn i d) (Once-addr meta i d bn (omega arith) ok))
  | no high ↦
      let t : ltb bn 12 ≡ false = ground arith in
      let u : ltb (bn - 12) 128 ≡ true = ground arith in
      let there : bn + 1 - 13 ≡ bn - 12 = omega arith in
      rw (t, u)
        (subst (λ n. Maps meta i d (bn + 1) (entry n (addr 12 i d))) there
          (Maps-indirect meta i d (bn + 1) (omega arith) (omega arith) (addr 12 i d)
            (Once-addr meta i d 12 (omega arith) ok)))
]

addr_kept : (i : Inode) (d : Disk) (k : ℕ) → i.addrs k ≢ 0 → addr k i d ≡ some (i.addrs k, i, d)
unfolding addr
addr_kept i d k ne = let t : (i.addrs k == 0) ≡ false = ground arith in rw (t) refl

entry_kept :
    (ib : ℕ) (i : Inode) (d : Disk) (k a : ℕ)
    → word (d.block ib) (4 * k) ≡ a
    → a ≢ 0
    → entry k (some (ib, i, d)) ≡ some (a, i, d)
unfolding entry
entry_kept ib i d k a at ne =
    let t : (word (d.block ib) (4 * k) == 0) ≡ false = ground (arith, at) in
    rw (t) (ap (λ x. some (x, i, d)) at)

-- A file with a block in a slot past the addresses has an indirect block.
indirect_there : (i : Inode) (d : Disk) (k : ℕ) → 13 ≤ k → slot i d k ≢ 0 → i.addrs 12 ≢ 0
indirect_there i d k high ne z = ne (slot-none i d k high z)

-- Where the file has a block, `bmap` gives it and changes nothing.
pub bmap_kept :
    (i : Inode) (d : Disk) (bn : ℕ)
    → bn < 140
    → slot i d (place bn) ≢ 0
    → bmap bn i d ≡ some (slot i d (place bn), i, d)
unfolding bmap place
bmap_kept i d bn small = elim (dec_lt bn 12) [
  | yes direct ↦
      let t : ltb bn 12 ≡ true = ground arith in
      let at : slot i d bn ≡ i.addrs bn = slot-addrs i d bn (omega arith) in
      rw (t) (λ ne. addr_kept i d bn (λ z. ne (at ∙ z)) ∙ ap (λ a. some (a, i, d)) (sym at))
  | no high ↦
      let t : ltb bn 12 ≡ false = ground arith in
      let u : ltb (bn - 12) 128 ≡ true = ground arith in
      let there : bn + 1 - 13 ≡ bn - 12 = omega arith in
      rw (t, u)
        (λ ne.
          let ind = indirect_there i d (bn + 1) (omega arith) ne in
          ap (entry (bn - 12)) (addr_kept i d 12 ind)
          ∙ entry_kept (i.addrs 12) i d (bn - 12) (slot i d (bn + 1))
              (ap (λ n. word (d.block (i.addrs 12)) (4 * n)) (sym there)
                ∙ sym (slot-entry i d (bn + 1) (omega arith) ind))
              ne)
]
