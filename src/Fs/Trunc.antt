-- ===== src/Fs/Trunc.antt =====
-- itrunc of xv6-core/fs.c.
use os_lab.Prelude.{
  ℕ, zero, suc, ◌+◌, ◌*◌, ◌<◌, ◌≤◌, ◌≡◌, ◌≢◌, ◌⊎◌, inl, inr, refl, ap, ap₂, ◌∙◌, sym, subst, Bool,
  true, false, ◌&&◌, ◌||◌, some, ◌==◌, ltb, leb, write, arith, ℕ_discrete, dec_lt,
}
use os_lab.Fs.Defs.{Block, word, Disk, Superblock, bfree}
use os_lab.Fs.Bitmap.{in_use}
use os_lab.Fs.Inode.{Inode, free_direct, free_entries, free_indirect, itrunc, iupdate}
use os_lab.Fs.Words.{write_self, write_ne}
use os_lab.Fs.Slots.{slot, Held, FileOk, slot-addrs, slot-entry, slot-none}
use os_lab.Fs.Freeing.{Freeing, Freeing-none, Freeing-skip, Freeing-free, Freeing-widen}
use os_lab.Fs.Dinodes.{in_use-iupdate, above_iblock}

-- The slots below `k`, and the first 12 with the entries below `j`.
abbrev direct_slots : ℕ → ℕ → Bool
direct_slots k l = ltb l k

abbrev entries : ℕ → ℕ → Bool
entries j l = ltb l 12 || (leb 13 l && ltb l (13 + j))

-- The inode `j`, from whose addresses the first `k` were removed.
record Cleared (i : Inode) (k : ℕ) (j : Inode) : Type 0 where
  header : j ≡ record i { addrs = j.addrs }
  zero : (l : ℕ) → l < k → j.addrs l ≡ 0
  rest : (l : ℕ) → k ≤ l → j.addrs l ≡ i.addrs l

Cleared-next :
    (i : Inode) (k : ℕ) (j : Inode)
    → Cleared i k j
    → Cleared i (k + 1) (record j { addrs = write j.addrs k 0 })
Cleared-next i k j c = record {
  header = ap (λ (x : Inode). record x { addrs = write j.addrs k 0 }) c.header;
  zero = λ l lt. elim (ℕ_discrete k l) [
    | yes s ↦ ap (write j.addrs k 0) (sym s) ∙ write_self j.addrs k 0
    | no n ↦ write_ne j.addrs k l 0 n ∙ c.zero l (omega arith)
  ];
  rest = λ l le. write_ne j.addrs k l 0 (omega arith) ∙ c.rest l (omega arith);
}

Cleared-skip : (i : Inode) (k : ℕ) (j : Inode) → Cleared i k j → j.addrs k ≡ 0 → Cleared i (k + 1) j
Cleared-skip i k j c z = record {
  header = c.header;
  zero = λ l lt. elim (ℕ_discrete k l) [
    | yes s ↦ ap j.addrs (sym s) ∙ z
    | no n ↦ c.zero l (omega arith)
  ];
  rest = λ l le. c.rest l (omega arith);
}

free_direct_lem :
    (meta : ℕ) (i : Inode) (d : Disk) (n k : ℕ) (j : Inode) (e : Disk)
    → k + n ≡ 12
    → FileOk meta i d
    → Cleared i k j
    → Freeing meta i d (direct_slots k) e
    → (q : Inode) × (g : Disk) × (free_direct n k j e ≡ some (q, g))
      × Cleared i 12 q
      × Freeing meta i d (direct_slots 12) g
unfolding free_direct
free_direct_lem meta i d zero k j e count ok c f =
    let end : k ≡ 12 = omega (arith, count) in
    (
      j,
      e,
      refl,
      subst (λ m. Cleared i m j) end c,
      subst (λ m. Freeing meta i d (direct_slots m) e) end f,
    )
free_direct_lem meta i d (suc n) k j e count ok c f =
    let at : slot i d k ≡ j.addrs k =
      slot-addrs i d k (omega arith) ∙ sym (c.rest k (omega arith)) in
    let more : (l : ℕ) → l < 141 → direct_slots (k + 1) l ≡ ((k == l) || direct_slots k l) =
      λ l lt. ground arith in
    let todo : direct_slots k k ≡ false = ground arith in
    elim (ℕ_discrete (j.addrs k) 0) [
      | yes z ↦
          let t : (j.addrs k == 0) ≡ true = ground (arith, z) in
          rw (t, free_direct)
            (free_direct_lem meta i d n (k + 1) j e (omega (arith, count)) ok
              (Cleared-skip i k j c z)
              (Freeing-skip meta i d (direct_slots k) (direct_slots (k + 1)) k e more (at ∙ z) f))
      | no ne ↦
          let t : (j.addrs k == 0) ≡ false = ground (arith, ne) in
          let (g, run, next) =
            Freeing-free meta i d (direct_slots k) (direct_slots (k + 1)) k e ok (omega arith) todo
              (λ z. ne (sym at ∙ z)) more f in
          let here : bfree (j.addrs k) e ≡ some g = ap (λ b. bfree b e) (sym at) ∙ run in
          rw (t, free_direct, here)
            (free_direct_lem meta i d n (k + 1) (record j { addrs = write j.addrs k 0 }) g
              (omega (arith, count)) ok (Cleared-next i k j c) next)
    ]

free_entries_lem :
    (meta : ℕ) (i : Inode) (d : Disk) (n j : ℕ) (a : Block) (e : Disk)
    → j + n ≡ 128
    → FileOk meta i d
    → ((l : ℕ) → l < 128 → slot i d (13 + l) ≡ word a (4 * l))
    → Freeing meta i d (entries j) e
    → (g : Disk) × (free_entries n j a e ≡ some g) × Freeing meta i d (entries 128) g
unfolding free_entries
free_entries_lem meta i d zero j a e count ok at f =
    let end : j ≡ 128 = omega (arith, count) in
    (e, refl, subst (λ m. Freeing meta i d (entries m) e) end f)
free_entries_lem meta i d (suc n) j a e count ok at f =
    let here : slot i d (13 + j) ≡ word a (4 * j) = at j (omega arith) in
    let more : (l : ℕ) → l < 141 → entries (j + 1) l ≡ ((13 + j == l) || entries j l) =
      λ l lt. ground arith in
    let todo : entries j (13 + j) ≡ false = ground arith in
    elim (ℕ_discrete (word a (4 * j)) 0) [
      | yes z ↦
          let t : (word a (4 * j) == 0) ≡ true = ground (arith, z) in
          rw (t, free_entries)
            (free_entries_lem meta i d n (j + 1) a e (omega (arith, count)) ok at
              (Freeing-skip meta i d (entries j) (entries (j + 1)) (13 + j) e more (here ∙ z) f))
      | no ne ↦
          let t : (word a (4 * j) == 0) ≡ false = ground (arith, ne) in
          let (g, run, next) =
            Freeing-free meta i d (entries j) (entries (j + 1)) (13 + j) e ok (omega arith) todo
              (λ z. ne (sym here ∙ z)) more f in
          let freed : bfree (word a (4 * j)) e ≡ some g = ap (λ b. bfree b e) (sym here) ∙ run in
          rw (t, free_entries, freed)
            (free_entries_lem meta i d n (j + 1) a g (omega (arith, count)) ok at next)
    ]

abbrev all : ℕ → Bool
all l = true

-- The indirect block with its entries, or nothing.
free_indirect_lem :
    (meta : ℕ) (i : Inode) (d : Disk) (j : Inode) (e : Disk)
    → FileOk meta i d
    → Cleared i 12 j
    → Freeing meta i d (direct_slots 12) e
    → (q : Inode) × (g : Disk) × (free_indirect (some (j, e)) ≡ some (q, g))
      × Cleared i 13 q
      × Freeing meta i d all g
unfolding free_indirect
free_indirect_lem meta i d j e ok c f =
    let ib : j.addrs 12 ≡ i.addrs 12 = c.rest 12 (omega arith) in
    let at : slot i d 12 ≡ j.addrs 12 = slot-addrs i d 12 (omega arith) ∙ sym ib in
    elim (ℕ_discrete (j.addrs 12) 0) [
      | yes z ↦
          let t : (j.addrs 12 == 0) ≡ true = ground (arith, z) in
          let empty : (l : ℕ)
              → l < 141
              → true ≡ true
              → (direct_slots 12 l ≡ true) ⊎ (slot i d l ≡ 0) =
            λ l lt y. elim (dec_lt l 12) [
              | yes low ↦ inl (ground arith)
              | no high ↦ elim (ℕ_discrete 12 l) [
                | yes s ↦ inr (ap (slot i d) (sym s) ∙ at ∙ z)
                | no n ↦ inr (slot-none i d l (omega arith) (sym ib ∙ z))
              ]
            ] in
          rw (t, free_indirect)
            (
              j,
              e,
              refl,
              Cleared-skip i 12 j c z,
              Freeing-widen meta i d (direct_slots 12) all e (λ l lt y. refl) empty f,
            )
      | no ne ↦
          let t : (j.addrs 12 == 0) ≡ false = ground (arith, ne) in
          let there : i.addrs 12 ≢ 0 = λ z. ne (ib ∙ z) in
          let h : Held meta d (slot i d 12) = ok.held 12 (omega arith) (λ z. ne (sym at ∙ z)) in
          let block : e.block (j.addrs 12) ≡ d.block (i.addrs 12) =
            ap e.block (sym at) ∙ f.blocks (slot i d 12) h.above ∙ ap d.block (at ∙ ib) in
          let places : (l : ℕ) → l < 128 → slot i d (13 + l) ≡ word (e.block (j.addrs 12)) (4 * l) =
            λ l lt.
              slot-entry i d (13 + l) (omega arith) there
              ∙ ap₂ (λ b n. word b (4 * n)) (sym block) (omega arith) in
          let start : Freeing meta i d (entries 0) e =
            Freeing-widen meta i d (direct_slots 12) (entries 0) e (λ l lt y. ground (arith, y))
              (λ l lt y. inl (ground (arith, y))) f in
          let (g, run, done) =
            free_entries_lem meta i d 128 0 (e.block (j.addrs 12)) e refl ok places start in
          let more : (l : ℕ) → l < 141 → all l ≡ ((12 == l) || entries 128 l) =
            λ l lt. ground arith in
          let (last, freed, whole) =
            Freeing-free meta i d (entries 128) all 12 g ok (omega arith) (ground arith)
              (λ z. ne (sym at ∙ z)) more done in
          let here : bfree (j.addrs 12) g ≡ some last = ap (λ b. bfree b g) (sym at) ∙ freed in
          rw (t, free_indirect, run, here)
            (record j { addrs = write j.addrs 12 0 }, last, refl, Cleared-next i 12 j c, whole)
    ]

-- What `itrunc` leaves: an empty file, its blocks free, all others as they were.
pub record Truncated (meta : ℕ) (i : Inode) (d : Disk) (j : Inode) (e : Disk) : Type 0 where
  pub header : j ≡ record i { addrs = j.addrs; size = 0 }
  pub zero : (k : ℕ) → k < 13 → j.addrs k ≡ 0
  pub freed : (k : ℕ) → k < 141 → slot i d k ≢ 0 → in_use e (slot i d k) ≡ false
  pub kept :
      (y : ℕ)
      → 0 < y
      → y < d.sb.size
      → ((k : ℕ) → k < 141 → slot i d k ≢ y)
      → in_use e y ≡ in_use d y
  pub others : (y : ℕ) → meta ≤ y → e.block y ≡ d.block y

-- `itrunc` of a well-formed file does not panic: every block of the file is freed once. It leaves an empty inode, and no block of
-- another file changes or becomes free.
pub itrunc_lem :
    (meta : ℕ) (i : Inode) (d : Disk)
    → FileOk meta i d
    → i.inum < d.sb.ninodes
    → (j : Inode) × (e : Disk) × (itrunc i d ≡ some (j, e)) × Truncated meta i d j e
unfolding itrunc
itrunc_lem meta i d ok small =
    let (q, g, run, c, f) =
      free_direct_lem meta i d 12 0 i d refl ok
        record { header = refl; zero = λ l lt. absurd (omega arith); rest = λ l le. refl }
        (Freeing-none meta i d (direct_slots 0) ok.layout (λ k lt. ground arith)) in
    let (r, h, run_all, cleared, whole) = free_indirect_lem meta i d q g ok c f in
    let done : Inode = record r { size = 0 } in
    let inum : done.inum < h.sb.ninodes = omega (
      arith,
      small,
      ap (λ (x : Inode). x.inum) cleared.header,
      ap (λ (s : Superblock). s.ninodes) whole.same_sb,
    ) in
    let sizes : h.sb.size ≡ d.sb.size = ap (λ (s : Superblock). s.size) whole.same_sb in
    rw (run, itrunc, run_all)
      (
        done,
        iupdate done h,
        refl,
        record {
          header = ap (λ (x : Inode). record x { size = 0 }) cleared.header;
          zero = cleared.zero;
          freed = λ k lt ne.
              let inside : slot i d k < d.sb.size = (ok.held k lt ne).inside in
              in_use-iupdate meta done done h whole.layout inum (slot i d k)
                (omega (arith, inside, sizes))
              ∙ whole.freed k lt refl ne;
          kept = λ y pos inside fo.
              in_use-iupdate meta done done h whole.layout inum y (omega (arith, inside, sizes))
              ∙ whole.kept y pos (λ k lt z. fo k lt);
          others = λ y above.
              above_iblock meta done done h whole.layout inum y above ∙ whole.blocks y above;
        },
      )
