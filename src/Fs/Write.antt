-- ===== src/Fs/Write.antt =====
-- The loop of writei in xv6-core/fs.c.
use os_lab.Prelude.{
  ℕ, zero, suc, ◌+◌, ◌-◌, ◌/◌, ◌%◌, ◌<◌, ◌≤◌, ◌≡◌, ◌≢◌, ◌⊎◌, inl, refl, ap, ◌∙◌, sym, true, false,
  Option, none, some, ltb, arith, ℕ_discrete, dec_lt,
}
use os_lab.Fs.Defs.{Disk, set_block}
use os_lab.Fs.Inode.{Inode, bmap, chunk, copy_in, write_loop}
use os_lab.Fs.Slots.{slot, place, content, FileOk, place_bound, content-at}
use os_lab.Fs.Grown.{Grown, Grown-refl, Grown-trans, Mapped}
use os_lab.Fs.Bmap.{Maps, bmap_lem}
use os_lab.Fs.Read.{RanOut, Present}
use os_lab.Fs.Overwrite.{
  copy_in_in, copy_in_out, slot-set_block, Grown-set_block, content-set_block, content_others,
}

-- The file's bytes from `off` on are those of `src` from `tot` to `n`, the others what they were.
pub record Wrote (i : Inode) (d : Disk) (tot off n : ℕ) (src : ℕ → ℕ) (j : Inode) (f : Disk)
    : Type 0 where
  pub inside : (p : ℕ) → off ≤ p → p < off + (n - tot) → content j f p ≡ src (tot + (p - off)) % 256
  pub outside :
      (p : ℕ) → (p < off) ⊎ (off + (n - tot) ≤ p) → p < 71680 → content j f p ≡ content i d p
  pub present : Present j f off (off + (n - tot))

Wrote-none :
    (i : Inode) (d : Disk) (tot off n : ℕ) (src : ℕ → ℕ) → n ≤ tot → Wrote i d tot off n src i d
Wrote-none i d tot off n src done = record {
  inside = λ p lo hi. absurd (omega arith);
  outside = λ p w lt. refl;
  present = λ p lo hi. absurd (omega arith);
}

-- What one round does to the file that `bmap` left.
module _ (meta : ℕ) (j : Inode) (e : Disk) (a m tot off n : ℕ) (src : ℕ → ℕ) where
  abbrev after : Disk
  after = set_block a (copy_in src tot (off % 512) m (e.block a)) e

  round_inside :
      m ≡ chunk n tot off
      → tot < n
      → off < 71680
      → FileOk meta j e
      → slot j e (place (off / 512)) ≡ a
      → a ≢ 0
      → (p : ℕ) → off ≤ p
      → p < off + m
      → content j after p ≡ src (tot + (p - off)) % 256
  round_inside size more fits ok at ne p lo hi =
      let row : p / 512 ≡ off / 512 = omega (arith, size) in
      let there : tot + (p % 512 - off % 512) ≡ tot + (p - off) = omega (arith, size) in
      content-set_block meta j e (off / 512) a _ ok (omega arith) at ne p row
      ∙ ap (λ v. v % 256)
          (copy_in_in src tot (off % 512) m (e.block a) (p % 512) (omega (arith, size))
            (omega (arith, size)))
      ∙ ap (λ k. src k % 256) there

  round_outside :
      m ≡ chunk n tot off
      → tot < n
      → off < 71680
      → FileOk meta j e
      → slot j e (place (off / 512)) ≡ a
      → a ≢ 0
      → (p : ℕ) → (p < off) ⊎ (off + m ≤ p)
      → p < 71680
      → content j after p ≡ content j e p
  round_outside size more fits ok at ne p w lt = elim (ℕ_discrete (p / 512) (off / 512)) [
    | yes row ↦
        content-set_block meta j e (off / 512) a _ ok (omega arith) at ne p row
        ∙ ap (λ v. v % 256)
            (copy_in_out src tot (off % 512) m (e.block a) (p % 512) (ground (arith, w, size)))
        ∙ sym (content-at j e p a (ap (λ r. slot j e (place r)) row ∙ at) ne)
    | no other ↦ content_others meta j e (off / 512) a _ ok (omega arith) at ne p lt other
  ]

module _ (meta : ℕ) (i : Inode) (d : Disk) (a m tot off n : ℕ) (src : ℕ → ℕ) (j : Inode)
    (e : Disk) where
  Wrote-step :
      m ≡ chunk n tot off
      → tot < n
      → off + (n - tot) ≤ 71680
      → Mapped meta i d (place (off / 512)) a j e
      → (q : Inode) (f : Disk) → Grown meta j (after meta j e a m tot off n src) q f
      → Wrote j (after meta j e a m tot off n src) (tot + m) (off + m) n src q f
      → Wrote i d tot off n src q f
  Wrote-step size more fits b q f g w =
      let ok = b.grown.ok in
      let mid = after meta j e a m tot off n src in
      let stop : off + m + (n - (tot + m)) ≡ off + (n - tot) = omega (arith, size) in
      record {
        inside = λ p lo hi. elim (dec_lt p (off + m)) [
          | yes now ↦
              w.outside p (inl now) (omega arith)
              ∙ round_inside meta j e a m tot off n src size more (omega arith) ok b.at_slot
                  b.nonzero p lo now
          | no later ↦
              let there : tot + m + (p - (off + m)) ≡ tot + (p - off) = omega arith in
              w.inside p (omega arith) (omega (arith, hi, stop)) ∙ ap (λ k. src k % 256) there
        ];
        outside = λ p v lt.
            w.outside p (ground (arith, v, stop, size)) lt
            ∙ round_outside meta j e a m tot off n src size more (omega arith) ok b.at_slot
                b.nonzero p (ground (arith, v, size)) lt
            ∙ b.same p lt;
        present = λ p lo hi. elim (dec_lt p (off + m)) [
          | yes now ↦
              let row : p / 512 ≡ off / 512 = omega (arith, size) in
              let at : slot j mid (place (p / 512)) ≡ a =
                slot-set_block meta j e (off / 512) a _ ok (omega arith) b.at_slot b.nonzero
                  (place (p / 512))
                ∙ ap (λ r. slot j e (place r)) row
                ∙ b.at_slot in
              let ne : slot j mid (place (p / 512)) ≢ 0 = λ z. b.nonzero (sym at ∙ z) in
              λ z. ne (sym (g.kept (place (p / 512)) (place_bound _ (omega arith)) ne) ∙ z)
          | no later ↦ w.present p (omega arith) (omega (arith, hi, stop))
        ];
      }

-- What the loop promises: the disk ran out of blocks, or all bytes were written.
abbrev pub Writes : ℕ → Inode → Disk → ℕ → ℕ → ℕ → (ℕ → ℕ) → Option (ℕ × Inode × Disk) → Type 0
Writes meta i d tot off n src none = RanOut meta i d
Writes meta i d tot off n src (some (end, j, f)) =
    (end ≡ off + (n - tot)) × Grown meta i d j f × Wrote i d tot off n src j f

module _ (meta : ℕ) (i : Inode) (d : Disk) (m tot off n : ℕ) (src : ℕ → ℕ)
    (rest : ℕ → Inode → Disk → Option (ℕ × Inode × Disk)) where
  Writes-step :
      m ≡ chunk n tot off
      → tot < n
      → off + (n - tot) ≤ 71680
      → (a : ℕ) (j : Inode) (e : Disk) → Mapped meta i d (place (off / 512)) a j e
      → (r : Option (ℕ × Inode × Disk))
      → Writes meta j (after meta j e a m tot off n src) (tot + m) (off + m) n src r
      → Writes meta i d tot off n src r
  Writes-step size more fits a j e b none (q, f, g, scarce) =
      let mid =
        Grown-set_block meta j e (off / 512) a _ b.grown.ok (omega arith) b.at_slot b.nonzero in
      (q, f, Grown-trans meta i d j e q f b.grown (Grown-trans meta j e j _ q f mid g), scarce)
  Writes-step size more fits a j e b (some (end, q, f)) (stop, g, w) =
      let mid =
        Grown-set_block meta j e (off / 512) a _ b.grown.ok (omega arith) b.at_slot b.nonzero in
      (
        stop ∙ omega (arith, size),
        Grown-trans meta i d j e q f b.grown (Grown-trans meta j e j _ q f mid g),
        Wrote-step meta i d a m tot off n src j e size more fits b q f g w,
      )

  Writes-round :
      m ≡ chunk n tot off
      → tot < n
      → off + (n - tot) ≤ 71680
      → FileOk meta i d
      → (r : Option (ℕ × Inode × Disk)) → Maps meta i d (place (off / 512)) r
      → ((a : ℕ) (j : Inode) (e : Disk)
          → FileOk meta j (after meta j e a m tot off n src)
          → Writes meta j (after meta j e a m tot off n src) (tot + m) (off + m) n src (rest a j e))
      → Writes meta i d tot off n src (elim r [ none ↦ none | some (a, j, e) ↦ rest a j e ])
  Writes-round size more fits ok none scarce next = (i, d, Grown-refl meta i d ok, scarce)
  Writes-round size more fits ok (some (a, j, e)) b next =
      let mid =
        Grown-set_block meta j e (off / 512) a _ b.grown.ok (omega arith) b.at_slot b.nonzero in
      Writes-step size more fits a j e b (rest a j e) (next a j e mid.ok)

Writes-done :
    (meta : ℕ) (i : Inode) (d : Disk) (tot off n : ℕ) (src : ℕ → ℕ)
    → n ≤ tot
    → FileOk meta i d
    → Writes meta i d tot off n src (some (off, i, d))
Writes-done meta i d tot off n src done ok =
    (omega arith, Grown-refl meta i d ok, Wrote-none i d tot off n src done)

pub write_loop_lem :
    (meta fuel tot off n : ℕ) (src : ℕ → ℕ) (i : Inode) (d : Disk)
    → n ≤ tot + fuel
    → off + (n - tot) ≤ 71680
    → FileOk meta i d
    → Writes meta i d tot off n src (write_loop fuel tot off n src i d)
unfolding write_loop
write_loop_lem meta zero tot off n src i d enough fits ok =
    let t : ltb tot n ≡ false = ground arith in
    rw (t, write_loop) (Writes-done meta i d tot off n src (omega arith) ok)
write_loop_lem meta (suc fuel) tot off n src i d enough fits ok = elim (dec_lt tot n) [
  | yes more ↦
      let t : ltb tot n ≡ true = ground arith in
      let m = chunk n tot off in
      rw (t, write_loop)
        (Writes-round meta i d (chunk n tot off) tot off n src
          (λ a j e.
            write_loop fuel (tot + chunk n tot off) (off + chunk n tot off) n src j
              (set_block a (copy_in src tot (off % 512) (chunk n tot off) (e.block a)) e))
          refl more fits ok (bmap (off / 512) i d) (bmap_lem meta i d (off / 512) (omega arith) ok)
          (λ a j e.
            write_loop_lem meta fuel (tot + chunk n tot off) (off + chunk n tot off) n src j
              (set_block a (copy_in src tot (off % 512) (chunk n tot off) (e.block a)) e)
              (omega arith) (omega arith)))
  | no done ↦
      let t : ltb tot n ≡ false = ground arith in
      rw (t, write_loop) (Writes-done meta i d tot off n src (omega arith) ok)
]
