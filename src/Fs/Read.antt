-- ===== src/Fs/Read.antt =====
-- The loop of readi in xv6-core/fs.c.
use os_lab.Prelude.{
  ℕ, zero, suc, ◌+◌, ◌-◌, ◌/◌, ◌%◌, ◌<◌, ◌≤◌, ◌≡◌, ◌≢◌, ◌⊎◌, inl, inr, refl, ap, ◌∙◌, sym, true,
  false, Option, none, some, ltb, leb, arith, Bool-cases, dec_lt,
}
use os_lab.Fs.Defs.{Block, byte, Disk}
use os_lab.Fs.Inode.{Inode, bmap, chunk, copy_out, read_loop}
use os_lab.Fs.Slots.{slot, place, content, FileOk, content-at}
use os_lab.Fs.Grown.{Grown, Grown-refl, Grown-trans, Mapped, Scarce}
use os_lab.Fs.Bmap.{Maps, bmap_lem, bmap_kept}

pub copy_out_in :
    (b : Block) (o m tot : ℕ) (dst : ℕ → ℕ) (k : ℕ)
    → tot ≤ k
    → k < tot + m
    → copy_out b o m tot dst k ≡ byte b (o + (k - tot))
unfolding copy_out
copy_out_in b o m tot dst k lo hi =
    let t : leb tot k ≡ true = ground arith in
    let u : ltb k (tot + m) ≡ true = ground arith in rw (t, u) refl

pub copy_out_out :
    (b : Block) (o m tot : ℕ) (dst : ℕ → ℕ) (k : ℕ)
    → (k < tot) ⊎ (tot + m ≤ k)
    → copy_out b o m tot dst k ≡ dst k
unfolding copy_out
copy_out_out b o m tot dst k (inl lo) = let t : leb tot k ≡ false = ground arith in rw (t) refl
copy_out_out b o m tot dst k (inr hi) =
    let t : ltb k (tot + m) ≡ false = ground arith in
    rw (t) (elim (Bool-cases (leb tot k)) [ inl h ↦ rw (h) refl | inr h ↦ rw (h) refl ])

-- The disk grew until two blocks could not be allocated.
abbrev pub RanOut : ℕ → Inode → Disk → Type 0
RanOut meta i d = (j : Inode) × (e : Disk) × Grown meta i d j e × Scarce e

-- The places from `tot` to `n` of the buffer hold the file's bytes from `off` on, the others what they held.
pub record Copied (i : Inode) (d : Disk) (tot off n : ℕ) (dst out : ℕ → ℕ) : Type 0 where
  pub inside : (k : ℕ) → tot ≤ k → k < n → out k ≡ content i d (off + (k - tot))
  pub outside : (k : ℕ) → (k < tot) ⊎ (n ≤ k) → out k ≡ dst k

abbrev pub Same : Inode → Disk → Inode → Disk → Type 0
Same i d j e = (p : ℕ) → p < 71680 → content j e p ≡ content i d p

abbrev pub Reads : ℕ → Inode → Disk → ℕ → ℕ → ℕ → (ℕ → ℕ) → Option ((ℕ → ℕ) × Inode × Disk) → Type 0
Reads meta i d tot off n dst none = RanOut meta i d
Reads meta i d tot off n dst (some (out, j, e)) =
    Grown meta i d j e × Same i d j e × Copied i d tot off n dst out

Copied-none :
    (i : Inode) (d : Disk) (tot off n : ℕ) (dst : ℕ → ℕ) → n ≤ tot → Copied i d tot off n dst dst
Copied-none i d tot off n dst done = record {
  inside = λ k lo hi. absurd (omega arith);
  outside = λ k out. refl;
}

-- One round, and the rest.
Copied-step :
    (i : Inode) (d : Disk) (a m tot off n : ℕ) (dst out : ℕ → ℕ) (j : Inode) (e : Disk)
    → m ≡ chunk n tot off
    → tot < n
    → off + (n - tot) ≤ 71680
    → slot j e (place (off / 512)) ≡ a
    → a ≢ 0
    → Same i d j e
    → Copied j e (tot + m) (off + m) n (copy_out (e.block a) (off % 512) m tot dst) out
    → Copied i d tot off n dst out
Copied-step i d a m tot off n dst out j e size more fits at ne same c = record {
  inside = λ k lo hi. elim (dec_lt k (tot + m)) [
    | yes now ↦
        let p = off + (k - tot) in
        let row : p / 512 ≡ off / 512 = omega (arith, size) in
        let column : p % 512 ≡ off % 512 + (k - tot) = omega (arith, size) in
        c.outside k (inl now)
        ∙ copy_out_in (e.block a) (off % 512) m tot dst k lo now
        ∙ ap (byte (e.block a)) (sym column)
        ∙ sym (content-at j e p a (ap (λ r. slot j e (place r)) row ∙ at) ne)
        ∙ same p (omega arith)
    | no later ↦
        let there : off + m + (k - (tot + m)) ≡ off + (k - tot) = omega arith in
        c.inside k (omega arith) hi ∙ ap (content j e) there ∙ same _ (omega arith)
  ];
  outside = λ k w.
      c.outside k (ground (arith, w, size))
      ∙ copy_out_out (e.block a) (off % 512) m tot dst k (ground (arith, w, size));
}

Reads-step :
    (meta : ℕ) (i : Inode) (d : Disk) (a m tot off n : ℕ) (dst : ℕ → ℕ) (j : Inode) (e : Disk)
    → m ≡ chunk n tot off
    → tot < n
    → off + (n - tot) ≤ 71680
    → Mapped meta i d (place (off / 512)) a j e
    → (r : Option ((ℕ → ℕ) × Inode × Disk))
    → Reads meta j e (tot + m) (off + m) n (copy_out (e.block a) (off % 512) m tot dst) r
    → Reads meta i d tot off n dst r
Reads-step meta i d a m tot off n dst j e size more fits b none (q, f, g, scarce) =
    (q, f, Grown-trans meta i d j e q f b.grown g, scarce)
Reads-step meta i d a m tot off n dst j e size more fits b (some (out, q, f)) (g, same, c) = (
  Grown-trans meta i d j e q f b.grown g,
  λ p lt. same p lt ∙ b.same p lt,
  Copied-step i d a m tot off n dst out j e size more fits b.at_slot b.nonzero b.same c,
)

module _ (meta : ℕ) (i : Inode) (d : Disk) (m tot off n : ℕ) (dst : ℕ → ℕ)
    (rest : ℕ → Inode → Disk → Option ((ℕ → ℕ) × Inode × Disk)) where
  Reads-round :
      m ≡ chunk n tot off
      → tot < n
      → off + (n - tot) ≤ 71680
      → FileOk meta i d
      → (r : Option (ℕ × Inode × Disk)) → Maps meta i d (place (off / 512)) r
      → ((a : ℕ) (j : Inode) (e : Disk)
          → FileOk meta j e
          → Reads meta j e
              (tot + m)
              (off + m)
              n
              (copy_out (e.block a) (off % 512) m tot dst)
              (rest a j e))
      → Reads meta i d tot off n dst (elim r [ none ↦ none | some (a, j, e) ↦ rest a j e ])
  Reads-round size more fits ok none scarce next = (i, d, Grown-refl meta i d ok, scarce)
  Reads-round size more fits ok (some (a, j, e)) b next =
      Reads-step meta i d a m tot off n dst j e size more fits b (rest a j e)
        (next a j e b.grown.ok)

Reads-done :
    (meta : ℕ) (i : Inode) (d : Disk) (tot off n : ℕ) (dst : ℕ → ℕ)
    → n ≤ tot
    → FileOk meta i d
    → Reads meta i d tot off n dst (some (dst, i, d))
Reads-done meta i d tot off n dst done ok =
    (Grown-refl meta i d ok, λ p lt. refl, Copied-none i d tot off n dst done)

pub read_loop_lem :
    (meta fuel tot off n : ℕ) (dst : ℕ → ℕ) (i : Inode) (d : Disk)
    → n ≤ tot + fuel
    → off + (n - tot) ≤ 71680
    → FileOk meta i d
    → Reads meta i d tot off n dst (read_loop fuel tot off n dst i d)
unfolding read_loop
read_loop_lem meta zero tot off n dst i d enough fits ok =
    let t : ltb tot n ≡ false = ground arith in
    rw (t, read_loop) (Reads-done meta i d tot off n dst (omega arith) ok)
read_loop_lem meta (suc fuel) tot off n dst i d enough fits ok = elim (dec_lt tot n) [
  | yes more ↦
      let t : ltb tot n ≡ true = ground arith in
      rw (t, read_loop)
        (Reads-round meta i d (chunk n tot off) tot off n dst
          (λ a j e.
            read_loop fuel (tot + chunk n tot off) (off + chunk n tot off) n
              (copy_out (e.block a) (off % 512) (chunk n tot off) tot dst) j e)
          refl more fits ok (bmap (off / 512) i d) (bmap_lem meta i d (off / 512) (omega arith) ok)
          (λ a j e.
            read_loop_lem meta fuel (tot + chunk n tot off) (off + chunk n tot off) n
              (copy_out (e.block a) (off % 512) (chunk n tot off) tot dst) j e (omega arith)
              (omega arith)))
  | no done ↦
      let t : ltb tot n ≡ false = ground arith in
      rw (t, read_loop) (Reads-done meta i d tot off n dst (omega arith) ok)
]

-- The file has a block for every byte from `off` up to `end`.
abbrev pub Present : Inode → Disk → ℕ → ℕ → Type 0
Present i d off end = (p : ℕ) → off ≤ p → p < end → slot i d (place (p / 512)) ≢ 0

-- Where no block is missing, reading changes nothing and cannot fail.
pub read_loop_kept :
    (fuel tot off n : ℕ) (dst : ℕ → ℕ) (i : Inode) (d : Disk)
    → n ≤ tot + fuel
    → off + (n - tot) ≤ 71680
    → Present i d off (off + (n - tot))
    → (out : ℕ → ℕ) × (read_loop fuel tot off n dst i d ≡ some (out, i, d))
      × Copied i d tot off n dst out
unfolding read_loop
read_loop_kept zero tot off n dst i d enough fits here =
    let t : ltb tot n ≡ false = ground arith in
    rw (t, read_loop) (dst, refl, Copied-none i d tot off n dst (omega arith))
read_loop_kept (suc fuel) tot off n dst i d enough fits here = elim (dec_lt tot n) [
  | yes more ↦
      let t : ltb tot n ≡ true = ground arith in
      let m = chunk n tot off in
      let a = slot i d (place (off / 512)) in
      let ne : a ≢ 0 = here off (omega arith) (omega arith) in
      let (out, run, c) =
        read_loop_kept fuel (tot + m) (off + m) n (copy_out (d.block a) (off % 512) m tot dst) i d
          (omega arith) (omega arith) (λ p lo hi. here p (omega arith) (omega arith)) in
      rw (t, read_loop, bmap_kept i d (off / 512) (omega arith) ne)
        (
          out,
          run,
          Copied-step i d a m tot off n dst out i d refl more fits refl ne (λ p lt. refl) c,
        )
  | no done ↦
      let t : ltb tot n ≡ false = ground arith in
      rw (t, read_loop) (dst, refl, Copied-none i d tot off n dst (omega arith))
]
