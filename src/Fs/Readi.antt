-- ===== src/Fs/Readi.antt =====
-- readi and writei of xv6-core/fs.c.
use os_lab.Prelude.{
  ℕ, ◌+◌, ◌-◌, ◌/◌, ◌%◌, ◌^◌, ◌<◌, ◌≤◌, ◌≡◌, ◌≢◌, ◌⊎◌, inl, inr, refl, ap, ◌∙◌, sym, subst, true,
  false, ◌&&◌, ◌||◌, Option, none, some, ◌==◌, ltb, if◌then◌else◌, min, arith, dec_lt,
}
use os_lab.Prelude.Int.{ℤ, pos, minus_one}
use os_lab.Fs.Defs.{Disk, Superblock}
use os_lab.Fs.Inode.{
  Inode, Devsw, write_loop, read_end, write_end, bad_range, clip, readi, writei, iupdate,
}
use os_lab.Fs.Slots.{
  slot, place, content, FileOk, place_bound, FileOk-size, content_size, slot_size,
}
use os_lab.Fs.Grown.{Grown}
use os_lab.Fs.Read.{RanOut, Present, Copied, read_loop_kept}
use os_lab.Fs.Write.{Wrote, Writes, write_loop_lem}
use os_lab.Fs.Dinodes.{content-iupdate, slot-iupdate, FileOk-iupdate}

-- A file that is not a device, of at most MAXFILE blocks, with none missing below its size.
pub record Dense (meta : ℕ) (i : Inode) (d : Disk) : Type 0 where
  pub ok : FileOk meta i d
  pub file : i.type ≢ 3
  pub bound : i.size ≤ 71680
  pub present : Present i d 0 i.size

-- A range of bytes that `readi` and `writei` accept.
abbrev pub InRange : Inode → ℕ → ℕ → Type 0
InRange i off n = (off ≤ i.size) × (off + n < 2 ^ 32)

bad_range_in : (i : Inode) (off n : ℕ) → InRange i off n → bad_range off n i ≡ false
bad_range_in i off n (a, b) = ground arith

bad_range_out :
    (i : Inode) (off n : ℕ)
    → off < 2 ^ 32
    → n < 2 ^ 32
    → (i.size < off) ⊎ (2 ^ 32 ≤ off + n)
    → bad_range off n i ≡ true
bad_range_out i off n small few (inl a) = ground arith
bad_range_out i off n small few (inr b) = ground arith

module _ (devsw : Devsw) (meta : ℕ) (i : Inode) (off n : ℕ) (d : Disk) where
  -- `readi` of a file without holes gives min(n, size - off) bytes, those of the file from `off` on, and
  -- changes neither the inode nor the disk; it needs no block and does not panic.
  pub readi_lem :
      Dense meta i d
      → InRange i off n
      → (dst : ℕ → ℕ)
      → (out : ℕ → ℕ) × (readi devsw i dst off n d ≡ some (pos (min n (i.size - off)), out, i, d))
        × Copied i d 0 off (min n (i.size - off)) dst out
  unfolding readi read_end
  readi_lem f (a, b) dst =
      let t : (i.type == 3) ≡ false = let ne : i.type ≢ 3 = f.file in ground arith in
      let u : bad_range off n i ≡ false = bad_range_in i off n (a, b) in
      let c : clip off n i ≡ min n (i.size - off) = ground arith in
      let m = min n (i.size - off) in
      let bound : i.size ≤ 71680 = f.bound in
      let (out, run, copied) =
        read_loop_kept m 0 off m dst i d (omega arith) (omega (arith, bound))
          (λ p lo hi. f.present p (omega arith) (omega arith)) in
      rw (t, u, c, run) (out, refl, copied)

  pub readi_refused :
      i.type ≢ 3
      → off < 2 ^ 32
      → n < 2 ^ 32
      → (i.size < off) ⊎ (2 ^ 32 ≤ off + n)
      → (dst : ℕ → ℕ) → readi devsw i dst off n d ≡ some (minus_one, dst, i, d)
  unfolding readi
  readi_refused ne small few w dst =
      let t : (i.type == 3) ≡ false = ground arith in rw (t, bad_range_out i off n small few w) refl

  -- What `writei` gives in range.
  abbrev pub WritesFile : (ℕ → ℕ) → Option (ℤ × Inode × Disk) → Type 0
  WritesFile src none = RanOut meta i d
  WritesFile src (some (r, j, e)) =
      (r ≡ pos n)
      × (j.size ≡ (if ltb i.size (off + n) then off + n else i.size))
      × Dense meta j e
      × Wrote i d 0 off n src j e

  -- The loop's end, when the size does not change, and when it grows.
  WritesFile-inside :
      (src : ℕ → ℕ) (j : Inode) (e : Disk)
      → Dense meta i d
      → InRange i off n
      → off + n ≤ i.size
      → Grown meta i d j e
      → Wrote i d 0 off n src j e
      → WritesFile src (some (pos n, j, e))
  WritesFile-inside src j e f (a, b) fits g w =
      let t : ltb i.size (off + n) ≡ false = ground arith in
      let size : j.size ≡ i.size = ap (λ (x : Inode). x.size) g.header in
      rw (t) (
        refl,
        size,
        record {
          ok = g.ok;
          file = λ z. f.file (sym (ap (λ (x : Inode). x.type) g.header) ∙ z);
          bound = let v : i.size ≤ 71680 = f.bound in omega (arith, v, size);
          present = λ p lo hi.
              let ne = f.present p lo (omega (arith, hi, size)) in
              let v : i.size ≤ 71680 = f.bound in
              λ z. ne (
                sym (g.kept (place (p / 512)) (place_bound _ (omega (arith, hi, size, v))) ne) ∙ z);
        },
        w,
      )

  WritesFile-Grown :
      (src : ℕ → ℕ) (j : Inode) (e : Disk)
      → Dense meta i d
      → InRange i off n
      → off + n ≤ 71680
      → i.size < off + n
      → meta ≤ d.sb.size
      → i.inum < d.sb.ninodes
      → Grown meta i d j e
      → Wrote i d 0 off n src j e
      → WritesFile src
          (some (pos n, record j { size = off + n }, iupdate (record j { size = off + n }) e))
  WritesFile-Grown src j e f (a, b) fits more within small g w =
      let t : ltb i.size (off + n) ≡ true = ground arith in
      let q : Inode = record j { size = off + n } in
      let inum : j.inum < e.sb.ninodes = omega (
        arith,
        small,
        ap (λ (x : Inode). x.inum) g.header,
        ap (λ (s : Superblock). s.ninodes) g.same_sb,
      ) in
      let ok : FileOk meta q e = FileOk-size meta j e (off + n) g.ok in
      let same : (p : ℕ) → p < 71680 → content q (iupdate q e) p ≡ content j e p =
        λ p lt. content-iupdate meta q q e ok inum p lt ∙ content_size j e (off + n) p in
      let slots : (k : ℕ) → slot q (iupdate q e) k ≡ slot j e k =
        λ k. slot-iupdate meta q q e ok inum k ∙ slot_size j e (off + n) k in
      rw (t) (
        refl,
        refl,
        record {
          ok =
              FileOk-iupdate meta q q e ok
                (omega (arith, within, ap (λ (s : Superblock). s.size) g.same_sb)) inum;
          file = λ z. f.file (sym (ap (λ (x : Inode). x.type) g.header) ∙ z);
          bound = fits;
          present = λ p lo hi. elim (dec_lt p off) [
            | yes early ↦
                let ne = f.present p lo (omega arith) in
                λ z. ne (
                  sym (g.kept (place (p / 512)) (place_bound _ (omega arith)) ne)
                  ∙ sym (slots _)
                  ∙ z)
            | no late ↦ λ z. w.present p (omega arith) (omega (arith, hi)) (sym (slots _) ∙ z)
          ];
        },
        record {
          inside = λ p lo hi. same p (omega arith) ∙ w.inside p lo hi;
          outside = λ p v lt. same p lt ∙ w.outside p v lt;
          present = λ p lo hi z. w.present p lo hi (sym (slots _) ∙ z);
        },
      )

  WritesFile-end :
      (src : ℕ → ℕ)
      → Dense meta i d
      → InRange i off n
      → off + n ≤ 71680
      → meta ≤ d.sb.size
      → i.inum < d.sb.ninodes
      → (r : Option (ℕ × Inode × Disk)) → Writes meta i d 0 off n src r
      → WritesFile src (write_end n r)
  unfolding write_end
  WritesFile-end src f range fits within small none full = full
  WritesFile-end src f (a, b) fits within small (some (end, j, e)) (stop, g, w) =
      let size : j.size ≡ i.size = ap (λ (x : Inode). x.size) g.header in
      let here : end ≡ off + n = omega (arith, stop) in
      subst
        (λ x. WritesFile src (
          if ltb 0 n && ltb j.size x
          then some (pos n, record j { size = x }, iupdate (record j { size = x }) e)
          else some (pos n, j, e)))
        (sym here)
        (elim (dec_lt i.size (off + n)) [
          | yes more ↦
              let t : (ltb 0 n && ltb j.size (off + n)) ≡ true = ground (arith, size) in
              rw (t) (WritesFile-Grown src j e f (a, b) fits more within small g w)
          | no less ↦
              let t : (ltb 0 n && ltb j.size (off + n)) ≡ false = ground (arith, size) in
              rw (t) (WritesFile-inside src j e f (a, b) (omega arith) g w)
        ])

  pub writei_lem :
      Dense meta i d
      → InRange i off n
      → off + n ≤ 71680
      → meta ≤ d.sb.size
      → i.inum < d.sb.ninodes
      → (src : ℕ → ℕ) → WritesFile src (writei devsw i src off n d)
  unfolding writei
  writei_lem f (a, b) fits within small src =
      let t : (i.type == 3) ≡ false = let ne : i.type ≢ 3 = f.file in ground arith in
      let u : bad_range off n i ≡ false = bad_range_in i off n (a, b) in
      let v : ltb 71680 ((off + n) % 2 ^ 32) ≡ false = ground arith in
      rw (t, u, v)
        (WritesFile-end src f (a, b) fits within small (write_loop n 0 off n src i d)
          (write_loop_lem meta n 0 off n src i d (omega arith) (omega arith) f.ok))

  -- `writei` refuses what is out of range, or past MAXFILE blocks, and changes nothing.
  pub writei_refused :
      i.type ≢ 3
      → off < 2 ^ 32
      → n < 2 ^ 32
      → (i.size < off) ⊎ (71680 < off + n)
      → (src : ℕ → ℕ) → writei devsw i src off n d ≡ some (minus_one, i, d)
  unfolding writei
  writei_refused ne small few w src =
      let t : (i.type == 3) ≡ false = ground arith in
      let u : (bad_range off n i || ltb 71680 ((off + n) % 2 ^ 32)) ≡ true = ground (arith, w) in
      rw (t, u) refl
