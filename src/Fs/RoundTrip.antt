-- ===== src/Fs/RoundTrip.antt =====
-- readi after writei, in xv6-core/fs.c.
use os_lab.Prelude.{ℕ, ◌+◌, ◌-◌, ◌%◌, ◌<◌, ◌≤◌, ◌≡◌, inr, ap, ◌∙◌, subst, some, min, arith}
use os_lab.Prelude.Int.{ℤ, pos}
use os_lab.Fs.Defs.{Disk}
use os_lab.Fs.Inode.{Inode, Devsw, readi, writei}
use os_lab.Fs.Readi.{Dense, InRange, readi_lem, writei_lem, WritesFile}

module _ (devsw : Devsw) (meta : ℕ) (i : Inode) (off n : ℕ) (d : Disk) where
  -- What `writei` writes to a file without holes, `readi` reads there from the inode and the disk that it
  -- leaves: all `n` bytes, and no place of the reader's buffer past them is touched. Nothing is allocated and
  -- neither the inode nor the disk changes in reading.
  pub readi-writei :
      Dense meta i d
      → InRange i off n
      → off + n ≤ 71680
      → meta ≤ d.sb.size
      → i.inum < d.sb.ninodes
      → (src dst : ℕ → ℕ) {r : ℤ} {j : Inode} {e : Disk}
      → writei devsw i src off n d ≡ some (r, j, e)
      → (out : ℕ → ℕ) × (readi devsw j dst off n e ≡ some (pos n, out, j, e))
        × ((k : ℕ) → k < n → out k ≡ src k % 256)
        × ((k : ℕ) → n ≤ k → out k ≡ dst k)
  readi-writei f (a, b) fits within small src dst {r} {j} {e} run =
      let (ret, size, g, w) =
        subst (WritesFile devsw meta i off n d src) run
          (writei_lem devsw meta i off n d f (a, b) fits within small src) in
      let len : min n (j.size - off) ≡ n = ground (arith, size) in
      let (out, read, c) = readi_lem devsw meta j off n e g (ground (arith, size), b) dst in
      (
        out,
        read ∙ ap (λ m. some (pos m, out, j, e)) len,
        λ k lt.
            c.inside k (omega arith) (omega (arith, len))
            ∙ w.inside (off + (k - 0)) (omega arith) (omega arith)
            ∙ ap (λ m. src m % 256) (omega arith),
        λ k past. c.outside k (inr (omega (arith, len))),
      )
