-- ===== src/Dir/Link.antt =====
-- dirlink of xv6-core/fs.c on a directory without holes.
use os_lab.Prelude.{ℕ, ◌*◌, ◌≡◌, refl, some}
use os_lab.Prelude.Int.{minus_one}
use os_lab.Fs.Defs.{Disk}
use os_lab.Fs.Inode.{Inode, Devsw}
use os_lab.Fs.Readi.{Dense}
use os_lab.Icache.Defs.{Icache, done, iget, iput}
use os_lab.Dir.Defs.{refuse, dirlookup, found_inode, Name, link_searched, dirlink}
use os_lab.Dir.Lookup.{first_match, search_dir_lem}

module _ (devsw : Devsw) (meta : ℕ) (i : Inode) (d : Disk) (m : ℕ) (name : Name) (inum : ℕ) where
  -- `dirlink` of a name that is there gives back the reference to its inode and returns -1, with the
  -- directory as it was.
  pub dirlink_refused :
      i.type ≡ 1
      → Dense meta i d
      → 16 * m ≡ i.size
      → (pid dev old off k : ℕ) (de : ℕ → ℕ) (c u v : Icache) (e : Disk)
      → first_match m 0 name i d ≡ some (old, off)
      → iget dev old c ≡ some (k, u)
      → iput pid k u d ≡ done (v, e)
      → dirlink devsw pid dev name inum de c i d ≡ done (minus_one, v, i, e)
  unfolding dirlink dirlookup found_inode link_searched refuse
  dirlink_refused dir f size pid dev old off k de c u v e there got gave =
      let (out, run) = search_dir_lem devsw meta i d m name de dir size f in
      rw (run, there, found_inode, got, link_searched, gave) refl
