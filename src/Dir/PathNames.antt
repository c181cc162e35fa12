-- ===== src/Dir/PathNames.antt =====
-- Path names in xv6-core/fs.c: skipelem, namex, namei and nameiparent. A path is its bytes, without the NUL.
use os_lab.Prelude.{
  ℕ, zero, suc, ◌+◌, Bool, true, false, not, ◌&&◌, Option, none, some, ◌==◌, if◌then◌else◌, List,
  [], ◌∷◌, take, length, get_or, write,
}
use os_lab.Fs.Defs.{Disk}
use os_lab.Fs.Inode.{Devsw}
use os_lab.Icache.Defs.{
  Icache, Outcome, panics, sleeps, done, iget, idup, ilock, iunlock, iunlockput, iput,
}
use os_lab.Dir.Defs.{Name, t_dir, dirsiz, dirlookup}

-- `'/'`
abbrev pub slash : ℕ
slash = 47

unfoldable pub skip_slashes : List ℕ → List ℕ
skip_slashes [] = []
skip_slashes (x ∷ xs) = if x == slash then skip_slashes xs else x ∷ xs

-- The bytes up to a slash or the end, and what follows.
unfoldable pub element : List ℕ → List ℕ
element [] = []
element (x ∷ xs) = if x == slash then [] else x ∷ element xs

unfoldable pub after_element : List ℕ → List ℕ
after_element [] = []
after_element (x ∷ xs) = if x == slash then x ∷ xs else after_element xs

unfoldable pub next_element : List ℕ → Option (List ℕ × List ℕ)
next_element [] = none
next_element (x ∷ xs) = some (take dirsiz (element (x ∷ xs)), skip_slashes (after_element (x ∷ xs)))

-- The next element of a path, of at most DIRSIZ bytes, and the rest of the path behind the slashes.
unfoldable pub skipelem : List ℕ → Option (List ℕ × List ℕ)
skipelem path = next_element (skip_slashes path)

-- The buffer of 14 bytes with the element in it, and a NUL if there is room.
unfoldable pub name_of : List ℕ → Name
name_of xs k = get_or xs k 0

-- What follows a call.
unfoldable pub and_then : {A B : Type 0} → Outcome A → (A → Outcome B) → Outcome B
and_then panics f = panics
and_then sleeps f = sleeps
and_then (done a) f = f a

-- An inode that is found, if any, with the last element, the cache and the disk.
abbrev pub Named : Type 0
Named = Option ℕ × Name × Icache × Disk

-- `ip` is given up, locked, and the look-up goes on at the inode that was found, or ends.
unfoldable pub go_on :
    ℕ → ℕ → Name → Option ℕ → Icache → Disk → (ℕ → Icache → Disk → Outcome Named) → Outcome Named
go_on pid k name found c d next =
    and_then (iunlockput pid k c d)
      (λ (u, e). elim found [ none ↦ done (none, name, u, e) | some j ↦ next j u e ])

module _ (devsw : Devsw) where
  -- `dirlookup` in the locked directory of the entry `k`, whose inode is as dirlookup leaves it; `de` is what
  -- stands in its variable.
  unfoldable pub look :
      ℕ → ℕ → Name → (ℕ → ℕ) → Icache → Disk → (ℕ → Icache → Disk → Outcome Named) → Outcome Named
  look pid k name de c d next = elim (dirlookup devsw (c k).dev name de c (c k).inode d) [
    | none ↦ panics
    | some (found, u, i, e) ↦
        let v : Icache = write u k (record (u k) { inode = i }) in
        elim found [
          | none ↦ go_on pid k name none v e next
          | some (j, off) ↦ go_on pid k name (some j) v e next
        ]
  ]

  -- The body of the loop of `namex` at the entry `k`, with the element `name` and the rest of the path.
  unfoldable pub visit :
      ℕ
      → Bool
      → ℕ
      → Name
      → Bool
      → (ℕ → ℕ)
      → Icache
      → Disk
      → (ℕ → Icache → Disk → Outcome Named)
      → Outcome Named
  visit pid parent k name is_last de c d next = and_then (ilock pid k c d) (λ u.
      if not ((u k).inode.type == t_dir)
      then go_on pid k name none u d next
      else (if parent && is_last
          then and_then (iunlock pid k u) (λ v. done (some k, name, v, d))
          else look pid k name de u d next))

  -- The end of the path: `nameiparent` has found no parent.
  unfoldable pub arrive : ℕ → Bool → ℕ → Name → Icache → Disk → Outcome Named
  arrive pid parent k name c d =
      if parent
      then and_then (iput pid k c d) (λ (u, e). done (none, name, u, e))
      else done (some k, name, c, d)

  abbrev pub is_empty : List ℕ → Bool
  is_empty [] = true
  is_empty (x ∷ xs) = false

  -- The loop, on fuel.
  unfoldable pub namex_loop :
      ℕ → ℕ → Bool → ℕ → Name → List ℕ → (ℕ → ℕ) → Icache → Disk → Outcome Named
  namex_loop zero pid parent k name path de c d = panics
  namex_loop (suc n) pid parent k name path de c d = elim (skipelem path) [
    | none ↦ arrive pid parent k name c d
    | some (es, rest) ↦
        visit pid parent k (name_of es) (is_empty rest) de c d
          (λ j u e. namex_loop n pid parent j (name_of es) rest de u e)
  ]

  -- From the root, or the current directory `cwd` of the process. An element makes the path shorter.
  unfoldable pub start_at : ℕ → List ℕ → Icache → Option (ℕ × Icache)
  start_at cwd [] c = some (idup cwd c)
  start_at cwd (x ∷ xs) c = if x == slash then iget 1 1 c else some (idup cwd c)

  unfoldable pub namex : ℕ → ℕ → List ℕ → Bool → Name → (ℕ → ℕ) → Icache → Disk → Outcome Named
  namex pid cwd path parent name de c d = elim (start_at cwd path c) [
    | none ↦ panics
    | some (k, u) ↦ namex_loop (length path + 1) pid parent k name path de u d
  ]

  unfoldable pub namei : ℕ → ℕ → List ℕ → Name → (ℕ → ℕ) → Icache → Disk → Outcome Named
  namei pid cwd path name de c d = namex pid cwd path false name de c d

  unfoldable pub nameiparent : ℕ → ℕ → List ℕ → Name → (ℕ → ℕ) → Icache → Disk → Outcome Named
  nameiparent pid cwd path name de c d = namex pid cwd path true name de c d
