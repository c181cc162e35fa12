-- ===== src/Icache/Counts.antt =====
-- What the calls on the inodes in memory of xv6-core/fs.c do to the counts of references.
use os_lab.Prelude.{
  ℕ, ◌+◌, ◌-◌, ◌<◌, ◌≤◌, ◌≡◌, ◌≢◌, inl, inr, refl, ap, ◌∙◌, sym, subst, true, not, ◌&&◌, ◌||◌,
  Option, none, some, ◌==◌, ltb, write, arith, ℕ_discrete, Bool-cases, Option-cases,
}
use os_lab.Fs.Defs.{Disk}
use os_lab.Fs.Inode.{Inode, itrunc, load_inode}
use os_lab.Fs.Words.{write_self, write_ne}
use os_lab.Locks.Defs.{Sleeplock, acquiresleep, holdingsleep}
use os_lab.Icache.Defs.{
  Entry, Icache, Outcome, panics, sleeps, done, iget, idup, ilock, fill, iunlock, iput, put_ref,
  free_inode,
}
use os_lab.Icache.Scan.{Caches}

-- The cache, the disk, and how many pointers there are to each entry.
pub record World : Type 0 where
  pub cache : Icache
  pub disk : Disk
  pub refs : ℕ → ℕ

-- The calls that processes make, of idup, ilock, iunlock and iput only with a pointer that they hold; between
-- ilock and iunlock they use the inode and the disk as they like.
pub data Step (w v : World) : Type 0 where
  get :
      (dev inum k : ℕ) (u : Icache)
      → iget dev inum w.cache ≡ some (k, u)
      → v.cache ≡ u
      → v.refs ≡ write w.refs k (w.refs k + 1)
      → Step w v
  dup :
      (k j : ℕ) (u : Icache)
      → 0 < w.refs k
      → idup k w.cache ≡ (j, u)
      → v.cache ≡ u
      → v.refs ≡ write w.refs j (w.refs j + 1)
      → Step w v
  lock :
      (pid k : ℕ) (u : Icache)
      → 0 < w.refs k
      → ilock pid k w.cache w.disk ≡ done u
      → v.cache ≡ u
      → v.refs ≡ w.refs
      → Step w v
  unlock :
      (pid k : ℕ) (u : Icache)
      → 0 < w.refs k
      → iunlock pid k w.cache ≡ done u
      → v.cache ≡ u
      → v.refs ≡ w.refs
      → Step w v
  use_inode :
      (k : ℕ) (i : Inode)
      → 0 < w.refs k
      → v.cache ≡ write w.cache k (record (w.cache k) { inode = i })
      → v.refs ≡ w.refs
      → Step w v
  put :
      (pid k : ℕ) (u : Icache)
      → 0 < w.refs k
      → iput pid k w.cache w.disk ≡ done (u, v.disk)
      → v.cache ≡ u
      → v.refs ≡ write w.refs k (w.refs k - 1)
      → Step w v

-- Every pointer is counted, and no inode is cached twice.
pub record Counted (w : World) : Type 0 where
  pub counted : (k : ℕ) → k < 50 → (w.cache k).ref ≡ w.refs k
  pub inside : (k : ℕ) → 50 ≤ k → w.refs k ≡ 0
  pub unique :
      (j k : ℕ)
      → j < 50
      → k < 50
      → 0 < (w.cache j).ref
      → Caches (w.cache j).dev (w.cache j).inum (w.cache k)
      → j ≡ k

-- An entry keeps its inode.
pub record SameEntry (e f : Entry) : Type 0 where
  pub dev : f.dev ≡ e.dev
  pub inum : f.inum ≡ e.inum

-- The call changed the count at `k` to `n`, and no identity.
pub record Counts (c u : Icache) (k n : ℕ) : Type 0 where
  pub at_k : (u k).ref ≡ n
  pub identity : SameEntry (c k) (u k)
  pub others : (j : ℕ) → k ≢ j → u j ≡ c j

pub Counts-write :
    (c : Icache) (k : ℕ) (e : Entry) → SameEntry (c k) e → Counts c (write c k e) k e.ref
Counts-write c k e same = record {
  at_k = ap (λ (x : Entry). x.ref) (write_self c k e);
  identity = subst (SameEntry (c k)) (sym (write_self c k e)) same;
  others = λ j ne. write_ne c k j e ne;
}

-- The same of a call's outcome, if it returns.
abbrev pub Keeps : Icache → ℕ → ℕ → Outcome Icache → Type 0
Keeps c k n panics = Unit {0}
Keeps c k n sleeps = Unit {0}
Keeps c k n (done u) = Counts c u k n

Keeps-fill : (k : ℕ) (l : Sleeplock) (c : Icache) (d : Disk) → Keeps c k ((c k).ref) (fill k l c d)
unfolding fill
Keeps-fill k l c d = elim (Bool-cases (c k).valid) [
  | inl v ↦ rw (v) (Counts-write c k _ record { dev = refl; inum = refl })
  | inr v ↦ elim (Bool-cases ((load_inode (c k).inum d).type == 0)) [
    | inl t ↦ rw (v, t) tt
    | inr t ↦
        rw (v, t)
          (Counts-write c k
            (record (c k) { lock = l; valid = true; inode = load_inode (c k).inum d })
            record { dev = refl; inum = refl })
  ]
]

pub Keeps-ilock : (pid k : ℕ) (c : Icache) (d : Disk) → Keeps c k ((c k).ref) (ilock pid k c d)
unfolding ilock
Keeps-ilock pid k c d = elim (Bool-cases (ltb (c k).ref 1)) [
  | inl t ↦ rw (t) tt
  | inr t ↦ elim (Option-cases (acquiresleep pid (c k).lock)) [
    | inl busy ↦ rw (t, busy) tt
    | inr (l, got) ↦ rw (t, got) (Keeps-fill k l c d)
  ]
]

pub Keeps-iunlock : (pid k : ℕ) (c : Icache) → Keeps c k ((c k).ref) (iunlock pid k c)
unfolding iunlock
Keeps-iunlock pid k c = elim (Bool-cases (not (holdingsleep pid (c k).lock) || ltb (c k).ref 1)) [
  | inl t ↦ rw (t) tt
  | inr t ↦ rw (t) (Counts-write c k _ record { dev = refl; inum = refl })
]

abbrev pub KeepsBoth : Icache → ℕ → ℕ → Outcome (Icache × Disk) → Type 0
KeepsBoth c k n panics = Unit {0}
KeepsBoth c k n sleeps = Unit {0}
KeepsBoth c k n (done (u, e)) = Counts c u k n

-- Freeing the inode leaves what the cache says of its entry, except for `valid`.
abbrev Frees : Entry → Option (Entry × Disk) → Type 0
Frees e none = Unit {0}
Frees e (some (f, g)) = (f.ref ≡ e.ref) × SameEntry e f

Frees-free_inode : (e : Entry) (d : Disk) → Frees e (free_inode e d)
unfolding free_inode
Frees-free_inode e d = elim (Bool-cases (e.valid && (e.inode.nlink == 0) && (e.ref == 1))) [
  | inl t ↦ elim (Option-cases (itrunc e.inode d)) [
    | inl panic ↦ rw (t, panic) tt
    | inr ((j, f), run) ↦ rw (t, run) (refl, record { dev = refl; inum = refl })
  ]
  | inr t ↦ rw (t) (refl, record { dev = refl; inum = refl })
]

KeepsBoth-put_ref :
    (k : ℕ) (c : Icache) (e : Entry)
    → e.ref ≡ (c k).ref
    → SameEntry (c k) e
    → (r : Option (Entry × Disk)) → Frees e r
    → KeepsBoth c k ((c k).ref - 1) (put_ref k c r)
unfolding put_ref
KeepsBoth-put_ref k c e count same none y = tt
KeepsBoth-put_ref k c e count same (some (f, g)) (ref, kept) =
    subst (Counts c _ k) (ap (λ n. n - 1) (ref ∙ count))
      (Counts-write c k _ record { dev = kept.dev ∙ same.dev; inum = kept.inum ∙ same.inum })

pub KeepsBoth-iput :
    (pid k : ℕ) (c : Icache) (d : Disk) → KeepsBoth c k ((c k).ref - 1) (iput pid k c d)
unfolding iput
KeepsBoth-iput pid k c d = elim (Option-cases (acquiresleep pid (c k).lock)) [
  | inl busy ↦ rw (busy, iput) tt
  | inr (l, got) ↦
      rw (got, iput)
        (KeepsBoth-put_ref k c (record (c k) { lock = l }) refl record { dev = refl; inum = refl } _
          (Frees-free_inode (record (c k) { lock = l }) d))
]

-- A call that changes the count of the entry `k` as it changes the pointers to it keeps the invariant.
pub Counted-Counts :
    (w v : World) (k n : ℕ)
    → Counted w
    → Counts w.cache v.cache k n
    → k < 50
    → (0 < n → 0 < (w.cache k).ref)
    → n ≡ v.refs k
    → ((j : ℕ) → k ≢ j → v.refs j ≡ w.refs j)
    → Counted v
Counted-Counts w v k n inv c small live refs other = record {
  counted = λ j lt. elim (ℕ_discrete k j) [
    | yes s ↦ subst (λ i. (v.cache i).ref ≡ v.refs i) s (c.at_k ∙ refs)
    | no ne ↦ ap (λ (e : Entry). e.ref) (c.others j ne) ∙ inv.counted j lt ∙ sym (other j ne)
  ];
  inside = λ j le. other j (λ s. omega (arith, s)) ∙ inv.inside j le;
  unique = λ j l jl ll used same. inv.unique j l jl ll (was_used j used) record {
    used = was_used l same.used;
    dev_lem = sym (kept_dev l) ∙ same.dev_lem ∙ kept_dev j;
    inum_lem = sym (kept_inum l) ∙ same.inum_lem ∙ kept_inum j;
  };
}
  where
    was_used : (j : ℕ) → 0 < (v.cache j).ref → 0 < (w.cache j).ref
    was_used j u = elim (ℕ_discrete k j) [
      | yes s ↦
          subst (λ i. 0 < (w.cache i).ref) s
            (live (subst (λ m. 0 < m) (ap (λ i. (v.cache i).ref) (sym s) ∙ c.at_k) u))
      | no ne ↦ subst (λ m. 0 < m) (ap (λ (e : Entry). e.ref) (c.others j ne)) u
    ]

    kept_dev : (j : ℕ) → (v.cache j).dev ≡ (w.cache j).dev
    kept_dev j = elim (ℕ_discrete k j) [
      | yes s ↦ subst (λ i. (v.cache i).dev ≡ (w.cache i).dev) s c.identity.dev
      | no ne ↦ ap (λ (e : Entry). e.dev) (c.others j ne)
    ]

    kept_inum : (j : ℕ) → (v.cache j).inum ≡ (w.cache j).inum
    kept_inum j = elim (ℕ_discrete k j) [
      | yes s ↦ subst (λ i. (v.cache i).inum ≡ (w.cache i).inum) s c.identity.inum
      | no ne ↦ ap (λ (e : Entry). e.inum) (c.others j ne)
    ]
