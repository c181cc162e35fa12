-- ===== src/Files/Refs.antt =====
-- How the calls of xv6-core/file.c change the references that the files owe.
use os_lab.Prelude.{
  ℕ, zero, suc, ◌+◌, ◌-◌, ◌<◌, ◌≤◌, ◌≡◌, ◌⊎◌, inl, inr, refl, ap, ◌∙◌, sym, Option, none, some,
  ◌==◌, arith, ltb, ℕ_discrete, subst, Option-cases, Bool-cases, ◌∷◌, write,
}
use os_lab.Files.Defs.{
  Files, nofile, nproc, nfile, find_free, alloc_at, filealloc, filedup, fileclose, fd_none,
}
use os_lab.Files.Descriptors.{set_fd, find_fd, fd_at, fdalloc}
use os_lab.Files.Count.{holds, total, total-write}

-- Every reference count is the number of descriptors that hold the file, and what a call in progress owes.
pub record Owes (o : ℕ → ℕ) (t : Files) : Type 0 where
  pub counts : (i : ℕ) → t.ref i ≡ total nproc t.ofile i + o i

abbrev pub nothing : ℕ → ℕ
nothing i = 0

-- One reference more, to the file.
abbrev pub also : ℕ → (ℕ → ℕ) → ℕ → ℕ
also f o i = o i + holds (some f) i

find_free-zero : (n i : ℕ) (ref : ℕ → ℕ) {k : ℕ} → find_free n i ref ≡ some k → ref k ≡ 0
unfolding find_free
find_free-zero zero i ref {k} h = absurd (cc)
find_free-zero (suc n) i ref {k} h = elim (Bool-cases (ref i == 0)) [
  | inl free ↦
      let same : i ≡ k = ground (arith, free, h) in
      subst (λ j. ref j ≡ 0) same (ground (arith, free))
  | inr used ↦ find_free-zero n (i + 1) ref {k = k} (ground (arith, used, h))
]

find_fd-free :
    (n fd : ℕ) (r : ℕ → Option ℕ) {k : ℕ} → find_fd n fd r ≡ some k → (k < fd + n) × (r k ≡ none)
unfolding find_fd
find_fd-free zero fd r {k} h = absurd (cc)
find_fd-free (suc n) fd r {k} h = elim (Option-cases (r fd)) [
  | inl free ↦
      let same : fd ≡ k = ground (arith, free, h) in (omega (arith, same), ap r (sym same) ∙ free)
  | inr (f, used) ↦
      let (lt, free) = find_fd-free n (fd + 1) r {k = k} (ground (arith, used, h)) in
      (omega (arith, lt), free)
]

pub bump : (ref : ℕ → ℕ) (f i : ℕ) → write ref f (ref f + 1) i ≡ ref i + holds (some f) i
bump ref f i = elim (ℕ_discrete f i) [
  | yes e ↦ let same : ref f ≡ ref i = ap ref e in ground (arith, same)
  | no ne ↦ ground arith
]

drop_one :
    (ref : ℕ → ℕ) (f i : ℕ) → 1 ≤ ref f → write ref f (ref f - 1) i + holds (some f) i ≡ ref i
drop_one ref f i h = elim (ℕ_discrete f i) [
  | yes e ↦ let same : ref f ≡ ref i = ap ref e in ground (arith, same)
  | no ne ↦ ground arith
]

module _ {o : ℕ → ℕ} {t : Files} (owes : Owes o t) where
  alloc_at-Owes :
      (r : Option ℕ)
      → find_free nfile 0 t.ref ≡ r
      → (alloc_at t r ≡ none)
        ⊎ ((f : ℕ) × (u : Files) × (alloc_at t r ≡ some (f, u)) × Owes (also f o) u)
  unfolding alloc_at
  alloc_at-Owes none e = inl refl
  alloc_at-Owes (some f) e = inr (
    f,
    record t { ref = write t.ref f 1 },
    refl,
    record {
      counts = λ i.
          ground (arith, bump t.ref f i, find_free-zero nfile 0 t.ref {k = f} e, owes.counts i);
    },
  )

  pub filealloc-Owes :
      (filealloc t ≡ none)
      ⊎ ((f : ℕ) × (u : Files) × (filealloc t ≡ some (f, u)) × Owes (also f o) u)
  unfolding filealloc
  filealloc-Owes = alloc_at-Owes (find_free nfile 0 t.ref) refl

  -- A file with a reference can be duplicated.
  pub filedup-Owes :
      (f : ℕ) → 1 ≤ t.ref f → (u : Files) × (filedup f t ≡ some u) × Owes (also f o) u
  unfolding filedup
  filedup-Owes f h = (
    record t { ref = write t.ref f (t.ref f + 1) },
    ground arith,
    record { counts = λ i. ground (arith, bump t.ref f i, owes.counts i) },
  )

  -- A descriptor that is cleared leaves its reference owed.
  pub clear_fd-Owes :
      (p fd f : ℕ)
      → p < nproc
      → fd < nofile
      → t.ofile p fd ≡ some f
      → Owes (also f o) (set_fd p fd none t)
  clear_fd-Owes p fd f lt fl e = record {
    counts = λ i.
        let now = total-write nproc t.ofile p fd i none lt fl in
        let was = ap (λ x. holds x i) e in omega (arith, now, was, owes.counts i);
  }

-- A descriptor that is filled holds its file once more.
module _ (t : Files) (p f : ℕ) (lt : p < nproc) where
  abbrev pub Filled : Option (ℕ × Files) → Type 0
  Filled r =
      (r ≡ none)
      ⊎ ((fd : ℕ) × (u : Files) × (r ≡ some (fd, u))
          × (fd < nofile)
          × (u.ofile p fd ≡ some f)
          × (u.ref ≡ t.ref)
          × ((i : ℕ) → total nproc u.ofile i ≡ total nproc t.ofile i + holds (some f) i))

  fd_at-Filled :
      (r : Option ℕ)
      → ((k : ℕ) → r ≡ some k → (k < nofile) × (t.ofile p k ≡ none))
      → Filled (fd_at p f t r)
  unfolding fd_at
  fd_at-Filled none free = inl refl
  fd_at-Filled (some fd) free =
      let (fl, empty) = free fd refl in
      inr (
        fd,
        set_fd p fd (some f) t,
        refl,
        fl,
        ground arith,
        refl,
        λ i.
            let now = total-write nproc t.ofile p fd i (some f) lt fl in
            let was = ap (λ x. holds x i) empty in omega (arith, now, was),
      )

  pub fdalloc-Filled : Filled (fdalloc p f t)
  unfolding fdalloc
  fdalloc-Filled = fd_at-Filled (find_fd nofile 0 (t.ofile p)) (λ k e.
      let (kl, free) = find_fd-free nofile 0 (t.ofile p) {k = k} e in (omega (arith, kl), free))

-- A call that owes a reference to the file `f` puts it into a descriptor or gives it up.
module _ (o : ℕ → ℕ) {t : Files} (f : ℕ) (owes : Owes (also f o) t) where
  owed : 1 ≤ t.ref f
  owed = ground (arith, owes.counts f)

  pub fileclose-Owes : (u : Files) × (fileclose f t ≡ some u) × (u.ofile ≡ t.ofile) × Owes o u
  unfolding fileclose
  fileclose-Owes = elim (Bool-cases (ltb 0 (t.ref f - 1))) [
    | inl others ↦ (
      record t { ref = write t.ref f (t.ref f - 1) },
      ground (arith, others, owed),
      refl,
      record { counts = λ i. ground (arith, drop_one t.ref f i owed, owes.counts i) },
    )
    | inr last ↦ (
      record t {
        ref = write t.ref f 0;
        kind = write t.kind f fd_none;
        given_up = (f, t.kind f) ∷ t.given_up;
      },
      ground (arith, last, owed),
      refl,
      record { counts = λ i. ground (arith, last, drop_one t.ref f i owed, owes.counts i) },
    )
  ]

  pub fdalloc-Owes :
      (p : ℕ)
      → p < nproc
      → (fdalloc p f t ≡ none)
        ⊎ ((fd : ℕ) × (u : Files) × (fdalloc p f t ≡ some (fd, u))
            × (fd < nofile)
            × (u.ofile p fd ≡ some f)
            × Owes o u)
  fdalloc-Owes p lt = elim (fdalloc-Filled t p f lt) [
    | inl full ↦ inl full
    | inr (fd, u, d, fl, held, same, more) ↦ inr (
      fd,
      u,
      d,
      fl,
      held,
      record { counts = λ i. omega (arith, ap (λ r. r i) same, more i, owes.counts i) },
    )
  ]
