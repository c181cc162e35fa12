-- ===== src/Vm/Walked.antt =====
-- walkpgdir of xv6-core/vm.c, and the mapping of one page.
use os_lab.Prelude.{
  ℕ, ◌<◌, ◌≤◌, ◌≡◌, ◌≢◌, ◌⊎◌, inl, inr, refl, ap, ◌∙◌, sym, true, false, Option, none, some, List,
  [], ◌∷◌, write, arith, ℕ_discrete, Bool-cases, is_in, distinct,
}
use os_lab.Fs.Words.{write_self, write_ne}
use os_lab.Pages.Defs.{v2p, kalloc}
use os_lab.Vm.Defs.{
  Pte, Perm, no_pte, Memory, Mapping, panics, fails, maps, pdx, ptx, p2v, set_entry, blank_table,
  new_table, walkpgdir, put_page, map_page,
}
use os_lab.Vm.Tables.{
  tab, lookup, Apart, lookup-there, lookup-none, Apart-set_entry, lookup-set_here,
  lookup-set_others,
}

abbrev pub SameLookups : ℕ → Memory → Memory → Type 0
SameLookups pgdir m u = (va : ℕ) → lookup pgdir u va ≡ lookup pgdir m va

-- What `walkpgdir` comes to: a page for the entry of `va`, with nothing mapped or unmapped, or no page is free.
abbrev pub Walked : ℕ → ℕ → Memory → Option ℕ × Memory → Type 0
Walked pgdir va m (none, u) = (u.free ≡ []) × Apart pgdir u × SameLookups pgdir m u
Walked pgdir va m (some t, u) =
    Apart pgdir u
    × SameLookups pgdir m u
    × ((u.table pgdir (pdx va)).present ≡ true)
    × (tab pgdir u (pdx va) ≡ t)

-- A free page becomes a page of entries.
module _ (pgdir va t : ℕ) (rest : List ℕ) (m : Memory) where
  abbrev dir_entry : Pte
  dir_entry = record { addr = v2p t; present = true; writable = true; user = true }

  abbrev grown : Memory
  grown = record {
    free = rest;
    table =
        write (write m.table t (λ k. no_pte)) pgdir
          (write (write m.table t (λ k. no_pte) pgdir) (pdx va) dir_entry);
  }

  back : (2147483648 ≤ t) × (t < 4294967296) → p2v (v2p t) ≡ t
  back (lo, hi) = omega arith

  dir_new : grown.table pgdir (pdx va) ≡ dir_entry
  dir_new =
      ap (λ (f : ℕ → Pte). f (pdx va)) (write_self (write m.table t (λ k. no_pte)) pgdir _)
      ∙ write_self (write m.table t (λ k. no_pte) pgdir) (pdx va) dir_entry

  dir_old : t ≢ pgdir → (k : ℕ) → pdx va ≢ k → grown.table pgdir k ≡ m.table pgdir k
  dir_old ne k far =
      ap (λ (f : ℕ → Pte). f k) (write_self (write m.table t (λ i. no_pte)) pgdir _)
      ∙ write_ne (write m.table t (λ i. no_pte) pgdir) (pdx va) k dir_entry far
      ∙ ap (λ (f : ℕ → Pte). f k) (write_ne m.table t pgdir _ ne)

  blank : t ≢ pgdir → (k : ℕ) → grown.table t k ≡ no_pte
  blank ne k =
      ap (λ (f : ℕ → Pte). f k)
        (write_ne (write m.table t (λ i. no_pte)) pgdir t _ (λ s. ne (sym s)))
      ∙ ap (λ (f : ℕ → Pte). f k) (write_self m.table t _)

  others : (y : ℕ) → pgdir ≢ y → t ≢ y → (k : ℕ) → grown.table y k ≡ m.table y k
  others y far apart k =
      ap (λ (f : ℕ → Pte). f k) (write_ne (write m.table t (λ i. no_pte)) pgdir y _ far)
      ∙ ap (λ (f : ℕ → Pte). f k) (write_ne m.table t y _ apart)

  -- The entries of the directory that are present: the new one and the old.
  tab_cases :
      t ≢ pgdir
      → p2v (v2p t) ≡ t
      → (k : ℕ) → (grown.table pgdir k).present ≡ true
      → ((pdx va ≡ k) × (tab pgdir grown k ≡ t))
        ⊎ ((pdx va ≢ k) × ((m.table pgdir k).present ≡ true) × (tab pgdir grown k ≡ tab pgdir m k))
  tab_cases ne round k p = elim (ℕ_discrete (pdx va) k) [
    | yes s ↦
        inl (s, ap (λ j. tab pgdir grown j) (sym s) ∙ ap (λ (x : Pte). p2v x.addr) dir_new ∙ round)
    | no far ↦
        let same = dir_old ne k far in
        inr (far, sym (ap (λ (x : Pte). x.present) same) ∙ p, ap (λ (x : Pte). p2v x.addr) same)
  ]

  Apart-grown : m.free ≡ t ∷ rest → Apart pgdir m → Apart pgdir grown
  Apart-grown e a =
      let member : (x : ℕ) → is_in x rest ≡ true → is_in x m.free ≡ true =
        λ x i. ap (is_in x) e ∙ ground (arith, i) in
      let first : is_in t m.free ≡ true = ap (is_in t) e ∙ ground arith in
      let once : distinct (t ∷ rest) ≡ true = ap distinct (sym e) ∙ a.free_once in
      let ne : t ≢ pgdir = a.free_dir t first in
      let cases = tab_cases ne (back (a.free_place t first)) in
      record {
        from_dir = λ k lt p q. elim (cases k p) [
          | inl (s, at) ↦ ne (sym at ∙ q)
          | inr (far, old, at) ↦ a.from_dir k lt old (sym at ∙ q)
        ];
        distinct_tables = λ k l kl ll p q s. elim (cases k p) [
          | inl (x, at) ↦ elim (cases l q) [
            | inl (y, al) ↦ sym x ∙ y
            | inr (far, old, al) ↦ absurd (a.free_tables t l first ll old (sym al ∙ sym s ∙ at))
          ]
          | inr (far, old, at) ↦ elim (cases l q) [
            | inl (y, al) ↦ absurd (a.free_tables t k first kl old (sym at ∙ s ∙ al))
            | inr (far2, old2, al) ↦ a.distinct_tables k l kl ll old old2 (sym at ∙ s ∙ al)
          ]
        ];
        free_dir = λ x i. a.free_dir x (member x i);
        free_place = λ x i. a.free_place x (member x i);
        free_tables = λ x k i lt p q. elim (cases k p) [
          | inl (s, at) ↦ let same : t ≡ x = sym at ∙ q in ground (arith, once, same, i)
          | inr (far, old, at) ↦ a.free_tables x k (member x i) lt old (sym at ∙ q)
        ];
        free_once = ground (arith, once);
      }

  lookup-grown :
      m.free ≡ t ∷ rest
      → Apart pgdir m
      → (m.table pgdir (pdx va)).present ≡ false
      → SameLookups pgdir m grown
  lookup-grown e a absent vb =
      let first : is_in t m.free ≡ true = ap (is_in t) e ∙ ground arith in
      let ne : t ≢ pgdir = a.free_dir t first in
      let round = back (a.free_place t first) in
      elim (ℕ_discrete (pdx va) (pdx vb)) [
        | yes s ↦
            lookup-there pgdir grown vb t
              (ap (λ k. (grown.table pgdir k).present) (sym s)
                ∙ ap (λ (x : Pte). x.present) dir_new)
              (ap (tab pgdir grown) (sym s) ∙ ap (λ (x : Pte). p2v x.addr) dir_new ∙ round)
            ∙ blank ne (ptx vb)
            ∙ sym (lookup-none pgdir m vb (ap (λ k. (m.table pgdir k).present) (sym s) ∙ absent))
        | no far ↦
            let same = dir_old ne (pdx vb) far in
            elim (Bool-cases ((m.table pgdir (pdx vb)).present)) [
              | inr gone ↦
                  lookup-none pgdir grown vb (ap (λ (x : Pte). x.present) same ∙ gone)
                  ∙ sym (lookup-none pgdir m vb gone)
              | inl there ↦
                  lookup-there pgdir grown vb (tab pgdir m (pdx vb))
                    (ap (λ (x : Pte). x.present) same ∙ there) (ap (λ (x : Pte). p2v x.addr) same)
                  ∙ others (tab pgdir m (pdx vb))
                      (λ q. a.from_dir (pdx vb) (omega arith) there (sym q))
                      (λ q. a.free_tables t (pdx vb) first (omega arith) there (sym q)) (ptx vb)
                  ∙ sym (lookup-there pgdir m vb (tab pgdir m (pdx vb)) there refl)
            ]
      ]

Walked-new :
    (pgdir va : ℕ) (m : Memory)
    → Apart pgdir m
    → (m.table pgdir (pdx va)).present ≡ false
    → (free : List ℕ) → m.free ≡ free
    → Walked pgdir va m (new_table pgdir va m (kalloc free))
unfolding new_table kalloc set_entry blank_table lookup
Walked-new pgdir va m a absent [] e = (
  refl,
  record {
    from_dir = a.from_dir;
    distinct_tables = a.distinct_tables;
    free_dir = λ x i. absurd (cc);
    free_place = λ x i. absurd (cc);
    free_tables = λ x k i lt p q. absurd (cc);
    free_once = refl;
  },
  λ vb. refl,
)
Walked-new pgdir va m a absent (t ∷ rest) e =
    let first : is_in t m.free ≡ true = ap (is_in t) e ∙ ground arith in
    (
      Apart-grown pgdir va t rest m e a,
      lookup-grown pgdir va t rest m e a absent,
      ap (λ (x : Pte). x.present) (dir_new pgdir va t rest m),
      ap (λ (x : Pte). p2v x.addr) (dir_new pgdir va t rest m)
          ∙ back pgdir va t rest m (a.free_place t first),
    )

-- `walkpgdir` with `alloc` set.
pub Walked-walkpgdir :
    (pgdir va : ℕ) (m : Memory) → Apart pgdir m → Walked pgdir va m (walkpgdir pgdir va true m)
unfolding walkpgdir
Walked-walkpgdir pgdir va m a = elim (Bool-cases ((m.table pgdir (pdx va)).present)) [
  | inl there ↦ rw (there) (a, λ vb. refl, there, refl)
  | inr absent ↦ rw (absent) (Walked-new pgdir va m a absent m.free refl)
]

abbrev pub entry_of : ℕ → Perm → Pte
entry_of pa perm = record { addr = pa; present = true; writable = perm.writable; user = perm.user }

-- Another address of the same page, or of another one.
abbrev pub SamePage : ℕ → ℕ → Type 0
SamePage a b = (pdx a ≡ pdx b) × (ptx a ≡ ptx b)

abbrev pub OtherPage : ℕ → ℕ → Type 0
OtherPage a b = (pdx a ≢ pdx b) ⊎ (ptx a ≢ ptx b)

-- What the mapping of one page comes to.
abbrev pub MapsPage : ℕ → ℕ → ℕ → Perm → Memory → Mapping → Type 0
MapsPage pgdir a pa perm m panics = (lookup pgdir m a).present ≡ true
MapsPage pgdir a pa perm m (fails u) = (u.free ≡ []) × Apart pgdir u × SameLookups pgdir m u
MapsPage pgdir a pa perm m (maps v) =
    Apart pgdir v
    × ((lookup pgdir m a).present ≡ false)
    × ((b : ℕ) → SamePage a b → lookup pgdir v b ≡ entry_of pa perm)
    × ((b : ℕ) → OtherPage a b → lookup pgdir v b ≡ lookup pgdir m b)

MapsPage-put_page :
    (pgdir a pa : ℕ) (perm : Perm) (m : Memory) (w : Option ℕ × Memory)
    → Walked pgdir a m w
    → MapsPage pgdir a pa perm m (put_page a pa perm w)
unfolding put_page set_entry
MapsPage-put_page pgdir a pa perm m (none, u) (full, apart, same) = (full, apart, same)
MapsPage-put_page pgdir a pa perm m (some t, u) (apart, same, there, at) =
    let here : lookup pgdir m a ≡ u.table t (ptx a) =
      sym (same a) ∙ lookup-there pgdir u a t there at in
    let ne : t ≢ pgdir = λ s. apart.from_dir (pdx a) (omega arith) there (at ∙ s) in
    elim (Bool-cases ((u.table t (ptx a)).present)) [
      | inl taken ↦ rw (taken) (ap (λ (x : Pte). x.present) here ∙ taken)
      | inr fresh_slot ↦ rw (fresh_slot) (
        Apart-set_entry pgdir u a t (entry_of pa perm) ne apart,
        ap (λ (x : Pte). x.present) here ∙ fresh_slot,
        λ b (p, q). lookup-set_here pgdir u a t (entry_of pa perm) ne there at b p q,
        λ b other.
            lookup-set_others pgdir u a t (entry_of pa perm) ne apart there at b other ∙ same b,
      )
    ]

pub MapsPage-map_page :
    (pgdir a pa : ℕ) (perm : Perm) (m : Memory)
    → Apart pgdir m
    → MapsPage pgdir a pa perm m (map_page pgdir a pa perm m)
unfolding map_page
MapsPage-map_page pgdir a pa perm m apart =
    MapsPage-put_page pgdir a pa perm m (walkpgdir pgdir a true m)
      (Walked-walkpgdir pgdir a m apart)
