-- ===== src/Log/Writes.antt =====
-- What the loops of log.c do to the disk, block by block, however many writes are left.
use os_lab.Prelude.{
  ℕ, ◌+◌, ◌-◌, ◌<◌, ◌≤◌, ◌≡◌, ◌≢◌, ◌⊎◌, inl, inr, refl, ap, ◌∙◌, sym, Bool, true, false, ◌||◌,
  Option, none, List, [], ◌∷◌, ◌==◌, arith, length, ℕ_discrete, subst, Bool-cases,
}
use os_lab.Log.Defs.{Block, logsize, Machine, bread, bwrite, install_trans, write_log}

abbrev pub is_in : ℕ → List ℕ → Bool
is_in c [] = false
is_in c (b ∷ bs) = b == c || is_in c bs

pub bwrite-stopped : (m : Machine) (b : ℕ) (x : Block) → m.writes_left ≡ 0 → bwrite m b x ≡ m
unfolding bwrite
bwrite-stopped m b x h = ground arith

module _ (m : Machine) (b : ℕ) (x : Block) where
  pub left-bwrite : (bwrite m b x).writes_left ≡ m.writes_left - 1
  unfolding bwrite
  left-bwrite = ground arith

  pub disk-bwrite_ne : (c : ℕ) → b ≢ c → (bwrite m b x).disk c ≡ m.disk c
  unfolding bwrite
  disk-bwrite_ne c h = ground arith

  pub dirty-bwrite_ne : (c : ℕ) → b ≢ c → (bwrite m b x).dirty c ≡ m.dirty c
  unfolding bwrite
  dirty-bwrite_ne c h = ground arith

  pub disk-bwrite_self : 0 < m.writes_left → (bwrite m b x).disk b ≡ x
  unfolding bwrite
  disk-bwrite_self h = ground arith

  pub dirty-bwrite_self : 0 < m.writes_left → (bwrite m b x).dirty b ≡ none
  unfolding bwrite
  dirty-bwrite_self h = ground arith

  pub bread-bwrite_ne : (c : ℕ) → b ≢ c → bread (bwrite m b x) c ≡ bread m c
  unfolding bread bwrite
  bread-bwrite_ne c h = ground arith

pub bread-clean : (m : Machine) (c : ℕ) → m.dirty c ≡ none → bread m c ≡ m.disk c
unfolding bread
bread-clean m c h = ground arith

module _ (start : ℕ) where
  -- Outside the log, which is LOGSIZE blocks from `start` on, as mkfs lays it out: the header and the slots.
  abbrev pub IsHome : ℕ → Type 0
  IsHome c = (c < start) ⊎ (start + logsize ≤ c)

  abbrev pub Homes : List ℕ → Type 0
  Homes [] = Unit
  Homes (b ∷ bs) = IsHome b × Homes bs

  -- Slot after slot, from index `tail` on, holds what `new` gives for each block.
  abbrev pub Slots : (ℕ → Block) → ℕ → List ℕ → (ℕ → Block) → Type 0
  Slots d tail [] new = Unit
  Slots d tail (b ∷ bs) new = (d (start + tail + 1) ≡ new b) × Slots d (tail + 1) bs new

  -- The same, and the cache holds none of them modified.
  abbrev pub CleanSlots : (ℕ → Option Block) → ℕ → List ℕ → Type 0
  CleanSlots d tail [] = Unit
  CleanSlots d tail (b ∷ bs) = (d (start + tail + 1) ≡ none) × CleanSlots d (tail + 1) bs

  pub Slots-frame :
      (d e : ℕ → Block) (tail : ℕ) (bs : List ℕ) (new : ℕ → Block)
      → ((c : ℕ) → start + tail < c → c ≤ start + tail + length bs → e c ≡ d c)
      → Slots d tail bs new
      → Slots e tail bs new
  Slots-frame d e tail [] new same s = tt
  Slots-frame d e tail (b ∷ bs) new same s = (
    same (start + tail + 1) (omega arith) (omega arith) ∙ s.0,
    Slots-frame d e (tail + 1) bs new (λ c lo hi. same c (omega arith) (omega arith)) s.1,
  )

  pub CleanSlots-frame :
      (d e : ℕ → Option Block) (tail : ℕ) (bs : List ℕ)
      → ((c : ℕ) → start + tail < c → e c ≡ d c)
      → CleanSlots d tail bs
      → CleanSlots e tail bs
  CleanSlots-frame d e tail [] same s = tt
  CleanSlots-frame d e tail (b ∷ bs) same s = (
    same (start + tail + 1) (omega arith) ∙ s.0,
    CleanSlots-frame d e (tail + 1) bs (λ c lo. same c (omega arith)) s.1,
  )

  -- write_log touches its slots alone.
  pub disk-write_log :
      (tail : ℕ) (bs : List ℕ) (m : Machine) (c : ℕ)
      → (c ≤ start + tail) ⊎ (start + tail + length bs < c)
      → ((write_log start tail bs m).disk c ≡ m.disk c)
        × ((write_log start tail bs m).dirty c ≡ m.dirty c)
  unfolding write_log
  disk-write_log tail [] m c h = (refl, refl)
  disk-write_log tail (b ∷ bs) m c h =
      let off : start + tail + 1 ≢ c = omega arith in
      let rest =
        disk-write_log (tail + 1) bs (bwrite m (start + tail + 1) (bread m b)) c (outside off h) in
      (
        rest.0 ∙ disk-bwrite_ne m (start + tail + 1) (bread m b) c off,
        rest.1 ∙ dirty-bwrite_ne m (start + tail + 1) (bread m b) c off,
      )
    where
      outside :
          start + tail + 1 ≢ c
          → (c ≤ start + tail) ⊎ (start + tail + length (b ∷ bs) < c)
          → (c ≤ start + (tail + 1)) ⊎ (start + (tail + 1) + length bs < c)
      outside ne (inl lo) = inl (omega arith)
      outside ne (inr hi) = inr (omega arith)

  pub left-write_log :
      (tail : ℕ) (bs : List ℕ) (m : Machine)
      → (write_log start tail bs m).writes_left ≡ m.writes_left - length bs
  unfolding write_log
  left-write_log tail [] m = omega arith
  left-write_log tail (b ∷ bs) m = omega (
    arith,
    left-write_log (tail + 1) bs (bwrite m (start + tail + 1) (bread m b)),
    left-bwrite m (start + tail + 1) (bread m b),
  )

  pub left-install_trans :
      (tail : ℕ) (bs : List ℕ) (m : Machine)
      → (install_trans start tail bs m).writes_left ≡ m.writes_left - length bs
  unfolding install_trans
  left-install_trans tail [] m = omega arith
  left-install_trans tail (b ∷ bs) m = omega (
    arith,
    left-install_trans (tail + 1) bs (bwrite m b (bread m (start + tail + 1))),
    left-bwrite m b (bread m (start + tail + 1)),
  )

  pub install_trans-stopped :
      (tail : ℕ) (bs : List ℕ) (m : Machine) → m.writes_left ≡ 0 → install_trans start tail bs m ≡ m
  unfolding install_trans
  install_trans-stopped tail [] m h = refl
  install_trans-stopped tail (b ∷ bs) m h =
      ap (λ n. install_trans start (tail + 1) bs n)
        (bwrite-stopped m b (bread m (start + tail + 1)) h)
      ∙ install_trans-stopped (tail + 1) bs m h

  -- install_trans touches the blocks of its list alone.
  pub disk-install_trans :
      (tail : ℕ) (bs : List ℕ) (m : Machine) (c : ℕ)
      → is_in c bs ≡ false
      → ((install_trans start tail bs m).disk c ≡ m.disk c)
        × ((install_trans start tail bs m).dirty c ≡ m.dirty c)
  unfolding install_trans
  disk-install_trans tail [] m c h = (refl, refl)
  disk-install_trans tail (b ∷ bs) m c h =
      let off : b ≢ c = ground arith in
      let rest =
        disk-install_trans (tail + 1) bs (bwrite m b (bread m (start + tail + 1))) c
          (ground arith) in
      (
        rest.0 ∙ disk-bwrite_ne m b (bread m (start + tail + 1)) c off,
        rest.1 ∙ dirty-bwrite_ne m b (bread m (start + tail + 1)) c off,
      )

  -- A block outside the log is no slot.
  home_off_slots : (c tail : ℕ) → IsHome c → tail + 1 < logsize → start + tail + 1 ≢ c
  home_off_slots c tail (inl lo) h = omega arith
  home_off_slots c tail (inr hi) h = omega arith

  pub Homes-is_in : (bs : List ℕ) (c : ℕ) → Homes bs → is_in c bs ≡ true → IsHome c
  Homes-is_in [] c h e = absurd (cc)
  Homes-is_in (b ∷ bs) c h e = elim (ℕ_discrete b c) [
    | yes same ↦ subst IsHome same h.0
    | no other ↦ Homes-is_in bs c h.1 (ground arith)
  ]

  -- With enough writes left, write_log fills the slots with what the cache holds of the home blocks.
  pub Slots-write_log :
      (tail : ℕ) (bs : List ℕ) (m : Machine) (new : ℕ → Block)
      → Homes bs
      → tail + length bs < logsize
      → length bs ≤ m.writes_left
      → ((c : ℕ) → IsHome c → bread m c ≡ new c)
      → Slots (write_log start tail bs m).disk tail bs new
        × CleanSlots (write_log start tail bs m).dirty tail bs
  unfolding write_log
  Slots-write_log tail [] m new homes fits left agree = (tt, tt)
  Slots-write_log tail (b ∷ bs) m new homes fits left agree =
      let slot : ℕ = start + tail + 1 in
      let m' : Machine = bwrite m slot (bread m b) in
      let kept = disk-write_log (tail + 1) bs m' slot (inl (omega arith)) in
      let rest =
        Slots-write_log (tail + 1) bs m' new homes.1 (omega arith)
          (omega (arith, left-bwrite m slot (bread m b)))
          (λ c hc.
            bread-bwrite_ne m slot (bread m b) c (home_off_slots c tail hc (omega arith))
            ∙ agree c hc) in
      (
        (kept.0 ∙ disk-bwrite_self m slot (bread m b) (omega arith) ∙ agree b homes.0, rest.0),
        (kept.1 ∙ dirty-bwrite_self m slot (bread m b) (omega arith), rest.1),
      )

  -- Writing a home block keeps the slots.
  Slots-bwrite :
      (m : Machine) (b : ℕ) (x : Block) (tail : ℕ) (bs : List ℕ) (new : ℕ → Block)
      → IsHome b
      → tail + length bs < logsize
      → Slots m.disk tail bs new
      → Slots (bwrite m b x).disk tail bs new
  Slots-bwrite m b x tail [] new h fits s = tt
  Slots-bwrite m b x tail (a ∷ bs) new h fits s = (
    disk-bwrite_ne m b x (start + tail + 1) (λ e. home_off_slots b tail h (omega arith) (sym e))
        ∙ s.0,
    Slots-bwrite m b x (tail + 1) bs new h (omega arith) s.1,
  )

  CleanSlots-bwrite :
      (m : Machine) (b : ℕ) (x : Block) (tail : ℕ) (bs : List ℕ)
      → IsHome b
      → tail + length bs < logsize
      → CleanSlots m.dirty tail bs
      → CleanSlots (bwrite m b x).dirty tail bs
  CleanSlots-bwrite m b x tail [] h fits s = tt
  CleanSlots-bwrite m b x tail (a ∷ bs) h fits s = (
    dirty-bwrite_ne m b x (start + tail + 1) (λ e. home_off_slots b tail h (omega arith) (sym e))
        ∙ s.0,
    CleanSlots-bwrite m b x (tail + 1) bs h (omega arith) s.1,
  )

  -- With enough writes left, install_trans puts into each block of its list what the slots hold.
  pub install_trans-new :
      (tail : ℕ) (bs : List ℕ) (m : Machine) (new : ℕ → Block)
      → Homes bs
      → tail + length bs < logsize
      → length bs ≤ m.writes_left
      → Slots m.disk tail bs new
      → CleanSlots m.dirty tail bs
      → (c : ℕ) → is_in c bs ≡ true
      → (install_trans start tail bs m).disk c ≡ new c
  unfolding install_trans
  install_trans-new tail [] m new homes fits left slots clean c e = absurd (cc)
  install_trans-new tail (b ∷ bs) m new homes fits left slots clean c e =
      let x : Block = bread m (start + tail + 1) in
      let m' : Machine = bwrite m b x in
      elim (Bool-cases (is_in c bs)) [
        | inl again ↦
            install_trans-new (tail + 1) bs m' new homes.1 (omega arith)
              (omega (arith, left-bwrite m b x))
              (Slots-bwrite m b x (tail + 1) bs new homes.0 (omega arith) slots.1)
              (CleanSlots-bwrite m b x (tail + 1) bs homes.0 (omega arith) clean.1) c again
        | inr last ↦
            let here : b ≡ c = ground arith in
            (disk-install_trans (tail + 1) bs m' c last).0
            ∙ ap (λ j. m'.disk j) (sym here)
            ∙ disk-bwrite_self m b x (omega arith)
            ∙ bread-clean m (start + tail + 1) clean.0
            ∙ slots.0
            ∙ ap new here
      ]
