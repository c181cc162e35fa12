-- ===== src/Log/Recovery.antt =====
-- Recovery from a crash: what recover_from_log makes of a disk, and that it may be interrupted.
use os_lab.Prelude.{
  ℕ, ◌+◌, ◌-◌, ◌<◌, ◌≤◌, ◌≡◌, ◌≢◌, inl, inr, refl, ap, ◌∙◌, false, none, List, [], ◌∷◌, arith,
  length, if◌then◌else◌, Bool-cases,
}
use os_lab.Log.Defs.{
  Block, logsize, Machine, bread, put_header, header_of, read_head, write_head, install_trans,
  recover_from_log, reboot,
}
use os_lab.Log.Header.{words, length-put_header, header_of-put_header}
use os_lab.Log.Writes.{
  is_in, bwrite-stopped, left-bwrite, disk-bwrite_ne, dirty-bwrite_ne, disk-bwrite_self,
  dirty-bwrite_self, bread-clean, IsHome, Homes, Slots, CleanSlots, disk-install_trans,
  install_trans-new,
}

module _ (start : ℕ) where
  pub log_not_in :
      (bs : List ℕ) (c : ℕ) → Homes start bs → start ≤ c → c < start + logsize → is_in c bs ≡ false
  log_not_in [] c h lo hi = refl
  log_not_in (b ∷ bs) c h lo hi =
      let off : b ≢ c = off_log b c h.0 lo hi in ground (arith, log_not_in bs c h.1 lo hi)
    where
      off_log : (b c : ℕ) → IsHome start b → start ≤ c → c < start + logsize → b ≢ c
      off_log b c (inl x) lo hi = omega arith
      off_log b c (inr x) lo hi = omega arith

  pub home_ne_start : (c : ℕ) → IsHome start c → start ≢ c
  home_ne_start c (inl x) = omega arith
  home_ne_start c (inr x) = omega arith

  pub CleanSlots-none : (tail : ℕ) (bs : List ℕ) → CleanSlots start (λ _. none) tail bs
  CleanSlots-none tail [] = tt
  CleanSlots-none tail (b ∷ bs) = (refl, CleanSlots-none (tail + 1) bs)

  -- What recovery needs of a disk: a header of home blocks that fits, and its slots.
  pub record Recoverable (d : ℕ → Block) (bs : List ℕ) (new : ℕ → Block) : Type 0 where
    pub header : header_of (d start) ≡ bs
    pub homes : Homes start bs
    pub few : length bs < logsize
    pub slots : Slots start d 0 bs new

  pub disk-write_head :
      (m : Machine) (bs : List ℕ) (c : ℕ) → start ≢ c → (write_head start m bs).disk c ≡ m.disk c
  unfolding write_head
  disk-write_head m bs c h = disk-bwrite_ne m start (put_header (bread m start) bs) c h

  pub dirty-write_head :
      (m : Machine) (bs : List ℕ) (c : ℕ) → start ≢ c → (write_head start m bs).dirty c ≡ m.dirty c
  unfolding write_head
  dirty-write_head m bs c h = dirty-bwrite_ne m start (put_header (bread m start) bs) c h

  pub write_head-stopped :
      (m : Machine) (bs : List ℕ) → m.writes_left ≡ 0 → write_head start m bs ≡ m
  unfolding write_head
  write_head-stopped m bs h = bwrite-stopped m start (put_header (bread m start) bs) h

  pub left-write_head :
      (m : Machine) (bs : List ℕ) → (write_head start m bs).writes_left ≡ m.writes_left - 1
  unfolding write_head
  left-write_head m bs = left-bwrite m start (put_header (bread m start) bs)

  pub dirty-write_head_self :
      (m : Machine) (bs : List ℕ) → 0 < m.writes_left → (write_head start m bs).dirty start ≡ none
  unfolding write_head
  dirty-write_head_self m bs h = dirty-bwrite_self m start (put_header (bread m start) bs) h

  -- The header that is on the disk after it has been written.
  pub header-write_head :
      (m : Machine) (bs : List ℕ)
      → 0 < m.writes_left
      → m.dirty start ≡ none
      → length (m.disk start) ≡ words
      → length bs < logsize
      → (header_of ((write_head start m bs).disk start) ≡ bs)
        × (length ((write_head start m bs).disk start) ≡ words)
  unfolding write_head
  header-write_head m bs left clean sized few =
      let written = disk-bwrite_self m start (put_header (bread m start) bs) left in
      let len : length (bread m start) ≡ words = ap length (bread-clean m start clean) ∙ sized in
      (
        ap header_of written ∙ header_of-put_header (bread m start) bs len (omega arith),
        ap length written ∙ length-put_header (bread m start) bs ∙ len,
      )

  read_head-clean :
      (m : Machine) → m.dirty start ≡ none → read_head start m ≡ header_of (m.disk start)
  unfolding read_head
  read_head-clean m h = ap header_of (bread-clean m start h)

  -- A full run of install_trans, block by block.
  pub installed :
      (m : Machine) (bs : List ℕ) (new : ℕ → Block) (c : ℕ)
      → Homes start bs
      → length bs < logsize
      → Slots start m.disk 0 bs new
      → CleanSlots start m.dirty 0 bs
      → length bs ≤ m.writes_left
      → (install_trans start 0 bs m).disk c ≡ (if is_in c bs then new c else m.disk c)
  installed m bs new c homes few slots clean enough = elim (Bool-cases (is_in c bs)) [
    | inl e ↦ rw e (install_trans-new start 0 bs m new homes (omega arith) enough slots clean c e)
    | inr e ↦ rw e (disk-install_trans start 0 bs m c e).0
  ]

  -- Recovery with enough writes installs what the header names, and nothing else.
  pub disk-recover :
      (m : Machine) (bs : List ℕ) (new : ℕ → Block) (k c : ℕ)
      → Recoverable m.disk bs new
      → length bs ≤ k
      → IsHome start c
      → (recover_from_log start (reboot k m)).disk c ≡ (if is_in c bs then new c else m.disk c)
  unfolding recover_from_log reboot
  disk-recover m bs new k c r enough home =
      let fresh : Machine = record { disk = m.disk; dirty = λ _. none; writes_left = k } in
      ap (λ h. (write_head start (install_trans start 0 h fresh) []).disk c)
        (read_head-clean fresh refl ∙ r.header)
      ∙ disk-write_head (install_trans start 0 bs fresh) [] c (home_ne_start c home)
      ∙ installed fresh bs new c r.homes r.few r.slots (CleanSlots-none 0 bs) enough

  module _ (m : Machine) (bs : List ℕ) (new : ℕ → Block) (k : ℕ) (r : Recoverable m.disk bs new)
      (sized : length (m.disk start) ≡ words) where
    fresh : Machine
    fresh = reboot k m

    replayed : Machine
    replayed = install_trans start 0 bs fresh
