-- ===== src/Log/Crash.antt =====
-- Crash recovery: whatever the write at which the machine stops, the next recovery finds all of a
-- commit or nothing of it.
use os_lab.Prelude.{
  ℕ, ◌+◌, ◌-◌, ◌<◌, ◌≤◌, ◌≡◌, inl, inr, refl, ap, ◌∙◌, false, ◌&&◌, none, List, [], arith, length,
  if◌then◌else◌, ltb, dec_lt, Bool-cases,
}
use os_lab.Log.Defs.{
  logsize, Machine, bread, header_of, write_head, install_trans, write_log, commit,
  recover_from_log, reboot,
}
use os_lab.Log.Header.{words}
use os_lab.Log.Recovery.{
  log_not_in, home_ne_start, disk-write_head, dirty-write_head_self, dirty-write_head,
  write_head-stopped, left-write_head, header-write_head, installed, disk-recover, Recoverable,
}
use os_lab.Log.Writes.{
  is_in, IsHome, Homes, Slots, CleanSlots, Slots-frame, disk-write_log, left-write_log,
  left-install_trans, disk-install_trans, Slots-write_log, install_trans-stopped, CleanSlots-frame,
}

module _ (start : ℕ) where
  -- What a commit of the blocks `bs` starts from: an empty log on the disk.
  pub record Committable (m : Machine) (bs : List ℕ) : Type 0 where
    pub homes : Homes start bs
    pub few : length bs < logsize
    pub some_block : 0 < length bs
    pub empty : header_of (m.disk start) ≡ []
    pub clean : m.dirty start ≡ none
    pub sized : length (m.disk start) ≡ words

  module _ (m : Machine) (bs : List ℕ) (h : Committable m bs) where
    logged : Machine
    logged = write_log start 0 bs m

    headed : Machine
    headed = write_head start logged bs

    in_place : Machine
    in_place = install_trans start 0 bs headed

    commit_unfolded : commit start bs m ≡ write_head start in_place []
    unfolding commit logged headed in_place
    commit_unfolded = ground (arith, h.some_block)

    logged_home :
        (c : ℕ) → IsHome start c → (logged.disk c ≡ m.disk c) × (logged.dirty c ≡ m.dirty c)
    unfolding logged
    logged_home c (inl lo) = disk-write_log start 0 bs m c (inl (omega arith))
    logged_home c (inr hi) = disk-write_log start 0 bs m c (inr (omega (arith, h.few)))

    logged_start : (logged.disk start ≡ m.disk start) × (logged.dirty start ≡ m.dirty start)
    unfolding logged
    logged_start = disk-write_log start 0 bs m start (inl (omega arith))

    logged_left : logged.writes_left ≡ m.writes_left - length bs
    unfolding logged
    logged_left = left-write_log start 0 bs m

    module _ (le : m.writes_left ≤ length bs) where
      logged_out : logged.writes_left ≡ 0
      logged_out = omega (arith, logged_left)

      headed_same : headed ≡ logged
      unfolding headed
      headed_same = write_head-stopped start logged bs logged_out

      in_place_same : in_place ≡ logged
      unfolding in_place
      in_place_same =
          ap (λ n. install_trans start 0 bs n) headed_same
          ∙ install_trans-stopped start 0 bs logged logged_out

      -- The machine stopped before the header was written: the disk is that of write_log.
      commit_stopped : commit start bs m ≡ logged
      commit_stopped =
          commit_unfolded
          ∙ ap (λ n. write_head start n []) in_place_same
          ∙ write_head-stopped start logged [] logged_out

      recover_old :
          (k c : ℕ)
          → IsHome start c
          → (recover_from_log start (reboot k (commit start bs m))).disk c ≡ m.disk c
      recover_old k c hc =
          ap (λ n. (recover_from_log start (reboot k n)).disk c) commit_stopped
          ∙ disk-recover start logged [] (bread m) k c
              (record {
                header = ap header_of logged_start.0 ∙ h.empty;
                homes = tt;
                few = omega arith;
                slots = tt;
              })
              (omega arith) hc
          ∙ (logged_home c hc).0

    module _ (more : length bs < m.writes_left) where
      logged_some : 0 < logged.writes_left
      logged_some = omega (arith, logged_left)

      headed_left : headed.writes_left ≡ m.writes_left - length bs - 1
      unfolding headed
      headed_left = omega (arith, left-write_head start logged bs, logged_left)

      headed_header : (header_of (headed.disk start) ≡ bs) × (length (headed.disk start) ≡ words)
      unfolding headed
      headed_header =
          header-write_head start logged bs logged_some (logged_start.1 ∙ h.clean)
            (ap length logged_start.0 ∙ h.sized) h.few

      headed_clean : headed.dirty start ≡ none
      unfolding headed
      headed_clean = dirty-write_head_self start logged bs logged_some

      headed_home : (c : ℕ) → IsHome start c → headed.disk c ≡ m.disk c
      unfolding headed
      headed_home c hc =
          disk-write_head start logged bs c (home_ne_start start c hc) ∙ (logged_home c hc).0

      headed-Slots : Slots start headed.disk 0 bs (bread m) × CleanSlots start headed.dirty 0 bs
      unfolding headed logged
      headed-Slots =
          let s =
            Slots-write_log start 0 bs m (bread m) h.homes (omega (arith, h.few)) (omega arith)
              (λ c hc. refl) in
          (
            Slots-frame start logged.disk headed.disk 0 bs (bread m)
                (λ c lo hi. disk-write_head start logged bs c (omega arith)) s.0,
            CleanSlots-frame start logged.dirty headed.dirty 0 bs
                (λ c lo. dirty-write_head start logged bs c (omega arith)) s.1,
          )

      -- install_trans keeps the header and the slots.
      in_place_log :
          (c : ℕ)
          → start ≤ c
          → c < start + logsize
          → (in_place.disk c ≡ headed.disk c) × (in_place.dirty c ≡ headed.dirty c)
      unfolding in_place
      in_place_log c lo hi =
          disk-install_trans start 0 bs headed c (log_not_in start bs c h.homes lo hi)

      in_place_left : in_place.writes_left ≡ m.writes_left - length bs - 1 - length bs
      unfolding in_place
      in_place_left = omega (arith, left-install_trans start 0 bs headed, headed_left)

      in_place-Slots : Slots start in_place.disk 0 bs (bread m)
      in_place-Slots =
          Slots-frame start headed.disk in_place.disk 0 bs (bread m)
            (λ c lo hi. (in_place_log c (omega arith) (omega (arith, h.few))).0) headed-Slots.0

      in_place_others : (c : ℕ) → IsHome start c → is_in c bs ≡ false → in_place.disk c ≡ m.disk c
      unfolding in_place
      in_place_others c hc e = (disk-install_trans start 0 bs headed c e).0 ∙ headed_home c hc

      Recoverable-in_place : Recoverable start in_place.disk bs (bread m)
      Recoverable-in_place = record {
        header = ap header_of (in_place_log start (omega arith) (omega arith)).0 ∙ headed_header.0;
        homes = h.homes;
        few = h.few;
        slots = in_place-Slots;
      }

      -- The machine stopped after the header and before it was cleared.
      recover_replays :
          in_place.writes_left ≡ 0
          → (k c : ℕ) → length bs ≤ k
          → IsHome start c
          → (recover_from_log start (reboot k (commit start bs m))).disk c
            ≡ (if is_in c bs then bread m c else m.disk c)
      recover_replays out k c enough hc =
          ap (λ n. (recover_from_log start (reboot k n)).disk c)
            (commit_unfolded ∙ write_head-stopped start in_place [] out)
          ∙ disk-recover start in_place bs (bread m) k c Recoverable-in_place enough hc
          ∙ elim (Bool-cases (is_in c bs)) [ inl e ↦ rw e | inr e ↦ rw e (in_place_others c hc e) ]

      -- All of it reached the disk.
      module _ (rest : 0 < in_place.writes_left) where
        commit_header : header_of ((commit start bs m).disk start) ≡ []
        commit_header =
            ap (λ n. header_of (n.disk start)) commit_unfolded
            ∙ (header-write_head start in_place [] rest
                ((in_place_log start (omega arith) (omega arith)).1 ∙ headed_clean)
                (ap length (in_place_log start (omega arith) (omega arith)).0 ∙ headed_header.1)
                (omega arith)).0

        commit_home :
            (c : ℕ)
            → IsHome start c
            → (commit start bs m).disk c ≡ (if is_in c bs then bread m c else m.disk c)
        unfolding in_place
        commit_home c hc =
            ap (λ n. n.disk c) commit_unfolded
            ∙ disk-write_head start in_place [] c (home_ne_start start c hc)
            ∙ installed start headed bs (bread m) c h.homes h.few headed-Slots.0 headed-Slots.1
                (omega (arith, headed_left, in_place_left))
            ∙ ap (λ x. if is_in c bs then bread m c else x) (headed_home c hc)

        recover_done :
            (k c : ℕ)
            → IsHome start c
            → (recover_from_log start (reboot k (commit start bs m))).disk c
              ≡ (if is_in c bs then bread m c else m.disk c)
        recover_done k c hc =
            disk-recover start (commit start bs m) [] (bread m) k c
              (record { header = commit_header; homes = tt; few = omega arith; slots = tt })
              (omega arith) hc
            ∙ commit_home c hc

  pub recover-commit :
      (m : Machine) (bs : List ℕ) (k c : ℕ)
      → Committable m bs
      → length bs ≤ k
      → IsHome start c
      → (recover_from_log start (reboot k (commit start bs m))).disk c
        ≡ (if ltb (length bs) m.writes_left && is_in c bs then bread m c else m.disk c)
  recover-commit m bs k c h enough home = elim (dec_lt (length bs) m.writes_left) [
    | no le ↦ recover_old m bs h (omega arith) k c home ∙ ground arith
    | yes more ↦ elim (dec_lt 0 (in_place m bs h).writes_left) [
      | yes rest ↦ recover_done m bs h more rest k c home ∙ ground arith
      | no out ↦ recover_replays m bs h more (omega arith) k c enough home ∙ ground arith
    ]
  ]

  -- A commit that is not interrupted puts every committed block in place, changes no other block
  -- outside the log, and leaves the log empty.
  pub commit_lem :
      (m : Machine) (bs : List ℕ)
      → Committable m bs
      → length bs + length bs + 2 ≤ m.writes_left
      → ((c : ℕ)
          → IsHome start c
          → (commit start bs m).disk c ≡ (if is_in c bs then bread m c else m.disk c))
        × (header_of ((commit start bs m).disk start) ≡ [])
  commit_lem m bs h enough =
      let more : length bs < m.writes_left = omega arith in
      let rest : 0 < (in_place m bs h).writes_left = omega (arith, in_place_left m bs h more) in
      (commit_home m bs h more rest, commit_header m bs h more rest)
