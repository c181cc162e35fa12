-- ===== src/Strings/Copies.antt =====
-- What safestrcpy and strncpy of xv6-core/string.c leave at the destination.
use os_lab.Prelude.{
  ℕ, zero, suc, ◌+◌, ◌<◌, ◌≤◌, ◌≡◌, ◌⊎◌, inl, inr, refl, not, ◌&&◌, ◌==◌, arith, if◌then◌else◌,
  Bool-cases, ltb,
}
use os_lab.Strings.Defs.{Memory, store, pad, safestrcpy, safestrcpy_loop}
use os_lab.Strings.Compare.{string_at}

-- The two ranges of `n` bytes do not meet.
abbrev pub Apart : ℕ → ℕ → ℕ → Type 0
Apart s t n = (s + n ≤ t) ⊎ (t + n ≤ s)

string_at-ext :
    (n p : ℕ) (f g : Memory)
    → ((j : ℕ) → p ≤ j → j < p + n → f j ≡ g j)
    → string_at n p f ≡ string_at n p g
string_at-ext zero p f g h = refl
string_at-ext (suc n) p f g h = ground (
  arith,
  h p (omega arith) (omega arith),
  string_at-ext n (p + 1) f g (λ j lo hi. h j (omega arith) (omega arith)),
)

safestrcpy_loop-before :
    (n s t : ℕ) (m : Memory) (j : ℕ) → (j < s) ⊎ (s + n < j) → safestrcpy_loop s t n m j ≡ m j
unfolding safestrcpy_loop
safestrcpy_loop-before zero s t m j h = ground arith
safestrcpy_loop-before (suc n) s t m j h =
    ground (arith, safestrcpy_loop-before n (s + 1) (t + 1) (store m s (m t)) j (ground arith))

safestrcpy_loop_lem :
    (n s t : ℕ) (m : Memory)
    → Apart s t (suc n)
    → string_at (suc n) s (safestrcpy_loop s t n m) ≡ string_at n t m
unfolding safestrcpy_loop
safestrcpy_loop_lem zero s t m apart = ground arith
safestrcpy_loop_lem (suc n) s t m apart =
    let copied = store m s (m t) in
    let first = safestrcpy_loop-before n (s + 1) (t + 1) copied s (inl (omega arith)) in
    let rest = safestrcpy_loop_lem n (s + 1) (t + 1) copied (ground (arith, apart)) in
    let kept = string_at-ext n (t + 1) copied m (λ j lo hi. ground (arith, apart)) in
    elim (Bool-cases (m t == 0)) [
      | inl end ↦ ground (arith, end)
      | inr more ↦ ground (arith, more, first, rest, kept)
    ]

-- If the ranges do not meet, safestrcpy with a positive size leaves at the destination the source's
-- string, cut to one byte less than the size, and changes nothing outside the range.
pub safestrcpy_lem :
    (n s t : ℕ) (m : Memory)
    → Apart s t (suc n)
    → (string_at (suc n) s (safestrcpy s t (suc n) m) ≡ string_at n t m)
      × ((j : ℕ) → (j < s) ⊎ (s + n < j) → safestrcpy s t (suc n) m j ≡ m j)
unfolding safestrcpy
safestrcpy_lem n s t m apart =
    (safestrcpy_loop_lem n s t m apart, λ j out. safestrcpy_loop-before n s t m j out)

pad_lem :
    (n s : ℕ) (m : Memory) (j : ℕ)
    → pad s n m j ≡ (if (not (ltb j s)) && ltb j (s + n) then 0 else m j)
unfolding pad
pad_lem zero s m j = ground arith
pad_lem (suc n) s m j = ground (arith, pad_lem n (s + 1) (store m s 0) j)
