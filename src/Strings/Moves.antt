-- ===== src/Strings/Moves.antt =====
-- memset and memmove of xv6-core/string.c do what their names say, also where the ranges overlap.
use os_lab.Prelude.{
  ℕ, zero, suc, ◌+◌, ◌-◌, ◌*◌, ◌/◌, ◌%◌, ◌^◌, ◌<◌, ◌≤◌, ◌≡◌, ◌≢◌, ◌⊎◌, inl, inr, ap, Bool, true,
  ◌&&◌, ◌==◌, ltb, arith, if◌then◌else◌, Bool-cases, leb,
}
use os_lab.Strings.Defs.{
  Memory, store, stosb, stosl, store_word, word_of, memset, move_down, move_up, memmove,
}

-- Whether the address lies in the range.
abbrev pub within : ℕ → ℕ → ℕ → Bool
within a n b = leb a b && ltb b (a + n)

-- The memory with the range `s`..`s+n` of `m` put at `d`.
abbrev pub moved : ℕ → ℕ → ℕ → Memory → Memory
moved d s n m b = if within d n b then m (s + (b - d)) else m b

move_up_lem :
    (n d s : ℕ) (m : Memory) (b : ℕ) → (d ≤ s) ⊎ (s + n ≤ d) → move_up d s n m b ≡ moved d s n m b
unfolding move_up
move_up_lem zero d s m b h = ground arith
move_up_lem (suc n) d s m b h =
    let rest = move_up_lem n (d + 1) (s + 1) (store m d (m s)) b (ground arith) in
    let same : within d (suc n) b ≡ true → d ≢ b → m (s + 1 + (b - (d + 1))) ≡ m (s + (b - d)) =
      (λ inside ne. ap m (ground arith)) in
    ground (arith, rest, same)

move_down_lem : (n d s : ℕ) (m : Memory) (b : ℕ) → s ≤ d → move_down d s n m b ≡ moved d s n m b
unfolding move_down
move_down_lem zero d s m b h = ground arith
move_down_lem (suc n) d s m b h =
    let rest = move_down_lem n d s (store m (d + n) (m (s + n))) b h in
    let last : d + n ≡ b → m (s + n) ≡ m (s + (b - d)) = (λ e. ap m (omega arith)) in
    ground (arith, rest, last)

-- memmove puts the bytes that the source range had at the destination, and changes nothing else.
pub memmove_lem : (d s n : ℕ) (m : Memory) (b : ℕ) → memmove d s n m b ≡ moved d s n m b
unfolding memmove
memmove_lem d s n m b =
    let up = move_up_lem n d s m b in
    let down = move_down_lem n d s m b in
    elim (Bool-cases (ltb s d && ltb d (s + n))) [
      | inl over ↦ ground (arith, over, down)
      | inr apart ↦ ground (arith, apart, up)
    ]

stosb_lem :
    (n a c : ℕ) (m : Memory) (b : ℕ) → stosb a c n m b ≡ (if within a n b then c % 256 else m b)
unfolding stosb
stosb_lem zero a c m b = ground arith
stosb_lem (suc n) a c m b = ground (arith, stosb_lem n (a + 1) c (store m a (c % 256)) b)

word_bytes :
    (c : ℕ)
    → c < 256
    → (word_of c % 256 ≡ c)
      × (word_of c / 2 ^ 8 % 256 ≡ c)
      × (word_of c / 2 ^ 16 % 256 ≡ c)
      × (word_of c / 2 ^ 24 % 256 ≡ c)
word_bytes c h = (omega arith, omega arith, omega arith, omega arith)

stosl_lem :
    (n a c : ℕ) (m : Memory) (b : ℕ)
    → c < 256
    → stosl a (word_of c) n m b ≡ (if within a (4 * n) b then c else m b)
unfolding stosl
stosl_lem zero a c m b h = ground arith
stosl_lem (suc n) a c m b h =
    let (b0, b1, b2, b3) = word_bytes c h in
    let rest = stosl_lem n (a + 4) c (store_word a (word_of c) m) b h in
    ground (arith, rest, b0, b1, b2, b3)

-- memset sets every byte of the range to the low byte of its argument, whichever way it goes, and changes
-- nothing else.
pub memset_lem :
    (dst c n : ℕ) (m : Memory) (b : ℕ)
    → memset dst c n m b ≡ (if within dst n b then c % 256 else m b)
unfolding memset
memset_lem dst c n m b =
    let words = stosl_lem (n / 4) dst (c % 256) m b (omega arith) in
    let bytes = stosb_lem n dst c m b in
    let size : n % 4 ≡ 0 → 4 * (n / 4) ≡ n = (λ e. omega arith) in
    elim (Bool-cases ((dst % 4 == 0) && (n % 4 == 0))) [
      | inl aligned ↦ ground (arith, aligned, words, size)
      | inr other ↦ ground (arith, other, bytes)
    ]
