-- ===== src/Fs/Words.antt =====
-- The 16-bit and 32-bit numbers in a block of xv6-core/fs.c: what is put is found, and nothing else moves.
use os_lab.Prelude.{
  ℕ, ◌+◌, ◌*◌, ◌/◌, ◌%◌, ◌^◌, ◌<◌, ◌≤◌, ◌≡◌, ◌≢◌, ◌⊎◌, inr, refl, ap, ap₂, ◌∙◌, sym, true, false,
  ◌==◌, write, arith,
}
use os_lab.Fs.Defs.{Block, byte, word}
use os_lab.Fs.Inode.{half, put_half, put_word}

-- Two fields of `m` and `n` bytes do not meet.
abbrev pub Apart : ℕ → ℕ → ℕ → ℕ → Type 0
Apart k m j n = (k + m ≤ j) ⊎ (j + n ≤ k)

pub write_self : {A : Type 0} (f : ℕ → A) (i : ℕ) (a : A) → write f i a i ≡ a
write_self f i a = let t : (i == i) ≡ true = ground arith in rw (t) refl

pub write_ne : {A : Type 0} (f : ℕ → A) (i j : ℕ) (a : A) → i ≢ j → write f i a j ≡ f j
write_ne f i j a ne = let t : (i == j) ≡ false = ground arith in rw (t) refl

pub byte-put_half-Apart :
    (b : Block) (k v j : ℕ) → Apart k 2 j 1 → byte (put_half b k v) j ≡ byte b j
unfolding put_half
byte-put_half-Apart b k v j apart =
    ap (λ x. x % 256)
      (write_ne (write b k (v % 256)) (k + 1) j _ (omega (arith, apart))
        ∙ write_ne b k j _ (omega (arith, apart)))

pub half-put_half : (b : Block) (k v : ℕ) → v < 65536 → half (put_half b k v) k ≡ v
unfolding put_half
half-put_half b k v small =
    let low : write (write b k (v % 256)) (k + 1) (v / 2 ^ 8 % 256) k ≡ v % 256 =
      write_ne (write b k (v % 256)) (k + 1) k _ (omega arith) ∙ write_self b k _ in
    let high : write (write b k (v % 256)) (k + 1) (v / 2 ^ 8 % 256) (k + 1) ≡ v / 2 ^ 8 % 256 =
      write_self (write b k (v % 256)) (k + 1) _ in
    ap₂ (λ x y. x % 256 + 2 ^ 8 * (y % 256)) low high ∙ omega arith

pub half-put_half-Apart :
    (b : Block) (k v j : ℕ) → Apart k 2 j 2 → half (put_half b k v) j ≡ half b j
half-put_half-Apart b k v j apart =
    ap₂ (λ x y. x + 2 ^ 8 * y) (byte-put_half-Apart b k v j (ground (arith, apart)))
      (byte-put_half-Apart b k v (j + 1) (ground (arith, apart)))

-- A word is two halves.
word-halves : (b : Block) (k : ℕ) → word b k ≡ half b k + 2 ^ 16 * half b (k + 2)
word-halves b k = let place : k + 2 + 1 ≡ k + 3 = omega arith in omega (arith, ap (byte b) place)

pub word-put_half-Apart :
    (b : Block) (k v j : ℕ) → Apart k 2 j 4 → word (put_half b k v) j ≡ word b j
word-put_half-Apart b k v j apart =
    word-halves (put_half b k v) j
    ∙ ap₂ (λ x y. x + 2 ^ 16 * y) (half-put_half-Apart b k v j (ground (arith, apart)))
        (half-put_half-Apart b k v (j + 2) (ground (arith, apart)))
    ∙ sym (word-halves b j)

pub half-put_word-Apart :
    (b : Block) (k v j : ℕ) → Apart k 4 j 2 → half (put_word b k v) j ≡ half b j
unfolding put_word
half-put_word-Apart b k v j apart =
    half-put_half-Apart (put_half b k (v % 2 ^ 16)) (k + 2) _ j (ground (arith, apart))
    ∙ half-put_half-Apart b k _ j (ground (arith, apart))

pub word-put_word-Apart :
    (b : Block) (k v j : ℕ) → Apart k 4 j 4 → word (put_word b k v) j ≡ word b j
unfolding put_word
word-put_word-Apart b k v j apart =
    word-put_half-Apart (put_half b k (v % 2 ^ 16)) (k + 2) _ j (ground (arith, apart))
    ∙ word-put_half-Apart b k _ j (ground (arith, apart))

pub word-put_word : (b : Block) (k v : ℕ) → v < 2 ^ 32 → word (put_word b k v) k ≡ v
unfolding put_word
word-put_word b k v small =
    let first = put_half b k (v % 2 ^ 16) in
    let low : half (put_half first (k + 2) (v / 2 ^ 16 % 2 ^ 16)) k ≡ v % 2 ^ 16 =
      half-put_half-Apart first (k + 2) _ k (inr (omega arith))
      ∙ half-put_half b k _ (omega arith) in
    let high : half (put_half first (k + 2) (v / 2 ^ 16 % 2 ^ 16)) (k + 2) ≡ v / 2 ^ 16 % 2 ^ 16 =
      half-put_half first (k + 2) _ (omega arith) in
    word-halves (put_half first (k + 2) (v / 2 ^ 16 % 2 ^ 16)) k
    ∙ ap₂ (λ x y. x + 2 ^ 16 * y) low high
    ∙ omega arith

pub byte-put_word-Apart :
    (b : Block) (k v j : ℕ) → Apart k 4 j 1 → byte (put_word b k v) j ≡ byte b j
unfolding put_word
byte-put_word-Apart b k v j apart =
    byte-put_half-Apart (put_half b k (v % 2 ^ 16)) (k + 2) _ j (ground (arith, apart))
    ∙ byte-put_half-Apart b k _ j (ground (arith, apart))
