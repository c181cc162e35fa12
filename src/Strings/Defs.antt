-- ===== src/Strings/Defs.antt =====
-- The functions of xv6-core/string.c. A pointer is an address, and addresses do not wrap around.
use os_lab.Prelude.{
  ℕ, zero, suc, ◌+◌, ◌*◌, ◌/◌, ◌%◌, ◌^◌, not, ◌&&◌, Option, none, some, ◌==◌, ltb, if◌then◌else◌,
}
use os_lab.Prelude.Int.{ℤ, pos, difference}

abbrev pub Memory : Type 0
Memory = ℕ → ℕ

abbrev pub store : Memory → ℕ → ℕ → Memory
store m a c b = if a == b then c else m b

-- `stosb` and `stosl` of x86.h: `n` bytes, and `n` words of four bytes, the lowest first.
unfoldable pub stosb : ℕ → ℕ → ℕ → Memory → Memory
stosb a c zero m = m
stosb a c (suc n) m = stosb (a + 1) c n (store m a (c % 256))

abbrev pub store_word : ℕ → ℕ → Memory → Memory
store_word a w m =
    store (store (store (store m a (w % 256)) (a + 1) (w / 2 ^ 8 % 256)) (a + 2) (w / 2 ^ 16 % 256))
      (a + 3) (w / 2 ^ 24 % 256)

unfoldable pub stosl : ℕ → ℕ → ℕ → Memory → Memory
stosl a w zero m = m
stosl a w (suc n) m = stosl (a + 4) w n (store_word a w m)

abbrev pub word_of : ℕ → ℕ
word_of c = c * 2 ^ 24 + c * 2 ^ 16 + c * 2 ^ 8 + c

unfoldable pub memset : ℕ → ℕ → ℕ → Memory → Memory
memset dst c n m =
    if (dst % 4 == 0) && (n % 4 == 0)
    then stosl dst (word_of (c % 256)) (n / 4) m
    else stosb dst c n m

unfoldable pub memcmp : ℕ → ℕ → ℕ → Memory → ℤ
memcmp s1 s2 zero m = pos 0
memcmp s1 s2 (suc n) m =
    let rest = memcmp (s1 + 1) (s2 + 1) n m in
    if not (m s1 == m s2) then difference (m s1) (m s2) else rest

-- The two loops of `memmove`.
unfoldable pub move_down : ℕ → ℕ → ℕ → Memory → Memory
move_down d s zero m = m
move_down d s (suc n) m = move_down d s n (store m (d + n) (m (s + n)))

unfoldable pub move_up : ℕ → ℕ → ℕ → Memory → Memory
move_up d s zero m = m
move_up d s (suc n) m = move_up (d + 1) (s + 1) n (store m d (m s))

unfoldable pub memmove : ℕ → ℕ → ℕ → Memory → Memory
memmove d s n m = if ltb s d && ltb d (s + n) then move_down d s n m else move_up d s n m

unfoldable pub memcpy : ℕ → ℕ → ℕ → Memory → Memory
memcpy d s n m = memmove d s n m

unfoldable pub strncmp : ℕ → ℕ → ℕ → Memory → ℤ
strncmp p q zero m = pos 0
strncmp p q (suc n) m =
    let rest = strncmp (p + 1) (q + 1) n m in
    if not (m p == 0) && (m p == m q) then rest else difference (m p) (m q)

-- The second loop of `strncpy`.
unfoldable pub pad : ℕ → ℕ → Memory → Memory
pad s zero m = m
pad s (suc n) m = pad (s + 1) n (store m s 0)

unfoldable pub strncpy : ℕ → ℕ → ℕ → Memory → Memory
strncpy s t zero m = m
strncpy s t (suc n) m =
    let copied = store m s (m t) in
    let padded = pad (s + 1) n copied in
    let rest = strncpy (s + 1) (t + 1) n copied in if m t == 0 then padded else rest

-- `safestrcpy` with a positive `n`, here one more than the argument: the loop, and `*s = 0` where it
-- ends; a loop that has copied a NUL stands behind it.
unfoldable pub safestrcpy_loop : ℕ → ℕ → ℕ → Memory → Memory
safestrcpy_loop s t zero m = store m s 0
safestrcpy_loop s t (suc n) m =
    let copied = store m s (m t) in
    let ended = store copied (s + 1) 0 in
    let rest = safestrcpy_loop (s + 1) (t + 1) n copied in if m t == 0 then ended else rest

unfoldable pub safestrcpy : ℕ → ℕ → ℕ → Memory → Memory
safestrcpy s t zero m = m
safestrcpy s t (suc n) m = safestrcpy_loop s t n m

-- `strlen`, on fuel: none where the first `fuel` bytes hold no NUL.
unfoldable pub strlen : ℕ → ℕ → Memory → Option ℕ
strlen zero s m = none
strlen (suc fuel) s m =
    let rest = strlen fuel (s + 1) m in
    if m s == 0 then some 0 else elim rest [ none ↦ none | some n ↦ some (n + 1) ]
