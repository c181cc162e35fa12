-- ===== src/Args/Defs.antt =====
-- fetchint, fetchstr, argint, argptr and argstr of xv6-core/syscall.c.
use os_lab.Prelude.{
  ℕ, zero, suc, ◌+◌, ◌-◌, ◌*◌, ◌%◌, ◌^◌, ◌||◌, Option, none, some, ◌==◌, ltb, leb, if◌then◌else◌,
}

-- The caller: its size, its saved stack pointer, and its memory of bytes.
pub record Caller : Type 0 where
  pub sz : ℕ
  pub esp : ℕ
  pub mem : ℕ → ℕ

abbrev pub add_uint : ℕ → ℕ → ℕ
add_uint a b = (a + b) % 2 ^ 32

abbrev pub word_at : (ℕ → ℕ) → ℕ → ℕ
word_at m a = m a + 2 ^ 8 * m (a + 1) + 2 ^ 16 * m (a + 2) + 2 ^ 24 * m (a + 3)

-- An `int` is its 32 bits, read as a natural number: it is negative from 2^31 on. none is -1.
unfoldable pub fetchint : ℕ → Caller → Option ℕ
fetchint addr u =
    if leb u.sz addr || ltb u.sz (add_uint addr 4) then none else some (word_at u.mem addr)

unfoldable pub argint : ℕ → Caller → Option ℕ
argint n u = fetchint ((u.esp + 4 + 4 * n) % 2 ^ 32) u

unfoldable pub check_block : ℕ → Caller → Option ℕ → Option ℕ
check_block size u none = none
check_block size u (some i) =
    if leb (2 ^ 31) size || (leb u.sz i || ltb u.sz (add_uint i size)) then none else some i

unfoldable pub argptr : ℕ → ℕ → Caller → Option ℕ
argptr n size u = check_block size u (argint n u)

-- The loop of `fetchstr` over `n` bytes from `s` on; the string starts `done` bytes before `s`.
unfoldable pub scan_string : ℕ → ℕ → ℕ → (ℕ → ℕ) → Option ℕ
scan_string zero s done m = none
scan_string (suc n) s done m =
    let rest = scan_string n (s + 1) (done + 1) m in if m s == 0 then some done else rest

unfoldable pub fetchstr : ℕ → Caller → Option ℕ
fetchstr addr u = if leb u.sz addr then none else scan_string (u.sz - addr) addr 0 u.mem

-- The address and the length.
unfoldable pub string_of : Caller → Option ℕ → Option (ℕ × ℕ)
string_of u none = none
string_of u (some addr) = elim (fetchstr addr u) [ none ↦ none | some n ↦ some (addr, n) ]

unfoldable pub argstr : ℕ → Caller → Option (ℕ × ℕ)
argstr n u = string_of u (argint n u)
