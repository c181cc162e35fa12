-- ===== src/Console/Completion.antt =====
-- What tab and ^T of consoleintr in xv6-core/console.c leave in the buffer.
use os_lab.Prelude.{ℕ, zero, suc, ◌+◌, ◌^◌, ◌<◌, ◌≤◌, ◌≡◌, refl, some, arith, replicate}
use os_lab.Console.Defs.{Console, add_uint}
use os_lab.Console.Keys.{type_key, key, consoleintr, ctrl_t}
use os_lab.Console.Line.{Ready}

-- `n` times ^T.
ctrl_t_times :
    (n : ℕ) (s : Console)
    → s.e + n < 2 ^ 32
    → (t : Console) × (consoleintr (replicate n 20) s ≡ some t)
      × (t.e ≡ s.e + n)
      × (t.r ≡ s.r)
      × (t.w ≡ s.w)
unfolding consoleintr key ctrl_t
ctrl_t_times zero s small = (s, refl, omega arith, refl, refl)
ctrl_t_times (suc n) s small =
    let next : add_uint s.e 1 ≡ s.e + 1 = omega arith in
    let (t, d, e, r, w) = ctrl_t_times n (ctrl_t s) (omega arith) in
    (t, d, omega (arith, e, next), r, w)

-- After ^T has been pressed 128 times or more on a ready console, and the edit index has not passed 2^32,
-- every key of the default case is dropped, newline included.
pub ctrl_t_blocks :
    (n : ℕ) (s : Console)
    → Ready s
    → 128 ≤ n
    → s.e + n < 2 ^ 32
    → (t : Console) × (consoleintr (replicate n 20) s ≡ some t) × ((c : ℕ) → type_key c t ≡ some t)
unfolding type_key
ctrl_t_blocks n s ready many small =
    let (t, d, e, r, w) = ctrl_t_times n s small in (t, d, λ c. ground (arith, e, r, ready))
