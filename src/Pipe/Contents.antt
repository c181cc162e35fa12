-- ===== src/Pipe/Contents.antt =====
-- The bytes that a pipe holds, and what one byte in or out does to them.
use os_lab.Prelude.{
  ℕ, zero, suc, ◌+◌, ◌-◌, ◌%◌, ◌^◌, ◌≤◌, ◌<◌, ◌≡◌, refl, ap, ap₂, ◌∙◌, true, false, List, [], ◌∷◌,
  ◌++◌, ◌==◌, arith, length, get_or, set, length-set, get_or-set_self, get_or-set_ne,
}
use os_lab.Pipe.Defs.{Pipe, pipesize, add_uint, is_full, is_empty, put, next_byte, advance}

-- The `n` bytes from counter `r` on.
abbrev pub window : List ℕ → ℕ → ℕ → List ℕ
window buf r zero = []
window buf r (suc n) = get_or buf (r % pipesize) 0 ∷ window buf (add_uint r 1) n

-- `nwrite - nread` on `uint`
unfoldable pub used : Pipe → ℕ
used p = (p.nwrite + 2 ^ 32 - p.nread) % 2 ^ 32

unfoldable pub contents : Pipe → List ℕ
contents p = window p.buf p.nread (used p)

-- The counters are words, the buffer has its size, and at most that many bytes are in it.
pub record IsValid (p : Pipe) : Type 0 where
  pub sized : length p.buf ≡ pipesize
  pub read_word : p.nread < 2 ^ 32
  pub write_word : p.nwrite < 2 ^ 32
  pub fits : used p ≤ pipesize

pub length-window : (buf : List ℕ) (r n : ℕ) → length (window buf r n) ≡ n
length-window buf r zero = refl
length-window buf r (suc n) = ap suc (length-window buf (add_uint r 1) n)

-- A write just past a window extends it, if the window is not the whole buffer.
window-set :
    (buf : List ℕ) (r n w x : ℕ)
    → length buf ≡ pipesize
    → r < 2 ^ 32
    → n < pipesize
    → w ≡ (r + n) % 2 ^ 32
    → window (set buf (w % pipesize) x) r (suc n) ≡ window buf r n ++ (x ∷ [])
window-set buf r zero w x s hr hn e = ap (λ y. y ∷ []) (omega (arith, same))
  where
    here : w % pipesize ≡ r % pipesize
    here = omega arith

    same : get_or (set buf (w % pipesize) x) (r % pipesize) 0 ≡ x
    same = ground (arith, here, get_or-set_self buf (r % pipesize) x 0)
window-set buf r (suc n) w x s hr hn e =
    ap₂ ◌∷◌ (get_or-set_ne buf (w % pipesize) (r % pipesize) x 0 (omega arith))
      (window-set buf (add_uint r 1) n w x s (omega arith) (omega arith) (omega arith))

pub is_full-iff-used : {p : Pipe} → IsValid p → is_full p ≡ (used p == pipesize)
unfolding is_full used
is_full-iff-used v = ground arith

pub is_empty-iff-used : {p : Pipe} → IsValid p → is_empty p ≡ (used p == 0)
unfolding is_empty used
is_empty-iff-used v = ground arith

pub put-IsValid : {p : Pipe} (c : ℕ) → IsValid p → is_full p ≡ false → IsValid (put p c)
unfolding put is_full used contents
put-IsValid {p} c v h = ground (arith, length-set p.buf (p.nwrite % pipesize) c)

pub used-put : {p : Pipe} (c : ℕ) → IsValid p → is_full p ≡ false → used (put p c) ≡ suc (used p)
unfolding put is_full used contents
used-put c v h = ground arith

pub contents-put :
    {p : Pipe} (c : ℕ) → IsValid p → is_full p ≡ false → contents (put p c) ≡ contents p ++ (c ∷ [])
unfolding put is_full used contents
contents-put {p} c v h =
    ap (λ n. window (set p.buf (p.nwrite % pipesize) c) p.nread n) (used-put c v h)
    ∙ window-set p.buf p.nread (used p) p.nwrite c v.sized v.read_word (ground arith) (omega arith)

pub advance-IsValid : {p : Pipe} → IsValid p → is_empty p ≡ false → IsValid (advance p)
unfolding advance is_empty used
advance-IsValid v h = ground arith

pub contents-advance :
    {p : Pipe} → IsValid p → is_empty p ≡ false → contents p ≡ next_byte p ∷ contents (advance p)
unfolding advance is_empty next_byte used contents
contents-advance {p} v h = ap (λ n. window p.buf p.nread n) one_less
  where
    one_less : used p ≡ suc (used (record p { nread = add_uint p.nread 1 }))
    one_less = ground arith

pub used-advance : {p : Pipe} → IsValid p → is_empty p ≡ false → suc (used (advance p)) ≡ used p
unfolding advance is_empty used
used-advance v h = ground arith

pub length-contents : (p : Pipe) → length (contents p) ≡ used p
unfolding contents
length-contents p = length-window p.buf p.nread (used p)

pub contents-empty : {p : Pipe} → IsValid p → is_empty p ≡ true → contents p ≡ []
unfolding is_empty used contents
contents-empty {p} v h =
    let none_used : used p ≡ 0 = ground arith in ap (λ n. window p.buf p.nread n) none_used
