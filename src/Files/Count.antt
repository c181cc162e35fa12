-- ===== src/Files/Count.antt =====
-- How many descriptors hold a file.
use os_lab.Prelude.{
  ℕ, zero, suc, ◌+◌, ◌<◌, ◌≤◌, ◌≡◌, refl, ap, ◌∙◌, sym, Option, none, some, ◌==◌, if◌then◌else◌,
  arith, ℕ_discrete, write,
}
use os_lab.Files.Defs.{nofile}

abbrev pub holds : Option ℕ → ℕ → ℕ
holds none i = 0
holds (some j) i = if j == i then 1 else 0

-- The descriptors of one process, below `n`, that hold the file.
unfoldable pub row : ℕ → (ℕ → Option ℕ) → ℕ → ℕ
row zero f i = 0
row (suc n) f i = row n f i + holds (f n) i

-- Those of the first `n` processes.
unfoldable pub total : ℕ → (ℕ → ℕ → Option ℕ) → ℕ → ℕ
total zero f i = 0
total (suc n) f i = total n f i + row nofile (f n) i

row-write_out :
    (n : ℕ) (f : ℕ → Option ℕ) (fd i : ℕ) (v : Option ℕ)
    → n ≤ fd
    → row n (write f fd v) i ≡ row n f i
unfolding row
row-write_out zero f fd i v h = refl
row-write_out (suc n) f fd i v h = ground (arith, row-write_out n f fd i v (omega arith))

pub row-write :
    (n : ℕ) (f : ℕ → Option ℕ) (fd i : ℕ) (v : Option ℕ)
    → fd < n
    → row n (write f fd v) i + holds (f fd) i ≡ row n f i + holds v i
unfolding row
row-write zero f fd i v h = absurd (omega arith)
row-write (suc n) f fd i v h = elim (ℕ_discrete fd n) [
  | yes e ↦
      let out = row-write_out n f fd i v (omega arith) in
      let put : write f fd v n ≡ v = ground arith in
      let new : holds (write f fd v n) i ≡ holds v i = ap (λ x. holds x i) put in
      let old : holds (f fd) i ≡ holds (f n) i = ap (λ k. holds (f k) i) e in
      omega (arith, out, new, old)
  | no ne ↦ ground (arith, row-write n f fd i v (omega arith), ne)
]

total-write_out :
    (n : ℕ) (f : ℕ → ℕ → Option ℕ) (p i : ℕ) (r : ℕ → Option ℕ)
    → n ≤ p
    → total n (write f p r) i ≡ total n f i
unfolding total
total-write_out zero f p i r h = refl
total-write_out (suc n) f p i r h =
    let same : write f p r n ≡ f n = ground arith in
    let new : row nofile (write f p r n) i ≡ row nofile (f n) i = ap (λ x. row nofile x i) same in
    omega (arith, total-write_out n f p i r (omega arith), new)

-- A descriptor that changes takes away the reference that it held and adds the one that it holds.
pub total-write :
    (n : ℕ) (f : ℕ → ℕ → Option ℕ) (p fd i : ℕ) (v : Option ℕ)
    → p < n
    → fd < nofile
    → total n (write f p (write (f p) fd v)) i + holds (f p fd) i ≡ total n f i + holds v i
unfolding total
total-write zero f p fd i v h k = absurd (omega arith)
total-write (suc n) f p fd i v h k = elim (ℕ_discrete p n) [
  | yes e ↦
      let out = total-write_out n f p i (write (f p) fd v) (omega arith) in
      let put : write f p (write (f p) fd v) n ≡ write (f p) fd v = ground arith in
      let new = ap (λ x. row nofile x i) put in
      let one = row-write nofile (f p) fd i v k in
      let old : row nofile (f p) i ≡ row nofile (f n) i = ap (λ q. row nofile (f q) i) e in
      omega (arith, out, new, one, old)
  | no ne ↦
      let same : write f p (write (f p) fd v) n ≡ f n = ground arith in
      let new = ap (λ x. row nofile x i) same in
      omega (arith, total-write n f p fd i v (omega arith) k, new)
]

row-holds : (n : ℕ) (f : ℕ → Option ℕ) (fd i : ℕ) → fd < n → f fd ≡ some i → 1 ≤ row n f i
unfolding row
row-holds zero f fd i h e = absurd (omega arith)
row-holds (suc n) f fd i h e = elim (ℕ_discrete fd n) [
  | yes same ↦
      let held : holds (f n) i ≡ 1 =
        ap (λ k. holds (f k) i) (sym same) ∙ ap (λ x. holds x i) e ∙ ground arith in
      omega (arith, held)
  | no ne ↦ omega (arith, row-holds n f fd i (omega arith) e)
]

pub total-holds :
    (n : ℕ) (f : ℕ → ℕ → Option ℕ) (p fd i : ℕ)
    → p < n
    → fd < nofile
    → f p fd ≡ some i
    → 1 ≤ total n f i
unfolding total
total-holds zero f p fd i h k e = absurd (omega arith)
total-holds (suc n) f p fd i h k e = elim (ℕ_discrete p n) [
  | yes same ↦
      let one = row-holds nofile (f p) fd i k e in
      let old : row nofile (f p) i ≡ row nofile (f n) i = ap (λ q. row nofile (f q) i) same in
      omega (arith, one, old)
  | no ne ↦ omega (arith, total-holds n f p fd i (omega arith) k e)
]
