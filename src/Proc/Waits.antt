-- ===== src/Proc/Waits.antt =====
-- What `wait` of xv6-core/proc.c finds in the table.
use os_lab.Prelude.{ℕ, ◌<◌, ◌≡◌, ◌⊎◌, true, false, ◌&&◌, some}
use os_lab.Proc.Defs.{Proc, zombie, nproc, is_zombie, is_child_of}
use os_lab.Proc.Steps.{WaitResult, reaped, no_children, waits}

abbrev Childless : ℕ → (ℕ → Proc) → Type 0
Childless cur f = (j : ℕ) → j < nproc → is_child_of cur (f j).parent ≡ false

-- What the result of `wait` says of the table before.
abbrev pub Means : ℕ → (ℕ → Proc) → WaitResult → Type 0
Means cur f (reaped pid k) =
    (k < nproc) × ((f k).state ≡ zombie) × ((f k).parent ≡ some cur) × (pid ≡ (f k).pid)
Means cur f no_children = ((f cur).killed ≡ true) ⊎ Childless cur f
Means cur f waits =
    ((f cur).killed ≡ false)
    × ((j : ℕ) × (j < nproc) × (is_child_of cur (f j).parent ≡ true))
    × ((j : ℕ) → j < nproc → (is_child_of cur (f j).parent && is_zombie (f j).state) ≡ false)
