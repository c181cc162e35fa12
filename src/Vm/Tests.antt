-- ===== src/Vm/Tests.antt =====
-- Two pages mapped in an empty page directory.
use os_lab.Prelude.{ℕ, true, [], ◌∷◌}
use os_lab.Vm.Defs.{Perm, Memory, no_pte}

abbrev pgdir : ℕ
pgdir = 2151677952

abbrev memory : Memory
memory = record { free = 2152726528 ∷ 2152730624 ∷ []; table = λ t k. no_pte }

abbrev writable : Perm
writable = record { writable = true; user = true }
