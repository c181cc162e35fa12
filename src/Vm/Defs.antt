-- ===== src/Vm/Defs.antt =====
-- walkpgdir and mappages of xv6-core/vm.c. An entry of a page table is its address and its flags.
use os_lab.Prelude.{
  ℕ, zero, suc, ◌+◌, ◌-◌, ◌*◌, ◌/◌, ◌%◌, ◌^◌, Bool, true, false, not, Option, none, some, List,
  if◌then◌else◌, write,
}
use os_lab.Pages.Defs.{pgsize, kernbase, v2p, kalloc}

pub record Pte : Type 0 where
  pub addr : ℕ
  pub present : Bool
  pub writable : Bool
  pub user : Bool

abbrev pub no_pte : Pte
no_pte = record { addr = 0; present = false; writable = false; user = false }

-- `PTE_W` and `PTE_U` of a `perm`.
pub record Perm : Type 0 where
  pub writable : Bool
  pub user : Bool

-- The free pages, and the entries of the page at an address of the kernel.
pub record Memory : Type 0 where
  pub free : List ℕ
  pub table : ℕ → ℕ → Pte

abbrev pub pdx : ℕ → ℕ
pdx va = va / 2 ^ 22 % 1024

abbrev pub ptx : ℕ → ℕ
ptx va = va / 2 ^ 12 % 1024

-- `P2V`, on 32 bits
abbrev pub p2v : ℕ → ℕ
p2v a = (a + kernbase) % 2 ^ 32

abbrev pub page_round_down : ℕ → ℕ
page_round_down a = a / pgsize * pgsize

unfoldable pub set_entry : ℕ → ℕ → Pte → Memory → Memory
set_entry t k e m = record m { table = write m.table t (write (m.table t) k e) }

-- `memset(pgtab, 0, PGSIZE)`
unfoldable pub blank_table : ℕ → Memory → Memory
blank_table t m = record m { table = write m.table t (λ k. no_pte) }

-- A page for the entries of `va`, if there is one.
unfoldable pub new_table : ℕ → ℕ → Memory → Option ℕ × List ℕ → Option ℕ × Memory
new_table pgdir va m (none, free) = (none, record m { free = free })
new_table pgdir va m (some t, free) = (
  some t,
  set_entry pgdir (pdx va) (record { addr = v2p t; present = true; writable = true; user = true })
      (blank_table t (record m { free = free })),
)

-- The page with the entry of `va`, which stands at `ptx va` there.
unfoldable pub walkpgdir : ℕ → ℕ → Bool → Memory → Option ℕ × Memory
walkpgdir pgdir va alloc m =
    let pde = m.table pgdir (pdx va) in
    if pde.present
    then (some (p2v pde.addr), m)
    else (if not alloc then (none, m) else new_table pgdir va m (kalloc m.free))

-- `mappages` panics, returns -1 or returns 0.
pub data Mapping : Type 0 where
  panics : Mapping
  fails : Memory → Mapping
  maps : Memory → Mapping

-- The body of the loop, for one page.
unfoldable pub put_page : ℕ → ℕ → Perm → Option ℕ × Memory → Mapping
put_page a pa perm (none, u) = fails u
put_page a pa perm (some t, u) =
    if (u.table t (ptx a)).present
    then panics
    else maps (
        set_entry t (ptx a)
          (record { addr = pa; present = true; writable = perm.writable; user = perm.user }) u)

unfoldable pub map_page : ℕ → ℕ → ℕ → Perm → Memory → Mapping
map_page pgdir a pa perm m = put_page a pa perm (walkpgdir pgdir a true m)

-- The loop, with `n` pages left after this one.
unfoldable pub map_loop : ℕ → ℕ → ℕ → ℕ → Perm → Memory → Mapping
map_loop zero pgdir a pa perm m = map_page pgdir a pa perm m
map_loop (suc n) pgdir a pa perm m = elim (map_page pgdir a pa perm m) [
  | panics ↦ panics
  | fails u ↦ fails u
  | maps v ↦ map_loop n pgdir ((a + pgsize) % 2 ^ 32) ((pa + pgsize) % 2 ^ 32) perm v
]

-- The page of `va + size - 1`.
abbrev pub last_page : ℕ → ℕ → ℕ
last_page va size = page_round_down ((va + size + (2 ^ 32 - 1)) % 2 ^ 32)

-- The loop goes from the page of `va` to the last, past the end of the addresses if that comes first.
unfoldable pub mappages : ℕ → ℕ → ℕ → ℕ → Perm → Memory → Mapping
mappages pgdir va size pa perm m =
    map_loop ((last_page va size + 2 ^ 32 - page_round_down va) % 2 ^ 32 / pgsize) pgdir
      (page_round_down va) pa perm m
