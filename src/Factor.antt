-- ===== src/Factor.antt =====
-- `flpf` of xv6-core/proc.c, behind the system call `flpf`: the largest prime factor of its
-- argument.
mod Division
pub mod Largest
mod Tests
unfoldable pub use Division.*
