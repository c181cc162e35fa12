-- ===== src/Args.antt =====
-- How xv6-core/syscall.c takes the arguments of a system call from user memory.
mod Defs
pub mod Bounds
mod Tests
unfoldable pub use Defs.*
