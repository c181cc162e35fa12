-- ===== src/Semaphore.antt =====
-- The semaphores of xv6-core/proc.c (`struct semaphore`, the array `spoons`, sem_init, sem_acquire,
-- sem_release) and the system calls of xv6-core/sysproc.c that reach them.
mod Defs
pub mod Laws
mod Tests
unfoldable pub use Defs.*
