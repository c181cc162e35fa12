-- ===== src/Proc.antt =====
-- The process table of xv6-core/proc.c: allocproc, fork, exit, wait, kill, sleep, wakeup, yield and the
-- scheduler's choice, each as one step under ptable.lock.
mod Defs
mod Birth
mod Steps
pub mod Scan
pub mod Family
pub mod Lifecycle
pub mod Ends
pub mod Waits
pub mod Reach
pub mod Kills
mod Tests
unfoldable pub use Defs.*
unfoldable pub use Birth.*
unfoldable pub use Steps.*
