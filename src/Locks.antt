-- ===== src/Locks.antt =====
-- The spin locks of xv6-core/spinlock.c and the sleep locks of xv6-core/sleeplock.c.
pub mod Defs
pub mod Interrupts
pub mod Spin
mod Tests
unfoldable pub use Defs.*
