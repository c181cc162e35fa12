-- ===== src/Log.antt =====
-- The logging layer of xv6-core/log.c: commit, recovery after a crash, and the accounting of
-- begin_op, log_write and end_op.
mod Defs
pub mod Header
pub mod Writes
pub mod Recovery
pub mod Crash
pub mod Reserve
mod Tests
unfoldable pub use Defs.*
