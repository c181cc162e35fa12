-- ===== src/Dinner.antt =====
-- The dining philosophers of xv6-core/philosopher.c and xv6-core/philosophers.c, over the
-- semaphores: five processes interleaved in any order.
mod Defs
pub mod Count
pub mod Safety
pub mod Progress
mod Tests
unfoldable pub use Defs.*
