-- ===== src/Pages.antt =====
-- The physical page allocator of xv6-core/kalloc.c.
pub mod Defs
pub mod Range
mod Tests
unfoldable pub use Defs.*
