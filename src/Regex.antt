-- ===== src/Regex.antt =====
-- The pattern matcher of xv6-core/grep.c.
mod Defs
pub mod Matching
mod Tests
unfoldable pub use Defs.*
