-- ===== src/Strings.antt =====
-- The byte and string routines of xv6-core/string.c, on a memory of bytes.
mod Defs
pub mod Moves
pub mod Compare
pub mod Copies
mod Tests
unfoldable pub use Defs.*
