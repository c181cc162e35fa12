-- ===== src/Files.antt =====
-- The open-file table of xv6-core/file.c and the descriptors of xv6-core/sysfile.c.
mod Defs
mod Descriptors
pub mod Count
pub mod Refs
pub mod Calls
mod Tests
unfoldable pub use Defs.*
unfoldable pub use Descriptors.*
