-- ===== src/Dir.antt =====
-- Directories and path names of xv6-core/fs.c.
pub mod Defs
pub mod Lookup
pub mod Entries
pub mod Room
pub mod Linked
pub mod Link
pub mod PathNames
pub mod Namex
mod Tests
