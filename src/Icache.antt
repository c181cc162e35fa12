-- ===== src/Icache.antt =====
-- The inodes in memory of xv6-core/fs.c, and who refers to them.
pub mod Defs
pub mod Scan
pub mod Counts
pub mod Reach
mod Tests
