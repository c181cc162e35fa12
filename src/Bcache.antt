-- ===== src/Bcache.antt =====
-- xv6-core/bio.c on the disk of xv6-core/memide.c.
pub mod Defs
pub mod Walk
pub mod Ring
pub mod Order
pub mod Bget
pub mod Reach
mod Tests
