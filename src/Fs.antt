-- ===== src/Fs.antt =====
-- xv6-core/fs.c.
pub mod Defs
pub mod Bits
pub mod Bitmap
pub mod Alloc
pub mod Inode
pub mod Words
pub mod Dinode
pub mod Dinodes
pub mod Slots
pub mod Filled
pub mod Grown
pub mod Fill
pub mod Bmap
pub mod Read
pub mod Overwrite
pub mod Write
pub mod Readi
pub mod RoundTrip
pub mod Freeing
pub mod Trunc
mod Tests
