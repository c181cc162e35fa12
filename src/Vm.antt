-- ===== src/Vm.antt =====
-- Page tables, xv6-core/vm.c.
pub mod Defs
pub mod Tables
pub mod Walked
pub mod Mapped
mod Tests
