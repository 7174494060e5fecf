-- ===== src/Dev.antt =====
-- dev/phydev.c: the operations of a physical device, over the chip's operations.
pub mod Phydev
pub mod Env
