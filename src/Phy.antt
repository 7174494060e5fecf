-- ===== src/Phy.antt =====
-- phy/: the chip's record and what chip_operation.c does with it.
pub mod Chip
pub mod Lock
pub mod Bbt
pub mod Controller
pub mod Program
pub mod Chipenv
pub mod Info
