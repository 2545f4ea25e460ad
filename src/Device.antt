-- ===== src/Device.antt =====
-- src/core/devices: the disk, tape and floppy controllers of the Unibus and the Massbus.
pub mod Media
pub mod Rk11
pub mod Rl11
pub mod Rp11
pub mod Tm11
pub mod Rx11
