-- ===== src/Phys.antt =====
-- src/phys: the physical transports.
pub mod Smbus
