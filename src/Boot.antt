-- ===== src/Boot.antt =====
-- core/boot.py: the boot barrier and the installation record.
pub mod Installed
pub mod Guard
pub mod Barrier
