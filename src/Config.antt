-- ===== src/Config.antt =====
-- core/config.py: the parts of a configuration that are checked, and the rules among them.
pub mod Ports
pub mod Validate
pub mod Access
