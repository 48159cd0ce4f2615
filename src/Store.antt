-- ===== src/Store.antt =====
-- core/store.py: the one writer of the state directory.
pub mod Files
pub mod Steps
pub mod Reading
pub mod Journal
pub mod Rollback
pub mod Confirm
pub mod Apply
pub mod Watch
pub mod Outcomes
