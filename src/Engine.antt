-- ===== src/Engine.antt =====
-- core/engine.py: the pure parts of the iptables engine, on parsed iptables-save rules. A rule is the list
-- of words that `shlex.split` makes of its line.
pub mod Save
pub mod Plain
pub mod Iptables
pub mod Docker
pub mod RuleWords
pub mod SharedRule
pub mod Shared
pub mod Inventory
pub mod Nft
pub mod Version
pub mod DockerLink
pub mod Checks
pub mod Deletes
pub mod Preflight
pub mod Snapshot
