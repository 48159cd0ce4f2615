-- ===== src/Lib.antt =====
-- Verification of L4D2-Iptable-Suite: the policy transactions, and the decisions around them.
--
-- The program composes a firewall policy from a configuration, writes it to the kernel under a journal
-- with a timed rollback, and restores it at boot behind an early barrier. core/fw.py takes the writer
-- lock and calls one transaction of core/store.py or one operation of core/boot.py; these read and write
-- the state directory (current, persisted, pending, installed, boot-policy, last-rollback), call
-- core/schema.py for the form of what is stored, and core/engine.py for the kernel. Beside them stand
-- the GeoIP check and the log summary, which only read.
--
-- Files and code:
--   Base               texts, numbers, lists, errors, JSON values, dictionaries and sets; Base/Texts has
--                      characters and words, Base/Yields what a computation that may raise returns
--   Exec               actions over a state that may raise; Exec/Ensures has their rules, Exec/Returned
--                      what a run that returned says of its parts
--   World              the state directory, the kernel, the clock and the effects in their order, and
--                      the interface Host of what the transactions call
--   Schema             core/schema.py: _legacy_dimensions, migrate_policy, migrate_record,
--                      canonical_for_storage
--   Store/Files        core/store.py: get, put, delete, remaining
--   Store/Rollback     core/store.py: rollback_locked; core/engine.py: check, execute
--   Store/Confirm      core/store.py: confirm_locked
--   Store/Apply        core/store.py: apply_locked, arm
--   Store/Watch        core/store.py: watch
--   Boot/Installed     core/boot.py: invalidate, record_installed, manifest, require_scope
--   Boot/Guard         core/boot.py: guard_present, require_guard_owned
--   Boot/Barrier       core/boot.py: verify, prepare, saved, guard, release, restore, disarm
--   Cli                core/fw.py: the rules on the arguments, and main under the lock
--   Engine             core/engine.py: hook_rule, _jump_targets, _unconditional_jump,
--                      docker_forward_diagnostic, actual_hooks, ip_transaction (Iptables, Docker);
--                      _rule_semantics and _canonical_shared_text (RuleWords, SharedRule),
--                      _shared_descriptors (Shared), _inventory_chain (Inventory), nft_transaction (Nft),
--                      version_identity and compatibility (Version), _require_docker_user_link
--                      (DockerLink), preflight (Checks, Preflight), snapshot, _require_shared_order and
--                      require_owned_present (Snapshot); Deletes and Preflight/Ownership have
--                      what a transaction deletes, Snapshot/Restore what a rollback restores
--   Legacy             core/legacy.py: validate, tables, owned_keys; Legacy/Handover has inventory,
--                      verify and prepare, Legacy/Transaction pin_transaction; Made, RoundTrip and
--                      Pinned have the proofs
--   Compiler           core/compiler.py: chain and add (Compiler), guard (Rules), core and grants (Core),
--                      vpn (Vpn, Scopes), iptables_records (Records, Modules), containers (Containers) and
--                      build (Build); Declared, Policy, Hooked, HookedIp, Dicts, Nat,
--                      VpnPolicy, Modules/Limits and Build/Closed have the proofs
--   Config             core/config.py: ports, duration and rules of Configuration.validate
--   GeoIp              scripts/geoip/check_geo_policy_ip.py: coverage_for and decide
--   LogSummary         log-summary/app/fw_log_summary.py: events, counters, text and cycle
--   Protocol, History  the order of durable and kernel effects that the transactions keep, as an
--                      abstract reading of the effects, and the histories of commands and watchdogs
--   Tests              concrete runs
--
-- State and errors. An action is a function of the world that returns a value or an error with the
-- world as it is then: what was done before a raise stays done. A write of a file is one durable step,
-- as atomic_json makes it. An interrupted process is not a step of its own: a start of a history may
-- have any journal and any installation record. The transactions call the engine, the handover,
-- boot.digest, systemd-run and nft through the fields of Host, about which nothing is assumed, so that
-- their theorems hold whatever these return; Tests/Demo has a concrete one. Engine and Legacy
-- model these functions on the parts of a policy that they read, as functions that return a value or an
-- error; what nft and iptables print is an argument of them.
--
-- Bounds. Time is in whole ticks of a second, and a reading of the clock may take time (delays). The
-- loop of watch is on fuel; the ticks up to the deadline are enough. The digits of a number are on
-- fuel, for which the number itself is enough. All other functions are by structural recursion.
-- Kernel rules are lists of words, and the lines of a transaction are not rendered to
-- text. A GeoIP network is a list of prefix bits, and an address a function that gives its bits.
--
-- Not modelled: argparse, printing, file owners and the lock file, the double fork of the detached
-- watchdog, the regular expressions of the log, nft_records of core/compiler.py, inspect and parse_save
-- of core/engine.py, load of core/legacy.py, the older log report, the builder of the GeoIP sets, and
-- the shell modules.
pub mod Base
pub mod Schema
pub mod Exec
pub mod World
pub mod Boot
pub mod Compiler
pub mod Cli
pub mod Config
pub mod Engine
pub mod GeoIp
pub mod Legacy
pub mod LogSummary
pub mod Store
pub mod Protocol
pub mod History
mod Tests
