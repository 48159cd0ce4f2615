-- ===== src/World.antt =====
-- What the transactions work on: the state directory, the kernel's rulesets, the clock, and the
-- record of the durable and kernel effects in their order. core/engine.py and the programs that it
-- calls are the interface `Host`.
use l4d2_iptable_suite.Base.{ℕ, String, Bool, Option, List}
use l4d2_iptable_suite.Base.Result.{Result}
use l4d2_iptable_suite.Base.Json.{Json}
use l4d2_iptable_suite.Schema.{
  Name, current, persisted, pending, installed, boot_policy, last_rollback,
}

-- The functions of core/engine.py, core/legacy.py and core/boot.py that the transactions call, and
-- the services of the system. What they read of the kernel is an argument.
pub record Host : Type 1 where
  pub Kernel : Type 0
  -- a batch of nft or iptables-restore inputs
  pub Batch : Type 0
  -- engine.inspect(backend, frontend)
  pub inspect : Json → Json → Kernel → Result Json
  -- engine.preflight(policy, previous, live, accept_version_change, legacy_owned)
  pub preflight : Json → Json → Json → Bool → List (String × String) → Kernel → Result (Unit {0})
  -- engine.actual_hooks(policy, live)
  pub actual_hooks : Json → Json → Result Json
  -- engine.compatibility(previous, live, accept_version_change)
  pub compatibility : Json → Json → Bool → Result Json
  -- engine.snapshot(policy, live)
  pub snapshot : Json → Json → Kernel → Result Json
  -- engine.prepare(target, union, live, rollback)
  pub prepare : Json → List Json → Json → Bool → Kernel → Result Batch
  -- engine.check(transactions)
  pub check : Batch → Kernel → Result (Unit {0})
  -- engine.execute(transactions), with their deadline and the time now; also the time it took
  pub execute : Batch → Option ℕ → ℕ → Kernel → Result (Unit {0}) × Kernel × ℕ
  -- boot.digest(value) and boot.fingerprint(policy, live)
  pub digest : Json → String
  pub fingerprint : Json → Json → Kernel → Result String
  -- boot.guard_text(policy, rows, owner), and the test of the recovery route in boot.require_scope
  pub guard_text : Json → Json → Json → Result String
  pub recovery_in_scope : Json → Json → Result Bool
  -- legacy.prepare, legacy.owned_keys, legacy.pin_transaction and legacy.verify
  pub legacy_prepare : Json → Json → Json → Json → Kernel → Result Json
  pub owned_keys : Json → Result (List (String × String))
  pub pin : Batch → Json → Result Batch
  pub legacy_verify : Json → Kernel → Result (Unit {0})
  -- systemd-run and the detached process that call `rollback` after the timeout
  pub start_timer : String → ℕ → Result (Unit {0})
  pub start_process : String → Result (Unit {0})
  pub isolated_network : Bool
  -- json.loads of what `nft -j list tables` and `nft -j list table inet l4d2_boot_guard` print
  pub list_tables : Kernel → Result Json
  pub list_guard : Kernel → Result Json
  -- `nft -c -f -` and `nft -f -`, which may change the kernel though it fails
  pub nft_check : String → Kernel → Result (Unit {0})
  pub nft_run : String → Kernel → Result (Unit {0}) × Kernel
  -- boot.recovery_rows(path, policy)
  pub recovery_rows : String → Json → Result Json
  -- legacy.load(path), and engine.require_owned_present(policy, live)
  pub load_manifest : String → Result Json
  pub require_owned_present : Json → Json → Kernel → Result (Unit {0})

-- The files of the state directory.
pub record Disk : Type 0 where
  pub current_file : Option Json
  pub persisted_file : Option Json
  pub pending_file : Option Json
  pub installed_file : Option Json
  pub boot_policy_file : Option Json
  pub last_rollback_file : Option Json

abbrev pub file : Name → Disk → Option Json
file current d = d.current_file
file persisted d = d.persisted_file
file pending d = d.pending_file
file installed d = d.installed_file
file boot_policy d = d.boot_policy_file
file last_rollback d = d.last_rollback_file

abbrev pub set_file : Name → Option Json → Disk → Disk
set_file current v d = record d { current_file = v }
set_file persisted v d = record d { persisted_file = v }
set_file pending v d = record d { pending_file = v }
set_file installed v d = record d { installed_file = v }
set_file boot_policy v d = record d { boot_policy_file = v }
set_file last_rollback v d = record d { last_rollback_file = v }

-- The effects that outlive the process, and the checks of a batch. `started` opens a history: was
-- there a journal, and was there an installation record?
pub data Event (Batch : Type 0) : Type 0 where
  started : Bool → Bool → Event Batch
  wrote : Name → Event Batch
  deleted : Name → Event Batch
  checked : Batch → Event Batch
  executed : Batch → Event Batch

module _ (H : Host) where
  pub record World : Type 0 where
    pub disk : Disk
    pub open disk use *
    pub kernel : H.Kernel
    -- whole ticks of the monotonic clock; `time.time()` is `boot_time` later
    pub clock : ℕ
    pub boot_time : ℕ
    -- the time that passes before each of the coming readings of the clock
    pub delays : List ℕ
    pub boot_id : String
    -- newest first
    pub trace : List (Event H.Batch)
