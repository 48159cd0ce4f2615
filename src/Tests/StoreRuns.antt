-- ===== src/Tests/StoreRuns.antt =====
-- Runs of the transactions, and what holds of them.
use l4d2_iptable_suite.Base.{◌≡◌, refl, false, some, String, Option, [], ◌∷◌}
use l4d2_iptable_suite.Base.Result.{Result, ok}
use l4d2_iptable_suite.Base.Json
use l4d2_iptable_suite.Base.Json.{item, item_or, find_item}
use l4d2_iptable_suite.Schema.{
  migrate_policy, migrate_record, migrate_pending, migrate_member, canonical_for_storage, pending,
  installed,
}
use l4d2_iptable_suite.Exec.{◌>>=◌, cleanup_then_raise}
use l4d2_iptable_suite.World.{World, wrote, deleted, checked, executed, started}
use l4d2_iptable_suite.Store.Files
use l4d2_iptable_suite.Store.Files.{
  write_file, put, delete, remaining, monotonic, wall_time, deadline_left, time_left,
}
use l4d2_iptable_suite.Store.Rollback.{rollback_locked, check, execute}
use l4d2_iptable_suite.Store.Apply.{
  apply_locked, prepare_plan, guarded, arm_watchdog, run_batch, take_snapshot, pin_batch,
  pin_candidate, prepare_handover, verify_legacy, pending_left, run_verifier, arm,
}
use l4d2_iptable_suite.Boot.Installed.{require_scope, inspect_for, invalidate}
use l4d2_iptable_suite.Tests.Demo.{demo, policy, request, first}

unfoldable pub applied : Result (Option String) × World demo
unfolding apply_locked prepare_plan guarded arm_watchdog run_batch take_snapshot pin_batch
    pin_candidate prepare_handover verify_legacy pending_left run_verifier rollback_locked check
    execute require_scope inspect_for invalidate migrate_policy migrate_record migrate_pending
    migrate_member canonical_for_storage item item_or find_item ◌>>=◌ cleanup_then_raise Files.get
    put write_file delete remaining monotonic wall_time deadline_left time_left Json.get Json.put
    Json.remove arm
applied = apply_locked demo request policy first

pub applied_lem :
    (applied.0 ≡ ok (some "t1"))
    × (applied.1.kernel ≡ "new rules")
    × (applied.1.trace
        ≡ executed "new rules"
          ∷ deleted installed
          ∷ wrote pending
          ∷ checked "new rules"
          ∷ started false false
          ∷ [])
unfolding applied
applied_lem = (refl, refl, refl)
