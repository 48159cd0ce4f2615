-- ===== src/Tests/HistoryRuns.antt =====
-- A history of two commands: an apply, and its confirmation.
use l4d2_iptable_suite.Base.{◌≡◌, refl, false, some, String, [], ◌∷◌}
use l4d2_iptable_suite.Base.Result.{Result, ok}
use l4d2_iptable_suite.Base.Json
use l4d2_iptable_suite.Base.Json.{item, item_or, find_item}
use l4d2_iptable_suite.Schema.{
  migrate_policy, migrate_record, migrate_pending, migrate_member, canonical_for_storage, pending,
  installed,
}
use l4d2_iptable_suite.Exec.{◌>>=◌, cleanup_then_raise}
use l4d2_iptable_suite.World.{World, wrote, deleted, checked, executed, started}
use l4d2_iptable_suite.Store.Files
use l4d2_iptable_suite.Store.Files.{
  write_file, put, delete, remaining, monotonic, wall_time, deadline_left, time_left,
}
use l4d2_iptable_suite.Store.Rollback.{rollback_locked, check, execute}
use l4d2_iptable_suite.Store.Apply.{
  apply_locked, prepare_plan, guarded, arm_watchdog, run_batch, take_snapshot, pin_batch,
  pin_candidate, prepare_handover, verify_legacy, pending_left, run_verifier, arm,
}
use l4d2_iptable_suite.Boot.Installed.{require_scope, inspect_for, invalidate}
use l4d2_iptable_suite.Tests.Demo.{demo, first, apply_arguments, confirm_arguments}
use l4d2_iptable_suite.Base.{true, none, List}
use l4d2_iptable_suite.Schema.{current}
use l4d2_iptable_suite.World.{Event}
use l4d2_iptable_suite.Protocol.{is_idle, stage, vouched, last_checked, closable}
use l4d2_iptable_suite.Store.Confirm.{confirm_locked, token_known, accept, store_candidate}
use l4d2_iptable_suite.Boot.Installed.{record_installed, record_live}
use l4d2_iptable_suite.Base.Result.{err}
use l4d2_iptable_suite.Base.Json.{Json, null}
use l4d2_iptable_suite.Boot.Guard.{guard_present, has_guard, any_guard, rows_of}
use l4d2_iptable_suite.Boot.Barrier.{verify, verify_installed, is_released, require_settled}
use l4d2_iptable_suite.Boot.Barrier.Ready.{IsReadyWorld, verify-IsReadyWorld}
use l4d2_iptable_suite.Cli.{check_arguments}
use l4d2_iptable_suite.Cli.Locked.{
  Report, main, run_locked, run_after_expiry, candidate_for, run_apply,
}
use l4d2_iptable_suite.History.{
  Reach, here, next, command, executed_under_journal, deleted_when_closable,
}

value_of : Result Json → Json
value_of (ok v) = v
value_of (err e) = null

commanded : Result Report × World demo
unfolding apply_locked prepare_plan guarded arm_watchdog run_batch take_snapshot pin_batch
    pin_candidate prepare_handover verify_legacy pending_left run_verifier rollback_locked check
    execute require_scope inspect_for invalidate migrate_policy migrate_record migrate_pending
    migrate_member canonical_for_storage item item_or find_item ◌>>=◌ cleanup_then_raise Files.get
    put write_file delete remaining monotonic wall_time deadline_left time_left Json.get Json.put
    Json.remove arm main run_locked run_after_expiry candidate_for run_apply check_arguments
commanded = main demo apply_arguments none first

apply_step : Reach demo first commanded.1
unfolding commanded
apply_step = next here (command apply_arguments none)

-- the effects up to the first batch, and up to the removal of the journal
abbrev before_batch : List (Event String)
before_batch = deleted installed ∷ wrote pending ∷ checked "new rules" ∷ started false false ∷ []

abbrev before_removal : List (Event String)
before_removal = wrote installed ∷ wrote current ∷ executed "new rules" ∷ before_batch

commanded_trace : commanded.1.trace ≡ executed "new rules" ∷ before_batch
unfolding commanded
commanded_trace = refl

executed_under_journal_example :
    (is_idle (stage before_batch) ≡ false)
    × (vouched before_batch ≡ false)
    × (last_checked before_batch ≡ some "new rules")
executed_under_journal_example =
    executed_under_journal demo [] before_batch "new rules" (refl, refl) apply_step commanded_trace

confirmed : Result Report × World demo
unfolding commanded main run_locked run_after_expiry check_arguments rollback_locked confirm_locked
    token_known accept store_candidate record_installed record_live inspect_for invalidate
    migrate_policy migrate_record migrate_pending migrate_member canonical_for_storage item item_or
    find_item ◌>>=◌ Files.get put write_file delete remaining monotonic deadline_left time_left
    Json.get Json.put Json.remove
confirmed = main demo confirm_arguments none commanded.1

confirm_step : Reach demo first confirmed.1
unfolding confirmed
confirm_step = next apply_step (command confirm_arguments none)

confirmed_trace : confirmed.1.trace ≡ deleted pending ∷ before_removal
unfolding confirmed
confirmed_trace = refl

deleted_when_closable_example : closable (stage before_removal) ≡ true
deleted_when_closable_example =
    deleted_when_closable demo [] before_removal (refl, refl) confirm_step confirmed_trace

is_ready_now : Result Json × World demo
unfolding confirmed verify verify_installed is_released require_settled guard_present has_guard
    any_guard rows_of inspect_for migrate_policy migrate_record canonical_for_storage item item_or
    find_item ◌>>=◌ Files.get Json.get
is_ready_now = verify demo false confirmed.1

is_ready_now_ok : verify demo false confirmed.1 ≡ (ok (value_of is_ready_now.0), confirmed.1)
unfolding is_ready_now verify confirmed value_of
is_ready_now_ok = refl

verify-IsReadyWorld_example : IsReadyWorld demo false confirmed.1 × (confirmed.1 ≡ confirmed.1)
verify-IsReadyWorld_example = verify-IsReadyWorld demo false is_ready_now_ok
