-- ===== src/Tests/StoreClaims.antt =====
-- What holds of the runs of StoreRuns.
use l4d2_iptable_suite.Base.{◌≤◌, ◌+◌, ◌≡◌, refl, true, false, some, none, Bool, arith}
use l4d2_iptable_suite.Base.Result.{Result, ok}
use l4d2_iptable_suite.Base.Json
use l4d2_iptable_suite.Base.Json.{Json, item, item_or, find_item, null, value_or}
use l4d2_iptable_suite.Schema.{
  migrate_policy, migrate_record, migrate_pending, migrate_member, canonical_for_storage, pending,
}
use l4d2_iptable_suite.Exec.{◌>>=◌}
use l4d2_iptable_suite.World.{World}
use l4d2_iptable_suite.Protocol.{IsSafe}
use l4d2_iptable_suite.Store.Files
use l4d2_iptable_suite.Store.Files.{
  write_file, put, delete, remaining, monotonic, wall_time, deadline_left, time_left, read_record,
}
use l4d2_iptable_suite.Store.Rollback.{
  rollback_locked, check, execute, token_differs, recover, prepare_recovery, restore_current,
  record_recovered, is_early,
}
use l4d2_iptable_suite.Store.Confirm.{confirm_locked, token_known, accept, store_candidate}
use l4d2_iptable_suite.Store.Apply.{apply_locked}
use l4d2_iptable_suite.History.{Started-IsSafe}
use l4d2_iptable_suite.Store.Outcomes.{Settled, apply_locked-Settled, rollback_locked-no_journal}
use l4d2_iptable_suite.Store.Confirm.Current.{confirm_locked-current, confirmed_file}
use l4d2_iptable_suite.Store.Watch.Waits.{IsWatched}
use l4d2_iptable_suite.Store.Watch.Ends.{Expired, watch-Expired}
use l4d2_iptable_suite.Boot.Installed.{record_installed, record_live, inspect_for, invalidate}
use l4d2_iptable_suite.Tests.Demo.{demo, policy, request, first}
use l4d2_iptable_suite.Tests.StoreRuns.{applied}

first-IsSafe : IsSafe demo first
first-IsSafe = Started-IsSafe demo first (refl, refl)

applied-IsSafe : IsSafe demo applied.1
unfolding applied apply_locked
applied-IsSafe = (apply_locked-Settled demo request policy first first-IsSafe).0

confirmed : Result (Unit {0}) × World demo
unfolding applied confirm_locked token_known accept store_candidate record_installed record_live
    inspect_for invalidate migrate_policy migrate_record migrate_pending migrate_member
    canonical_for_storage item item_or find_item ◌>>=◌ Files.get put write_file delete remaining
    monotonic deadline_left time_left Json.get Json.put Json.remove
confirmed = confirm_locked demo "t1" applied.1

confirmed_ok : confirm_locked demo "t1" applied.1 ≡ (ok tt, confirmed.1)
unfolding confirmed confirm_locked
confirmed_ok = refl

rolled_back : Result Bool × World demo
unfolding applied rollback_locked token_differs recover prepare_recovery check execute
    restore_current record_recovered is_early inspect_for invalidate migrate_policy migrate_record
    migrate_pending migrate_member canonical_for_storage item item_or find_item ◌>>=◌ Files.get put
    write_file delete remaining wall_time Json.get Json.put Json.remove
rolled_back = rollback_locked demo (some "t1") false applied.1

rolled_back_ok : rollback_locked demo (some "t1") false applied.1 ≡ (ok true, rolled_back.1)
unfolding rolled_back rollback_locked
rolled_back_ok = refl

apply_locked-Settled_example :
    Settled demo
      (apply_locked demo request policy first).0
      (apply_locked demo request policy first).1
apply_locked-Settled_example = apply_locked-Settled demo request policy first first-IsSafe

rollback_locked-no_journal_example : IsSafe demo rolled_back.1 × (rolled_back.1.pending_file ≡ none)
rollback_locked-no_journal_example =
    rollback_locked-no_journal demo (some "t1") false applied-IsSafe rolled_back_ok

confirm_locked-current_example :
    (confirmed.1.pending_file ≡ none)
    × (journal : Json) × (read_record pending applied.1.pending_file ≡ ok journal)
    × (candidate : Json) × (item journal "candidate" ≡ ok candidate)
    × (confirmed_file candidate ≡ ok confirmed.1.current_file)
confirm_locked-current_example = confirm_locked-current demo "t1" applied-IsSafe confirmed_ok

journal : Json
unfolding applied
journal = value_or applied.1.pending_file null

applied-IsWatched : IsWatched demo "t1" journal 130 applied.1
unfolding applied journal read_record migrate_record migrate_pending migrate_member migrate_policy
    token_known item item_or find_item Json.get Json.put Json.remove
applied-IsWatched = record {
  on_disk = refl;
  mine = refl;
  same_boot = refl;
  expires = refl;
  steady = refl;
}

enough : 130 ≤ applied.1.clock + 120
unfolding applied
enough = omega arith

watch-Expired_example : (w' : World demo) × Expired demo "t1" journal 130 120 applied.1 w'
watch-Expired_example =
    watch-Expired demo "t1" journal 130 120 applied.1 applied-IsSafe applied-IsWatched enough
