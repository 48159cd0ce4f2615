-- ===== src/Cli/Safe.antt =====
-- Every command keeps the protocol of the transactions, whether it returns or raises.
use l4d2_iptable_suite.Base.{refl, String, Option, none, some, arith}
use l4d2_iptable_suite.Base.Json.{Json}
use l4d2_iptable_suite.Schema.{persisted}
use l4d2_iptable_suite.Exec.{asks}
use l4d2_iptable_suite.Exec.Ensures.{
  Ensures, Ensures-bind, Ensures-weaken, Ensures-if, Ensures-asks,
}
use l4d2_iptable_suite.World.{Host}
use l4d2_iptable_suite.Protocol.{IsSafe}
use l4d2_iptable_suite.Store.Files.{get, put}
use l4d2_iptable_suite.Store.Reading.{keeps, inspect_for_keeps}
use l4d2_iptable_suite.Store.Rollback
use l4d2_iptable_suite.Store.Rollback.{note_checked}
use l4d2_iptable_suite.Store.Confirm.{confirm_locked}
use l4d2_iptable_suite.Store.Confirm.Safe.{confirm_locked-InStage}
use l4d2_iptable_suite.Store.Apply.{Verdict}
use l4d2_iptable_suite.Store.Apply.Reads.{require_scope_keeps}
use l4d2_iptable_suite.Boot.Barrier.Safe.{
  safe, put-unwatched-IsSafe, rollback-IsSafe, apply-IsSafe, saved-IsSafe, boot_rules,
}
use l4d2_iptable_suite.Cli.{
  Operation, check, confirm, rollback, disable, save, load, status, doctor, boot_prepare,
  boot_guard, boot_restore, boot_disarm, ready, Arguments,
}
use l4d2_iptable_suite.Cli.Locked.{
  require_prepared, run_disarm, run_rollback, run_confirm, run_status, run_doctor, run_save,
  candidate_for, check_handover, run_check, require_managed, run_apply, run_policy,
  run_after_expiry, run_locked, run_outside, main,
}

module _ (H : Host) (a : Arguments) where
  confirm-IsSafe :
      (token : String) → Ensures (IsSafe H) (confirm_locked H token) (λ _. IsSafe H) (IsSafe H)
  confirm-IsSafe token =
      Ensures-weaken (confirm_locked-InStage H token) (λ w h. h) (λ a w h. h.safe) (λ w h. h)

  check-IsSafe : (b : H.Batch) → Ensures (IsSafe H) (Rollback.check H b) (λ _. IsSafe H) (IsSafe H)
  unfolding Rollback.check
  check-IsSafe b =
      Ensures-bind (asks (λ w. H.check b w.kernel)) (λ _. note_checked H b)
        (Ensures-asks {Q = λ _. IsSafe H} _ (λ w h. h) (λ w a e h. h))
        (λ _. record { at = λ w h. ground arith })

  put_persisted-IsSafe :
      (v : Json) → Ensures (IsSafe H) (put H persisted v) (λ _. IsSafe H) (IsSafe H)
  put_persisted-IsSafe v = put-unwatched-IsSafe H persisted v refl

  ruleset reading = (keeps, safe, Ensures-if, inspect_for_keeps)

  candidate_for-IsSafe :
      (o : Operation) (previous : Json)
      → Ensures (IsSafe H) (candidate_for H a o previous) (λ _. IsSafe H) (IsSafe H)
  unfolding candidate_for get
  candidate_for-IsSafe load previous = search reading depth 12
  candidate_for-IsSafe disable previous = search reading depth 12
  candidate_for-IsSafe _ previous = search reading depth 12

  check_handover-IsSafe :
      (candidate previous live : Json) (m : Option String)
      → Ensures (IsSafe H) (check_handover H a candidate previous live m) (λ _. IsSafe H) (IsSafe H)
  unfolding check_handover get
  check_handover-IsSafe candidate previous live none = search reading depth 12
  check_handover-IsSafe candidate previous live (some path) = search reading depth 16

  run_check-IsSafe :
      (previous candidate : Json)
      → Ensures (IsSafe H) (run_check H a previous candidate) (λ _. IsSafe H) (IsSafe H)
  unfolding run_check
  run_check-IsSafe previous candidate =
      search (reading, check_handover-IsSafe, check-IsSafe) depth 16

  run_apply-IsSafe :
      (v : Option Verdict) (previous candidate : Json)
      → Ensures (IsSafe H) (run_apply H a v previous candidate) (λ _. IsSafe H) (IsSafe H)
  unfolding run_apply require_managed
  run_apply-IsSafe v previous candidate = search (reading, apply-IsSafe) depth 16

  run_save-IsSafe :
      (previous : Json) → Ensures (IsSafe H) (run_save H a previous) (λ _. IsSafe H) (IsSafe H)
  unfolding run_save get
  run_save-IsSafe previous =
      search (reading, require_scope_keeps, put_persisted-IsSafe, saved-IsSafe) depth 16

  run_policy-IsSafe :
      (o : Operation) (v : Option Verdict)
      → Ensures (IsSafe H) (run_policy H a o v) (λ _. IsSafe H) (IsSafe H)
  unfolding run_policy get
  run_policy-IsSafe save v = search (reading, run_save-IsSafe)
  run_policy-IsSafe check v = search (reading, candidate_for-IsSafe, run_check-IsSafe)
  run_policy-IsSafe _ v = search (reading, candidate_for-IsSafe, run_apply-IsSafe)

  run_after_expiry-IsSafe :
      (o : Operation) (v : Option Verdict)
      → Ensures (IsSafe H) (run_after_expiry H a o v) (λ _. IsSafe H) (IsSafe H)
  unfolding run_after_expiry run_confirm run_status run_doctor get
  run_after_expiry-IsSafe confirm v = search (reading, rollback-IsSafe, confirm-IsSafe)
  run_after_expiry-IsSafe status v = search (reading, rollback-IsSafe)
  run_after_expiry-IsSafe doctor v = search (reading, rollback-IsSafe) depth 12
  run_after_expiry-IsSafe _ v = search (keeps, rollback-IsSafe, run_policy-IsSafe)

  run_locked-IsSafe :
      (o : Operation) (v : Option Verdict)
      → Ensures (IsSafe H) (run_locked H a o v) (λ _. IsSafe H) (IsSafe H)
  unfolding run_locked require_prepared run_disarm run_rollback
  run_locked-IsSafe boot_prepare v = search (reading, boot_rules) depth 12
  run_locked-IsSafe boot_guard v = search (reading, boot_rules) depth 12
  run_locked-IsSafe boot_restore v = search (reading, boot_rules) depth 12
  run_locked-IsSafe boot_disarm v = search (reading, boot_rules) depth 12
  run_locked-IsSafe ready v = search (reading, boot_rules) depth 12
  run_locked-IsSafe rollback v = search (reading, rollback-IsSafe)
  run_locked-IsSafe o v = run_after_expiry-IsSafe o v

  run_outside-IsSafe :
      (o : Operation) → Ensures (IsSafe H) (run_outside H a o) (λ _. IsSafe H) (IsSafe H)
  unfolding run_outside
  run_outside-IsSafe o = search (reading) depth 12

  pub main-IsSafe :
      (v : Option Verdict) → Ensures (IsSafe H) (main H a v) (λ _. IsSafe H) (IsSafe H)
  unfolding main
  main-IsSafe v = search (reading, run_outside-IsSafe, run_locked-IsSafe) depth 12
