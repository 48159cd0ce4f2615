-- ===== src/Boot/Barrier/Safe.antt =====
-- The boot operations keep the protocol of the transactions, whether they return or raise.
use l4d2_iptable_suite.Base.{◌≡◌, refl, Bool, true, false, String, Option, none, some, arith}
use l4d2_iptable_suite.Base.Json.{Json}
use l4d2_iptable_suite.Schema.{Name, boot_policy}
use l4d2_iptable_suite.Exec.{modify}
use l4d2_iptable_suite.Exec.Ensures.{
  Outcome-both, Ensures, Ensures-bind, Ensures-weaken, Ensures-if, Ensures-lift,
}
use l4d2_iptable_suite.World.{Host, World}
use l4d2_iptable_suite.Protocol.{IsSafe}
use l4d2_iptable_suite.Store.Files.{get, put, delete, write_file}
use l4d2_iptable_suite.Store.Steps.{unwatched, invalidate-IsSafe}
use l4d2_iptable_suite.Store.Reading.{keeps, inspect_for_keeps}
use l4d2_iptable_suite.Store.Rollback.{rollback_locked}
use l4d2_iptable_suite.Store.Rollback.Safe.{rollback_locked-AfterRollback}
use l4d2_iptable_suite.Store.Apply.{Request, apply_locked}
use l4d2_iptable_suite.Store.Apply.Reads.{manifest_keeps, require_scope_keeps}
use l4d2_iptable_suite.Store.Apply.Safe.{Applied, apply_locked-Applied}
use l4d2_iptable_suite.Boot.Guard.{guard_present, require_guard_owned}
use l4d2_iptable_suite.Boot.Barrier.{
  require_settled, nft_run, verify_installed, is_released, verify, prepare, saved, guard_batch,
  guard, remove_guard, release, restore, drop_guard, disarm,
}

module _ (H : Host) where
  pub safe : (w : World H) → IsSafe H w → IsSafe H w
  safe w h = h

  module _ {E : World H → Type 0} where
    write_unwatched-IsSafe :
        (n : Name) (v : Json)
        → unwatched n ≡ true
        → Ensures (IsSafe H) (write_file H n v) (λ _. IsSafe H) E
    unfolding write_file modify
    write_unwatched-IsSafe n v e = record { at = λ w h. ground arith }

    delete_boot_policy-IsSafe : Ensures (IsSafe H) (delete H boot_policy) (λ _. IsSafe H) E
    unfolding delete modify
    delete_boot_policy-IsSafe = record { at = λ w h. ground arith }

  pub put-unwatched-IsSafe :
      (n : Name) (v : Json)
      → unwatched n ≡ true
      → Ensures (IsSafe H) (put H n v) (λ _. IsSafe H) (IsSafe H)
  unfolding put
  put-unwatched-IsSafe n v e =
      Ensures-bind _ _ (Ensures-lift {Q = λ _. IsSafe H} _ safe (λ w a e h. h))
        (λ a. write_unwatched-IsSafe n a e)

  put_boot_policy-IsSafe :
      (v : Json) → Ensures (IsSafe H) (put H boot_policy v) (λ _. IsSafe H) (IsSafe H)
  put_boot_policy-IsSafe v = put-unwatched-IsSafe boot_policy v refl

  nft_run-IsSafe : (text : String) → Ensures (IsSafe H) (nft_run H text) (λ _. IsSafe H) (IsSafe H)
  unfolding nft_run
  nft_run-IsSafe text = record {
    at = λ w h. Outcome-both (IsSafe H) (H.nft_run text w.kernel).0 _ (record {
      follows = h.follows;
      journal = h.journal;
      readable = h.readable;
      vouches = h.vouches;
    });
  }

  pub verify-IsSafe :
      (allow : Bool) → Ensures (IsSafe H) (verify H allow) (λ _. IsSafe H) (IsSafe H)
  unfolding verify require_settled verify_installed is_released guard_present get
  verify-IsSafe true = search (keeps, safe, inspect_for_keeps) depth 20
  verify-IsSafe false = search (keeps, safe, inspect_for_keeps) depth 20

  pub rollback-IsSafe :
      (token : Option String) (expired_only : Bool)
      → Ensures (IsSafe H) (rollback_locked H token expired_only) (λ _. IsSafe H) (IsSafe H)
  rollback-IsSafe token expired_only =
      Ensures-weaken (rollback_locked-AfterRollback H token expired_only) (λ w h. h)
        (λ a w h. h.safe) (λ w h. h)

  Applied-IsSafe : (o : Option String) (w : World H) → Applied H o w → IsSafe H w
  Applied-IsSafe none w h = h.safe
  Applied-IsSafe (some token) w h = h.safe

  pub apply-IsSafe :
      (request : Request) (given : Json)
      → Ensures (IsSafe H) (apply_locked H request given) (λ _. IsSafe H) (IsSafe H)
  apply-IsSafe request given =
      Ensures-weaken (apply_locked-Applied H request given) (λ w h. h) Applied-IsSafe (λ w h. h)

  pub prepare-IsSafe :
      (path : Option String) (owner : String)
      → Ensures (IsSafe H) (prepare H path owner) (λ _. IsSafe H) (IsSafe H)
  unfolding prepare require_settled guard_present get
  prepare-IsSafe path owner = search (keeps, safe, verify-IsSafe, put_boot_policy-IsSafe) depth 24

  pub saved-IsSafe :
      (policy : Json) → Ensures (IsSafe H) (saved H policy) (λ _. IsSafe H) (IsSafe H)
  unfolding saved get
  saved-IsSafe policy =
      search (keeps, safe, Ensures-if, require_scope_keeps, put_boot_policy-IsSafe) depth 16

  guard_batch-IsSafe :
      (value : Json) (text : String)
      → Ensures (IsSafe H) (guard_batch H value text) (λ _. IsSafe H) (IsSafe H)
  unfolding guard_batch guard_present require_guard_owned
  guard_batch-IsSafe value text = search (keeps, safe, Ensures-if) depth 16

  pub guard-IsSafe : Ensures (IsSafe H) (guard H) (λ _. IsSafe H) (IsSafe H)
  unfolding guard
  guard-IsSafe =
      search (keeps, safe, manifest_keeps, invalidate-IsSafe, guard_batch-IsSafe, nft_run-IsSafe)
        depth 16

  remove_guard-IsSafe : Ensures (IsSafe H) (remove_guard H) (λ _. IsSafe H) (IsSafe H)
  unfolding remove_guard
  remove_guard-IsSafe = nft_run-IsSafe _

  release-IsSafe : Ensures (IsSafe H) (release H) (λ _. IsSafe H) (IsSafe H)
  unfolding release guard_present require_guard_owned
  release-IsSafe = search (keeps, safe, manifest_keeps, verify-IsSafe, remove_guard-IsSafe) depth 20

  pub restore-IsSafe :
      (token : String) → Ensures (IsSafe H) (restore H token) (λ _. IsSafe H) (IsSafe H)
  unfolding restore get
  restore-IsSafe token =
      search
        (keeps, safe, manifest_keeps, guard-IsSafe, rollback-IsSafe, apply-IsSafe, release-IsSafe)
        depth 20

  drop_guard-IsSafe :
      (value : Json) → Ensures (IsSafe H) (drop_guard H value) (λ _. IsSafe H) (IsSafe H)
  unfolding drop_guard guard_present require_guard_owned
  drop_guard-IsSafe value = search (keeps, safe, Ensures-if, remove_guard-IsSafe) depth 16

  pub disarm-IsSafe : Ensures (IsSafe H) (disarm H) (λ _. IsSafe H) (IsSafe H)
  unfolding disarm require_settled get
  disarm-IsSafe =
      search
        (
          keeps, safe, manifest_keeps, drop_guard-IsSafe, delete_boot_policy-IsSafe,
          invalidate-IsSafe,
        )
        depth 20

  pub ruleset boot_rules =
      (verify-IsSafe, prepare-IsSafe, guard-IsSafe, restore-IsSafe, disarm-IsSafe)
