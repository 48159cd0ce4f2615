-- ===== src/Store/Apply/Safe.antt =====
-- `apply_locked` keeps the protocol, whether it returns or raises.
use l4d2_iptable_suite.Base.{ℕ, ◌+◌, ◌≡◌, refl, true, false, not, String, Option, none, some, arith}
use l4d2_iptable_suite.Base.Result.{require}
use l4d2_iptable_suite.Base.Json.{Json, truthy}
use l4d2_iptable_suite.Schema.{pending, canonical_for_storage}
use l4d2_iptable_suite.Exec.{lift, pure, reads, ◌>>=◌, ◌>>◌}
use l4d2_iptable_suite.Exec.Ensures.{
  Ensures, Ensures-bind, Ensures-bind_keeps, Ensures-lift, Ensures-pure, Ensures-if, Ensures-weaken,
  Ensures-cleanup,
}
use l4d2_iptable_suite.World.{Host, World}
use l4d2_iptable_suite.Protocol.{
  idle, open_journal, IsSafe, InStage, IsOpen, IsPrepared, IsJournalled, IsReady,
}
use l4d2_iptable_suite.Store.Files.{get, put, wall_time, monotonic}
use l4d2_iptable_suite.Store.Steps.{
  check-IsPrepared, write_pending-IsJournalled, arm-IsReady, delete_pending-InStage,
  execute-InStage,
}
use l4d2_iptable_suite.Store.Reading.{keeps, up, inspect_for_keeps, remaining_keeps}
use l4d2_iptable_suite.Store.Journal.{Found, get_pending-Found}
use l4d2_iptable_suite.Store.Rollback.{check, execute}
use l4d2_iptable_suite.Store.Rollback.Safe.{rollback_locked-AfterRollback}
use l4d2_iptable_suite.Store.Confirm.{confirm_locked}
use l4d2_iptable_suite.Store.Confirm.Safe.{confirm_locked-InStage}
use l4d2_iptable_suite.Store.Apply.{
  Verdict, Request, Plan, prepare_plan, journal_of, arm_watchdog, pending_left, run_verifier,
  run_batch, undo, guarded, apply_locked,
}
use l4d2_iptable_suite.Store.Apply.Reads.{
  require_scope_keeps, prepare_handover_keeps, take_snapshot_keeps, verify_legacy_keeps,
  judge_keeps,
}

module _ (H : Host) where
  pending_left-IsOpen : Ensures (IsOpen H) (pending_left H) (λ _. IsOpen H) (IsSafe H)
  unfolding pending_left get
  pending_left-IsOpen = search (keeps, up, remaining_keeps)

  run_verifier-IsOpen :
      (v : Option Verdict) → Ensures (IsOpen H) (run_verifier H v) (λ _. IsOpen H) (IsSafe H)
  unfolding run_verifier
  run_verifier-IsOpen none = search (keeps, up)
  run_verifier-IsOpen (some v) = search (keeps, up, pending_left-IsOpen, judge_keeps)

  -- Confirmed, with no journal; or waiting, with one.
  abbrev pub Applied : Option String → World H → Type 0
  Applied none w = InStage H idle w
  Applied (some token) w = IsOpen H w

  confirmed :
      (token : String)
      → Ensures (IsOpen H) (do confirm_locked H token; pure none) Applied (IsSafe H)
  confirmed token =
      Ensures-bind (confirm_locked H token) _
        (Ensures-weaken (confirm_locked-InStage H token) (λ w h. h.safe) (λ a w h. h) (λ w h. h))
        (λ _. Ensures-pure none (λ w h. h))

  waiting : (token : String) → Ensures (IsOpen H) (pure (some token)) Applied (IsSafe H)
  waiting token = Ensures-pure (some token) (λ w h. h)

  executed-IsOpen :
      (d : ℕ) (b : H.Batch)
      → Ensures (IsReady H b) (execute H (some d) b) (λ _. IsOpen H) (IsSafe H)
  executed-IsOpen d b =
      Ensures-weaken (execute-InStage H (some d) b) (λ w h. h)
        (λ a w h. record { safe = h.safe; opened = ground arith }) (λ w h. h.safe)

  run_batch-Applied :
      (request : Request) (d : ℕ) (b : H.Batch)
      → Ensures (IsReady H b) (run_batch H request d b) Applied (IsSafe H)
  unfolding run_batch
  run_batch-Applied request d b = Ensures-bind _ _ (executed-IsOpen d b) λ _.
      search (keeps, up, pending_left-IsOpen, run_verifier-IsOpen, Ensures-if, confirmed, waiting)
        depth 12

  journalled_up : (b : H.Batch) (w : World H) → IsJournalled H b w → InStage H open_journal w
  journalled_up b w h = record { safe = h.safe; at_stage = h.at_stage }

  arm_watchdog-IsReady :
      (request : Request) (b : H.Batch)
      → Ensures
          (IsJournalled H b)
          (arm_watchdog H request)
          (λ _. IsReady H b)
          (InStage H open_journal)
  unfolding arm_watchdog
  arm_watchdog-IsReady request b = search (keeps, verify_legacy_keeps, arm-IsReady, journalled_up)

  undo-IsSafe : (token : String) → Ensures (IsSafe H) (undo H token) (λ _. IsSafe H) (IsSafe H)
  undo-IsSafe token =
      Ensures-bind _ _ (rollback_locked-AfterRollback H (some token) false)
        (λ _. Ensures-pure tt (λ w h. h.safe))

  guarded-Applied :
      (request : Request) (d : ℕ) (b : H.Batch)
      → Ensures (IsJournalled H b) (guarded H request d b) Applied (IsSafe H)
  unfolding guarded
  guarded-Applied request d b =
      Ensures-bind _ _
        (Ensures-cleanup (arm_watchdog-IsReady request b) (
          Ensures-weaken (delete_pending-InStage H {E = IsSafe H} open_journal refl) (λ w h. h)
            (λ a w h. h.safe) (λ w h. h)))
        (λ _. Ensures-cleanup (run_batch-Applied request d b) (undo-IsSafe request.token))

  check_plan :
      (b : H.Batch) (plan : Plan H)
      → plan.batch ≡ b
      → Ensures (InStage H idle) (check H b >> pure plan) (λ p. IsPrepared H p.batch) (IsSafe H)
  check_plan b plan e =
      Ensures-bind (check H b) _ (check-IsPrepared H b) (λ _. Ensures-pure plan (λ w h. rw e h))

  prepare_plan-IsPrepared :
      (request : Request) (candidate : Json)
      → Ensures
          (InStage H idle)
          (prepare_plan H request candidate)
          (λ plan. IsPrepared H plan.batch)
          (IsSafe H)
  unfolding prepare_plan get
  prepare_plan-IsPrepared request candidate =
      search
        (
          keeps, up, inspect_for_keeps, require_scope_keeps, prepare_handover_keeps,
          take_snapshot_keeps, check_plan,
        )
        depth 24

  prepared_up : (b : H.Batch) (w : World H) → IsPrepared H b w → IsSafe H w
  prepared_up b w h = h.safe

  wall_time-IsPrepared :
      (b : H.Batch) → Ensures (IsPrepared H b) (wall_time H) (λ _. IsPrepared H b) (IsSafe H)
  unfolding wall_time
  wall_time-IsPrepared b = record { at = λ w h. ground arith }

  monotonic-IsPrepared :
      (b : H.Batch) → Ensures (IsPrepared H b) (monotonic H) (λ _. IsPrepared H b) (IsSafe H)
  unfolding monotonic
  monotonic-IsPrepared b = record { at = λ w h. ground arith }

  put_journal-IsJournalled :
      (v : Json) (b : H.Batch)
      → truthy v ≡ true
      → Ensures (IsPrepared H b) (put H pending v) (λ _. IsJournalled H b) (IsSafe H)
  unfolding put canonical_for_storage lift ◌>>=◌
  put_journal-IsJournalled v b t = write_pending-IsJournalled H v b t

  commit_plan-Applied :
      (request : Request) (plan : Plan H)
      → Ensures
          (IsPrepared H plan.batch)
          (do
            wall ← wall_time H
            now ← monotonic H
            id ← reads (λ w. w.boot_id)
            put H pending
                (journal_of H request plan id (wall + request.timeout) (now + request.timeout))
            guarded H request (now + request.timeout) plan.batch)
          Applied
          (IsSafe H)
  commit_plan-Applied request plan =
      Ensures-bind_keeps _ _ (wall_time-IsPrepared plan.batch) λ wall.
        Ensures-bind_keeps _ _ (monotonic-IsPrepared plan.batch) λ now.
          Ensures-bind_keeps _ _ (search keeps) λ id.
            Ensures-bind _ _ (put_journal-IsJournalled _ plan.batch refl)
              λ _. guarded-Applied request (now + request.timeout) plan.batch

  no_journal :
      (journal : Json)
      → Ensures
          (Found H journal)
          (lift (
            require (not (truthy journal)) "Unconfirmed change pending; confirm or rollback first"))
          (λ _. InStage H idle)
          (IsSafe H)
  no_journal journal = Ensures-lift _ (λ w h. h.safe) (λ w a e h. h.missing (ground arith))

  -- `apply_locked` keeps the protocol. When it returns no token the change is confirmed and there is
  -- no journal; when it returns a token the journal is on disk.
  pub apply_locked-Applied :
      (request : Request) (given : Json)
      → Ensures (IsSafe H) (apply_locked H request given) Applied (IsSafe H)
  unfolding apply_locked
  apply_locked-Applied request given = Ensures-bind_keeps _ _ (search keeps) λ candidate.
      Ensures-bind _ _ (rollback_locked-AfterRollback H none true) λ done.
        Ensures-bind _ _
          (Ensures-weaken (get_pending-Found H) (λ w h. h.safe) (λ a w h. h) (λ w h. h))
          λ journal. Ensures-bind _ _ (no_journal journal) λ _.
            Ensures-bind _ _ (prepare_plan-IsPrepared request candidate)
              λ plan. commit_plan-Applied request plan
