-- ===== src/Store/Rollback/Safe.antt =====
-- `rollback_locked` keeps the protocol, whether it returns or raises.
use l4d2_iptable_suite.Base.{
  ◌≡◌, refl, Bool, true, false, not, Option, none, arith, String, if◌then◌else◌,
}
use l4d2_iptable_suite.Base.Json.{Json, truthy}
use l4d2_iptable_suite.Schema.{pending, last_rollback}
use l4d2_iptable_suite.Exec.{lift, pure, ◌>>=◌, ◌>>◌}
use l4d2_iptable_suite.Exec.Ensures.{
  Ensures, Ensures-bind, Ensures-bind_keeps, Ensures-pure, Ensures-if, Ensures-weaken,
  Ensures-rescue,
}
use l4d2_iptable_suite.World.{Host, World}
use l4d2_iptable_suite.Protocol.{
  Stage, idle, changed, decided, is_idle, settle, stage, IsSafe, InStage, IsOpen, IsChecked,
}
use l4d2_iptable_suite.Store.Files.{get}
use l4d2_iptable_suite.Store.Steps.{
  check-IsChecked, invalidate-IsReady, execute-InStage, put_current-InStage, delete_current-InStage,
  delete_pending-InStage, put_installed-InStage, put-unwatched-InStage, wall_time-InStage,
  invalidate-InStage, InStage-IsSafe,
}
use l4d2_iptable_suite.Store.Reading.{keeps, up, inspect_for_keeps, remaining_keeps}
use l4d2_iptable_suite.Store.Journal.{get_pending-Found}
use l4d2_iptable_suite.Store.Rollback.{
  check, restore_current, record_recovered, prepare_recovery, recover, is_early, rollback_locked,
  token_differs,
}
use l4d2_iptable_suite.Boot.Installed.{record_installed, record_live}

module _ (H : Host) where
  check_then :
      (b : H.Batch) → Ensures (IsOpen H) (check H b >> pure b) (λ c. IsChecked H c) (IsSafe H)
  check_then b = Ensures-bind (check H b) _ (check-IsChecked H b) (λ _. Ensures-pure b (λ w h. h))

  prepare_recovery-IsChecked :
      (journal : Json)
      → Ensures (IsOpen H) (prepare_recovery H journal) (λ b. IsChecked H b) (IsSafe H)
  unfolding prepare_recovery
  prepare_recovery-IsChecked journal = search (keeps, up, inspect_for_keeps, check_then) depth 12

  restore_current-InStage :
      (previous : Json) (s : Stage)
      → is_idle s ≡ false
      → Ensures (InStage H s) (restore_current H previous) (λ _. InStage H (settle s)) (IsSafe H)
  unfolding restore_current
  restore_current-InStage previous s e =
      search (Ensures-if, put_current-InStage, delete_current-InStage)

  pub record_live-InStage :
      {E : World H → Type 0} (policy : Json) (s : Stage)
      → ((w : World H) → InStage H s w → E w)
      → Ensures (InStage H s) (record_live H policy) (λ _. InStage H s) E
  unfolding record_live
  record_live-InStage policy s up =
      search (keeps, inspect_for_keeps, put_installed-InStage) depth 12

  pub record_installed-InStage :
      {E : World H → Type 0} (policy : Json) (s : Stage)
      → ((w : World H) → InStage H s w → E w)
      → Ensures (InStage H s) (record_installed H policy) (λ _. InStage H s) E
  unfolding record_installed
  record_installed-InStage policy s up =
      search (keeps, Ensures-if, record_live-InStage, invalidate-InStage)

  record_recovered-InStage :
      (previous : Json)
      → Ensures (InStage H idle) (record_recovered H previous) (λ _. InStage H idle) (IsSafe H)
  unfolding record_recovered
  record_recovered-InStage previous =
      Ensures-if (truthy previous) _ _
        (λ _.
          Ensures-rescue (record_installed-InStage previous idle (λ w h. h)) (InStage-IsSafe H idle)
            (invalidate-InStage H idle))
        (λ _. Ensures-pure tt (λ w h. h))

  recover-InStage :
      (journal : Json) → Ensures (IsOpen H) (recover H journal) (λ _. InStage H idle) (IsSafe H)
  unfolding recover
  recover-InStage journal = Ensures-bind _ _ (prepare_recovery-IsChecked journal) λ b.
      Ensures-bind _ _ (invalidate-IsReady H b) λ _.
        Ensures-bind _ _
          (Ensures-weaken (execute-InStage H none b) (λ w h. h) (λ a w h. h)
            (InStage-IsSafe H changed))
          λ _. Ensures-bind_keeps _ _ (search (keeps, up)) λ previous.
            Ensures-bind _ _ (restore_current-InStage previous changed refl) λ _.
              Ensures-bind_keeps _ _ (search (keeps, up)) λ token.
                Ensures-bind_keeps _ _ (wall_time-InStage H decided) λ at.
                  Ensures-bind_keeps _ _ (put-unwatched-InStage H last_rollback _ decided refl) λ _.
                    Ensures-bind _ _ (delete_pending-InStage H decided refl) λ _.
                      Ensures-bind _ _ (record_recovered-InStage previous)
                        λ _. Ensures-pure true (λ w h. h)

  is_early_keeps :
      (expired_only : Bool) (journal : Json)
      → Ensures (IsOpen H) (is_early H expired_only journal) (λ _. IsOpen H) (IsSafe H)
  unfolding is_early
  is_early_keeps false journal = search (keeps, up)
  is_early_keeps true journal = search (keeps, up, remaining_keeps)

  -- safe, and with no journal if the recovery was done
  pub record AfterRollback (done : Bool) (w : World H) : Type 0 where
    pub safe : IsSafe H w
    pub closed : done ≡ true → stage w.trace ≡ idle

  recover-AfterRollback :
      (journal : Json) → Ensures (IsOpen H) (recover H journal) AfterRollback (IsSafe H)
  recover-AfterRollback journal =
      Ensures-weaken (recover-InStage journal) (λ w h. h)
        (λ a w h. record { safe = h.safe; closed = λ _. h.at_stage }) (λ w h. h)

  stopped : Ensures (IsOpen H) (pure false) AfterRollback (IsSafe H)
  stopped = Ensures-pure false (λ w h. record { safe = h.safe; closed = λ t. cc })

  rollback_step :
      (token : Option String) (expired_only : Bool) (journal : Json)
      → Ensures
          (IsOpen H)
          (do
            differs ← lift (token_differs token journal)
            if differs then pure false else do
              early ← is_early H expired_only journal
              if early then pure false else recover H journal)
          AfterRollback
          (IsSafe H)
  rollback_step token expired_only journal =
      search (keeps, up, Ensures-if, is_early_keeps, recover-AfterRollback, stopped) depth 12

  -- `rollback_locked` keeps the protocol, and leaves no journal if it returns `True`.
  pub rollback_locked-AfterRollback :
      (token : Option String) (expired_only : Bool)
      → Ensures (IsSafe H) (rollback_locked H token expired_only) AfterRollback (IsSafe H)
  unfolding rollback_locked
  rollback_locked-AfterRollback token expired_only =
      Ensures-bind (get H pending) _ (get_pending-Found H) λ journal.
        Ensures-if (not (truthy journal)) _ _
          (λ e. Ensures-pure false (λ w h. record { safe = h.safe; closed = λ t. cc }))
          (λ e.
            Ensures-weaken (rollback_step token expired_only journal)
              (λ w h. h.there (ground arith)) (λ a w h. h) (λ w h. h))
