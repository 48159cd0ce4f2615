-- ===== src/Store/Confirm/Safe.antt =====
-- `confirm_locked` keeps the protocol, and closes the journal when it returns.
use l4d2_iptable_suite.Base.{◌≡◌, refl, Bool, true, false, String, some, arith}
use l4d2_iptable_suite.Base.Result.{ok, require}
use l4d2_iptable_suite.Base.Json.{Json, truthy}
use l4d2_iptable_suite.Exec.{lift, raise}
use l4d2_iptable_suite.Exec.Ensures.{
  Ensures, Ensures-bind, Ensures-bind_keeps, Ensures-lift, Ensures-if, Ensures-weaken,
}
use l4d2_iptable_suite.World.{Host}
use l4d2_iptable_suite.Protocol.{
  Stage, idle, is_idle, closable, settle, stage, IsSafe, InStage, IsOpen,
}
use l4d2_iptable_suite.Store.Steps.{
  InStage-IsSafe, put_current-InStage, delete_current-InStage, delete_pending-InStage,
}
use l4d2_iptable_suite.Store.Reading.{keeps, up, remaining_keeps}
use l4d2_iptable_suite.Store.Journal.{Found, get_pending-Found}
use l4d2_iptable_suite.Store.Rollback.Safe.{record_installed-InStage, rollback_locked-AfterRollback}
use l4d2_iptable_suite.Store.Confirm.{token_known, store_candidate, accept, expire, confirm_locked}

settle-closable : (s : Stage) → is_idle s ≡ false → closable (settle s) ≡ true
settle-closable s e = ground arith

token_known-truthy :
    (token : String) (journal : Json) → token_known token journal ≡ ok true → truthy journal ≡ true
unfolding token_known
token_known-truthy token journal h = ground arith

module _ (H : Host) where
  store_candidate-InStage :
      (candidate : Json) (s : Stage)
      → is_idle s ≡ false
      → Ensures (InStage H s) (store_candidate H candidate) (λ _. InStage H (settle s)) (IsSafe H)
  unfolding store_candidate
  store_candidate-InStage candidate s e =
      search (keeps, up, Ensures-if, put_current-InStage, delete_current-InStage)

  accept-InStage :
      (journal : Json) (s : Stage)
      → is_idle s ≡ false
      → Ensures (InStage H s) (accept H journal) (λ _. InStage H idle) (IsSafe H)
  unfolding accept
  accept-InStage journal s e = Ensures-bind_keeps _ _ (search (keeps, up)) λ candidate.
      Ensures-bind _ _ (store_candidate-InStage candidate s e) λ _.
        Ensures-bind_keeps _ _
          (record_installed-InStage H candidate (settle s) (InStage-IsSafe H (settle s)))
          λ _. delete_pending-InStage H (settle s) (settle-closable s e)

  accept-IsOpen :
      (journal : Json) → Ensures (IsOpen H) (accept H journal) (λ _. InStage H idle) (IsSafe H)
  accept-IsOpen journal = record {
    at = λ w h.
        (accept-InStage journal (stage w.trace) h.opened).at w
          (record { safe = h.safe; at_stage = refl });
  }

  expire-IsSafe :
      (token : String) → Ensures (IsOpen H) (expire H token) (λ _. InStage H idle) (IsSafe H)
  unfolding expire raise
  expire-IsSafe token =
      Ensures-bind _ _
        (Ensures-weaken (rollback_locked-AfterRollback H (some token) false) (λ w h. h.safe)
          (λ a w h. h) (λ w h. h))
        (λ done. record { at = λ w h. h.safe })

  known-IsOpen :
      (token : String) (journal : Json)
      → Ensures
          (Found H journal)
          (lift (token_known token journal))
          (λ known w. IsSafe H w × (known ≡ true → IsOpen H w))
          (IsSafe H)
  known-IsOpen token journal =
      Ensures-lift _ (λ w h. h.safe)
        (λ w known e h. (h.safe, λ k. h.there (token_known-truthy token journal (cc))))

  required-IsOpen :
      (known : Bool)
      → Ensures
          (λ w. IsSafe H w × (known ≡ true → IsOpen H w))
          (lift (require known "Unknown pending confirmation token"))
          (λ _. IsOpen H)
          (IsSafe H)
  required-IsOpen true = Ensures-lift _ (λ w h. h.0) (λ w a e h. h.1 refl)
  required-IsOpen false = Ensures-lift _ (λ w h. h.0) (λ w a e h. cc)

  -- `confirm_locked` keeps the protocol, and leaves no journal when it returns.
  pub confirm_locked-InStage :
      (token : String)
      → Ensures (IsSafe H) (confirm_locked H token) (λ _. InStage H idle) (IsSafe H)
  unfolding confirm_locked
  confirm_locked-InStage token = Ensures-bind _ _ (get_pending-Found H) λ journal.
      Ensures-bind _ _ (known-IsOpen token journal) λ known.
        Ensures-bind _ _ (required-IsOpen known)
          λ _. search (keeps, up, remaining_keeps, Ensures-if, accept-IsOpen, expire-IsSafe)
