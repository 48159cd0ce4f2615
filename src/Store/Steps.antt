-- ===== src/Store/Steps.antt =====
-- What each effect of core/store.py does to the stage of the protocol.
use l4d2_iptable_suite.Base.{ℕ, ◌≡◌, Bool, true, false, Option, arith}
use l4d2_iptable_suite.Base.Result.{Result}
use l4d2_iptable_suite.Base.Json.{Json, truthy}
use l4d2_iptable_suite.Schema.{
  Name, current, persisted, pending, installed, boot_policy, last_rollback,
}
use l4d2_iptable_suite.Exec.{modify, pure, lift, asks, reads}
use l4d2_iptable_suite.Exec.Ensures.{Ensures, Ensures-bind, Ensures-lift, Ensures-asks}
use l4d2_iptable_suite.World.{Host, World}
use l4d2_iptable_suite.Protocol.{
  Stage, idle, changed, is_idle, IsSafe, InStage, IsOpen, IsChecked, IsReady, IsPrepared,
  IsJournalled, closable, settle,
}
use l4d2_iptable_suite.Store.Files.{put, delete, write_file, wall_time}
use l4d2_iptable_suite.Store.Rollback.{check, note_checked, execute}
use l4d2_iptable_suite.Boot.Installed.{invalidate}

-- A file that the protocol does not watch.
abbrev pub unwatched : Name → Bool
unwatched persisted = true
unwatched boot_policy = true
unwatched last_rollback = true
unwatched _ = false

-- These never raise.
module _ (H : Host) {E : World H → Type 0} where
  pub write_unwatched-InStage :
      (n : Name) (v : Json) (s : Stage)
      → unwatched n ≡ true
      → Ensures (InStage H s) (write_file H n v) (λ _. InStage H s) E
  unfolding write_file modify
  write_unwatched-InStage persisted v s e = record { at = λ w h. ground arith }
  write_unwatched-InStage boot_policy v s e = record { at = λ w h. ground arith }
  write_unwatched-InStage last_rollback v s e = record { at = λ w h. ground arith }
  write_unwatched-InStage current v s e = cc
  write_unwatched-InStage _ v s e = cc

  pub invalidate-IsReady :
      (b : H.Batch) → Ensures (IsChecked H b) (invalidate H) (λ _. IsReady H b) E
  unfolding invalidate delete modify
  invalidate-IsReady b = record { at = λ w h. ground arith }

  pub invalidate-IsSafe : Ensures (IsSafe H) (invalidate H) (λ _. IsSafe H) E
  unfolding invalidate delete modify
  invalidate-IsSafe = record { at = λ w h. ground arith }

  pub invalidate-InStage : (s : Stage) → Ensures (InStage H s) (invalidate H) (λ _. InStage H s) E
  unfolding invalidate delete modify
  invalidate-InStage s = record { at = λ w h. ground arith }

  pub write_current-InStage :
      (v : Json) (s : Stage)
      → is_idle s ≡ false
      → Ensures (InStage H s) (write_file H current v) (λ _. InStage H (settle s)) E
  unfolding write_file modify
  write_current-InStage v s e = record { at = λ w h. ground arith }

  pub delete_current-InStage :
      (s : Stage)
      → is_idle s ≡ false
      → Ensures (InStage H s) (delete H current) (λ _. InStage H (settle s)) E
  unfolding delete modify
  delete_current-InStage s e = record { at = λ w h. ground arith }

  pub delete_pending-InStage :
      (s : Stage)
      → closable s ≡ true
      → Ensures (InStage H s) (delete H pending) (λ _. InStage H idle) E
  unfolding delete modify
  delete_pending-InStage s e = record { at = λ w h. ground arith }

  pub write_pending-IsJournalled :
      (v : Json) (b : H.Batch)
      → truthy v ≡ true
      → Ensures (IsPrepared H b) (write_file H pending v) (λ _. IsJournalled H b) E
  unfolding write_file modify
  write_pending-IsJournalled v b t = record { at = λ w h. ground arith }

  pub arm-IsReady : (b : H.Batch) → Ensures (IsJournalled H b) (invalidate H) (λ _. IsReady H b) E
  unfolding invalidate delete modify
  arm-IsReady b = record { at = λ w h. ground arith }

  pub write_installed-InStage :
      (v : Json) (s : Stage) → Ensures (InStage H s) (write_file H installed v) (λ _. InStage H s) E
  unfolding write_file modify
  write_installed-InStage v s = record { at = λ w h. ground arith }

module _ (H : Host) where
  pub execute-InStage :
      (d : Option ℕ) (b : H.Batch)
      → Ensures (IsReady H b) (execute H d b) (λ _. InStage H changed) (InStage H changed)
  unfolding execute
  execute-InStage d b = record { at = λ w h. ground arith }

  -- Actions that leave the state alone keep what holds of it.
  module _ {A : Type 0} {P E : World H → Type 0} where
    pub keep_lift : (r : Result A) → ((w : World H) → P w → E w) → Ensures P (lift r) (λ _. P) E
    keep_lift r up = Ensures-lift r up (λ s a e p. p)

    pub keep_asks :
        (f : World H → Result A) → ((w : World H) → P w → E w) → Ensures P (asks f) (λ _. P) E
    keep_asks f up = Ensures-asks f up (λ s a e p. p)

    pub keep_reads : (f : World H → A) → Ensures P (reads f) (λ _. P) E
    unfolding reads
    keep_reads f = record { at = λ s p. p }

    pub keep_pure : (a : A) → Ensures P (pure a) (λ _. P) E
    unfolding pure
    keep_pure a = record { at = λ s p. p }

  pub InStage-IsSafe : (s : Stage) (w : World H) → InStage H s w → IsSafe H w
  InStage-IsSafe s w h = h.safe

  pub IsChecked-IsSafe : (b : H.Batch) (w : World H) → IsChecked H b w → IsSafe H w
  IsChecked-IsSafe b w h = h.safe

  pub IsOpen-IsSafe : (w : World H) → IsOpen H w → IsSafe H w
  IsOpen-IsSafe w h = h.safe

  pub check-IsChecked :
      (b : H.Batch) → Ensures (IsOpen H) (check H b) (λ _. IsChecked H b) (IsSafe H)
  unfolding check
  check-IsChecked b =
      Ensures-bind (asks (λ w. H.check b w.kernel)) (λ _. note_checked H b)
        (Ensures-asks {Q = λ _. IsOpen H} _ IsOpen-IsSafe (λ w a e h. h))
        (λ _. record { at = λ w h. ground arith })

  -- The clock is none of the protocol's.
  pub wall_time-InStage :
      (s : Stage) → Ensures (InStage H s) (wall_time H) (λ _. InStage H s) (IsSafe H)
  unfolding wall_time
  wall_time-InStage s = record { at = λ w h. ground arith }

  pub put_current-InStage :
      (v : Json) (s : Stage)
      → is_idle s ≡ false
      → Ensures (InStage H s) (put H current v) (λ _. InStage H (settle s)) (IsSafe H)
  unfolding put
  put_current-InStage v s e =
      Ensures-bind _ _ (Ensures-lift {Q = λ _. InStage H s} _ (InStage-IsSafe s) (λ w a e h. h))
        (λ a. write_current-InStage H a s e)

  pub check-IsPrepared :
      (b : H.Batch) → Ensures (InStage H idle) (check H b) (λ _. IsPrepared H b) (IsSafe H)
  unfolding check
  check-IsPrepared b =
      Ensures-bind (asks (λ w. H.check b w.kernel)) (λ _. note_checked H b)
        (Ensures-asks {Q = λ _. InStage H idle} _ (InStage-IsSafe idle) (λ w a e h. h))
        (λ _. record { at = λ w h. ground arith })

  pub put_installed-InStage :
      {E : World H → Type 0} (v : Json) (s : Stage)
      → ((w : World H) → InStage H s w → E w)
      → Ensures (InStage H s) (put H installed v) (λ _. InStage H s) E
  unfolding put
  put_installed-InStage v s up =
      Ensures-bind _ _ (Ensures-lift {Q = λ _. InStage H s} _ up (λ w a e h. h))
        (λ a. write_installed-InStage H a s)

  pub put-unwatched-InStage :
      (n : Name) (v : Json) (s : Stage)
      → unwatched n ≡ true
      → Ensures (InStage H s) (put H n v) (λ _. InStage H s) (IsSafe H)
  unfolding put
  put-unwatched-InStage n v s e =
      Ensures-bind _ _ (Ensures-lift {Q = λ _. InStage H s} _ (InStage-IsSafe s) (λ w a e h. h))
        (λ a. write_unwatched-InStage H n a s e)
