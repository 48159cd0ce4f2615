-- ===== src/Store/Reading.antt =====
-- What only reads the state, or the clock, keeps what holds of it.
use l4d2_iptable_suite.Base.{Option, none, some, arith}
use l4d2_iptable_suite.Base.Json.{Json}
use l4d2_iptable_suite.Exec.Ensures.{
  Ensures, Ensures-bind, Ensures-bind_keeps, Ensures-lift, Ensures-asks, Ensures-pure, Ensures-if,
  Ensures-weaken,
}
use l4d2_iptable_suite.World.{Host, World}
use l4d2_iptable_suite.Protocol.{IsSafe, IsOpen}
use l4d2_iptable_suite.Store.Files.{wall_time, monotonic, remaining, deadline_left}
use l4d2_iptable_suite.Store.Steps.{
  IsChecked-IsSafe, keep_pure, keep_lift, keep_asks, keep_reads, check-IsChecked,
  invalidate-IsReady, execute-InStage, put_current-InStage, delete_current-InStage,
  delete_pending-InStage, put_installed-InStage, put-unwatched-InStage, wall_time-InStage,
  invalidate-IsSafe, invalidate-InStage, InStage-IsSafe, IsOpen-IsSafe,
}
use l4d2_iptable_suite.Boot.Installed.{inspect_for}

pub ruleset up = (InStage-IsSafe, IsOpen-IsSafe, IsChecked-IsSafe)

pub ruleset keeps = (keep_lift, keep_asks, keep_reads, keep_pure, Ensures-bind_keeps)

module _ (H : Host) where
  pub inspect_for_keeps :
      {P E : World H → Type 0} (policy : Json)
      → ((w : World H) → P w → E w)
      → Ensures P (inspect_for H policy) (λ _. P) E
  unfolding inspect_for
  inspect_for_keeps policy up = search keeps

  monotonic_keeps : {E : World H → Type 0} → Ensures (IsOpen H) (monotonic H) (λ _. IsOpen H) E
  unfolding monotonic
  monotonic_keeps = record { at = λ w h. ground arith }

  wall_time_keeps : {E : World H → Type 0} → Ensures (IsOpen H) (wall_time H) (λ _. IsOpen H) E
  unfolding wall_time
  wall_time_keeps = record { at = λ w h. ground arith }

  ruleset clocks = (monotonic_keeps, wall_time_keeps)

  deadline_left_keeps :
      (journal : Json) (deadline : Option Json)
      → Ensures (IsOpen H) (deadline_left H journal deadline) (λ _. IsOpen H) (IsSafe H)
  unfolding deadline_left
  deadline_left_keeps journal none = search (keeps, up, clocks)
  deadline_left_keeps journal (some d) = search (keeps, up, clocks)

  pub remaining_keeps :
      (journal : Json) → Ensures (IsOpen H) (remaining H journal) (λ _. IsOpen H) (IsSafe H)
  unfolding remaining
  remaining_keeps journal = search (keeps, up, deadline_left_keeps, Ensures-if) depth 12
