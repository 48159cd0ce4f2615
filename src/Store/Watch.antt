-- ===== src/Store/Watch.antt =====
-- `Store.watch` of core/store.py, the loop of the detached watchdog. A tick is a second here: what is
-- left is a whole number of them, so that `min(seconds, 1)` is 1.
pub mod Waits
pub mod Ends
use l4d2_iptable_suite.Base.{
  ℕ, zero, suc, ◌+◌, Bool, true, false, not, String, Option, none, some, if◌then◌else◌,
}
use l4d2_iptable_suite.Base.Int.{is_positive}
use l4d2_iptable_suite.Base.Json.{Json}
use l4d2_iptable_suite.Schema.{pending}
use l4d2_iptable_suite.Exec.{lift, pure, modify, ◌>>=◌, ◌>>◌}
use l4d2_iptable_suite.World.{Host, World}
use l4d2_iptable_suite.Store.Files.{Action, get, remaining}
use l4d2_iptable_suite.Store.Rollback.{rollback_locked}
use l4d2_iptable_suite.Store.Confirm.{token_known}

module _ (H : Host) where
  -- `time.sleep(1)`
  unfoldable pub sleep : Action H (Unit {0})
  sleep = modify (λ w. record w { clock = w.clock + 1 })

  -- the last turn, under the writer lock
  unfoldable pub expire_now : String → Action H (Option (Unit {0}))
  expire_now token = do rollback_locked H (some token) true; pure (some tt)

  -- `none` is the fuel running out.
  unfoldable pub watch : ℕ → String → Action H (Option (Unit {0}))
  watch zero token = pure none
  watch (suc fuel) token = do
    journal ← get H pending
    mine ← lift (token_known token journal)
    if not mine then pure (some tt) else do
      left ← remaining H journal
      elim (is_positive left) [ true ↦ (do sleep; watch fuel token) | false ↦ expire_now token ]
