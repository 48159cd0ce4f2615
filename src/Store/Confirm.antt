-- ===== src/Store/Confirm.antt =====
-- `Store.confirm_locked` of core/store.py.
pub mod Safe
pub mod Current
use l4d2_iptable_suite.Base.{Bool, true, false, not, String, Option, none, some, if◌then◌else◌}
use l4d2_iptable_suite.Base.Int.{is_positive}
use l4d2_iptable_suite.Base.Result.{Result, ok, policy_error, require, ◌>>=◌ as ◌then_result◌}
use l4d2_iptable_suite.Base.Json.{Json, null, truthy, item, item_or, is_str}
use l4d2_iptable_suite.Schema.{current, pending}
use l4d2_iptable_suite.Exec.{lift, pure, raise, ◌>>=◌, ◌>>◌}
use l4d2_iptable_suite.World.{Host, World}
use l4d2_iptable_suite.Store.Files.{Action, get, put, delete, remaining}
use l4d2_iptable_suite.Store.Rollback.{rollback_locked}
use l4d2_iptable_suite.Boot.Installed.{record_installed}

-- `pending and secrets.compare_digest(token, pending['token'])`
unfoldable pub token_known : String → Json → Result Bool
token_known token journal =
    if not (truthy journal)
    then ok false
    else ◌then_result◌ (item journal "token") (λ own. ok (is_str own token))

module _ (H : Host) where
  -- `delete('current')` after a disable, `put('current', candidate)` otherwise
  unfoldable pub store_candidate : Json → Action H (Unit {0})
  store_candidate candidate = do
    disabled ← lift (item_or candidate "disabled" null)
    if truthy disabled then delete H current else put H current candidate

  -- The journal is kept until `current` is durable.
  unfoldable pub accept : Json → Action H (Unit {0})
  accept journal = do
    candidate ← lift (item journal "candidate")
    store_candidate candidate
    record_installed H candidate
    delete H pending

  -- The previous policy is restored, and the confirmation is refused.
  unfoldable pub expire : String → Action H (Unit {0})
  expire token = do
    rollback_locked H (some token) false
    raise (policy_error "Confirmation expired; previous suite policy restored")

  unfoldable pub confirm_locked : String → Action H (Unit {0})
  confirm_locked token = do
    journal ← get H pending
    known ← lift (token_known token journal)
    lift (require known "Unknown pending confirmation token")
    left ← remaining H journal
    if is_positive left then accept journal else expire token
