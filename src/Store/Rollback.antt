-- ===== src/Store/Rollback.antt =====
-- `Store.rollback_locked` of core/store.py.
pub mod Safe
use l4d2_iptable_suite.Base.{
  ℕ, ◌+◌, Bool, true, false, not, ◌===◌, String, Option, none, some, List, [], ◌∷◌, if◌then◌else◌,
}
use l4d2_iptable_suite.Base.Int.{pos, is_positive}
use l4d2_iptable_suite.Base.Result.{Result, ok, ◌>>=◌ as ◌then_result◌}
use l4d2_iptable_suite.Base.Json.{
  Json, null, int, str, obj, end, field, truthy, item, item_or, is_str,
}
use l4d2_iptable_suite.Schema.{current, pending, last_rollback}
use l4d2_iptable_suite.Exec.{lift, asks, pure, rescue, ◌>>=◌, ◌>>◌}
use l4d2_iptable_suite.World.{Host, World, Event, checked, executed}
use l4d2_iptable_suite.Store.Files.{Action, get, put, delete, wall_time, remaining}
use l4d2_iptable_suite.Boot.Installed.{invalidate, inspect_for, record_installed}

-- `token and token != pending['token']`
unfoldable pub token_differs : Option String → Json → Result Bool
token_differs none journal = ok false
token_differs (some token) journal =
    if token === ""
    then ok false
    else ◌then_result◌ (item journal "token") λ own. ok (not (is_str own token))

module _ (H : Host) where
  abbrev pub note_checked : H.Batch → Action H (Unit {0})
  note_checked b w = (ok tt, record w { trace = checked b ∷ w.trace })

  -- `engine.check(tx)`
  unfoldable pub check : H.Batch → Action H (Unit {0})
  check b = do asks (λ w. H.check b w.kernel); note_checked b

  -- `engine.execute(tx)`; the kernel may be changed though it raises
  unfoldable pub execute : Option ℕ → H.Batch → Action H (Unit {0})
  execute deadline b w =
      let (r, k, elapsed) = H.execute b deadline w.clock w.kernel in
      (r, record w { kernel = k; clock = w.clock + elapsed; trace = executed b ∷ w.trace })

  -- `if pending['previous']: self.put('current', ...) else: self.delete('current')`
  unfoldable pub restore_current : Json → Action H (Unit {0})
  restore_current previous = if truthy previous then put H current previous else delete H current

  -- the last statement; recovery succeeds though the policy cannot be verified
  unfoldable pub record_recovered : Json → Action H (Unit {0})
  record_recovered previous =
      if truthy previous then rescue (invalidate H) (record_installed H previous) else pure tt

  -- the note that `last-rollback` holds
  abbrev pub rollback_note : Json → ℕ → Json
  rollback_note token at = obj (field "token" token (field "at" (int (pos at)) end))

  -- The batch that restores the snapshot, checked.
  unfoldable pub prepare_recovery : Json → Action H H.Batch
  unfolding check
  prepare_recovery journal = do
    candidate ← lift (item journal "candidate")
    live ← inspect_for H candidate
    previous ← lift (item journal "previous")
    snapshot ← lift (item journal "snapshot")
    let union = previous ∷ candidate ∷ snapshot ∷ []
    batch ← asks (λ w. H.prepare snapshot union live true w.kernel)
    check batch
    pure batch

  unfoldable pub recover : Json → Action H Bool
  unfolding prepare_recovery execute restore_current record_recovered
  recover journal = do
    batch ← prepare_recovery journal
    invalidate H
    execute none batch
    previous ← lift (item journal "previous")
    restore_current previous
    token ← lift (item journal "token")
    at ← wall_time H
    put H last_rollback (rollback_note token at)
    delete H pending
    record_recovered previous
    pure true

  -- `expired_only and remaining(pending) > 0`
  unfoldable pub is_early : Bool → Json → Action H Bool
  is_early false journal = pure false
  is_early true journal = do left ← remaining H journal; pure (is_positive left)

  unfoldable pub rollback_locked : Option String → Bool → Action H Bool
  unfolding token_differs recover is_early
  rollback_locked token expired_only = do
    journal ← get H pending
    if not (truthy journal) then pure false else do
      differs ← lift (token_differs token journal)
      if differs then pure false else do
        early ← is_early expired_only journal
        if early then pure false else recover journal
