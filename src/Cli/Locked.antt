-- ===== src/Cli/Locked.antt =====
-- `main` of core/fw.py inside `with store.lock()`: one call of a transaction or of a boot operation.
use l4d2_iptable_suite.Base.{
  true, false, not, ◌&&◌, ◌||◌, ◌===◌, String, Option, none, some, List, [], ◌∷◌, if◌then◌else◌,
}
use l4d2_iptable_suite.Base.Result.{Result, ok, err, policy_error, require, ◌>>=◌ as ◌then_result◌}
use l4d2_iptable_suite.Base.Json.{Json, null, bool, str, truthy, item, set_item, is_str}
use l4d2_iptable_suite.Schema.{current, persisted, pending, boot_policy, last_rollback}
use l4d2_iptable_suite.Exec.{lift, asks, pure, ◌>>=◌, ◌>>◌}
use l4d2_iptable_suite.World.{Host}
use l4d2_iptable_suite.Store.Files.{Action, get, put}
use l4d2_iptable_suite.Store.Rollback
use l4d2_iptable_suite.Store.Rollback.{rollback_locked}
use l4d2_iptable_suite.Store.Confirm.{confirm_locked}
use l4d2_iptable_suite.Store.Apply.{Verdict, apply_locked}
use l4d2_iptable_suite.Boot.Installed.{inspect_for, require_scope}
use l4d2_iptable_suite.Boot.Barrier
use l4d2_iptable_suite.Boot.Barrier.{saved}
use l4d2_iptable_suite.Cli.{
  Operation, check, confirm, rollback, disable, save, load, status, doctor, boot_prepare,
  boot_guard, boot_restore, boot_disarm, ready, Arguments, given, has_overrides, is_outside,
  check_outside, check_arguments, operation,
}

-- What a command reports.
pub data Report : Type 0 where
  restored no_match confirmed saved_policy checked done barrier disarmed : Report
  applied : Option String → Report
  stored : Json → Json → Json → Report
  inspected : Json → Report
  is_ready : Json → Report
  prepared : String → Json → Report

-- the last `--set IPTABLES_FRONTEND=...`, and no other key
unfoldable pub frontend_of : String → List String → Result String
frontend_of last [] = ok last
frontend_of last (pair ∷ pairs) =
    let auto = frontend_of "auto" pairs in
    let nft = frontend_of "nft" pairs in
    let legacy = frontend_of "legacy" pairs in
    if pair === "IPTABLES_FRONTEND=auto"
    then auto
    else if pair === "IPTABLES_FRONTEND=nft"
    then nft
    else if pair === "IPTABLES_FRONTEND=legacy"
    then legacy
    else err (policy_error "doctor only accepts --set IPTABLES_FRONTEND=auto|nft|legacy")

module _ (H : Host) (a : Arguments) where
  -- no option that composes a policy goes with a boot operation
  unfoldable pub require_prepared : Action H (Unit {0})
  require_prepared = lift (
      require (not a.accept_version_change && not (has_overrides a))
        "Boot operations use the prepared confirmed policy, not configuration overrides")

  unfoldable pub run_disarm : Action H Report
  run_disarm = do
    lift (
        require a.is_local
          "boot-disarm requires explicit --local console maintenance; disable protected units first")
    Barrier.disarm H
    pure disarmed

  unfoldable pub run_rollback : Action H Report
  run_rollback = do
    found ← rollback_locked H a.token false
    pure (if found then restored else no_match)

  abbrev token_of : Option String → String
  token_of none = ""
  token_of (some t) = t

  unfoldable pub run_confirm : Action H Report
  run_confirm = do
    lift (
        require (given a.token && a.admin_verified)
          "Use confirm --token TOKEN --admin-verified after testing a NEW administrative connection")
    confirm_locked H (token_of a.token)
    pure confirmed

  unfoldable pub run_status : Action H Report
  run_status = do
    now ← get H current
    journal ← get H pending
    last ← get H last_rollback
    pure (stored now journal last)

  unfoldable pub run_doctor : Action H Report
  unfolding frontend_of
  run_doctor = do
    lift (
        require (not (given a.env_file))
          "doctor does not load service configuration; use --set IPTABLES_FRONTEND=legacy|nft|auto")
    frontend ← lift (frontend_of "auto" a.set)
    live ← asks (λ w. H.inspect a.backend (str frontend) w.kernel)
    pure (inspected live)

  unfoldable pub run_save : Json → Action H Report
  run_save previous = do
    journal ← get H pending
    lift (require (truthy previous && not (truthy journal)) "Save requires a confirmed policy")
    require_scope H previous
    put H persisted previous
    saved H previous
    pure saved_policy

  -- the candidate that `check` and `apply` work on
  unfoldable pub candidate_for : Operation → Json → Action H Json
  candidate_for load previous = do
    candidate ← get H persisted
    lift (require (truthy candidate) "No persisted suite policy")
    pure candidate
  candidate_for disable previous = do
    lift (require (truthy previous) "No registered suite policy to disable")
    lift (set_item previous "disabled" (bool true))
  candidate_for _ previous = lift (a.compose previous)

  -- the snapshot and the keys of a handover, at a check
  unfoldable pub check_handover :
      Json → Json → Json → Option String → Action H (Option Json × Json × List (String × String))
  check_handover candidate previous live none = pure (none, null, [])
  check_handover candidate previous live (some path) =
      if path === "" then pure (none, null, []) else do
        found ← get H boot_policy
        lift (require (not (truthy found)) "Legacy handover cannot replace a prepared boot policy")
        manifest ← lift (H.load_manifest path)
        taken ← asks (λ w. H.legacy_prepare candidate previous manifest live w.kernel)
        owned ← lift (H.owned_keys manifest)
        pure (some manifest, taken, owned)

  -- `if candidate['backend'] == 'iptables': candidate['hooks'] = ...`
  unfoldable pub with_hooks : Json → Json → Result Json
  with_hooks candidate live = ◌then_result◌ (item candidate "backend") λ backend.
      if is_str backend "iptables"
      then (◌then_result◌ (H.actual_hooks candidate live) λ hooks. set_item candidate "hooks" hooks)
      else ok candidate

  unfoldable pub pin_checked : Option Json → H.Batch → Result H.Batch
  pin_checked none batch = ok batch
  pin_checked (some manifest) batch = H.pin batch manifest

  unfoldable pub run_check : Json → Json → Action H Report
  unfolding check_handover with_hooks pin_checked
  run_check previous candidate = do
    live ← inspect_for H candidate
    handover ← check_handover candidate previous live a.legacy_manifest
    asks (λ w. H.preflight candidate previous live a.accept_version_change handover.2 w.kernel)
    hooked ← lift (with_hooks candidate live)
    let union = previous ∷ hooked ∷ handover.1 ∷ []
    batch ← asks (λ w. H.prepare hooked union live false w.kernel)
    pinned ← lift (pin_checked handover.0 batch)
    Rollback.check H pinned
    pure checked

  -- a partial operation needs the objects that it builds on
  unfoldable pub require_managed : Json → Json → Action H (Unit {0})
  require_managed previous candidate = if not (a.partial || given a.removed) then pure tt else do
    live ← inspect_for H candidate
    asks (λ w. H.require_owned_present previous live w.kernel)

  unfoldable pub load_handover : Option String → Result (Option Json)
  load_handover none = ok none
  load_handover (some path) =
      if path === ""
      then ok none
      else ◌then_result◌ (H.load_manifest path) λ manifest. ok (some manifest)

  -- The verdict is how the program of `--verify-with` ends.
  unfoldable pub run_apply : Option Verdict → Json → Json → Action H Report
  unfolding require_managed load_handover
  run_apply verdict previous candidate = do
    require_managed previous candidate
    manifest ← lift (load_handover a.legacy_manifest)
    token ←
        apply_locked H
          (record {
            token = a.token_drawn;
            timeout = a.timeout;
            systemd = a.systemd;
            is_local = a.is_local;
            verifier = (if given a.verify_with then verdict else none);
            accept_version_change = a.accept_version_change;
            legacy_manifest = manifest;
          })
          candidate
    pure (applied token)

  unfoldable pub run_policy : Operation → Option Verdict → Action H Report
  unfolding candidate_for run_check run_apply run_save
  run_policy save verdict = do previous ← get H current; run_save previous
  run_policy check verdict = do
    previous ← get H current
    candidate ← candidate_for check previous
    run_check previous candidate
  run_policy chosen verdict = do
    previous ← get H current
    candidate ← candidate_for chosen previous
    run_apply verdict previous candidate

  -- Every operation but the boot ones and an explicit rollback first recovers an expired change.
  unfoldable pub run_after_expiry : Operation → Option Verdict → Action H Report
  unfolding run_confirm run_status run_doctor run_policy
  run_after_expiry chosen verdict = do
    rollback_locked H none true
    elim chosen [
      | confirm ↦ run_confirm
      | status ↦ run_status
      | doctor ↦ run_doctor
      | other ↦ run_policy other verdict
    ]

  -- The `with store.lock()` statement.
  unfoldable pub run_locked : Operation → Option Verdict → Action H Report
  unfolding require_prepared run_disarm run_rollback run_after_expiry
  run_locked boot_prepare verdict = do
    require_prepared
    answer ← Barrier.prepare H a.recovery_file a.token_drawn
    pure (prepared answer.0 answer.1)
  run_locked boot_guard verdict = do require_prepared; Barrier.guard H; pure barrier
  run_locked boot_restore verdict = do
    require_prepared
    answer ← Barrier.restore H a.token_drawn
    pure (is_ready answer)
  run_locked boot_disarm verdict = do require_prepared; run_disarm
  run_locked ready verdict = do
    require_prepared
    answer ← Barrier.verify H false
    pure (is_ready answer)
  run_locked rollback verdict = run_rollback
  run_locked chosen verdict = run_after_expiry chosen verdict

  -- An operation outside the lock: it prints a policy, a diagnosis or an inventory, or it is the
  -- watchdog's process (Store/Watch.antt).
  unfoldable pub run_outside : Operation → Action H Report
  run_outside chosen = do lift (check_outside a chosen); pure done

  -- `main`, after `parse_args`
  unfoldable pub main : Option Verdict → Action H Report
  unfolding run_outside
  main verdict = do
    lift (check_arguments a)
    if is_outside (operation a) then run_outside (operation a) else run_locked (operation a) verdict
