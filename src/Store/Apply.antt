-- ===== src/Store/Apply.antt =====
-- `Store.apply_locked` of core/store.py.
pub mod Reads
pub mod Safe
use l4d2_iptable_suite.Base.{
  ℕ, ◌+◌, Bool, true, false, not, ◌&&◌, ◌||◌, String, Option, none, some, List, [], ◌∷◌, ◌++◌,
  is_some, if◌then◌else◌,
}
use l4d2_iptable_suite.Base.Int.{pos, is_positive}
use l4d2_iptable_suite.Base.Result.{
  Error, Result, ok, err, policy_error, require, ◌>>=◌ as ◌then_result◌,
}
use l4d2_iptable_suite.Base.Json.{
  Json, null, int, str, obj, Fields, end, field, truthy, item, item_or, set_item, is_str,
}
use l4d2_iptable_suite.Schema.{current, pending, boot_policy, migrate_policy}
use l4d2_iptable_suite.Exec.{lift, asks, reads, pure, raise, cleanup_then_raise, ◌>>=◌, ◌>>◌}
use l4d2_iptable_suite.World.{Host, World}
use l4d2_iptable_suite.Store.Files.{Action, get, put, delete, monotonic, wall_time, remaining}
use l4d2_iptable_suite.Store.Rollback.{check, execute, rollback_locked}
use l4d2_iptable_suite.Store.Confirm.{confirm_locked}
use l4d2_iptable_suite.Boot.Installed.{invalidate, inspect_for, require_scope}

-- How the external verifier ends: it exits with 0, or otherwise, or cannot be run or times out.
pub data Verdict : Type 0 where
  accepted refused : Verdict
  failed : Error → Verdict

-- The arguments of `apply_locked` beside the candidate, and the token that `secrets` draws.
pub record Request : Type 0 where
  pub token : String
  pub timeout : ℕ
  -- the watchdog is a systemd timer, and not a process
  pub systemd : Bool
  pub is_local : Bool
  pub verifier : Option Verdict
  pub accept_version_change : Bool
  pub legacy_manifest : Option Json

-- `decision['decision'] == 'unchanged' and previous and previous.get('compatibility')`
unfoldable pub is_kept : Json → Json → Result Bool
is_kept previous decision = ◌then_result◌ (item decision "decision") λ d.
    if not (is_str d "unchanged" && truthy previous)
    then ok false
    else ◌then_result◌ (item_or previous "compatibility" null) λ c. ok (truthy c)

unfoldable pub kept_decision : Json → Json → Result Json
unfolding is_kept
kept_decision previous decision =
    ◌then_result◌ (is_kept previous decision)
      λ kept. if kept then item previous "compatibility" else ok decision

module _ (H : Host) where
  unfoldable pub set_compatibility : Json → Json → Json → Bool → Result Json
  unfolding kept_decision
  set_compatibility candidate previous live accept =
      ◌then_result◌ (H.compatibility previous live accept) λ decision.
        ◌then_result◌ (kept_decision previous decision)
          λ kept. set_item candidate "compatibility" kept

  -- The frontend, hooks and versions that the rollback will need, for iptables.
  unfoldable pub pin_frontend : Json → Json → Json → Bool → Result Json
  unfolding set_compatibility
  pin_frontend candidate previous live accept = ◌then_result◌ (item candidate "config") λ config.
      ◌then_result◌ (item live "frontend") λ frontend.
        ◌then_result◌ (set_item config "IPTABLES_FRONTEND" frontend) λ pinned.
          ◌then_result◌ (set_item candidate "config" pinned) λ c₁.
            ◌then_result◌ (H.actual_hooks c₁ live) λ hooks.
              ◌then_result◌ (set_item c₁ "hooks" hooks) λ c₂.
                ◌then_result◌ (item_or c₂ "disabled" null) λ disabled.
                  ◌then_result◌
                    (if truthy disabled then ok c₂ else set_compatibility c₂ previous live accept)
                    λ c₃.
                      ◌then_result◌ (item live "versions")
                        λ versions. set_item c₃ "versions" versions

  unfoldable pub pin_candidate : Json → Json → Json → Bool → Result Json
  unfolding pin_frontend
  pin_candidate candidate previous live accept = ◌then_result◌ (item candidate "backend") λ backend.
      if is_str backend "iptables"
      then pin_frontend candidate previous live accept
      else ok candidate

  -- What a handover takes over: the snapshot of the reviewed tables, and their keys.
  abbrev pub Handover : Type 0
  Handover = Option Json × List (String × String)

  unfoldable pub prepare_handover : Request → Json → Json → Json → Option Json → Action H Handover
  prepare_handover request candidate previous live none = pure (none, [])
  prepare_handover request candidate previous live (some manifest) = do
    lift (require (not request.is_local) "Legacy handover requires independent timed rollback")
    prepared ← get H boot_policy
    lift (require (not (truthy prepared)) "Legacy handover cannot replace a prepared boot policy")
    taken ← asks (λ w. H.legacy_prepare candidate previous manifest live w.kernel)
    owned ← lift (H.owned_keys manifest)
    pure (some taken, owned)

  -- `legacy_snapshot if legacy_manifest is not None else engine.snapshot(previous, live)`
  unfoldable pub take_snapshot : Option Json → Json → Json → Action H Json
  take_snapshot none previous live = asks (λ w. H.snapshot previous live w.kernel)
  take_snapshot (some taken) previous live = pure taken

  -- `legacy.pin_transaction(tx, legacy_manifest)`
  unfoldable pub pin_batch : Option Json → H.Batch → Result H.Batch
  pin_batch none batch = ok batch
  pin_batch (some manifest) batch = H.pin batch manifest

  abbrev members : Option Json → List Json
  members none = []
  members (some v) = v ∷ []

  -- The batch, and the journal members that it goes with.
  pub record Plan : Type 0 where
    pub batch : H.Batch
    pub candidate : Json
    pub previous : Json
    pub snapshot : Json

  -- From the accepted candidate to the checked batch: nothing active changes.
  unfoldable pub prepare_plan : Request → Json → Action H Plan
  prepare_plan request candidate = do
    previous ← get H current
    live ← inspect_for H candidate
    require_scope H candidate
    handover ← prepare_handover request candidate previous live request.legacy_manifest
    asks
        (λ w. H.preflight candidate previous live request.accept_version_change handover.1 w.kernel)
    pinned ← lift (pin_candidate candidate previous live request.accept_version_change)
    snapshot ← take_snapshot handover.0 previous live
    disabled ← lift (item_or pinned "disabled" null)
    let target = if truthy disabled then null else pinned
    let union = previous ∷ pinned ∷ members handover.0
    prepared ← asks (λ w. H.prepare target union live false w.kernel)
    batch ← lift (pin_batch request.legacy_manifest prepared)
    check H batch
    pure (record { batch = batch; candidate = pinned; previous = previous; snapshot = snapshot })

  abbrev manifest_field : Option Json → Fields
  manifest_field none = end
  manifest_field (some manifest) = field "legacy_manifest" manifest end

  abbrev pub journal_of : Request → Plan → String → ℕ → ℕ → Json
  journal_of request plan id deadline monotonic_deadline = obj (
      field "token" (str request.token) (
        field "deadline" (int (pos deadline)) (
          field "deadline_monotonic" (int (pos monotonic_deadline)) (
            field "boot_id" (str id) (
              field "previous" plan.previous (
                field "snapshot" plan.snapshot
                  (field "candidate" plan.candidate (manifest_field request.legacy_manifest))))))))

  -- `Store.arm`
  unfoldable pub arm : Request → Result (Unit {0})
  arm request =
      if request.systemd
      then H.start_timer request.token request.timeout
      else ◌then_result◌
          (require H.isolated_network
            "Process watchdog only allowed in disposable network namespaces; production requires systemd timer")
          λ _. H.start_process request.token

  unfoldable pub verify_legacy : Option Json → Action H (Unit {0})
  verify_legacy none = pure tt
  verify_legacy (some manifest) = asks (λ w. H.legacy_verify manifest w.kernel)

  -- What is done before `execution_started`.
  unfoldable pub arm_watchdog : Request → Action H (Unit {0})
  arm_watchdog request = do
    lift (if request.is_local then ok tt else arm request)
    verify_legacy request.legacy_manifest
    invalidate H

  -- `remaining(self.get('pending'))`
  unfoldable pub pending_left : Action H Bool
  pending_left = do journal ← get H pending; left ← remaining H journal; pure (is_positive left)

  unfoldable pub judge : Verdict → Action H (Unit {0})
  judge accepted = pure tt
  judge refused = raise (policy_error "External administrative connection verifier failed")
  judge (failed e) = raise e

  unfoldable pub run_verifier : Option Verdict → Action H (Unit {0})
  run_verifier none = pure tt
  run_verifier (some verdict) = do left ← pending_left; judge verdict

  -- What is done from `execution_started` on: the token, unless the change is confirmed already.
  unfoldable pub run_batch : Request → ℕ → H.Batch → Action H (Option String)
  run_batch request deadline batch = do
    execute H (some deadline) batch
    in_time ← pending_left
    lift
        (require in_time "Apply exceeded its confirmation deadline; previous suite policy restored")
    run_verifier request.verifier
    if not (request.is_local || is_some request.verifier)
        then pure (some request.token)
        else do confirm_locked H request.token; pure none

  abbrev undo : String → Action H (Unit {0})
  undo token = do rollback_locked H (some token) false; pure tt

  -- The `try` statement. A failure before the kernel is written removes the journal alone.
  unfoldable pub guarded : Request → ℕ → H.Batch → Action H (Option String)
  guarded request deadline batch = do
    cleanup_then_raise (delete H pending) (arm_watchdog request)
    cleanup_then_raise (undo request.token) (run_batch request deadline batch)

  unfoldable pub apply_locked : Request → Json → Action H (Option String)
  apply_locked request given = do
    candidate ← lift (migrate_policy given)
    rollback_locked H none true
    journal ← get H pending
    lift (require (not (truthy journal)) "Unconfirmed change pending; confirm or rollback first")
    plan ← prepare_plan request candidate
    wall ← wall_time H
    now ← monotonic H
    id ← reads (λ w. w.boot_id)
    put H pending (journal_of request plan id (wall + request.timeout) (now + request.timeout))
    guarded request (now + request.timeout) plan.batch
