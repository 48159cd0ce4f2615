-- ===== src/Boot/Barrier.antt =====
-- The boot operations of core/boot.py: `verify`, `prepare`, `saved`, `guard`, `release`, `restore` and
-- `disarm`. Each runs under the writer lock (core/fw.py).
pub mod Safe
pub mod Ready
use l4d2_iptable_suite.Base.{
  Bool, true, false, not, ◌&&◌, ◌||◌, ◌===◌, ◌<>◌, String, Option, none, some, [], if◌then◌else◌,
}
use l4d2_iptable_suite.Base.Int.{pos}
use l4d2_iptable_suite.Base.Result.{Result, ok, require}
use l4d2_iptable_suite.Base.Json.{
  Json, null, bool, int, str, arr, nil, obj, end, field, truthy, item, item_or, set_item, is_str,
}
use l4d2_iptable_suite.Schema.{current, persisted, pending, installed, boot_policy}
use l4d2_iptable_suite.Exec.{lift, asks, reads, pure, ◌>>=◌, ◌>>◌}
use l4d2_iptable_suite.World.{Host, World}
use l4d2_iptable_suite.Store.Files.{Action, get, put, delete}
use l4d2_iptable_suite.Store.Rollback.{rollback_locked}
use l4d2_iptable_suite.Store.Apply.{Request, apply_locked}
use l4d2_iptable_suite.Boot.Installed.{invalidate, inspect_for, manifest, require_scope}
use l4d2_iptable_suite.Boot.Guard.{guard_present, require_guard_owned, guard_table, owner_text}

module _ (H : Host) where
  -- `require(not store.get('pending'), message)`
  unfoldable pub require_settled : String → Action H (Unit {0})
  require_settled message = do
    journal ← get H pending
    lift (require (not (truthy journal)) message)

  -- `engine.command(['nft', '-f', '-'], text)`
  unfoldable pub nft_run : String → Action H (Unit {0})
  nft_run text w = let (r, k) = H.nft_run text w.kernel in (r, record w { kernel = k })

  abbrev ready : String → String → Json → Json
  ready id policy_digest backend = obj (
      field "ready" (bool true) (
        field "boot_id" (str id)
          (field "policy_digest" (str policy_digest) (field "backend" backend end))))

  -- the part of `verify` that compares with the installation record
  unfoldable pub verify_installed : Json → Json → Action H (Unit {0})
  verify_installed policy installation = do
    id ← reads (λ w. w.boot_id)
    of_boot ← lift (item_or installation "boot_id" null)
    lift (require (is_str of_boot id) "Readiness: installation belongs to another boot")
    of_policy ← lift (item_or installation "policy_digest" null)
    lift (
        require (is_str of_policy (H.digest policy))
          "Readiness: policy digest differs from installed version")
    live ← inspect_for H policy
    asks (λ w. H.preflight policy policy live false [] w.kernel)
    of_objects ← lift (item_or installation "objects_digest" null)
    objects ← asks (λ w. H.fingerprint policy live w.kernel)
    lift (require (is_str of_objects objects) "Readiness: managed kernel rules changed")

  -- `allow_guard or not guard_present()`
  unfoldable pub is_released : Bool → Action H Bool
  is_released true = pure true
  is_released false = do present ← guard_present H; pure (not present)

  unfoldable pub verify : Bool → Action H Json
  unfolding require_settled verify_installed is_released
  verify allow_guard = do
    require_settled "Readiness: an unconfirmed transaction is pending"
    policy ← get H current
    installation ← get H installed
    lift (
        require (truthy policy && truthy installation)
          "Readiness: no verified installed policy for this boot")
    verify_installed policy installation
    released ← is_released allow_guard
    lift (require released "Readiness: early barrier is still active")
    id ← reads (λ w. w.boot_id)
    backend ← lift (item policy "backend")
    pure (ready id (H.digest policy) backend)

  -- `recovery_rows(recovery_file, policy) if recovery_file else []`
  unfoldable pub recovery_of : Option String → Json → Result Json
  recovery_of none policy = ok (arr nil)
  recovery_of (some path) policy = if path === "" then ok (arr nil) else H.recovery_rows path policy

  abbrev boot_manifest : String → String → String → Json → Json
  boot_manifest owner policy_digest text rows = obj (
      field "schema" (int (pos 1)) (
        field "owner" (str owner) (
          field "policy_digest" (str policy_digest) (
            field "text" (str text)
              (field "text_digest" (str (H.digest (str text))) (field "recovery" rows end))))))

  -- The owner is the token that `secrets` draws. The answer is the digest and the recovery grants.
  unfoldable pub prepare : Option String → String → Action H (String × Json)
  unfolding require_settled recovery_of verify
  prepare recovery_file owner = do
    require_settled "Boot prepare requires no pending transaction"
    policy ← get H current
    stored ← get H persisted
    lift (
        require (truthy policy && truthy stored && (H.digest policy === H.digest stored))
          "Boot prepare requires saved confirmed current policy")
    present ← guard_present H
    lift (
        require (not present)
          "Disarm the existing boot barrier explicitly before changing its scope")
    verify false
    rows ← lift (recovery_of recovery_file policy)
    text ← lift (H.guard_text policy rows (str owner))
    asks (λ w. H.nft_check text w.kernel)
    put H boot_policy (boot_manifest owner (H.digest policy) text rows)
    pure (H.digest policy, rows)

  unfoldable pub saved : Json → Action H (Unit {0})
  saved policy = do
    value ← get H boot_policy
    if not (truthy value) then pure tt else do
      require_scope H policy
      stamped ← lift (set_item value "policy_digest" (str (H.digest policy)))
      put H boot_policy stamped

  -- A table of this suite is replaced in the same batch; another one is refused.
  unfoldable pub guard_batch : Json → String → Action H String
  guard_batch value text = do
    present ← guard_present H
    if not present then pure text else do
      require_guard_owned H value
      pure ("delete table inet " <> guard_table <> "\n" <> text)

  unfoldable pub guard : Action H (Unit {0})
  unfolding guard_batch nft_run
  guard = do
    value ← manifest H
    invalidate H
    given ← lift (item value "text")
    text ← lift (owner_text given)
    batch ← guard_batch value text
    asks (λ w. H.nft_check batch w.kernel)
    nft_run batch

  unfoldable pub remove_guard : Action H (Unit {0})
  unfolding nft_run
  remove_guard = nft_run ("delete table inet " <> guard_table <> "\n")

  unfoldable pub release : Action H Json
  unfolding verify
  release = do
    value ← manifest H
    verify true
    present ← guard_present H
    lift (require present "Cannot release a missing boot barrier")
    require_guard_owned H value
    remove_guard
    verify false

  -- `local=True`, with the default timeout; the watchdog is not used
  abbrev boot_request : String → Request
  boot_request token = record {
    token = token;
    timeout = 120;
    systemd = true;
    is_local = true;
    verifier = none;
    accept_version_change = false;
    legacy_manifest = none;
  }

  unfoldable pub restore : String → Action H Json
  unfolding guard release
  restore token = do
    guard
    rollback_locked H none true
    policy ← get H persisted
    lift (require (truthy policy) "Boot restore: required persisted policy is missing")
    value ← manifest H
    scope ← lift (item value "policy_digest")
    lift (
        require (is_str scope (H.digest policy))
          "Boot restore: persisted policy differs from prepared scope; prepare explicitly")
    apply_locked H (boot_request token) policy
    release

  -- what is done to a barrier that is up
  unfoldable pub drop_guard : Json → Action H (Unit {0})
  drop_guard value = do
    present ← guard_present H
    if not present then pure tt else do require_guard_owned H value; remove_guard

  unfoldable pub disarm : Action H (Unit {0})
  unfolding require_settled drop_guard
  disarm = do
    require_settled "Cannot disarm boot protection with a pending transaction"
    value ← manifest H
    drop_guard value
    delete H boot_policy
    invalidate H
