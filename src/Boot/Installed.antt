-- ===== src/Boot/Installed.antt =====
-- `invalidate`, `record_installed`, `manifest` and `require_scope` of core/boot.py, which the
-- transactions of core/store.py call.
use Prim.Native.String.{count}
use l4d2_iptable_suite.Base.{◌==◌, Bool, false, not, ◌&&◌, String, [], if◌then◌else◌}
use l4d2_iptable_suite.Base.Int.{pos}
use l4d2_iptable_suite.Base.Result.{Result, ok, err, type_error, require}
use l4d2_iptable_suite.Base.Json
use l4d2_iptable_suite.Base.Json.{
  Json, null, bool, int, str, obj, end, field, truthy, value_or, item, item_or, is_str,
}
use l4d2_iptable_suite.Schema.{installed, boot_policy}
use l4d2_iptable_suite.Exec.{lift, reads, asks, pure, ◌>>=◌, ◌>>◌}
use l4d2_iptable_suite.World.{Host}
use l4d2_iptable_suite.Store.Files.{Action, get, put, delete}

-- `v == 1`, which holds of `True` too
abbrev pub is_one : Json → Bool
is_one (int (pos n)) = n == 1
is_one (bool b) = b
is_one _ = false

-- `isinstance(v, str) and len(v) == 32`
abbrev pub is_owner : Json → Bool
is_owner (str s) = count s == 32
is_owner _ = false

module _ (H : Host) where
  unfoldable pub invalidate : Action H (Unit {0})
  invalidate = delete H installed

  -- `engine.inspect(policy['backend'], policy['config'].get('IPTABLES_FRONTEND', 'auto'))`
  unfoldable pub inspect_for : Json → Action H Json
  inspect_for policy = do
    backend ← lift (item policy "backend")
    config ← lift (item policy "config")
    frontend ← lift (item_or config "IPTABLES_FRONTEND" (str "auto"))
    asks (λ w. H.inspect backend frontend w.kernel)

  abbrev installation : String → String → String → Json → Json
  installation id policy_digest objects_digest backend = obj (
      field "schema" (int (pos 1)) (
        field "boot_id" (str id) (
          field "policy_digest" (str policy_digest)
            (field "objects_digest" (str objects_digest) (field "backend" backend end)))))

  unfoldable pub record_live : Json → Action H (Unit {0})
  unfolding inspect_for
  record_live policy = do
    live ← inspect_for policy
    asks (λ w. H.preflight policy policy live false [] w.kernel)
    id ← reads (λ w. w.boot_id)
    objects_digest ← asks (λ w. H.fingerprint policy live w.kernel)
    backend ← lift (item policy "backend")
    put H installed (installation id (H.digest policy) objects_digest backend)

  unfoldable pub record_installed : Json → Action H (Unit {0})
  unfolding invalidate record_live
  record_installed policy = do
    disabled ← lift (item_or policy "disabled" null)
    if truthy disabled then invalidate else record_live policy

  -- `value and value.get('schema') == 1 and value.get('text_digest') == digest(value.get('text'))`
  unfoldable pub is_supported : Json → Result Bool
  is_supported (obj fs) = ok (
      truthy (obj fs)
      && is_one (value_or (Json.get fs "schema") null)
      && is_str (value_or (Json.get fs "text_digest") null)
          (H.digest (value_or (Json.get fs "text") null)))
  is_supported value = if truthy value then err type_error else ok false

  unfoldable pub manifest : Action H Json
  unfolding is_supported
  manifest = do
    value ← get H boot_policy
    supported ← lift (is_supported value)
    lift (
        require supported
          "Boot barrier manifest missing, corrupt or unsupported; protected units must remain stopped")
    owner ← lift (item_or value "owner" null)
    lift (require (is_owner owner) "Invalid boot barrier ownership record")
    pure value

  unfoldable pub require_scope : Json → Action H (Unit {0})
  unfolding manifest
  require_scope policy = do
    found ← get H boot_policy
    if not (truthy found) then pure tt else do
      value ← manifest
      disabled ← lift (item_or policy "disabled" null)
      lift (
          require (not (truthy disabled))
            "Boot protection is configured; disarm explicitly from console before disabling")
      recovery ← lift (item value "recovery")
      owner ← lift (item value "owner")
      text ← lift (H.guard_text policy recovery owner)
      approved ← lift (item value "text")
      lift (
          require (is_str approved text)
            "Boot scope changed; disarm, review and prepare boot protection explicitly from console")
      if not (truthy recovery) then pure tt else do
        in_scope ← lift (H.recovery_in_scope policy recovery)
        lift (
            require in_scope
              "Boot recovery SSH scope changed; explicitly prepare the new recovery route")
