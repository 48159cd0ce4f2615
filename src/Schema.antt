-- ===== src/Schema.antt =====
-- core/schema.py: the versions of the policy bundle, and their upgrade in memory and on disk.
pub mod Legacy
pub mod Canonical
use l4d2_iptable_suite.Base.{
  ◌==◌, String, Bool, true, false, not, ◌&&◌, ◌||◌, Option, some, is_some, if◌then◌else◌,
}
use l4d2_iptable_suite.Base.Int.{pos}
use l4d2_iptable_suite.Base.Result.{Result, ok, err, policy_error, type_error, require, ◌>>=◌, ◌>>◌}
use l4d2_iptable_suite.Base.Json.{
  Json, null, int, str, arr, obj, cons, Fields, get, put, remove, value_or, has_truthy, is_str,
}

-- `legacy in ('0', '1', '2')`
abbrev pub is_legacy_value : Json → Bool
is_legacy_value legacy = is_str legacy "0" || is_str legacy "1" || is_str legacy "2"

abbrev pub is_null : Json → Bool
is_null null = true
is_null _ = false

-- Both dimensions at once, from the value of TYPECHAIN.
unfoldable pub set_dimensions : Json → Fields → Fields
set_dimensions legacy config =
    put (put config "HOST_SERVICES" (str (if is_str legacy "1" then "false" else "true")))
      "CONTAINER_POLICY" (str (if is_str legacy "0" then "off" else "restrict"))

-- `_legacy_dimensions`: the configuration that it leaves. `pop` returns `None` for a missing key.
unfoldable pub legacy_dimensions : Fields → Result Fields
legacy_dimensions config =
    let legacy = value_or (get config "TYPECHAIN") null in
    let rest = remove config "TYPECHAIN" in
    let host = is_some (get rest "HOST_SERVICES") in
    let container = is_some (get rest "CONTAINER_POLICY") in
    if host && container
    then ok rest
    else if is_null legacy && not (host || container)
    then err (policy_error "Schema 1 policy lacks host/container policy dimensions")
    else if is_null legacy || (host || container)
    then err (policy_error "Ambiguous schema 1 TYPECHAIN policy; refusing to guess")
    else do
      require (is_legacy_value legacy) "Invalid schema 1 TYPECHAIN value"
      ok (set_dimensions legacy rest)

pub data Version : Type 0 where
  one two three : Version

-- `type(version) is int and version in (1, SCHEMA_VERSION, 3)`
unfoldable pub known_version : Json → Result Version
known_version (int (pos n)) =
    if n == 1
    then ok one
    else if n == 2
    then ok two
    else if n == 3
    then ok three
    else err (policy_error "Unsupported policy schema")
known_version _ = err (policy_error "Unsupported policy schema")

abbrev pub is_nonempty_list : Json → Bool
is_nonempty_list (arr (cons v vs)) = true
is_nonempty_list _ = false

-- Only schema 3 carries selective shared rules, and it must.
unfoldable pub shared_gate : Version → Fields → Result (Unit {0})
shared_gate three policy =
    require
      (is_str (value_or (get policy "backend") null) "nftables"
        && is_nonempty_list (value_or (get policy "shared_rules") null))
      "Schema 3 requires nftables selective shared rules"
shared_gate _ policy =
    require (not (has_truthy policy "shared_rules"))
      "Selective shared rules require policy schema 3"

unfoldable pub config_fields : Option Json → Result Fields
config_fields (some (obj config)) = ok config
config_fields _ = err (policy_error "Policy state has no configuration")

unfoldable pub migrate_config : Version → Fields → Fields → Result Json
unfolding legacy_dimensions
migrate_config one policy config = do
  migrated ← legacy_dimensions config
  require (not (has_truthy migrated "BYPASS_SOURCE_DOMAINS"))
      "Schema 1 policy contains unresolved bypass domains; refusing DNS migration"
  let stored = put policy "config" (obj (put migrated "ACCESS_POLICY" (str "")))
  ok (obj (put stored "schema" (int (pos 2))))
migrate_config _ policy config = do
  require (not (is_some (get config "TYPECHAIN"))) "Schema 2 policy must not contain TYPECHAIN"
  require (not (has_truthy config "ACCESS_POLICY"))
      "Schema 2 policy must store parsed ACL, not an ACCESS_POLICY path"
  require (not (has_truthy config "BYPASS_SOURCE_DOMAINS"))
      "Schema 2 policy must not contain unresolved bypass domains"
  ok (obj policy)

-- `migrate_policy`: the argument is a value, so the deep copies of the source are the identity.
unfoldable pub migrate_policy : Json → Result Json
unfolding known_version shared_gate config_fields migrate_config
migrate_policy (obj policy) = do
  version ← known_version (value_or (get policy "schema") (int (pos 1)))
  shared_gate version policy
  config ← config_fields (get policy "config")
  migrate_config version policy config
migrate_policy _ = err (policy_error "Invalid policy state")

-- The files of the state directory, `<name>.json`.
pub data Name : Type 0 where
  current persisted pending installed boot_policy last_rollback : Name

-- One of the two bundles inside a journal; a missing or null one stays.
unfoldable pub migrate_member : String → Fields → Result Fields
migrate_member key record_fields =
    let old = value_or (get record_fields key) null in
    if is_null old
    then ok record_fields
    else do migrated ← migrate_policy old; ok (put record_fields key migrated)

unfoldable pub migrate_pending : Json → Result Json
unfolding migrate_member
migrate_pending (obj journal) = do
  with_previous ← migrate_member "previous" journal
  with_candidate ← migrate_member "candidate" with_previous
  ok (obj with_candidate)
migrate_pending _ = err type_error

-- `migrate_record`, for a record that is there; a JSON null is `None` too.
unfoldable pub migrate_record : Name → Json → Result Json
unfolding migrate_policy migrate_pending
migrate_record name null = ok null
migrate_record current value = migrate_policy value
migrate_record persisted value = migrate_policy value
migrate_record pending value = migrate_pending value
migrate_record _ value = ok value

unfoldable pub canonical_for_storage : Name → Json → Result Json
unfolding migrate_policy
canonical_for_storage current value = migrate_policy value
canonical_for_storage persisted value = migrate_policy value
canonical_for_storage _ value = ok value
