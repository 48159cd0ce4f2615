-- ===== src/Tests/SchemaRuns.antt =====
-- Migrations of concrete bundles.
use l4d2_iptable_suite.Base.{true, none, String, ◌≢◌, ◌≡◌, refl}
use l4d2_iptable_suite.Base.Int.{pos}
use l4d2_iptable_suite.Base.Result.{ok}
use l4d2_iptable_suite.Base.Json
use l4d2_iptable_suite.Base.Json.{Json, Fields, int, str, obj, end, field}
use l4d2_iptable_suite.Schema.{legacy_dimensions, migrate_policy, set_dimensions}
use l4d2_iptable_suite.Schema.Legacy.{get-legacy_dimensions, has_dimensions}
use l4d2_iptable_suite.Schema.Canonical.{
  IsCanonical, migrate_policy-IsCanonical, migrate_policy_idem,
}

-- a bundle of schema 1 whose dimensions are still in TYPECHAIN
abbrev old_config : Fields
old_config = field "TYPECHAIN" (str "1") (field "ACCESS_POLICY" (str "acl.json") end)

abbrev new_config : Fields
new_config =
    field "ACCESS_POLICY" (str "")
      (field "HOST_SERVICES" (str "false") (field "CONTAINER_POLICY" (str "restrict") end))

abbrev new_dimensions : Fields
new_dimensions =
    field "ACCESS_POLICY" (str "acl.json")
      (field "HOST_SERVICES" (str "false") (field "CONTAINER_POLICY" (str "restrict") end))

abbrev old_bundle : Json
old_bundle = obj (field "backend" (str "nftables") (field "config" (obj old_config) end))

abbrev new_bundle : Json
new_bundle = obj (
    field "backend" (str "nftables")
      (field "config" (obj new_config) (field "schema" (int (pos 2)) end)))

upgrade : migrate_policy old_bundle ≡ ok new_bundle
unfolding migrate_policy set_dimensions Json.get Json.put Json.remove
upgrade = refl

migrate_policy_idem_example : migrate_policy new_bundle ≡ ok new_bundle
migrate_policy_idem_example = migrate_policy_idem old_bundle new_bundle upgrade

migrate_policy-IsCanonical_example :
    (policy : Fields) × (config : Fields) × (new_bundle ≡ obj policy) × IsCanonical policy config
migrate_policy-IsCanonical_example = migrate_policy-IsCanonical old_bundle new_bundle upgrade

dimensions : legacy_dimensions old_config ≡ ok new_dimensions
unfolding legacy_dimensions set_dimensions Json.get Json.put Json.remove
dimensions = refl

get-legacy_dimensions_example :
    (Json.get new_dimensions "TYPECHAIN" ≡ none)
    × (has_dimensions new_dimensions ≡ true)
    × ((k : String)
        → k ≢ "TYPECHAIN"
        → k ≢ "HOST_SERVICES"
        → k ≢ "CONTAINER_POLICY"
        → Json.get new_dimensions k ≡ Json.get old_config k)
get-legacy_dimensions_example = get-legacy_dimensions old_config new_dimensions dimensions
