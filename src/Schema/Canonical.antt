-- ===== src/Schema/Canonical.antt =====
-- The bundles that `migrate_policy` of core/schema.py returns are its fixed points.
use l4d2_iptable_suite.Base.{◌≡◌, ◌⊎◌, inl, inr, true, false, Option, none, some, arith, ==_iff}
use l4d2_iptable_suite.Base.Int.{pos}
use l4d2_iptable_suite.Base.Result.{ok, >>=-eq-ok}
use l4d2_iptable_suite.Base.Json.{
  Json, null, int, str, obj, Fields, get, put, value_or, has_truthy, is_str, get-put,
}
use l4d2_iptable_suite.Schema.{
  Version, one, two, three, known_version, shared_gate, config_fields, migrate_config,
  migrate_policy, is_nonempty_list, legacy_dimensions,
}
use l4d2_iptable_suite.Schema.Legacy.{get-legacy_dimensions}

-- Schema 2 has no selective shared rules, schema 3 has some and is for nftables.
abbrev SchemaAgrees : Fields → Type 0
SchemaAgrees policy =
    (get policy "schema" ≡ some (int (pos 2))) × (has_truthy policy "shared_rules" ≡ false)
    ⊎ (get policy "schema" ≡ some (int (pos 3)))
      × (is_str (value_or (get policy "backend") null) "nftables" ≡ true)
      × (is_nonempty_list (value_or (get policy "shared_rules") null) ≡ true)

pub record IsCanonical (policy config : Fields) : Type 0 where
  pub schema : SchemaAgrees policy
  pub stored : get policy "config" ≡ some (obj config)
  pub typechain : get config "TYPECHAIN" ≡ none
  pub access : has_truthy config "ACCESS_POLICY" ≡ false
  pub domains : has_truthy config "BYPASS_SOURCE_DOMAINS" ≡ false

pub IsCanonical-migrate_policy :
    (policy config : Fields)
    → IsCanonical policy config
    → migrate_policy (obj policy) ≡ ok (obj policy)
unfolding migrate_policy
IsCanonical-migrate_policy policy config c = elim c.schema [
  | inl (e, shared) ↦ rw (e, c.stored) (ground arith)
  | inr (e, backend, rules) ↦ rw (e, c.stored) (ground arith)
]

known_version-inv :
    (j : Json) (v : Version)
    → known_version j ≡ ok v
    → (v ≡ one) × (j ≡ int (pos 1))
      ⊎ (v ≡ two) × (j ≡ int (pos 2))
      ⊎ (v ≡ three) × (j ≡ int (pos 3))
unfolding known_version
known_version-inv (int (pos n)) v h = ground (arith, ==_iff n 1, ==_iff n 2, ==_iff n 3)
known_version-inv _ v h = cc

config_fields-ok :
    (o : Option Json) {config : Fields} → config_fields o ≡ ok config → o ≡ some (obj config)
unfolding config_fields
config_fields-ok (some (obj c)) h = cc
config_fields-ok none h = cc
config_fields-ok (some _) h = cc

module _ (policy : Fields) where
  abbrev version_field : Json
  version_field = value_or (get policy "schema") (int (pos 1))

  -- The four steps of an accepted migration.
  record Steps (q : Json) : Type 0 where
    version : Version
    config : Fields
    version_known : known_version version_field ≡ ok version
    gate : shared_gate version policy ≡ ok tt
    config_found : config_fields (get policy "config") ≡ ok config
    migrated : migrate_config version policy config ≡ ok q

  migrate_policy-Steps : (q : Json) → migrate_policy (obj policy) ≡ ok q → Steps q
  unfolding migrate_policy
  migrate_policy-Steps q h =
      let (v, known, h₁) = >>=-eq-ok (known_version version_field) _ h in
      let (u, gated, h₂) = >>=-eq-ok (shared_gate v policy) _ h₁ in
      let (config, found, h₃) = >>=-eq-ok (config_fields (get policy "config")) _ h₂ in
      record {
        version = v;
        config = config;
        version_known = known;
        gate = gated;
        config_found = found;
        migrated = h₃;
      }

  -- the configuration and the bundle that schema 1 is upgraded to
  abbrev pub upgraded_config : Fields → Fields
  upgraded_config migrated = put migrated "ACCESS_POLICY" (str "")

  abbrev pub upgraded : Fields → Fields
  upgraded migrated =
      put (put policy "config" (obj (upgraded_config migrated))) "schema" (int (pos 2))

  migrate_config-one :
      (config : Fields) (q : Json)
      → migrate_config one policy config ≡ ok q
      → (migrated : Fields) × (legacy_dimensions config ≡ ok migrated)
        × (has_truthy migrated "BYPASS_SOURCE_DOMAINS" ≡ false)
        × (q ≡ obj (upgraded migrated))
  unfolding migrate_config
  migrate_config-one config q h =
      let (migrated, e, h₁) = >>=-eq-ok (legacy_dimensions config) _ h in
      (migrated, e, ground arith, ground arith)

  upgraded-IsCanonical :
      (config migrated : Fields)
      → legacy_dimensions config ≡ ok migrated
      → has_truthy migrated "BYPASS_SOURCE_DOMAINS" ≡ false
      → shared_gate one policy ≡ ok tt
      → IsCanonical (upgraded migrated) (upgraded_config migrated)
  unfolding shared_gate
  upgraded-IsCanonical config migrated e domains gate = record {
    schema = inl (simp get-put, simp get-put (ground arith));
    stored = simp get-put;
    typechain = simp get-put ((get-legacy_dimensions config migrated e).0);
    access = simp get-put;
    domains = simp get-put domains;
  }

  abbrev IsStored : Fields → Json → Type 0
  IsStored config q =
      (q ≡ obj policy)
      × (get config "TYPECHAIN" ≡ none)
      × (has_truthy config "ACCESS_POLICY" ≡ false)
      × (has_truthy config "BYPASS_SOURCE_DOMAINS" ≡ false)

  migrate_config-two :
      (config : Fields) (q : Json) → migrate_config two policy config ≡ ok q → IsStored config q
  unfolding migrate_config
  migrate_config-two config q h = ground arith

  migrate_config-three :
      (config : Fields) (q : Json) → migrate_config three policy config ≡ ok q → IsStored config q
  unfolding migrate_config
  migrate_config-three config q h = ground arith

  schema-two : known_version version_field ≡ ok two → get policy "schema" ≡ some (int (pos 2))
  schema-two h = ground (arith, known_version-inv version_field two h)

  schema-three : known_version version_field ≡ ok three → get policy "schema" ≡ some (int (pos 3))
  schema-three h = ground (arith, known_version-inv version_field three h)

  Steps-IsCanonical :
      (v : Version) (config : Fields) (q : Json)
      → known_version version_field ≡ ok v
      → shared_gate v policy ≡ ok tt
      → get policy "config" ≡ some (obj config)
      → migrate_config v policy config ≡ ok q
      → (fs : Fields) × (config' : Fields) × (q ≡ obj fs) × IsCanonical fs config'
  Steps-IsCanonical one config q known gate found migrated =
      let (m, e, domains, e') = migrate_config-one config q migrated in
      (upgraded m, upgraded_config m, e', upgraded-IsCanonical config m e domains gate)
  Steps-IsCanonical two config q known gate found migrated =
      let (e, typechain, access, domains) = migrate_config-two config q migrated in
      (
        policy,
        config,
        e,
        record {
          schema = inl (schema-two known, unfold shared_gate in ground arith);
          stored = found;
          typechain = typechain;
          access = access;
          domains = domains;
        },
      )
  Steps-IsCanonical three config q known gate found migrated =
      let (e, typechain, access, domains) = migrate_config-three config q migrated in
      (
        policy,
        config,
        e,
        record {
          schema = inr (
            schema-three known,
            unfold shared_gate in ground arith,
            unfold shared_gate in ground arith,
          );
          stored = found;
          typechain = typechain;
          access = access;
          domains = domains;
        },
      )

-- A bundle that `migrate_policy` returns is an object with schema 2 and no shared rules, or schema 3
-- with shared rules and for nftables; its configuration is an object without TYPECHAIN, and without a
-- value of ACCESS_POLICY or BYPASS_SOURCE_DOMAINS.
pub migrate_policy-IsCanonical :
    (p q : Json)
    → migrate_policy p ≡ ok q
    → (policy : Fields) × (config : Fields) × (q ≡ obj policy) × IsCanonical policy config
unfolding migrate_policy
migrate_policy-IsCanonical (obj policy) q h =
    let st = migrate_policy-Steps policy q h in
    Steps-IsCanonical policy st.version st.config q st.version_known st.gate
      (config_fields-ok (get policy "config") st.config_found) st.migrated
migrate_policy-IsCanonical null q h = cc
migrate_policy-IsCanonical _ q h = cc

-- If `migrate_policy` returns a bundle, then it returns that bundle for itself, unchanged.
pub migrate_policy_idem : (p q : Json) → migrate_policy p ≡ ok q → migrate_policy q ≡ ok q
migrate_policy_idem p q h =
    let (policy, config, e, c) = migrate_policy-IsCanonical p q h in
    rw e (IsCanonical-migrate_policy policy config c)
