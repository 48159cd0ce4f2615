-- ===== src/Engine/Checks.antt =====
-- The parts of `preflight` of core/engine.py, and the facts of the kernel and of policies that it reads.
use l4d2_iptable_suite.Base.{
  Bool, true, false, not, ◌&&◌, ◌||◌, ◌===◌, String, Option, none, some, List, [], ◌∷◌, any, map,
  if◌then◌else◌,
}
use l4d2_iptable_suite.Base.Result.{Result, ok, require, ◌>>=◌, ◌>>◌}
use l4d2_iptable_suite.Base.Sets.{lookup, lookup_or, keys, member, same_words}
use l4d2_iptable_suite.Base.Texts.{holds_text}
use l4d2_iptable_suite.Engine.Save.{Rule, Table, hook_rule}
use l4d2_iptable_suite.Engine.Iptables.{Hook, Chains}
use l4d2_iptable_suite.Engine.Docker.{rules_of}
use l4d2_iptable_suite.Engine.Nft.{TableKey, NftPolicy, key_of, has_key}
use l4d2_iptable_suite.Engine.Version.{Versions, Registered, compatibility}

-- the members of a policy that the preflight reads
pub record Bundle : Type 0 where
  pub backend : String
  pub disabled : Bool
  pub nft : NftPolicy
  -- by family, `4` and `6`
  pub families : List (String × List (String × Chains))
  pub hooks : List Hook
  pub has_containers : Bool
  pub has_forward : Bool
  pub docker_backend : Option String
  pub registered : Registered

-- what `inspect` found: iptables-save is parsed, and its text is there too
pub record Live : Type 0 where
  pub tables : List TableKey
  pub versions : Versions
  pub frontend : String
  pub iprules : List (String × List (String × Table))
  pub save_texts : List String
  pub docker : String

abbrev pub reserved_key : TableKey
reserved_key = ("inet", "l4d2_boot_guard")

-- `f in live['iprules']` always holds of the families of a policy
abbrev pub live_tables : Live → String → List (String × Table)
live_tables live f = lookup_or (lookup live.iprules f) []

abbrev pub chains_at : List (String × Table) → String → List String
chains_at tables t = elim (lookup tables t) [ none ↦ [] | some table ↦ keys table.chains ]

abbrev pub rules_at : List (String × Table) → String → List Rule
rules_at tables t = elim (lookup tables t) [ none ↦ [] | some table ↦ table.rules ]

abbrev pub family_tables : Option Bundle → String → List (String × Chains)
family_tables none f = []
family_tables (some p) f = lookup_or (lookup p.families f) []

abbrev pub family_chains : Option Bundle → String → String → List String
family_chains p f t = keys (lookup_or (lookup (family_tables p f) t) [])

abbrev pub registered_keys : Option Bundle → List TableKey
registered_keys none = []
registered_keys (some p) = map key_of p.nft.objects

-- the policy of the bundle as a member of a union, where it may be absent
abbrev pub nft_of : Option Bundle → List (Option NftPolicy)
nft_of none = none ∷ []
nft_of (some p) = some p.nft ∷ []

-- the loop on the tables: each is new, or registered, or reviewed
unfoldable pub check_keys : List TableKey → List TableKey → List TableKey → Result (Unit {0})
check_keys [] live owned = ok tt
check_keys (key ∷ keys) live owned =
    require (not (has_key key live) || has_key key owned)
      "Object not owned; explicit legacy migration required"
    >> check_keys keys live owned

-- the loops on the chains of the iptables backend
unfoldable pub check_chains : List String → List String → List String → Result (Unit {0})
check_chains [] present old = ok tt
check_chains (chain ∷ chains) present old =
    require (not (member chain present) || member chain old) "Chain not registered"
    >> check_chains chains present old

unfoldable pub check_tables :
    Option Bundle → List (String × Table) → String → List (String × Chains) → Result (Unit {0})
unfolding check_chains
check_tables previous live f [] = ok tt
check_tables previous live f ((t, chains) ∷ tables) =
    check_chains (keys chains) (chains_at live t) (family_chains previous f t)
    >> check_tables previous live f tables

unfoldable pub check_families :
    Option Bundle → Live → List (String × List (String × Chains)) → Result (Unit {0})
unfolding check_tables
check_families previous live [] = ok tt
check_families previous live ((f, tables) ∷ families) =
    check_tables previous (live_tables live f) f tables >> check_families previous live families

-- `owned_present`: one of the registered chains is there
unfoldable pub some_chain : List (String × Chains) → List (String × Table) → Bool
some_chain [] live = false
some_chain ((t, chains) ∷ tables) live =
    any (λ c. member c (chains_at live t)) (keys chains) || some_chain tables live

unfoldable pub owned_present : List (String × List (String × Chains)) → Live → Bool
unfolding some_chain
owned_present [] live = false
owned_present ((f, tables) ∷ families) live =
    some_chain tables (live_tables live f) || owned_present families live

-- `rs and rs[0] == rule`
abbrev pub begins_with : Rule → List Rule → Bool
begins_with rule [] = false
begins_with rule (r ∷ rs) = same_words r rule

-- the loop on the hooks of one family
unfoldable pub check_hooks : Bundle → Bundle → Live → String → List Hook → Result (Unit {0})
unfolding rules_of
check_hooks policy previous live f [] = ok tt
check_hooks policy previous live f (h ∷ hooks) =
    require
      (((h.parent === "DOCKER-USER") && not policy.has_containers)
        || not (member h.target (family_chains (some previous) f h.table))
        || begins_with (hook_rule h.parent h.target)
            (rules_of h.parent (rules_at (live_tables live f) h.table)))
      "Suite integration missing or no longer first; operator review required"
    >> check_hooks policy previous live f hooks

abbrev pub is_frontend : String → Bool
is_frontend f = (f === "nft") || (f === "legacy")

-- the engine that the versions of the disabled policy name
abbrev pub frontend_marker : String → String
frontend_marker value =
    if holds_text value "(nf_tables)"
    then "nft"
    else if holds_text value "(legacy)"
    then "legacy"
    else "unknown"

abbrev pub versions_frontend : Option Versions → String
versions_frontend none = "unknown"
versions_frontend (some v) =
    if frontend_marker v.v4 === frontend_marker v.v6 then frontend_marker v.v4 else "unknown"

abbrev pub expected_frontend : Registered → String
expected_frontend r = elim r.pinned_frontend [
  | none ↦ versions_frontend r.versions
  | some pinned ↦ if is_frontend pinned then pinned else versions_frontend r.versions
]

-- the first tests: the same backend, and no table of the boot guard
unfoldable pub check_backend : Bundle → Option Bundle → Result (Unit {0})
check_backend policy previous = do
  require (elim previous [ none ↦ true | some p ↦ p.backend === policy.backend ])
      "Backend change requires disabling old suite and an explicit migration"
  require
      (not (
        (policy.backend === "nftables")
        && not policy.disabled
        && has_key reserved_key (map key_of policy.nft.objects)))
      "nftables table inet l4d2_boot_guard is reserved for the boot guard"

-- the version and the frontend of iptables
unfoldable pub check_versions : Bundle → Option Bundle → Live → Bool → Result (Unit {0})
unfolding compatibility
check_versions policy none live accept_version_change =
    if (policy.backend === "iptables") && not policy.disabled
    then (compatibility none live.versions accept_version_change live.frontend >>= λ _. ok tt)
    else ok tt
check_versions policy (some p) live accept_version_change =
    if not (policy.backend === "iptables")
    then ok tt
    else if policy.disabled
    then require
        (is_frontend (expected_frontend p.registered)
          && (live.frontend === expected_frontend p.registered))
        "iptables frontend changed; refusing to disable through a different engine"
    else (compatibility (some p.registered) live.versions accept_version_change live.frontend
        >>= λ _. ok tt)
