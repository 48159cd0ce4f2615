-- ===== src/Engine/Preflight.antt =====
-- `preflight` of core/engine.py, and `inspect`'s facts of the kernel that it reads. `isdecimal` is that of
-- Python's texts.
pub mod Ownership
use l4d2_iptable_suite.Base.{
  Bool, true, false, not, ◌&&◌, ◌||◌, ◌===◌, String, Option, none, some, List, [], ◌∷◌, ◌++◌, any,
  map, if◌then◌else◌, is_none, is_some,
}
use l4d2_iptable_suite.Base.Result.{Result, ok, err, policy_error, key_error, require, ◌>>=◌, ◌>>◌}
use l4d2_iptable_suite.Base.Json.{Items}
use l4d2_iptable_suite.Base.Sets.{lookup, lookup_or, keys, member, same_words}
use l4d2_iptable_suite.Base.Texts.{holds_text}
use l4d2_iptable_suite.Engine.Save.{Rule, Table, hook_rule}
use l4d2_iptable_suite.Engine.Iptables.{Hook, Chains, Policy}
use l4d2_iptable_suite.Engine.Docker.{Problem, family_status, rules_of}
use l4d2_iptable_suite.Engine.DockerLink.{require_docker_user_link}
use l4d2_iptable_suite.Engine.Nft.{TableKey, NftPolicy, key_of, has_key, shared_of, target_objects}
use l4d2_iptable_suite.Engine.Shared.{Descriptor, shared_descriptors}
use l4d2_iptable_suite.Engine.Version.{Versions, Registered, compatibility}
use l4d2_iptable_suite.Engine.Checks.{
  Bundle, Live, reserved_key, live_tables, chains_at, rules_at, family_tables, family_chains,
  registered_keys, nft_of, check_keys, check_chains, check_tables, check_families, some_chain,
  owned_present, begins_with, check_hooks, is_frontend, frontend_marker, versions_frontend,
  expected_frontend, check_backend, check_versions,
}

abbrev pub no_table : Table
no_table = record { chains = []; rules = [] }

-- `previous if previous and not previous.get('disabled') else None`, for one family
abbrev pub policy_for : Option Bundle → String → Option Policy
policy_for none f = none
policy_for (some p) f =
    if p.disabled
    then none
    else some (record { tables = family_tables (some p) f; hooks = p.hooks })

abbrev pub docker_backend_of : Bundle → Result String
docker_backend_of policy = elim policy.docker_backend [
  | none ↦ err (key_error "DOCKER_BACKEND")
  | some d ↦ ok d
]

abbrev pub is_declared : Option String → Bool
is_declared none = false
is_declared (some d) = (d === "auto") || (d === "iptables")

-- a chain of the suites before this one
abbrev pub is_old_suite : String → Bool
is_old_suite text = holds_text text ":UDP_GAME_NEW_LIMIT " || holds_text text ":SSHfilter "

-- the compatibility of Docker's backend with the suite's
module _ (isdecimal : String → Bool) where
  abbrev pub family_ok : Option Policy → List (String × Table) → Bool
  family_ok previous tables =
      elim (family_status isdecimal previous (lookup_or (lookup tables "filter") no_table)).errors [
        | [] ↦ true
        | problem ∷ problems ↦ false
      ]

  -- `docker_forward_diagnostic(...)['ok']` of both families
  unfoldable pub diagnostic_ok : Option Bundle → Live → Bool
  unfolding family_status
  diagnostic_ok previous live =
      family_ok (policy_for previous "4") (live_tables live "4")
      && family_ok (policy_for previous "6") (live_tables live "6")

  unfoldable pub check_docker : Bundle → Option Bundle → Live → Result (Unit {0})
  unfolding diagnostic_ok
  check_docker policy previous live = do
    (if policy.has_containers && not policy.disabled
        then (do
          require (not (live.docker === "none"))
              "No Docker integration objects detected; start/configure Docker separately before applying"
          require (not (live.docker === "mixed"))
              "Ambiguous Docker backends: nft tables plus DOCKER-USER; migrate explicitly"
          declared ← docker_backend_of policy
          require ((declared === "auto") || (declared === live.docker))
              "Declared Docker backend differs from kernel objects"
          require (not (policy.backend === "iptables") || (live.docker === "iptables"))
              "iptables suite with native nft Docker unsupported"
          require
              (not ((live.docker === "iptables") && (policy.backend === "iptables"))
                || diagnostic_ok previous live)
              "Docker integration preflight failed")
        else ok tt)
    require
        (not ((policy.backend === "nftables") && policy.has_forward && not policy.disabled)
          || not ((live.docker === "iptables") || (live.docker === "mixed")))
        "Native nft routed grants with Docker iptables may encounter FORWARD DROP; use iptables suite or migrate Docker explicitly"

  module _ (network : String → Option (Bool × String))
      (list_chain : String → String → String → Option (List String))
      (list_forward : String → Option Items) where
    -- the loop on the chains of the shared rules, which are the filter chains of Docker
    unfoldable pub check_shared_chains : List Descriptor → Result (Unit {0})
    unfolding require_docker_user_link
    check_shared_chains [] = ok tt
    check_shared_chains (desc ∷ descs) =
        require (is_some (list_chain desc.family desc.table desc.chain))
          "Shared routing requires existing nft chain"
        >> (require_docker_user_link desc.family (list_forward desc.family)
            >> check_shared_chains descs)

    abbrev pub check_shared : Bundle → Live → List Descriptor → Result (Unit {0})
    check_shared policy live [] = ok tt
    check_shared policy live (desc ∷ descs) = do
      require
          ((policy.backend === "nftables")
            && (live.docker === "iptables")
            && (live.frontend === "nft"))
          "Shared routing requires Docker iptables with the nft frontend"
      require (is_declared policy.docker_backend) "Shared routing requires DOCKER_BACKEND=iptables"
      check_shared_chains (desc ∷ descs)

    unfoldable pub check_objects : Bundle → Option Bundle → Live → List TableKey → Result (Unit {0})
    unfolding check_keys check_shared_chains shared_descriptors shared_of check_families
    check_objects policy previous live legacy_owned =
        if policy.backend === "nftables"
        then (do
          check_keys (map key_of policy.nft.objects) live.tables
              (registered_keys previous ++ legacy_owned)
          shared ← shared_descriptors network (shared_of (nft_of previous ++ nft_of (some policy)))
          check_shared policy live shared)
        else check_families previous live policy.families

    unfoldable pub check_integration : Bundle → Option Bundle → Live → Result (Unit {0})
    unfolding owned_present check_hooks
    check_integration policy none live =
        require (not (any is_old_suite live.save_texts))
          "Legacy suite detected; follow migration guide before claiming new objects"
    check_integration policy (some p) live =
        if (policy.backend === "iptables") && not policy.disabled && owned_present p.families live
        then (check_hooks policy p live "4" p.hooks >> check_hooks policy p live "6" p.hooks)
        else ok tt

    unfoldable pub preflight :
        Bundle → Option Bundle → Live → Bool → List TableKey → Result (Unit {0})
    unfolding check_backend check_versions check_docker check_objects check_integration
    preflight policy previous live accept_version_change legacy_owned = do
      check_backend policy previous
      check_versions policy previous live accept_version_change
      check_docker policy previous live
      check_objects policy previous live legacy_owned
      check_integration policy previous live
