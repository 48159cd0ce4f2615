-- ===== src/Compiler/Build.antt =====
-- `build` of core/compiler.py, up to the rules: the record that it returns is made of the compiler here.
-- The arguments are those of the methods that it calls.
pub mod Closed
use l4d2_iptable_suite.Base.{
  Bool, true, false, not, ◌&&◌, ◌||◌, ◌===◌, String, ◌<>◌, some, none, List, [], ◌∷◌, if◌then◌else◌,
}
use l4d2_iptable_suite.Base.Result.{Result, ok, require, ◌>>=◌, ◌>>◌}
use l4d2_iptable_suite.Base.Sets.{lookup, member}
use l4d2_iptable_suite.Config.Access.{Grant, member_of, is_value}
use l4d2_iptable_suite.Compiler.{Family, ipv6, Compiler, start}
use l4d2_iptable_suite.Compiler.Rules.{add_call, make_all, nfports}
use l4d2_iptable_suite.Compiler.Core.{core, grants}
use l4d2_iptable_suite.Compiler.Vpn.{Values, splitlist}
use l4d2_iptable_suite.Compiler.Scopes.{Network, vpn}
use l4d2_iptable_suite.Compiler.Records.{Purpose, host_end, domain_jumps, routed_calls}
use l4d2_iptable_suite.Compiler.Containers.{module_records, containers}

-- `access` of a configuration
pub record AccessPolicy : Type 0 where
  pub host : List Grant
  pub forward : List Grant
  pub containers : List Grant

abbrev pub special_modules : List String
special_modules =
    "loopback" ∷ "whitelist" ∷ "openvpn_server" ∷ "openvpn_sitetosite" ∷ "l4d2_tcpfilter_chain"
    ∷ "docker_dns_egress" ∷ "docker_monitor_egress" ∷ []

-- `names - special`
abbrev pub ordinary : List String → List String
ordinary [] = []
ordinary (name ∷ names) =
    if member name special_modules then ordinary names else name ∷ ordinary names

abbrev pub bypass_sources : Values → Result (List String)
bypass_sources v = member_of v "PRIVILEGED_BYPASS" >>= λ bypass.
    if bypass === "true"
    then (member_of v "BYPASS_SOURCE_IPS" >>= λ sources. ok (splitlist sources))
    else ok []

-- the country filter has no rules for IPv6, where the game's ports may be closed
unfoldable pub geo_ipv6 : (String → String) → Values → List String → Compiler → Result Compiler
unfolding nfports lookup make_all
geo_ipv6 short v names c =
    if member "geo_country_filter" names
      && not (is_value (lookup v "GEO_POLICY_MODE") "off")
      && is_value (lookup v "GEO_IPV6_POLICY") "deny"
    then (member_of v "L4D2_GAMESERVER_UDP_PORTS" >>= λ game.
        member_of v "L4D2_SOURCETV_UDP_PORTS" >>= λ tv. ok (
          make_all short
            (add_call (some ipv6) "input_l4d2_udp"
                ("udp dport " <> nfports (game <> "," <> tv) <> " counter drop") []
              ∷ [])
            c))
    else ok c

module _ (short digest upper : String → String) (version : String → Result Family)
    (networks : List String → Result (List Network))
    (run_modules : List String → String → Values → Result (List (List String)))
    (nft_records : Purpose → List (List String) → Compiler → Result Compiler) (v : Values)
    (names : List String) (has_game : Bool) where
  -- the rules of the host's services
  unfoldable pub host_rules : Compiler → Result Compiler
  unfolding geo_ipv6 module_records make_all
  host_rules c = member_of v "HOST_SERVICES" >>= λ services.
      if services === "true"
      then (do
        d ← geo_ipv6 short v names c
        records ← run_modules (ordinary names) "host" []
        e ←
            module_records short upper version run_modules nft_records v has_game
              (record { is_host = true; context = "host" }) records d
        ok (make_all short (domain_jumps e.is_nft) e))
      else ok c

  -- all the rules but those of the routed policy
  unfoldable pub granted_rules : Bool → Result (Unit {0}) → AccessPolicy → Result Compiler
  unfolding core grants vpn host_rules containers splitlist make_all
  granted_rules is_nft validated access = do
    validated
    family_policy ← member_of v "FAMILY_POLICY"
    bypass ← bypass_sources v
    c ←
        grants short version family_policy access.host access.forward bypass
          (core short family_policy (start is_nft))
    d ← vpn short digest version networks v names c
    require (not (member "docker_dns_egress" names || member "docker_monitor_egress" names))
        "Migrate Docker egress modules to forward grants with interfaces, source and destination"
    e ← host_rules d
    containers short upper version run_modules nft_records v has_game 0 access.containers
        (make_all short host_end e)

  unfoldable pub build : Bool → Result (Unit {0}) → AccessPolicy → Result Compiler
  unfolding granted_rules routed_calls make_all
  build is_nft validated access = do
    c ← granted_rules is_nft validated access
    calls ← routed_calls v access.containers
    ok (make_all short calls c)
