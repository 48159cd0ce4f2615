-- ===== src/Compiler/Core.antt =====
-- `core` and `grants` of core/compiler.py: the rules of every policy, and the accesses that are
-- granted.
use l4d2_iptable_suite.Base.{
  Bool, true, false, not, ◌&&◌, ◌===◌, String, ◌<>◌, none, some, List, [], ◌∷◌, ◌++◌, map,
  if◌then◌else◌,
}
use l4d2_iptable_suite.Base.Result.{Result, ok, require, ◌>>=◌, ◌>>◌}
use l4d2_iptable_suite.Config.Access.{Grant}
use l4d2_iptable_suite.Compiler.{Family, ipv4, ipv6, Compiler, same_family}
use l4d2_iptable_suite.Compiler.Rules.{Call, chain_call, add_call, make_all, guard, address_word}

abbrev pub icmp_word : Family → String
icmp_word ipv4 = "icmp"
icmp_word ipv6 = "icmpv6"

abbrev pub protocol_word : Family → String
protocol_word ipv4 = "icmp"
protocol_word ipv6 = "ipv6-icmp"

abbrev pub type_flag : Family → String
type_flag ipv4 = "--icmp-type"
type_flag ipv6 = "--icmpv6-type"

-- a rule for an error message of ICMP or ICMPv6
abbrev pub accept_icmp : Family → String → String → Call
accept_icmp f nf t =
    add_call (some f) "input" nf ("-p" ∷ protocol_word f ∷ type_flag f ∷ t ∷ "-j" ∷ "ACCEPT" ∷ [])

abbrev pub accept_neighbour : String × String → Call
accept_neighbour t =
    add_call (some ipv6) "input" ("ip6 hoplimit 255 icmpv6 type " <> t.1 <> " counter accept") (
      "-p" ∷ "ipv6-icmp" ∷ "--icmpv6-type" ∷ t.0 ∷ "-m" ∷ "hl" ∷ "--hl-eq" ∷ "255" ∷ "-j" ∷ "ACCEPT"
      ∷ [])

abbrev pub limit_echo : Family → Call
limit_echo f =
    add_call (some f) "input"
      (icmp_word f <> " type echo-request limit rate 20/second burst 20 packets counter accept")
      ("-p"
        ∷ protocol_word f
        ∷ type_flag f
        ∷ "echo-request"
        ∷ "-m"
        ∷ "limit"
        ∷ "--limit"
        ∷ "20/sec"
        ∷ "--limit-burst"
        ∷ "20"
        ∷ "-j"
        ∷ "ACCEPT"
        ∷ [])

abbrev pub drop_echo : Family → Call
drop_echo f =
    add_call (some f) "input" (icmp_word f <> " type echo-request counter drop")
      ("-p" ∷ protocol_word f ∷ type_flag f ∷ "echo-request" ∷ "-j" ∷ "DROP" ∷ [])

abbrev pub accept_related : Family → Call
accept_related f =
    add_call (some f) "forward"
      ("meta l4proto " <> icmp_word f <> " ct state related counter accept")
      ("-p" ∷ protocol_word f ∷ "-m" ∷ "conntrack" ∷ "--ctstate" ∷ "RELATED" ∷ "-j" ∷ "ACCEPT" ∷ [])

abbrev pub drop_invalid : String → Call
drop_invalid logical =
    add_call none logical "ct state invalid counter drop"
      ("-m" ∷ "conntrack" ∷ "--ctstate" ∷ "INVALID" ∷ "-j" ∷ "DROP" ∷ [])

abbrev pub drop_family : Family → String → Call
drop_family f logical = add_call (some f) logical "counter drop" ("-j" ∷ "DROP" ∷ [])

abbrev pub domain_chains : String → List Call
domain_chains domain =
    chain_call ("input_" <> domain) none ∷ chain_call ("forward_" <> domain) none ∷ []

abbrev pub concat_map {ℓ} : {A : Type ℓ} → (A → List Call) → List A → List Call
concat_map f [] = []
concat_map f (x ∷ xs) = f x ++ concat_map f xs

abbrev pub families : List Family
families = ipv4 ∷ ipv6 ∷ []

-- the calls of `core`, in order
unfoldable pub core_calls : Bool → String → List Call
core_calls is_nft family_policy =
    (chain_call "input" (some "input")
      ∷ chain_call "forward" (some "forward")
      ∷ add_call none "input" "iifname \"lo\" counter accept" ("-i" ∷ "lo" ∷ "-j" ∷ "ACCEPT" ∷ [])
      ∷ drop_invalid "input"
      ∷ accept_icmp ipv4
          "icmp type { destination-unreachable, time-exceeded, parameter-problem } counter accept"
          "destination-unreachable"
      ∷ [])
    ++ (if is_nft
        then []
        else map (accept_icmp ipv4 "") ("time-exceeded" ∷ "parameter-problem" ∷ []))
    ++ map (λ t. accept_icmp ipv6 ("icmpv6 type " <> t <> " counter accept") t)
        ("destination-unreachable" ∷ "packet-too-big" ∷ "time-exceeded" ∷ "parameter-problem" ∷ [])
    ++ map accept_neighbour (
        ("router-solicitation", "nd-router-solicit")
        ∷ ("router-advertisement", "nd-router-advert")
        ∷ ("neighbour-solicitation", "nd-neighbor-solicit")
        ∷ ("neighbour-advertisement", "nd-neighbor-advert")
        ∷ [])
    ++ map limit_echo families
    ++ map drop_echo families
    ++ (if family_policy === "ipv4-block-ipv6"
        then map (drop_family ipv6) ("input" ∷ "forward" ∷ [])
        else [])
    ++ map accept_related families
    ++ (drop_invalid "forward" ∷ [])
    ++ (if is_nft
        then concat_map domain_chains (
            "core_allow" ∷ "vpn" ∷ "admin" ∷ "l4d2_tcp" ∷ "web" ∷ "l4d2_udp" ∷ "docker_egress" ∷ [])
        else [])

unfoldable pub core : (String → String) → String → Compiler → Compiler
unfolding core_calls make_all
core short family_policy c =
    let d = make_all short (core_calls c.is_nft family_policy) c in
    if c.is_nft then d else record d {
      hooks =
          record { table = "filter"; parent = "INPUT"; target = short "input" }
          ∷ record { table = "filter"; parent = "FORWARD"; target = short "forward" }
          ∷ [];
    }

-- a grant of the host or of the forwarded traffic, with the replies of the second
unfoldable pub grant_calls : (String → Result Family) → String → Bool → Grant → Result (List Call)
unfolding guard
grant_calls version family_policy is_host g = guard version g false false >>= λ asked.
    require (not (same_family asked.0 ipv6 && not (family_policy === "dual")))
      "IPv6 grants conflict with blocked IPv6"
    >> (let first =
          add_call (some asked.0) (if is_host then "input" else "forward")
            (asked.1 <> " counter accept") (asked.2 ++ ("-j" ∷ "ACCEPT" ∷ [])) in
        if is_host
        then ok (first ∷ [])
        else guard version g true false >>= λ replied. ok (
            first
            ∷ add_call (some replied.0) "forward" (replied.1 <> " counter accept")
                (replied.2 ++ ("-j" ∷ "ACCEPT" ∷ []))
            ∷ []))

unfoldable pub section_calls :
    (String → Result Family) → String → Bool → List Grant → Result (List Call)
unfolding grant_calls
section_calls version family_policy is_host [] = ok []
section_calls version family_policy is_host (g ∷ grants) =
    grant_calls version family_policy is_host g >>= λ calls.
    section_calls version family_policy is_host grants >>= λ rest. ok (calls ++ rest)

-- a source that bypasses the controls
unfoldable pub bypass_calls : (String → Result Family) → List String → Result (List Call)
bypass_calls version [] = ok []
bypass_calls version (src ∷ sources) = version src >>= λ f. bypass_calls version sources >>= λ rest.
    ok (
      add_call (some f) "input" (address_word f <> " saddr " <> src <> " counter accept")
        ("-s" ∷ src ∷ "-j" ∷ "ACCEPT" ∷ [])
      ∷ rest)

-- `grants`, where `bypass` has the sources of `BYPASS_SOURCE_IPS` when the bypass is on
unfoldable pub grants :
    (String → String)
    → (String → Result Family)
    → String
    → List Grant
    → List Grant
    → List String
    → Compiler
    → Result Compiler
unfolding section_calls bypass_calls make_all
grants short version family_policy host forward bypass c =
    section_calls version family_policy true host >>= λ for_host.
    section_calls version family_policy false forward >>= λ for_forward.
    bypass_calls version bypass >>= λ for_bypass.
    ok (make_all short (for_host ++ for_forward ++ for_bypass) c)
