-- ===== src/Config/Access.antt =====
-- `validate_access` of core/config.py, on grants whose members are texts. What `ipaddress.ip_network`
-- finds of a text is an argument.
pub mod Accepted
use l4d2_iptable_suite.Base.{
  ℕ, ◌-◌, Bool, true, false, not, ◌&&◌, ◌||◌, ◌===◌, ◌==◌, String, Option, none, some, List, [],
  ◌∷◌, ◌++◌, all, leb, length, if◌then◌else◌,
}
use l4d2_iptable_suite.Base.Result.{Result, ok, err, key_error, require, ◌>>=◌, ◌>>◌}
use l4d2_iptable_suite.Base.Sets.{lookup, lookup_or, keys, member}
use l4d2_iptable_suite.Config.Ports.{ports, codes, is_digit}
use l4d2_iptable_suite.Config.Validate.{is_letter, found_value}

pub data Section : Type 0 where
  host forward containers : Section

abbrev pub Grant : Type 0
Grant = List (String × String)

-- what is asked of a network: its version, and whether it is one address
pub record NetworkFacts : Type 0 where
  pub version : ℕ
  pub is_single : Bool

abbrev pub is_host : Section → Bool
is_host host = true
is_host _ = false

abbrev pub is_containers : Section → Bool
is_containers containers = true
is_containers _ = false

-- `g[k]`, and `g.get(k)` compared with a text
abbrev pub member_of : Grant → String → Result String
member_of g k = found_value k (lookup g k)

abbrev pub is_value : Option String → String → Bool
is_value none t = false
is_value (some s) t = s === t

abbrev pub is_game : Section → Grant → Bool
is_game section g = is_containers section && is_value (lookup g "service") "l4d2_udp_base"

-- the members that a grant of a section has
abbrev pub expected_keys : Section → Bool → List String
expected_keys section game =
    ("group" ∷ "source" ∷ "destination" ∷ "protocol" ∷ "ports" ∷ "input" ∷ [])
    ++ (if is_host section then [] else "output" ∷ [])
    ++ (if is_containers section
        then "public_destination" ∷ "public_ports" ∷ "service" ∷ []
        else [])
    ++ (if game then "role" ∷ [] else [])

-- `set(g) == keys`
abbrev pub same_keys : List String → List String → Bool
same_keys xs ys = all (λ x. member x ys) xs && all (λ y. member y xs) ys

-- `[a-zA-Z0-9_-]{1,32}` and `[a-zA-Z0-9_.:-]{1,15}`
abbrev pub is_group : List ℕ → Bool
is_group cs =
    leb 1 (length cs)
    && leb (length cs) 32
    && all (λ c. is_letter c || is_digit c || (c == 95) || (c == 45)) cs

abbrev pub is_interface : List ℕ → Bool
is_interface cs =
    leb 1 (length cs)
    && leb (length cs) 15
    && all (λ c. is_letter c || is_digit c || (c == 95) || (c == 46) || (c == 58) || (c == 45)) cs

unfoldable pub interface : String → Result (Unit {0})
unfolding codes
interface value = require (is_interface (codes value)) "Invalid interface"

-- `len(private) == len(public) and all(b-a == d-c for ...)`
unfoldable pub aligned : List (ℕ × ℕ) → List (ℕ × ℕ) → Bool
aligned [] [] = true
aligned ((a, b) ∷ xs) ((c, d) ∷ ys) = (b - a == d - c) && aligned xs ys
aligned _ _ = false

module _ (network : String → Result NetworkFacts) where
  -- the members that only a container grant has
  unfoldable pub check_container : Grant → NetworkFacts → Result (Unit {0})
  unfolding aligned
  check_container g source = do
    public_destination ← member_of g "public_destination"
    public_network ← network public_destination
    require ((public_network.version == source.version) && public_network.is_single)
        "Public destination must be one address"
    private_text ← member_of g "ports"
    public_text ← member_of g "public_ports"
    private ← ports private_text
    public ← ports public_text
    require (aligned private public) "Public/internal ranges must align with equal lengths"
    service ← member_of g "service"
    require
        (member service (
          "tcp_ssh" ∷ "http_https_protect" ∷ "l4d2_udp_base" ∷ "allowlist_ports" ∷ "openvpn_server"
          ∷ []))
        "Unsupported container service"
    protocol ← member_of g "protocol"
    require (not (service === "l4d2_udp_base") || (protocol === "udp")) "Game service requires UDP"
    require
        (not ((service === "tcp_ssh") || (service === "http_https_protect"))
          || (protocol === "tcp"))
        "Administrative/web module requires TCP; grant QUIC independently"

  unfoldable pub check_grant : Section → Grant → Result (Unit {0})
  unfolding check_container interface codes lookup
  check_grant section g = do
    require
        (not (is_game section g)
          || is_value (lookup g "role") "gameserver"
          || is_value (lookup g "role") "sourcetv")
        "Game container grant requires role=gameserver or sourcetv"
    require (same_keys (keys g) (expected_keys section (is_game section g)))
        "grant needs exactly its keys"
    group ← member_of g "group"
    require (is_group (codes group)) "Invalid group"
    source_text ← member_of g "source"
    source ← network source_text
    destination_text ← member_of g "destination"
    destination ← network destination_text
    require (source.version == destination.version) "Grant families must match"
    protocol ← member_of g "protocol"
    require (member protocol ("tcp" ∷ "udp" ∷ [])) "Only explicit tcp/udp grants supported"
    port_text ← member_of g "ports"
    own_ports ← ports port_text
    input ← member_of g "input"
    interface input
    output ← (if is_host section then ok "" else member_of g "output")
    (if is_host section then ok tt else interface output)
    (if is_containers section then check_container g source else ok tt)

  unfoldable pub check_grants : Section → List Grant → Result (Unit {0})
  check_grants section [] = ok tt
  check_grants section (g ∷ gs) = check_grant section g >> check_grants section gs

  -- a section has at most 256 grants
  unfoldable pub check_section : Section → List Grant → Result (Unit {0})
  unfolding check_grants
  check_section section gs =
      require (leb (length gs) 256) "Too many grants" >> check_grants section gs

  unfoldable pub validate_access : List Grant → List Grant → List Grant → Result (Unit {0})
  unfolding check_section
  validate_access hosts forwards targets = do
    check_section host hosts
    check_section forward forwards
    check_section containers targets
