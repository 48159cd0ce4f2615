-- ===== src/Config/Validate.antt =====
-- Rules of `Configuration.validate` in core/config.py that relate several options.
pub mod Services
use l4d2_iptable_suite.Base.{
  ℕ, Bool, true, false, not, ◌&&◌, ◌||◌, ◌===◌, String, Option, none, some, List, [], ◌∷◌, ◌++◌,
  all, leb, length, if◌then◌else◌, is_some,
}
use l4d2_iptable_suite.Base.Result.{Result, ok, err, key_error, require, ◌>>=◌, ◌>>◌}
use l4d2_iptable_suite.Base.Sets.{lookup, lookup_or, member}
use l4d2_iptable_suite.Config.Ports.{ports, codes, overlap, is_digit}

-- `self.backend`, `self.names` and `self.values`
pub record Options : Type 0 where
  pub backend : String
  pub names : List String
  pub values : List (String × String)

-- `v[k]`
abbrev pub found_value : String → Option String → Result String
found_value k none = err (key_error k)
found_value k (some x) = ok x

unfoldable pub value_of : Options → String → Result String
unfolding lookup
value_of o k = found_value k (lookup o.values k)

-- `v.get(k, default)`
unfoldable pub value_or_default : Options → String → String → String
unfolding lookup
value_or_default o k d = lookup_or (lookup o.values k) d

-- `bool(v.get(k))`
abbrev pub has_value : Options → String → Bool
has_value o k = not (value_or_default o k "" === "")

-- `require(v[k] in choices, message)`
unfoldable pub require_choice : Options → String → List String → String → Result (Unit {0})
unfolding value_of
require_choice o k choices message = value_of o k >>= λ x. require (member x choices) message

abbrev pub is_letter : ℕ → Bool
is_letter c = (leb 65 c && leb c 90) || (leb 97 c && leb c 122)

-- `[A-Za-z][A-Za-z0-9_]{0,30}`
abbrev pub is_table_name : List ℕ → Bool
is_table_name [] = false
is_table_name (c ∷ cs) =
    is_letter c
    && all (λ d. is_letter d || is_digit d || (leb 95 d && leb d 95)) cs
    && leb (length cs) 30

-- the choices of the core options
unfoldable pub check_choices : Options → Result (Unit {0})
unfolding require_choice codes
check_choices o = do
  require_choice o "FAMILY_POLICY" ("dual" ∷ "ipv4-block-ipv6" ∷ [])
      "FAMILY_POLICY must be dual or ipv4-block-ipv6"
  require_choice o "NF_TABLE_FAMILY" ("inet" ∷ []) "Only NF_TABLE_FAMILY=inet supported"
  table ← value_of o "NF_TABLE_NAME"
  require (is_table_name (codes table)) "Invalid table name"
  require (not (table === "l4d2_boot_guard"))
      "NF_TABLE_NAME=l4d2_boot_guard is reserved for the boot guard"
  require_choice o "ROUTED_POLICY" ("drop" ∷ "unmanaged" ∷ []) "Invalid routed policy"
  require_choice o "CONTAINER_POLICY" ("off" ∷ "restrict" ∷ "ingress" ∷ [])
      "Invalid container policy"
  container ← value_of o "CONTAINER_POLICY"
  require (not (container === "ingress") || (o.backend === "nftables"))
      "CONTAINER_POLICY=ingress requires the nftables backend"
  require_choice o "IPTABLES_FRONTEND" ("auto" ∷ "legacy" ∷ "nft" ∷ [])
      "IPTABLES_FRONTEND must be auto/legacy/nft"
  require_choice o "DOCKER_BACKEND" ("auto" ∷ "iptables" ∷ "nftables" ∷ "none" ∷ [])
      "Invalid Docker backend"
  require_choice o "DOCKER_CHAIN_AUTORECOVER" ("false" ∷ [])
      "Docker restart removed; set DOCKER_CHAIN_AUTORECOVER=false"
  require_choice o "DOCKER_INPUT_COMPAT" ("false" ∷ [])
      "DOCKER_INPUT_COMPAT retired; use CONTAINER_POLICY explicitly"
  require (member (value_or_default o "OVPNS2S_ALLOW_LAN" "false") ("true" ∷ "false" ∷ []))
      "OVPNS2S_ALLOW_LAN must be true/false"

-- `self.names & GAME`
abbrev pub has_game : Options → Bool
has_game o =
    member "l4d2_udp_base" o.names
    || member "l4d2_packet_validation" o.names
    || member "l4d2_a2s_filters" o.names

unfoldable pub check_bypass : Options → Result (Unit {0})
unfolding value_of
check_bypass o = do
  family ← value_of o "FAMILY_POLICY"
  require (not ((o.backend === "iptables") && has_game o) || (family === "ipv4-block-ipv6"))
      "iptables game payload matching supports IPv4 only; choose ipv4-block-ipv6 or nftables dual"
  addresses ← value_of o "BYPASS_SOURCE_IPS"
  privileged ← value_of o "PRIVILEGED_BYPASS"
  require ((addresses === "") || (member "whitelist" o.names && (privileged === "true")))
      "BYPASS_SOURCE_IPS needs whitelist and explicit PRIVILEGED_BYPASS=true"
  domains ← value_of o "BYPASS_SOURCE_DOMAINS"
  cidrs ← value_of o "DNS_ALLOWED_CIDRS"
  require
      ((domains === "")
        || (member "whitelist" o.names && (privileged === "true") && not (cidrs === "")))
      "DNS bypass requires explicit privilege and DNS_ALLOWED_CIDRS"

-- no silent interpretation of global Docker port lists
unfoldable pub check_docker_ports : Options → Result (Unit {0})
check_docker_ports o = do
  require (not (has_value o "SSH_DOCKER"))
      "SSH_DOCKER needs migration to explicit containers grants (public and internal ports)"
  require (not (has_value o "TCP_DOCKER"))
      "TCP_DOCKER needs migration to explicit containers grants (public and internal ports)"
  require (not (has_value o "UDP_DOCKER"))
      "UDP_DOCKER needs migration to explicit containers grants (public and internal ports)"

unfoldable pub check_game_ports : Options → Result (Unit {0})
unfolding value_of
check_game_ports o = if not (has_game o) then ok tt else do
  require (not (has_value o "BYPASS_UDP_PORTS"))
      "Game controls conflict with unrestricted BYPASS_UDP_PORTS; use scoped access"
  game ← value_of o "L4D2_GAMESERVER_UDP_PORTS"
  game_ports ← ports game
  television ← value_of o "L4D2_SOURCETV_UDP_PORTS"
  television_ports ← ports television
  require (not (overlap game_ports television_ports)) "GameServer and SourceTV ports overlap"

-- one turn of the loop on the controlled TCP services
unfoldable pub add_service : Options → String → String → List (ℕ × ℕ) → Result (List (ℕ × ℕ))
add_service o module_name key controlled =
    if not (member module_name o.names && has_value o key)
    then ok controlled
    else ports (value_or_default o key "") >>= λ own.
        require (not (overlap own controlled)) "TCP service controls overlap; assign distinct ports"
        >> ok (controlled ++ own)

unfoldable pub check_services : Options → Result (List (ℕ × ℕ))
unfolding add_service
check_services o = do
  ssh ← add_service o "tcp_ssh" "SSH_PORT" []
  web ← add_service o "http_https_protect" "HTTP_HTTPS_PORTS" ssh
  add_service o "l4d2_tcp_protect" "L4D2_GAMESERVER_TCP_PORTS" web

unfoldable pub check_allowlist : Options → List (ℕ × ℕ) → Result (Unit {0})
check_allowlist o controlled =
    if not (member "allowlist_ports" o.names && has_value o "BYPASS_TCP_PORTS")
    then ok tt
    else ports (value_or_default o "BYPASS_TCP_PORTS" "") >>= λ own.
        require (not (overlap own controlled)) "TCP allowlist overlaps a controlled service"

unfoldable pub check_vpn : Options → Result (Unit {0})
check_vpn o = do
  require (value_or_default o "OVPNSRV_LOG_ENABLED" "false" === "false")
      "OVPNSRV_LOG_ENABLED unsupported; use explicit scoped counters"
  require (value_or_default o "OVPNS2S_LOG_ENABLED" "false" === "false")
      "OVPNS2S_LOG_ENABLED unsupported; use explicit scoped counters"
  require (not (has_value o "OVPNSRV_DOCKER_INTERFACE"))
      "VPN in Docker: use containers grants; tunnel forwarding requires host deployment"
  require
      (not (value_or_default o "OVPNSRV_ENABLE_NAT" "" === "true")
        || has_value o "OVPNSRV_LAN_INTERFACE")
      "NAT requires explicit output interface"
  require
      (not (value_or_default o "OVPNS2S_ENABLE_NAT" "" === "true")
        || has_value o "OVPNS2S_LOCAL_INTERFACE")
      "NAT requires explicit output interface"
