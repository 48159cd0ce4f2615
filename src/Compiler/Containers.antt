-- ===== src/Compiler/Containers.antt =====
-- `containers` of core/compiler.py: the chains of the container grants. What the shell modules record,
-- `str.upper`, and for nftables the rules that `nft_records` makes of it, are arguments.
use Prim.Native.String.{[] as empty, ◌∷◌ as ◌followed_by◌}
use l4d2_iptable_suite.Base.{
  ℕ, zero, suc, ◌-◌, ◌+◌, Bool, true, false, not, ◌&&◌, ◌===◌, ◌==◌, String, ◌<>◌, none, some, List,
  [], ◌∷◌, ◌++◌, map, any, leb, if◌then◌else◌,
}
use l4d2_iptable_suite.Base.Result.{Result, ok, err, key_error, type_error, ◌>>=◌}
use l4d2_iptable_suite.Base.Texts.{drop_text, chars_in}
use l4d2_iptable_suite.Config.Access.{Grant, member_of}
use l4d2_iptable_suite.Config.Ports.{ports}
use l4d2_iptable_suite.Compiler.{Family, Compiler}
use l4d2_iptable_suite.Compiler.Rules.{Call, chain_call, add_call, make_all, guard}
use l4d2_iptable_suite.Compiler.Vpn.{Values}
use l4d2_iptable_suite.Compiler.Records.{Purpose, put}
use l4d2_iptable_suite.Compiler.Modules.{decimal_text, iptables_records}

-- `text.replace(old, new)`: so many characters of an occurrence are passed over
unfoldable pub replace_text : String → String → ℕ → String → String
unfolding drop_text chars_in
replace_text old new n empty = empty
replace_text old new (suc n) (c followed_by s) = replace_text old new n s
replace_text old new zero (c followed_by s) = elim (drop_text old (c followed_by s)) [
  | none ↦ c followed_by replace_text old new 0 s
  | some rest ↦ new <> replace_text old new (chars_in old - 1) s
]

-- the first of three ports that is in no range; without one, a `StopIteration`
abbrev pub is_free : List (ℕ × ℕ) → ℕ → Bool
is_free ranges p = not (any (λ r. leb r.0 p && leb p r.1) ranges)

abbrev pub other_port : List (ℕ × ℕ) → Result String
other_port ranges =
    if is_free ranges 65535
    then ok "65535"
    else if is_free ranges 65534
    then ok "65534"
    else if is_free ranges 65533
    then ok "65533"
    else err type_error

abbrev pub game_modules : List String
game_modules = "l4d2_udp_base" ∷ "l4d2_packet_validation" ∷ "l4d2_a2s_filters" ∷ []

-- the words of a record, where the chain INPUT is the containers'
abbrev pub ssh_record : List String → List String
ssh_record (tool ∷ op ∷ name ∷ rest) =
    if (tool === "iptables") && (name === "INPUT")
    then tool ∷ op ∷ "DOCKER-USER" ∷ rest
    else tool ∷ op ∷ name ∷ rest
ssh_record words = words

unfoldable pub admin_records : Bool → List (List String) → List (List String)
unfolding replace_text
admin_records is_nft records =
    if is_nft
    then map (λ words. map (replace_text "input_admin" "forward_admin" 0) (ssh_record words))
        records
    else map ssh_record records

-- the suffix of the chain in which nftables has the rules of a service
abbrev pub service_chain : String → Result String
service_chain service =
    if service === "tcp_ssh"
    then ok "admin"
    else if service === "http_https_protect"
    then ok "web"
    else if service === "allowlist_ports"
    then ok "core_allow"
    else if service === "l4d2_udp_base"
    then ok "l4d2_udp"
    else err (key_error service)

abbrev pub range_text : String → ℕ × ℕ → String
range_text between (a, b) =
    if a == b then decimal_text a else decimal_text a <> between <> decimal_text b

-- the end of a container's chain: replies, and nothing else
abbrev pub container_end : String → List Call
container_end dest =
    add_call none dest "ct state established,related counter accept"
      ("-m" ∷ "conntrack" ∷ "--ctstate" ∷ "ESTABLISHED,RELATED" ∷ "-j" ∷ "ACCEPT" ∷ [])
    ∷ add_call none dest "counter drop" ("-j" ∷ "DROP" ∷ [])
    ∷ []

module _ (short upper : String → String) (version : String → Result Family)
    (run_modules : List String → String → Values → Result (List (List String)))
    (nft_records : Purpose → List (List String) → Compiler → Result Compiler) (v : Values)
    (has_game : Bool) where
  unfoldable pub module_records : Purpose → List (List String) → Compiler → Result Compiler
  unfolding iptables_records
  module_records purpose records c =
      if c.is_nft
      then nft_records purpose records c
      else iptables_records short version v has_game purpose records c

  -- the option by which a module reads the ports
  abbrev pub port_option : String → String → Result String
  port_option protocol service =
      if service === "tcp_ssh"
      then ok "SSH_PORT"
      else if service === "http_https_protect"
      then ok "HTTP_HTTPS_PORTS"
      else if service === "allowlist_ports"
      then ok ("BYPASS_" <> upper protocol <> "_PORTS")
      else if service === "l4d2_udp_base"
      then ok "L4D2_GAMESERVER_UDP_PORTS"
      else err (key_error service)

  -- the options of a game container: the ports of its role, and a free port for the other role
  unfoldable pub game_changes : Grant → Result Values
  unfolding ports
  game_changes g = do
    text ← member_of g "ports"
    ranges ← ports text
    other ← other_port ranges
    role ← member_of g "role"
    ok (
        ("L4D2_GAMESERVER_UDP_PORTS", if role === "gameserver" then text else other)
        ∷ ("L4D2_SOURCETV_UDP_PORTS", if role === "sourcetv" then text else other)
        ∷ [])

  abbrev pub ended : String → Compiler → String × Compiler
  ended dest c = (dest, make_all short (container_end dest) c)

  -- the rules of the service's module, in the container's chain, whose name is returned
  unfoldable pub service_rules : Grant → String → String → Compiler → Result (String × Compiler)
  unfolding game_changes module_records admin_records make_all
  service_rules g context service c = do
    protocol ← member_of g "protocol"
    text ← member_of g "ports"
    option ← port_option protocol service
    changes ← (if service === "l4d2_udp_base" then game_changes g else ok ((option, text) ∷ []))
    records ←
        run_modules (if service === "l4d2_udp_base" then game_modules else service ∷ [])
          (if service === "tcp_ssh" then "host" else "container") changes
    d ←
        module_records (record { is_host = false; context = context })
          (if service === "tcp_ssh" then admin_records c.is_nft records else records) c
    chain ← (if c.is_nft then service_chain service else ok "")
    ok (ended (if c.is_nft then "forward_" <> chain <> "_" <> context else context) d)

  abbrev pub container_chain : Grant → String → Compiler → Result (String × Compiler)
  container_chain g context c = member_of g "service" >>= λ service.
      if service === "openvpn_server"
      then (member_of g "protocol" >>= λ protocol. ok (
        context,
        make_all short
            (chain_call context none
              ∷ add_call none context "counter accept" ("-j" ∷ "ACCEPT" ∷ [])
              ∷ [])
            c,
      ))
      else service_rules g context service c

  -- the loop on the public ports and those of the container, as long as there are both
  unfoldable pub port_calls : Grant → String → List (ℕ × ℕ) → List (ℕ × ℕ) → Result (List Call)
  unfolding guard
  port_calls g dest (public ∷ publics) (inner ∷ inners) = do
    asked ← guard version (put "ports" (range_text ":" inner) g) false true
    reply ← guard version (put "ports" (range_text ":" inner) g) true true
    rest ← port_calls g dest publics inners
    ok (
        add_call (some asked.0) "forward"
          (asked.1
            <> " ct original proto-dst "
            <> range_text "-" public
            <> " counter jump "
            <> dest)
          (asked.2 ++ ("--ctorigdstport" ∷ range_text ":" public ∷ "-j" ∷ short dest ∷ []))
        ∷ add_call (some reply.0) "forward"
            (reply.1 <> " ct original proto-dst " <> range_text "-" public <> " counter accept")
            (reply.2 ++ ("--ctorigdstport" ∷ range_text ":" public ∷ "-j" ∷ "ACCEPT" ∷ []))
        ∷ rest)
  port_calls g dest _ _ = ok []

  unfoldable pub containers : ℕ → List Grant → Compiler → Result Compiler
  unfolding service_rules port_calls ports make_all
  containers index [] c = ok c
  containers index (g ∷ grants) c = do
    made ← container_chain g ("container" <> decimal_text index) c
    public_text ← member_of g "public_ports"
    publics ← ports public_text
    inner_text ← member_of g "ports"
    inners ← ports inner_text
    calls ← port_calls g made.0 publics inners
    containers (index + 1) grants (make_all short calls made.1)
