-- ===== src/Compiler/Records.antt =====
-- The first loop of `iptables_records` of core/compiler.py, which collects the chains that the
-- records of the modules write, and the end of `build`, the policy of the other traffic.
use l4d2_iptable_suite.Base.{
  Bool, not, ◌&&◌, ◌||◌, ◌===◌, String, ◌<>◌, none, List, [], ◌∷◌, ◌++◌, if◌then◌else◌,
}
use l4d2_iptable_suite.Base.Result.{Result, ok, err, policy_error, type_error, require, ◌>>=◌, ◌>>◌}
use l4d2_iptable_suite.Base.Sets.{member, sorted_set}
use l4d2_iptable_suite.Config.Access.{Grant, member_of}
use l4d2_iptable_suite.Engine.Save.{Rule}
use l4d2_iptable_suite.Engine.Iptables.{Chains}
use l4d2_iptable_suite.Compiler.{set_default, change_at}
use l4d2_iptable_suite.Compiler.Rules.{Call, add_call}
use l4d2_iptable_suite.Compiler.Vpn.{Values}

-- what the records are for: `target` and `context`
pub record Purpose : Type 0 where
  pub is_host : Bool
  pub context : String

abbrev pub prefix_of : Purpose → String
prefix_of purpose = if purpose.is_host then "INPUT" else "DOCKER-USER"

abbrev pub cname : Purpose → String → String
cname purpose n =
    if n === prefix_of purpose
    then (if purpose.is_host then "input" else purpose.context)
    else purpose.context <> "_" <> n

-- `d[k] = v`
abbrev pub put {ℓ} : {A : Type ℓ} → String → A → List (String × A) → List (String × A)
put k v d = change_at k (λ old. v) (set_default k v d)

abbrev pub append_rule_to : String → Rule → Chains → Chains
append_rule_to name rule own =
    change_at name (λ rules. rules ++ (rule ∷ [])) (set_default name [] own)

-- the rule without the place `1` that an insertion may name
abbrev pub placed : String → Rule → Result Rule
placed op [] = if op === "-I" then err type_error else ok []
placed op (word ∷ rule) = ok (if (op === "-I") && (word === "1") then rule else word ∷ rule)

-- the operation of a record, on a chain that is the module's to write
unfoldable pub apply_record : Purpose → String → String → Rule → Chains → Result Chains
unfolding set_default change_at
apply_record purpose op name rule own =
    if op === "-N"
    then ok (if name === "DOCKER-USER" then own else set_default (cname purpose name) [] own)
    else if op === "-F"
    then ok (put (cname purpose name) [] own)
    else if (op === "-A") || (op === "-I")
    then (placed op rule >>= λ words. ok (append_rule_to (cname purpose name) words own))
    else err (policy_error "Forbidden iptables generator op")

abbrev pub is_foreign : Purpose → String → Bool
is_foreign purpose name =
    member name ("INPUT" ∷ "FORWARD" ∷ "OUTPUT" ∷ "DOCKER-USER" ∷ [])
    && not (name === prefix_of purpose)

unfoldable pub read_record : Purpose → List String → Chains → Result Chains
unfolding apply_record
read_record purpose [] own = err type_error
read_record purpose (tool ∷ a) own =
    require (tool === "iptables") "Unexpected generator"
    >> (require (not (member "-t" a)) "Service module attempted NAT/shared table write" >> elim a [
      | [] ↦ err type_error
      | op ∷ words ↦ elim words [
        | [] ↦ err type_error
        | name ∷ rule ↦
            if is_foreign purpose name then ok own else apply_record purpose op name rule own
      ]
    ])

unfoldable pub own_chains : Purpose → List (List String) → Chains → Result Chains
unfolding read_record
own_chains purpose [] own = ok own
own_chains purpose (rec ∷ records) own =
    read_record purpose rec own >>= λ next. own_chains purpose records next

-- the interfaces by which the containers are reached
abbrev pub bridges_of : List Grant → Result (List String)
bridges_of [] = ok []
bridges_of (g ∷ grants) =
    member_of g "output" >>= λ output. bridges_of grants >>= λ rest. ok (output ∷ rest)

-- only the accesses that are granted reach a bridge
abbrev pub ingress_calls : List String → List Call
ingress_calls [] = add_call none "forward" "counter return" ("-j" ∷ "RETURN" ∷ []) ∷ []
ingress_calls (bridge ∷ bridges) =
    add_call none "forward"
      ("iifname \"" <> bridge <> "\" oifname \"" <> bridge <> "\" counter return") []
    ∷ add_call none "forward"
        ("oifname \"" <> bridge <> "\" ct direction reply ct state { established, related }"
          <> " ct status != dnat counter return")
        []
    ∷ add_call none "forward" ("oifname \"" <> bridge <> "\" counter drop") []
    ∷ ingress_calls bridges

abbrev pub zone_calls : List String → List Call
zone_calls [] = add_call none "forward" "counter return" ("-j" ∷ "RETURN" ∷ []) ∷ []
zone_calls (output ∷ outputs) =
    add_call none "forward" ("oifname \"" <> output <> "\" counter drop")
      ("-o" ∷ output ∷ "-j" ∷ "DROP" ∷ [])
    ∷ add_call none "forward" ("iifname \"" <> output <> "\" counter drop")
        ("-i" ∷ output ∷ "-j" ∷ "DROP" ∷ [])
    ∷ zone_calls outputs

unfoldable pub routed_calls : Values → List Grant → Result (List Call)
unfolding sorted_set
routed_calls v containers = member_of v "ROUTED_POLICY" >>= λ routed.
    (if routed === "drop"
      then ok (add_call none "forward" "counter drop" ("-j" ∷ "DROP" ∷ []) ∷ [])
      else (member_of v "CONTAINER_POLICY" >>= λ policy. bridges_of containers >>= λ outputs. ok (
          if policy === "ingress" then ingress_calls (sorted_set outputs) else zone_calls outputs)))

-- the rules after those of the host's services
abbrev pub host_end : List Call
host_end =
    add_call none "input" "ct state established,related counter accept"
      ("-m" ∷ "conntrack" ∷ "--ctstate" ∷ "ESTABLISHED,RELATED" ∷ "-j" ∷ "ACCEPT" ∷ [])
    ∷ add_call none "input" "counter drop" ("-j" ∷ "DROP" ∷ [])
    ∷ []

-- the jumps of the input chain to the chains of the domains
abbrev pub jumps_to : List String → List Call
jumps_to [] = []
jumps_to (d ∷ domains) = add_call none "input" ("counter jump input_" <> d) [] ∷ jumps_to domains

abbrev pub domain_jumps : Bool → List Call
domain_jumps is_nft =
    if is_nft
    then jumps_to ("core_allow" ∷ "vpn" ∷ "admin" ∷ "l4d2_tcp" ∷ "web" ∷ "l4d2_udp" ∷ [])
    else []
