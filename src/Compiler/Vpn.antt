-- ===== src/Compiler/Vpn.antt =====
-- `vpn` and `s2s_shared_rules` of core/compiler.py. What `ipaddress` finds of a network, the sorted
-- distinct networks of a list of texts, and the digest of a text are arguments.
use l4d2_iptable_suite.Base.{
  ℕ, Bool, false, not, ◌&&◌, ◌||◌, ◌===◌, ◌==◌, String, ◌<>◌, some, List, [], ◌∷◌, ◌++◌, any, leb,
  if◌then◌else◌,
}
use l4d2_iptable_suite.Base.Result.{Result, ok, err, type_error, require, ◌>>=◌, ◌>>◌}
use l4d2_iptable_suite.Base.Sets.{lookup, lookup_or}
use l4d2_iptable_suite.Base.Texts.{parts_between}
use l4d2_iptable_suite.Config.Access.{member_of}
use l4d2_iptable_suite.Engine.Save.{Rule}
use l4d2_iptable_suite.Compiler.{
  Family, ipv4, nat_of, nat_for, Compiler, nft_chain, ip_chain, add, same_family,
}
use l4d2_iptable_suite.Compiler.Rules.{address_word, nfports}

abbrev pub Values : Type 0
Values = List (String × String)

-- `v.get(k)`, where an absent value counts as an empty one
abbrev pub value_at : Values → String → String
value_at v k = lookup_or (lookup v k) ""

abbrev pub is_set : String → Bool
is_set text = not (text === "")

-- the characters that end a word of a list: `,`, `;` and white space
abbrev pub ends_word : ℕ → Bool
ends_word c =
    any (λ d. c == d) (44 ∷ 59 ∷ 32 ∷ 133 ∷ 160 ∷ 5760 ∷ 8232 ∷ 8233 ∷ 8239 ∷ 8287 ∷ 12288 ∷ [])
    || (leb 9 c && leb c 13)
    || (leb 28 c && leb c 31)
    || (leb 8192 c && leb c 8202)

abbrev pub non_empty : List String → List String
non_empty [] = []
non_empty (x ∷ xs) = if is_set x then x ∷ non_empty xs else non_empty xs

unfoldable pub splitlist : String → List String
unfolding parts_between
splitlist value = non_empty (parts_between ends_word value)

-- a loop whose body may raise
abbrev pub for_each {ℓ} :
    {A : Type ℓ} → List A → (A → Compiler → Result Compiler) → Compiler → Result Compiler
for_each [] body c = ok c
for_each (x ∷ xs) body c = body x c >>= λ d. for_each xs body d

-- a base chain of the nat table, a rule in it, and for iptables the hook of it
unfoldable pub nat_rule :
    (String → String) → Family → String → String → String → Rule → Compiler → Compiler
unfolding nft_chain ip_chain add
nat_rule short f logical parent nf ip c =
    let d =
      if c.is_nft
      then nft_chain (nat_of f) logical (some logical) c
      else ip_chain f "nat" (short logical) c in
    let e = add short (nat_for f) logical nf ip d in
    if c.is_nft then e else record e {
      hooks = e.hooks ++ (record { table = "nat"; parent = parent; target = short logical } ∷ []);
    }

-- the loop on the networks that are behind the NAT
unfoldable pub add_nat :
    (String → String)
    → (String → Result Family)
    → Family
    → String
    → String
    → String
    → Compiler
    → Result Compiler
unfolding nat_rule
add_nat short version f src out dst c = version dst >>= λ g.
    require (same_family g f) "NAT family mismatch"
    >> ok (
        nat_rule short f "postrouting" "POSTROUTING"
          (address_word f
            <> " saddr "
            <> src
            <> " "
            <> address_word f
            <> " daddr "
            <> dst
            <> " oifname \""
            <> out
            <> "\" counter masquerade")
          ("-s" ∷ src ∷ "-d" ∷ dst ∷ "-o" ∷ out ∷ "-j" ∷ "MASQUERADE" ∷ []) c)

-- `for real, alias in aliases`: a tuple of another size does not unpack
abbrev pub unpack : List String → Result (String × String)
unpack (real ∷ alias ∷ []) = ok (real, alias)
unpack _ = err type_error

abbrev pub is_ipv4 : (String → Result Family) → String → Result Bool
is_ipv4 version text = version text >>= λ f. ok (same_family f ipv4)

-- the loop on the router's aliases
unfoldable pub add_alias :
    (String → String)
    → (String → Result Family)
    → Values
    → String
    → Family
    → String
    → String
    → String
    → List String
    → Compiler
    → Result Compiler
unfolding nat_rule
add_alias short version v scope f src iface out pair c = unpack pair >>= λ names.
    let real = names.0 in
    let alias = names.1 in
    (if same_family f ipv4
      then (is_ipv4 version real >>= λ first. (if first then is_ipv4 version alias else ok false))
      else ok false)
    >>= λ supported.
        require supported "Router aliases support IPv4 only"
        >> (let tcp_ports =
              if scope === "OVPNS2S" then value_at v "OVPNS2S_ROUTER_ALIAS_TCP_PORTS" else "" in
            let nf_selector = if is_set tcp_ports then " tcp dport " <> nfports tcp_ports else "" in
            let ip_selector =
              if is_set tcp_ports
              then "-p" ∷ "tcp" ∷ "-m" ∷ "multiport" ∷ "--dports" ∷ tcp_ports ∷ []
              else [] in
            let d =
              nat_rule short f "prerouting" "PREROUTING"
                ("iifname \"" <> iface <> "\" ip saddr " <> src <> " ip daddr " <> alias
                  <> nf_selector <> " counter dnat to " <> real)
                (("-i" ∷ iface ∷ "-s" ∷ src ∷ "-d" ∷ alias ∷ [])
                  ++ ip_selector
                  ++ ("-j" ∷ "DNAT" ∷ "--to-destination" ∷ real ∷ []))
                c in
            if value_at v (scope <> "_ROUTER_ALIAS_SNAT") === "true"
            then require (is_set out) "Alias SNAT needs output interface"
              >> ok (
                  nat_rule short f "postrouting" "POSTROUTING"
                    ("ip saddr " <> src <> " ip daddr " <> real <> " oifname \"" <> out <> "\""
                      <> nf_selector <> " counter masquerade")
                    (("-s" ∷ src ∷ "-d" ∷ real ∷ "-o" ∷ out ∷ [])
                      ++ ip_selector
                      ++ ("-j" ∷ "MASQUERADE" ∷ []))
                    d)
            else ok d)

-- the loop on the sources of a scope
unfoldable pub add_source :
    (String → String)
    → (String → Result Family)
    → Values
    → String
    → String
    → String
    → List (List String)
    → String
    → Compiler
    → Result Compiler
unfolding add_nat add_alias splitlist
add_source short version v scope iface out aliases src c = version src >>= λ f.
    (let dest = if scope === "OVPNSRV" then value_at v "OVPNSRV_LAN_SUBNET" else "" in
      let dests =
        if is_set dest
        then ok (dest ∷ [])
        else (member_of v "OVPNS2S_LOCAL_SUBNETS" >>= λ text. ok (splitlist text)) in
      if value_at v (scope <> "_ENABLE_NAT") === "true"
      then (dests >>= λ found. for_each found (add_nat short version f src out) c)
      else ok c)
    >>= λ d. for_each aliases (add_alias short version v scope f src iface out) d

abbrev pub alias_parts : List String → List (List String)
alias_parts [] = []
alias_parts (p ∷ ps) = parts_between (λ c. c == 59) p ∷ alias_parts ps

-- the aliases of a scope's router
unfoldable pub aliases_of : Values → String → Result (List (List String))
unfolding parts_between
aliases_of v scope =
    let real = value_at v (scope <> "_ROUTER_REAL_IP") in
    let alias = value_at v (scope <> "_ROUTER_ALIAS_IP") in
    let listed =
      if scope === "OVPNS2S"
      then alias_parts
          (non_empty (parts_between (λ c. c == 44) (value_at v (scope <> "_ROUTER_ALIAS"))))
      else [] in
    if is_set real || is_set alias
    then require (is_set real && is_set alias) "Router real/alias must be set together"
      >> ok ((real ∷ alias ∷ []) ∷ listed)
    else ok listed
