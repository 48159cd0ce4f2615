-- ===== src/Compiler/Scopes.antt =====
-- `s2s_shared_rules`, and the two scopes of `vpn`, in core/compiler.py.
use l4d2_iptable_suite.Base.{◌&&◌, ◌===◌, String, ◌<>◌, none, List, [], ◌∷◌, ◌++◌, if◌then◌else◌}
use l4d2_iptable_suite.Base.Result.{Result, ok, ◌>>=◌}
use l4d2_iptable_suite.Base.Sets.{member}
use l4d2_iptable_suite.Config.Access.{member_of}
use l4d2_iptable_suite.Compiler.{
  Family, ipv4, ipv6, filter_for, Compiler, SharedRule, add, same_family,
}
use l4d2_iptable_suite.Compiler.Rules.{address_word}
use l4d2_iptable_suite.Compiler.Vpn.{Values, value_at, splitlist, for_each, add_source, aliases_of}

-- a network: its version and its text
abbrev pub Network : Type 0
Network = Family × String

abbrev pub version_word : Family → String
version_word ipv4 = "4"
version_word ipv6 = "6"

-- a direction of the traffic between two networks
abbrev pub shared_rule :
    (String → String)
    → String
    → String
    → String
    → String
    → String
    → Network
    → Network
    → Network
    → Network
    → String
    → SharedRule
shared_rule digest tunnel local_interface direction iif oif remote local source destination state =
    let family = address_word remote.0 in
    let identity =
      direction
      <> "|"
      <> version_word remote.0
      <> "|"
      <> tunnel
      <> "|"
      <> local_interface
      <> "|"
      <> remote.1
      <> "|"
      <> local.1 in
    let comment = "l4d2-suite:s2s:" <> digest identity in
    record {
      family = family;
      comment = comment;
      text =
          "iifname \"" <> iif <> "\" oifname \"" <> oif <> "\" " <> family <> " saddr " <> source.1
          <> " " <> family <> " daddr " <> destination.1 <> state <> " counter accept comment \""
          <> comment <> "\"";
    }

-- both directions, when the versions agree
abbrev pub rules_between : (String → String) → String → String → Network → Network → List SharedRule
rules_between digest tunnel local_interface remote local =
    if same_family remote.0 local.0
    then shared_rule digest tunnel local_interface "remote-to-local" tunnel local_interface remote
        local remote local ""
      ∷ shared_rule digest tunnel local_interface "local-to-remote-reply" local_interface tunnel
          remote local local remote " ct direction reply ct state { established, related }"
      ∷ []
    else []

abbrev pub rules_from :
    (String → String) → String → String → Network → List Network → List SharedRule
rules_from digest tunnel local_interface remote [] = []
rules_from digest tunnel local_interface remote (local ∷ locals) =
    rules_between digest tunnel local_interface remote local
    ++ rules_from digest tunnel local_interface remote locals

abbrev pub rules_of :
    (String → String) → String → String → List Network → List Network → List SharedRule
rules_of digest tunnel local_interface [] locals = []
rules_of digest tunnel local_interface (remote ∷ remotes) locals =
    rules_from digest tunnel local_interface remote locals
    ++ rules_of digest tunnel local_interface remotes locals

module _ (short digest : String → String) (version : String → Result Family)
    (networks : List String → Result (List Network)) where
  unfoldable pub s2s_shared_rules : Values → Compiler → Result Compiler
  unfolding splitlist
  s2s_shared_rules v c = member_of v "OVPNS2S_INTERFACE" >>= λ tunnel.
      member_of v "OVPNS2S_LOCAL_INTERFACE" >>= λ local_interface.
      member_of v "OVPNS2S_REMOTE_SUBNETS" >>= λ remote_text.
      networks (splitlist remote_text) >>= λ remotes.
      member_of v "OVPNS2S_LOCAL_SUBNETS" >>= λ local_text.
      networks (splitlist local_text) >>= λ locals. ok (record c {
        shared_rules = c.shared_rules ++ rules_of digest tunnel local_interface remotes locals;
      })

  -- the loop's body, for a module that may be selected
  unfoldable pub vpn_scope : Values → List String → String → String → Compiler → Result Compiler
  unfolding s2s_shared_rules splitlist add_source aliases_of
  vpn_scope v names scope name c =
      let is_server = scope === "OVPNSRV" in
      if member name names
      then ((if (scope === "OVPNS2S") && (value_at v "OVPNS2S_ALLOW_LAN" === "true")
            then s2s_shared_rules v c
            else ok c)
          >>= λ d.
              member_of v (scope <> (if is_server then "_SUBNET" else "_REMOTE_SUBNETS"))
              >>= λ sources. member_of v (scope <> "_INTERFACE") >>= λ iface.
                  aliases_of v scope >>= λ aliases.
                  for_each (splitlist sources)
                    (add_source short version v scope iface
                      (value_at v
                        (scope <> (if is_server then "_LAN_INTERFACE" else "_LOCAL_INTERFACE")))
                      aliases)
                    d)
      else ok c

  unfoldable pub vpn : Values → List String → Compiler → Result Compiler
  unfolding vpn_scope
  vpn v names c =
      (if member "openvpn_server" names
        then (member_of v "HOST_SERVICES" >>= λ host_services.
            (if host_services === "true"
              then (member_of v "OVPNSRV_PROTO" >>= λ p. member_of v "OVPNSRV_PORT" >>= λ port. ok (
                  add short (filter_for none) "input" (p <> " dport " <> port <> " counter accept")
                    ("-p" ∷ p ∷ "--dport" ∷ port ∷ "-j" ∷ "ACCEPT" ∷ []) c))
              else ok c))
        else ok c)
      >>= λ d. vpn_scope v names "OVPNSRV" "openvpn_server" d >>= λ e.
          vpn_scope v names "OVPNS2S" "openvpn_sitetosite" e
