-- ===== src/Compiler/VpnPolicy.antt =====
-- The order of the lines that `vpn` of core/compiler.py leaves in each table.
use l4d2_iptable_suite.Base.{◌≡◌, ◌&&◌, ◌===◌, String, ◌<>◌, none, List, [], ◌∷◌, if◌then◌else◌}
use l4d2_iptable_suite.Base.Result.{Result, ok, require}
use l4d2_iptable_suite.Base.Sets.{member}
use l4d2_iptable_suite.Config.Access.{member_of}
use l4d2_iptable_suite.Compiler.{Family, Compiler, filter_for, add, same_family}
use l4d2_iptable_suite.Compiler.Vpn.{
  Values, value_at, splitlist, is_set, unpack, add_nat, add_alias, add_source, aliases_of,
}
use l4d2_iptable_suite.Compiler.Scopes.{Network, s2s_shared_rules, vpn_scope, vpn}
use l4d2_iptable_suite.Compiler.Declared.{AllReadable}
use l4d2_iptable_suite.Compiler.Hooked.{AllHooked}
use l4d2_iptable_suite.Compiler.HookedIp.{AllEntered}
use l4d2_iptable_suite.Compiler.Nat.{
  Keeps, ok-Keeps, bind-Keeps, then-Keeps, if-Keeps, for_each-Keeps, AllLoadable,
  nat_rule-AllLoadable, add-AllLoadable,
}

module _ (short : String → String) (version : String → Result Family) where
  add_nat-Keeps :
      (f : Family) (src out dst : String) (c : Compiler)
      → AllLoadable c
      → Keeps (add_nat short version f src out dst c)
  unfolding add_nat
  add_nat-Keeps f src out dst c all = bind-Keeps (version dst) _ (λ g.
      bind-Keeps (require (same_family g f) "NAT family mismatch") _
        (λ met. ok-Keeps _ (nat_rule-AllLoadable short f _ _ _ _ c all)))

  add_alias-Keeps :
      (v : Values) (scope : String) (f : Family) (src iface out : String) (pair : List String)
      (c : Compiler)
      → AllLoadable c
      → Keeps (add_alias short version v scope f src iface out pair c)
  unfolding add_alias
  add_alias-Keeps v scope f src iface out pair c all = bind-Keeps (unpack pair) _ (λ names.
      bind-Keeps _ _ (λ supported.
        bind-Keeps (require supported "Router aliases support IPv4 only") _ (λ met.
          if-Keeps (value_at v (scope <> "_ROUTER_ALIAS_SNAT") === "true") _ _
            (bind-Keeps (require (is_set out) "Alias SNAT needs output interface") _ (λ has_out.
              ok-Keeps _ (
                nat_rule-AllLoadable short f _ _ _ _ _
                  (nat_rule-AllLoadable short f _ _ _ _ c all))))
            (ok-Keeps _ (nat_rule-AllLoadable short f _ _ _ _ c all)))))

  add_source-Keeps :
      (v : Values) (scope iface out : String) (aliases : List (List String)) (src : String)
      (c : Compiler)
      → AllLoadable c
      → Keeps (add_source short version v scope iface out aliases src c)
  unfolding add_source
  add_source-Keeps v scope iface out aliases src c all = bind-Keeps (version src) _ (λ f.
      then-Keeps _ _
        (if-Keeps (value_at v (scope <> "_ENABLE_NAT") === "true") _ _
          (bind-Keeps _ _ (λ found.
            for_each-Keeps found (add_nat short version f src out)
              (λ dst e e_all. add_nat-Keeps f src out dst e e_all) c all))
          (ok-Keeps c all))
        (λ d d_all.
          for_each-Keeps aliases (add_alias short version v scope f src iface out)
            (λ pair e e_all. add_alias-Keeps v scope f src iface out pair e e_all) d d_all))

  module _ (digest : String → String) (networks : List String → Result (List Network)) where
    s2s_shared_rules-Keeps :
        (v : Values) (c : Compiler)
        → AllLoadable c
        → Keeps (s2s_shared_rules short digest version networks v c)
    unfolding s2s_shared_rules
    s2s_shared_rules-Keeps v c all = bind-Keeps (member_of v "OVPNS2S_INTERFACE") _ (λ tunnel.
        bind-Keeps (member_of v "OVPNS2S_LOCAL_INTERFACE") _ (λ local.
          bind-Keeps (member_of v "OVPNS2S_REMOTE_SUBNETS") _ (λ remote_text.
            bind-Keeps (networks (splitlist remote_text)) _ (λ remotes.
              bind-Keeps (member_of v "OVPNS2S_LOCAL_SUBNETS") _ (λ local_text.
                bind-Keeps (networks (splitlist local_text)) _ (λ locals. ok-Keeps _ all))))))

    vpn_scope-Keeps :
        (v : Values) (names : List String) (scope name : String) (c : Compiler)
        → AllLoadable c
        → Keeps (vpn_scope short digest version networks v names scope name c)
    unfolding vpn_scope
    vpn_scope-Keeps v names scope name c all =
        if-Keeps (member name names) _ _
          (then-Keeps _ _
            (if-Keeps ((scope === "OVPNS2S") && (value_at v "OVPNS2S_ALLOW_LAN" === "true")) _ _
              (s2s_shared_rules-Keeps v c all) (ok-Keeps c all))
            (λ d d_all.
              let is_server = scope === "OVPNSRV" in
              let out =
                value_at v
                  (scope <> (if is_server then "_LAN_INTERFACE" else "_LOCAL_INTERFACE")) in
              bind-Keeps
                (member_of v (scope <> (if is_server then "_SUBNET" else "_REMOTE_SUBNETS"))) _
                (λ sources. bind-Keeps (member_of v (scope <> "_INTERFACE")) _ (λ iface.
                  bind-Keeps (aliases_of v scope) _ (λ aliases.
                    for_each-Keeps (splitlist sources)
                      (add_source short version v scope iface out aliases)
                      (λ src e e_all. add_source-Keeps v scope iface out aliases src e e_all) d
                      d_all)))))
          (ok-Keeps c all)

    -- Three things are kept when the VPN rules are compiled without an error. Each nftables object can be
    -- read from the top: a chain is declared once, and each rule stands in a chain that a line above it
    -- declares. Each chain of the nftables NAT tables is declared as a base chain, of type nat on the
    -- hook that it has as its name. And each chain of the iptables table nat is the target of a
    -- registered hook of that table.
    pub vpn-AllHooked :
        (v : Values) (names : List String) (c d : Compiler)
        → AllReadable c
        → AllHooked c
        → AllEntered c
        → vpn short digest version networks v names c ≡ ok d
        → AllReadable d × AllHooked d × AllEntered d
    unfolding vpn
    vpn-AllHooked v names c d readable hooked entered h =
        then-Keeps _ _
          (if-Keeps (member "openvpn_server" names) _ _
            (bind-Keeps (member_of v "HOST_SERVICES") _ (λ host_services.
              if-Keeps (host_services === "true") _ _
                (bind-Keeps (member_of v "OVPNSRV_PROTO") _ (λ p.
                  bind-Keeps (member_of v "OVPNSRV_PORT") _ (λ port.
                    let nf = p <> " dport " <> port <> " counter accept" in
                    let ip = "-p" ∷ p ∷ "--dport" ∷ port ∷ "-j" ∷ "ACCEPT" ∷ [] in
                    ok-Keeps (add short (filter_for none) "input" nf ip c)
                      (add-AllLoadable short none "input" nf ip c (readable, hooked, entered)))))
                (ok-Keeps c (readable, hooked, entered))))
            (ok-Keeps c (readable, hooked, entered)))
          (λ e e_all.
            then-Keeps _ _ (vpn_scope-Keeps v names "OVPNSRV" "openvpn_server" e e_all)
              (λ f f_all. vpn_scope-Keeps v names "OVPNS2S" "openvpn_sitetosite" f f_all))
          d h
