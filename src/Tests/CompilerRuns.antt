-- ===== src/Tests/CompilerRuns.antt =====
-- The nftables policy of one host grant, one forward grant and one bypass source.
use l4d2_iptable_suite.Base.{◌≡◌, refl, true, String, List, [], ◌∷◌}
use l4d2_iptable_suite.Base.Result.{Result, ok, err}
use l4d2_iptable_suite.Base.Sets.{lookup}
use l4d2_iptable_suite.Base.Texts.{parts_between}
use l4d2_iptable_suite.Config.Access.{Grant}
use l4d2_iptable_suite.Compiler.{inet, nat_of, Family, ipv4, Compiler, start}
use l4d2_iptable_suite.Compiler.Rules.{guard, nfports, with_dashes}
use l4d2_iptable_suite.Compiler.Core.{core, grants, grant_calls, section_calls, bypass_calls}
use l4d2_iptable_suite.Compiler.Declared.{AllReadable, read_lines}
use l4d2_iptable_suite.Compiler.Vpn.{Values, add_source, add_nat, splitlist, aliases_of}
use l4d2_iptable_suite.Compiler.Scopes.{Network, vpn, vpn_scope}
use l4d2_iptable_suite.Compiler.VpnPolicy.{vpn-AllHooked}
use l4d2_iptable_suite.Compiler.Hooked.{AllHooked}
use l4d2_iptable_suite.Compiler.HookedIp.{AllEntered}
use l4d2_iptable_suite.Compiler.Policy.{grants-AllReadable}

abbrev ssh_grant : Grant
ssh_grant =
    ("source", "10.0.0.0/8")
    ∷ ("destination", "192.0.2.1/32")
    ∷ ("protocol", "tcp")
    ∷ ("ports", "22")
    ∷ ("input", "eth0")
    ∷ []

abbrev routed_grant : Grant
routed_grant =
    ("source", "10.0.0.0/8")
    ∷ ("destination", "172.17.0.2/32")
    ∷ ("protocol", "udp")
    ∷ ("ports", "53:54")
    ∷ ("input", "eth0")
    ∷ ("output", "docker0")
    ∷ []

abbrev all_ipv4 : String → Result Family
all_ipv4 text = ok ipv4

abbrev same_name : String → String
same_name name = name

dashes : nfports "53:54,80" ≡ "{ 53-54,80 }"
unfolding nfports with_dashes
dashes = refl

abbrev outcome : Result Compiler → Compiler
outcome (err e) = start true
outcome (ok c) = c

abbrev granted_run : Result Compiler
granted_run =
    grants same_name all_ipv4 "dual" (ssh_grant ∷ []) (routed_grant ∷ []) ("10.1.2.3/32" ∷ [])
      (core same_name "dual" (start true))

compiled : granted_run ≡ ok (outcome granted_run)
unfolding grants section_calls grant_calls bypass_calls guard lookup
compiled = refl

grants-AllReadable_example : AllReadable (outcome granted_run)
grants-AllReadable_example =
    grants-AllReadable same_name all_ipv4 true "dual" (ssh_grant ∷ []) (routed_grant ∷ [])
      ("10.1.2.3/32" ∷ []) (outcome granted_run) compiled

-- a server with NAT to its network
abbrev server : Values
server =
    ("HOST_SERVICES", "true")
    ∷ ("OVPNSRV_PROTO", "udp")
    ∷ ("OVPNSRV_PORT", "1194")
    ∷ ("OVPNSRV_SUBNET", "10.8.0.0/24")
    ∷ ("OVPNSRV_INTERFACE", "tun0")
    ∷ ("OVPNSRV_LAN_INTERFACE", "eth1")
    ∷ ("OVPNSRV_LAN_SUBNET", "192.168.1.0/24")
    ∷ ("OVPNSRV_ENABLE_NAT", "true")
    ∷ []

abbrev no_networks : List String → Result (List Network)
no_networks texts = ok []

abbrev server_run : Result Compiler
server_run =
    vpn same_name same_name all_ipv4 no_networks server ("openvpn_server" ∷ []) (start true)

served : server_run ≡ ok (outcome server_run)
unfolding vpn vpn_scope add_source add_nat splitlist parts_between aliases_of lookup
served = refl

started : AllReadable (start true)
unfolding read_lines
started key = refl

unhooked : AllHooked (start true)
unhooked inet = tt
unhooked (nat_of f) = tt

unentered : AllEntered (start true)
unfolding lookup
unentered family = tt

vpn-AllHooked_example :
    AllReadable (outcome server_run)
    × AllHooked (outcome server_run)
    × AllEntered (outcome server_run)
vpn-AllHooked_example =
    vpn-AllHooked same_name all_ipv4 same_name no_networks server ("openvpn_server" ∷ [])
      (start true) (outcome server_run) started unhooked unentered served
