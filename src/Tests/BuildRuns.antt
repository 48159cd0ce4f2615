-- ===== src/Tests/BuildRuns.antt =====
-- A policy of the iptables backend with an SSH container, whose routed traffic is dropped.
use l4d2_iptable_suite.Base.{◌≡◌, refl, true, false, String, List, [], ◌∷◌}
use l4d2_iptable_suite.Base.Result.{Result, ok, err}
use l4d2_iptable_suite.Base.Sets.{lookup}
use l4d2_iptable_suite.Config.Access.{Grant}
use l4d2_iptable_suite.Compiler.{Family, ipv4, Compiler, start, chain}
use l4d2_iptable_suite.Compiler.Vpn.{Values}
use l4d2_iptable_suite.Compiler.Scopes.{Network}
use l4d2_iptable_suite.Compiler.Records.{Purpose}
use l4d2_iptable_suite.Compiler.Build.{AccessPolicy, build}
use l4d2_iptable_suite.Compiler.Build.Closed.{IsClosed, build-IsClosed}

abbrev values : Values
values =
    ("ROUTED_POLICY", "drop")
    ∷ ("FAMILY_POLICY", "dual")
    ∷ ("PRIVILEGED_BYPASS", "false")
    ∷ ("HOST_SERVICES", "false")
    ∷ ("STATE_CAPACITY", "65536")
    ∷ ("ADMIN_SOURCES", "")
    ∷ []

abbrev ssh_container : Grant
ssh_container =
    ("group", "admins")
    ∷ ("source", "10.0.0.0/8")
    ∷ ("destination", "172.17.0.2/32")
    ∷ ("protocol", "tcp")
    ∷ ("ports", "22")
    ∷ ("input", "eth0")
    ∷ ("output", "docker0")
    ∷ ("public_destination", "192.0.2.1/32")
    ∷ ("public_ports", "2222")
    ∷ ("service", "tcp_ssh")
    ∷ []

abbrev access : AccessPolicy
access = record { host = []; forward = []; containers = ssh_container ∷ [] }

abbrev same : String → String
same text = text

abbrev all_ipv4 : String → Result Family
all_ipv4 text = ok ipv4

abbrev no_networks : List String → Result (List Network)
no_networks texts = ok []

-- what the SSH module records
abbrev recorded : List String → String → Values → Result (List (List String))
recorded names target changes =
    ok (("iptables" ∷ "-A" ∷ "INPUT" ∷ "-p" ∷ "tcp" ∷ "-j" ∷ "ACCEPT" ∷ []) ∷ [])

abbrev no_nft : Purpose → List (List String) → Compiler → Result Compiler
no_nft purpose records c = ok c

abbrev compiled : Compiler
compiled =
    elim (build same same same all_ipv4 no_networks recorded no_nft values [] false false (ok tt)
      access) [ ok c ↦ c | err e ↦ start true ]

compiles :
    build same same same all_ipv4 no_networks recorded no_nft values [] false false (ok tt) access
    ≡ ok compiled
unfolding build lookup chain
compiles = refl

build-IsClosed_example : IsClosed same compiled
unfolding lookup
build-IsClosed_example =
    build-IsClosed same same same all_ipv4 no_networks recorded no_nft values [] false false (ok tt)
      access compiled refl compiles
