-- ===== src/Tests/ConfigRuns.antt =====
-- Port lists and a configuration with two TCP services.
use l4d2_iptable_suite.Base.{◌≤◌, ◌≡◌, refl, true, false, String, [], ◌∷◌, All}
use l4d2_iptable_suite.Base.Result.{ok}
use l4d2_iptable_suite.Base.Sets.{lookup}
use l4d2_iptable_suite.Config.Ports.{
  ports, codes, split_on, port_ranges, port_range, number_from, entries_used, overlap,
}
use l4d2_iptable_suite.Config.Ports.Bounds.{IsRange, ports-All, lists, overlap-lists}
use l4d2_iptable_suite.Config.Validate.{Options, check_services, add_service, value_or_default}
use l4d2_iptable_suite.Base.Result.{Result}
use l4d2_iptable_suite.Config.Access.{Grant, NetworkFacts, check_container, aligned}
use l4d2_iptable_suite.Config.Access.Accepted.{Forwards, check_container-Forwards}
use l4d2_iptable_suite.Config.Validate.Services.{check_services-apart}

web_ports : ports "80,443:445" ≡ ok ((80, 80) ∷ (443, 445) ∷ [])
unfolding ports codes split_on port_ranges port_range number_from
web_ports = refl

ports-All_example :
    All IsRange ((80, 80) ∷ (443, 445) ∷ []) × (entries_used ((80, 80) ∷ (443, 445) ∷ []) ≤ 15)
ports-All_example = ports-All "80,443:445" ((80, 80) ∷ (443, 445) ∷ []) web_ports

apart : overlap ((22, 22) ∷ []) ((80, 443) ∷ []) ≡ false
unfolding overlap
apart = refl

overlap-lists_example : lists ((80, 443) ∷ []) 22 ≡ false
overlap-lists_example = overlap-lists ((22, 22) ∷ []) ((80, 443) ∷ []) 22 apart refl

abbrev options : Options
options = record {
  backend = "nftables";
  names = "tcp_ssh" ∷ "http_https_protect" ∷ [];
  values = ("SSH_PORT", "22") ∷ ("HTTP_HTTPS_PORTS", "80,443:445") ∷ [];
}

accepted : check_services options ≡ ok ((22, 22) ∷ (80, 80) ∷ (443, 445) ∷ [])
unfolding check_services add_service value_or_default lookup ports codes split_on port_ranges
    port_range number_from overlap
accepted = refl

check_services-apart_example : lists ((22, 22) ∷ []) 80 ≡ false
unfolding value_or_default lookup ports codes split_on port_ranges port_range number_from
check_services-apart_example =
    check_services-apart options ((22, 22) ∷ (80, 80) ∷ (443, 445) ∷ []) ((22, 22) ∷ [])
      ((80, 80) ∷ (443, 445) ∷ []) 80 accepted refl refl refl refl refl

-- a container grant that publishes port 80 as 8080
abbrev web_grant : Grant
web_grant =
    ("group", "web")
    ∷ ("source", "10.0.0.0/8")
    ∷ ("destination", "172.17.0.2/32")
    ∷ ("protocol", "tcp")
    ∷ ("ports", "80")
    ∷ ("input", "eth0")
    ∷ ("output", "docker0")
    ∷ ("public_destination", "203.0.113.5/32")
    ∷ ("public_ports", "8080")
    ∷ ("service", "http_https_protect")
    ∷ []

abbrev one_address : NetworkFacts
one_address = record { version = 4; is_single = true }

abbrev networks : String → Result NetworkFacts
networks text = ok one_address

granted : check_container networks web_grant one_address ≡ ok tt
unfolding check_container aligned lookup ports codes split_on port_ranges port_range number_from
granted = refl

check_container-Forwards_example : Forwards networks web_grant one_address
check_container-Forwards_example = check_container-Forwards networks web_grant one_address granted
