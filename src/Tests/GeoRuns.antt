-- ===== src/Tests/GeoRuns.antt =====
-- A target of the GeoIP check that two entries cover in halves.
use l4d2_iptable_suite.Base.{◌≡◌, refl, true, false, List, [], ◌∷◌}
use l4d2_iptable_suite.GeoIp.Networks.{
  Network, subnet_of, address_exclude, halves, collapse_addresses, add, networks_of,
}
use l4d2_iptable_suite.GeoIp.Coverage.{
  NetworkEntry, full, coverage_for, matches_of, remaining_after, next_remaining,
}
use l4d2_iptable_suite.GeoIp.Coverage.Exact.{Says, coverage_for-Says}
use l4d2_iptable_suite.GeoIp.Decide.{Settings, decide}
use l4d2_iptable_suite.GeoIp.Decide.Sound.{Holds, decide-Holds}

-- 128.0.0.0/1, and its halves 128.0.0.0/2 and 192.0.0.0/2
abbrev target : Network
target = true ∷ []

abbrev lower_half : NetworkEntry
lower_half = record { network = true ∷ false ∷ []; source = "country_allow:XX" }

abbrev upper_half : NetworkEntry
upper_half = record { network = true ∷ true ∷ []; source = "country_allow:YY" }

abbrev entries : List NetworkEntry
entries = lower_half ∷ upper_half ∷ []

covered : (coverage_for target entries).status ≡ full
unfolding coverage_for matches_of remaining_after next_remaining subnet_of address_exclude halves
    collapse_addresses add networks_of
covered = refl

coverage_for-Says_example : Says (coverage_for target entries).status target entries
coverage_for-Says_example = coverage_for-Says target entries

abbrev allowlist : Settings
allowlist = record {
  mode = "allowlist";
  whitelist = [];
  manual_deny = [];
  manual_allow = [];
  country_deny = [];
  country_allow = entries;
}

decide-Holds_example : Holds (decide target allowlist).decision target allowlist
decide-Holds_example = decide-Holds target allowlist
