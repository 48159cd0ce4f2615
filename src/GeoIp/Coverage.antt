-- ===== src/GeoIp/Coverage.antt =====
-- `coverage_for` of scripts/geoip/check_geo_policy_ip.py.
pub mod Addresses
pub mod Exact
use l4d2_iptable_suite.Base.{Bool, true, false, not, String, List, [], ◌∷◌, ◌++◌, if◌then◌else◌}
use l4d2_iptable_suite.GeoIp.Networks.{
  Network, overlaps, subnet_of, address_exclude, collapse_addresses,
}

pub record NetworkEntry : Type 0 where
  pub network : Network
  pub source : String

-- 'none', 'partial' and 'full'
pub data Status : Type 0 where
  no_part partial full : Status

pub record Coverage : Type 0 where
  pub status : Status
  pub matches : List NetworkEntry

-- `[entry for entry in entries if target.overlaps(entry.network)]`
unfoldable pub matches_of : Network → List NetworkEntry → List NetworkEntry
matches_of target [] = []
matches_of target (e ∷ es) =
    let rest = matches_of target es in if overlaps target e.network then e ∷ rest else rest

-- the inner loop: `next_remaining`
unfoldable pub next_remaining : Network → List Network → List Network
next_remaining entry [] = []
next_remaining entry (n ∷ ns) =
    let rest = next_remaining entry ns in
    if not (overlaps n entry)
    then n ∷ rest
    else if subnet_of n entry
    then rest
    else if subnet_of entry n
    then address_exclude n entry ++ rest
    else n ∷ rest

-- the outer loop
unfoldable pub remaining_after : List NetworkEntry → List Network → List Network
unfolding next_remaining
remaining_after [] remaining = remaining
remaining_after (e ∷ es) remaining =
    remaining_after es (collapse_addresses (next_remaining e.network remaining))

abbrev pub status_of : List Network → Status
status_of [] = full
status_of (n ∷ ns) = partial

abbrev pub coverage_of : Network → List NetworkEntry → Coverage
coverage_of target [] = record { status = no_part; matches = [] }
coverage_of target (e ∷ es) = record {
  status = status_of (remaining_after (e ∷ es) (target ∷ []));
  matches = e ∷ es;
}

unfoldable pub coverage_for : Network → List NetworkEntry → Coverage
unfolding matches_of remaining_after
coverage_for target entries = coverage_of target (matches_of target entries)
