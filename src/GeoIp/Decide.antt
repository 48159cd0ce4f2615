-- ===== src/GeoIp/Decide.antt =====
-- `decide` of scripts/geoip/check_geo_policy_ip.py, on the entries that its files and variables hold.
pub mod Sound
use l4d2_iptable_suite.Base.{
  Bool, true, false, not, ◌&&◌, ◌||◌, ◌===◌, String, List, [], ◌∷◌, if◌then◌else◌,
}
use l4d2_iptable_suite.GeoIp.Networks.{Network}
use l4d2_iptable_suite.GeoIp.Coverage.{NetworkEntry, Status, no_part, partial, full, coverage_for}

-- The configuration, once it is read: the stripped lower-case GEO_POLICY_MODE, and five entry lists.
pub record Settings : Type 0 where
  pub mode : String
  pub whitelist : List NetworkEntry
  pub manual_deny : List NetworkEntry
  pub manual_allow : List NetworkEntry
  pub country_deny : List NetworkEntry
  pub country_allow : List NetworkEntry

pub data Decision : Type 0 where
  allow deny part unknown : Decision

-- `decision` and the fixed words of `reason`
pub record Answer : Type 0 where
  pub decision : Decision
  pub reason : String

abbrev pub answer : Decision → String → Answer
answer d r = record { decision = d; reason = r }

unfoldable pub decide_denylist : Status → Answer
decide_denylist full = answer deny "target is fully covered by GEO_POLICY_DENIED_COUNTRIES"
decide_denylist partial = answer part "part of the target is covered by GEO_POLICY_DENIED_COUNTRIES"
decide_denylist no_part =
    answer allow "denylist mode allows targets not covered by manual/country deny entries"

unfoldable pub decide_allowlist : Status → Answer
decide_allowlist full = answer allow "target is fully covered by GEO_POLICY_ALLOWED_COUNTRIES"
decide_allowlist partial =
    answer part "part of the target is covered by GEO_POLICY_ALLOWED_COUNTRIES"
decide_allowlist no_part =
    answer deny "allowlist mode drops targets not covered by manual/country allow entries"

-- the two manual files, before the countries
unfoldable pub decide_manual : Status → Status → Answer → Answer
decide_manual full manual_allow countries =
    answer deny "target is fully covered by GEO_POLICY_MANUAL_DENY_FILE"
decide_manual partial manual_allow countries =
    answer part "part of the target is covered by GEO_POLICY_MANUAL_DENY_FILE"
decide_manual no_part full countries =
    answer allow "target is fully covered by GEO_POLICY_MANUAL_ALLOW_FILE"
decide_manual no_part partial countries =
    answer part "part of the target is covered by GEO_POLICY_MANUAL_ALLOW_FILE"
decide_manual no_part no_part countries = countries

-- the whitelist, before the policy
unfoldable pub decide_whitelist : Status → Answer → Answer
decide_whitelist full policy =
    answer allow
      "target is fully covered by BYPASS_SOURCE_IPS/BYPASS_SOURCE_DOMAINS before geo policy"
decide_whitelist partial policy =
    answer part
      "part of the target is covered by BYPASS_SOURCE_IPS/BYPASS_SOURCE_DOMAINS before geo policy"
decide_whitelist no_part policy = policy

unfoldable pub decide_policy : Network → Settings → Answer
unfolding decide_denylist decide_allowlist decide_manual
decide_policy target s =
    if s.mode === "off"
    then answer allow "GEO_POLICY_MODE=off, so country filtering is disabled"
    else if not ((s.mode === "allowlist") || (s.mode === "denylist"))
    then answer unknown "unsupported GEO_POLICY_MODE; expected off, allowlist or denylist"
    else decide_manual (coverage_for target s.manual_deny).status
        (coverage_for target s.manual_allow).status
        (if s.mode === "denylist"
          then decide_denylist (coverage_for target s.country_deny).status
          else decide_allowlist (coverage_for target s.country_allow).status)

unfoldable pub decide : Network → Settings → Answer
unfolding decide_whitelist decide_policy
decide target s = decide_whitelist (coverage_for target s.whitelist).status (decide_policy target s)
