-- ===== src/GeoIp/Decide/Sound.antt =====
-- The decision for a target agrees with the policy of each of its addresses.
use l4d2_iptable_suite.Base.{
  ◌≡◌, refl, Bool, true, false, not, ◌||◌, ◌===◌, List, if◌then◌else◌, Bool-cases, inl, inr,
}
use l4d2_iptable_suite.GeoIp.Networks.{Network, Address, contains}
use l4d2_iptable_suite.GeoIp.Coverage.{NetworkEntry, Status, no_part, partial, full, coverage_for}
use l4d2_iptable_suite.GeoIp.Coverage.Addresses.{in_entries}
use l4d2_iptable_suite.GeoIp.Coverage.Exact.{Says, coverage_for-Says}
use l4d2_iptable_suite.GeoIp.Decide.{
  Settings, Decision, allow, deny, Answer, decide_denylist, decide_allowlist, decide_manual,
  decide_whitelist, decide_policy, decide,
}

-- The policy for one address, in the order in which the rules stand: the whitelist, the mode, the manual
-- files, the countries.
abbrev pub lets_through : Settings → Address → Bool
lets_through s a =
    if in_entries s.whitelist a
    then true
    else if s.mode === "off"
    then true
    else if in_entries s.manual_deny a
    then false
    else if in_entries s.manual_allow a
    then true
    else if s.mode === "denylist"
    then not (in_entries s.country_deny a)
    else in_entries s.country_allow a

-- what a decision says of the target's addresses
abbrev pub Holds : Decision → Network → Settings → Type 0
Holds allow target s = (a : Address) → contains target a ≡ true → lets_through s a ≡ true
Holds deny target s = (a : Address) → contains target a ≡ true → lets_through s a ≡ false
Holds _ target s = Unit

module _ (target : Network) (s : Settings) where
  whitelist_first :
      (st : Status) (policy : Answer)
      → Says st target s.whitelist
      → (((a : Address) → contains target a ≡ true → in_entries s.whitelist a ≡ false)
          → Holds policy.decision target s)
      → Holds (decide_whitelist st policy).decision target s
  unfolding decide_whitelist
  whitelist_first full policy says next = λ a h. rw (says a h) refl
  whitelist_first partial policy says next = tt
  whitelist_first no_part policy says next = next says

  -- no address of the target is in the entries
  Misses : List NetworkEntry → Type 0
  Misses entries = (a : Address) → contains target a ≡ true → in_entries entries a ≡ false

  denylist-Holds :
      (st : Status)
      → Says st target s.country_deny
      → (s.mode === "off") ≡ false
      → (s.mode === "denylist") ≡ true
      → Misses s.whitelist
      → Misses s.manual_deny
      → Misses s.manual_allow
      → Holds (decide_denylist st).decision target s
  unfolding decide_denylist Misses
  denylist-Holds full says off mode w d m =
      λ a h. rw (w a h, off, d a h, m a h, mode, says a h) refl
  denylist-Holds partial says off mode w d m = tt
  denylist-Holds no_part says off mode w d m =
      λ a h. rw (w a h, off, d a h, m a h, mode, says a h) refl

  allowlist-Holds :
      (st : Status)
      → Says st target s.country_allow
      → (s.mode === "off") ≡ false
      → (s.mode === "denylist") ≡ false
      → Misses s.whitelist
      → Misses s.manual_deny
      → Misses s.manual_allow
      → Holds (decide_allowlist st).decision target s
  unfolding decide_allowlist Misses
  allowlist-Holds full says off mode w d m =
      λ a h. rw (w a h, off, d a h, m a h, mode, says a h) refl
  allowlist-Holds partial says off mode w d m = tt
  allowlist-Holds no_part says off mode w d m =
      λ a h. rw (w a h, off, d a h, m a h, mode, says a h) refl

  manual-Holds :
      (md ma : Status) (countries : Answer)
      → Says md target s.manual_deny
      → Says ma target s.manual_allow
      → (s.mode === "off") ≡ false
      → Misses s.whitelist
      → (Misses s.manual_deny → Misses s.manual_allow → Holds countries.decision target s)
      → Holds (decide_manual md ma countries).decision target s
  unfolding decide_manual Misses
  manual-Holds full ma countries denies allows off w next = λ a h. rw (w a h, off, denies a h) refl
  manual-Holds partial ma countries denies allows off w next = tt
  manual-Holds no_part full countries denies allows off w next =
      λ a h. rw (w a h, off, denies a h, allows a h) refl
  manual-Holds no_part partial countries denies allows off w next = tt
  manual-Holds no_part no_part countries denies allows off w next = next denies allows

  -- the countries, in the two modes
  countries_hold :
      (denylist : Bool)
      → (s.mode === "denylist") ≡ denylist
      → (s.mode === "off") ≡ false
      → Misses s.whitelist
      → Misses s.manual_deny
      → Misses s.manual_allow
      → Holds
          (if denylist
            then decide_denylist (coverage_for target s.country_deny).status
            else decide_allowlist (coverage_for target s.country_allow).status).decision
          target
          s
  countries_hold true mode off w d m =
      denylist-Holds (coverage_for target s.country_deny).status
        (coverage_for-Says target s.country_deny) off mode w d m
  countries_hold false mode off w d m =
      allowlist-Holds (coverage_for target s.country_allow).status
        (coverage_for-Says target s.country_allow) off mode w d m

  policy-Holds : Misses s.whitelist → Holds (decide_policy target s).decision target s
  unfolding decide_policy Misses
  policy-Holds w = elim (Bool-cases (s.mode === "off")) [
    | inl off ↦ rw off (λ a h. rw (w a h, off) refl)
    | inr off ↦ elim (Bool-cases ((s.mode === "allowlist") || (s.mode === "denylist"))) [
      | inl known ↦
          rw (off, known)
            (manual-Holds (coverage_for target s.manual_deny).status
              (coverage_for target s.manual_allow).status _ (coverage_for-Says target s.manual_deny)
              (coverage_for-Says target s.manual_allow) off w
              (countries_hold (s.mode === "denylist") refl off w))
      | inr other ↦ rw (off, other) tt
    ]
  ]

  -- If the target is decided to be allowed then every address of it is let through, and if it is decided
  -- to be denied then none is.
  pub decide-Holds : Holds (decide target s).decision target s
  unfolding decide Misses
  decide-Holds =
      whitelist_first (coverage_for target s.whitelist).status (decide_policy target s)
        (coverage_for-Says target s.whitelist) policy-Holds
