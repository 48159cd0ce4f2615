-- ===== src/Tests/SharedRuns.antt =====
-- A rule for Docker's chain with counters, and its canonical text.
use l4d2_iptable_suite.Base.{
  ◌≡◌, refl, true, false, ◌===◌, String, Bool, Option, none, some, Bool-cases, inl, inr,
  if◌then◌else◌,
}
use l4d2_iptable_suite.Base.Result.{ok}
use l4d2_iptable_suite.Base.Texts.{all_in, chars_in, parts_between, join_with}
use l4d2_iptable_suite.Engine.RuleWords.{Semantics}
use l4d2_iptable_suite.Engine.SharedRule.{canonical_words, rule_semantics}
use l4d2_iptable_suite.Engine.SharedRule.Match.{IsReader}
use l4d2_iptable_suite.Engine.SharedRule.Canonical.{rule_semantics-canonical_words}

-- a reader that knows one network
abbrev one_network : String → Option (Bool × String)
one_network text = if text === "10.0.0.0/8" then some (true, "10.0.0.0/8") else none

known_parts :
    {is_v4 : Bool} {net : String}
    → ◌≡◌ {A = Option (Bool × String)} (some (true, "10.0.0.0/8")) (some (is_v4, net))
    → (is_v4 ≡ true) × (net ≡ "10.0.0.0/8")
known_parts h = (cc, cc)

no_parts :
    {is_v4 : Bool} {net : String} → ◌≡◌ {A = Option (Bool × String)} none (some (is_v4, net)) → ⊥
no_parts h = cc

only_one :
    (text net : String) (is_v4 : Bool)
    → one_network text ≡ some (is_v4, net)
    → (is_v4 ≡ true) × (net ≡ "10.0.0.0/8")
only_one text net is_v4 h = elim (Bool-cases (text === "10.0.0.0/8")) [
  | inl known ↦ known_parts (rw known at h)
  | inr other ↦ absurd (no_parts (rw other at h))
]

one_IsReader : IsReader one_network
unfolding all_in parts_between chars_in
one_IsReader = record {
  again = λ text net is_v4 h. let (v4, known) = only_one text net is_v4 h in rw (known, v4) refl;
  written = λ text net is_v4 h.
      let (v4, known) = only_one text net is_v4 h in rw (known, v4) (refl, refl, refl, refl);
}

abbrev counted_text : String
counted_text =
    "iifname tun0 oifname \"eth0\" ip saddr 10.0.0.0/8 ip daddr 10.0.0.0/8 counter packets 3 bytes 4 accept comment \"l4d2-suite:s2s:0123456789abcdef\""

abbrev meaning : Semantics
meaning = record {
  iif = "tun0";
  oif = "eth0";
  family = "ip";
  source = "10.0.0.0/8";
  destination = "10.0.0.0/8";
  is_reply = false;
  comment = "l4d2-suite:s2s:0123456789abcdef";
}

counted : rule_semantics one_network counted_text ≡ ok meaning
unfolding rule_semantics
counted = refl

rule_semantics-canonical_words_example :
    rule_semantics one_network (join_with " " (canonical_words meaning)) ≡ ok meaning
rule_semantics-canonical_words_example =
    rule_semantics-canonical_words one_network one_IsReader counted_text meaning counted
