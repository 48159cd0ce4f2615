-- ===== src/Engine/SharedRule/Canonical.antt =====
-- The canonical text of a rule for Docker's chain in core/engine.py is read back.
use l4d2_iptable_suite.Base.{
  ◌≡◌, refl, ap, ◌∙◌, Bool, true, false, not, ◌&&◌, ◌<>◌, String, Option, some, arith,
  if◌then◌else◌, Bool-cases, inl, inr, Option-cases,
}
use l4d2_iptable_suite.Base.Result.{ok}
use l4d2_iptable_suite.Base.Yields.{Yields, ok-Yields, err-Yields, bind-Yields, require-Yields}
use l4d2_iptable_suite.Base.Texts.{holds_text, parts_between, join_with, parts_between-join}
use l4d2_iptable_suite.Engine.RuleWords.{Semantics, is_blank}
use l4d2_iptable_suite.Engine.SharedRule.{
  match_rule, same_bool, is_ip, canonical_words, canonical_network, rule_semantics,
}
use l4d2_iptable_suite.Engine.SharedRule.Match.{IsMatch, IsReader, match_rule-IsMatch}
use l4d2_iptable_suite.Engine.SharedRule.Parts.{
  match_rule-with_reply, blank, rest_words, same_version, words-IsPart,
}

module _ (network : String → Option (Bool × String)) (reader : IsReader network) where
  open reader use {again, written}

  -- a text that stands for a network of the version
  abbrev IsNetwork : Bool → String → Type 0
  IsNetwork is_v4 net = (text : String) × (network text ≡ some (is_v4, net))

  version_of : (is_v4 v : Bool) → (if is_v4 then v else not v) ≡ true → v ≡ is_v4
  version_of true v h = h
  version_of false v h = ground (arith, h)

  canonical_network-IsNetwork :
      (value : String) (is_v4 : Bool)
      → Yields (IsNetwork is_v4) (canonical_network network value is_v4)
  unfolding canonical_network
  canonical_network-IsNetwork value is_v4 =
      let full =
        if holds_text value "/" then value else value <> (if is_v4 then "/32" else "/128") in
      elim (Option-cases (network full)) [
        | inl none_found ↦ rw (none_found, canonical_network) (err-Yields (IsNetwork is_v4) _)
        | inr (net, found) ↦
            rw (found, canonical_network)
              (elim (Bool-cases (if is_v4 then net.0 else not net.0)) [
                | inl same ↦ rw same (
                    ok-Yields (IsNetwork is_v4) net.1
                      (full, found ∙ ap (λ v. some (v, net.1)) (version_of is_v4 net.0 same)))
                | inr other ↦ rw other (err-Yields (IsNetwork is_v4) _)
              ])
      ]

  self_version : (b : Bool) → (if b then b else not b) ≡ true
  self_version true = refl
  self_version false = refl

  canonical_network_again :
      (is_v4 : Bool) (net : String)
      → IsNetwork is_v4 net
      → canonical_network network net is_v4 ≡ ok net
  unfolding canonical_network
  canonical_network_again is_v4 net (text, found) =
      rw
        (
          (written text net is_v4 found).2,
          again text net is_v4 found,
          self_version is_v4,
          canonical_network,
        )
        refl

  record IsCanonical (s : Semantics) : Type 0 where
    matched : IsMatch s
    source_network : IsNetwork (is_ip s.family) s.source
    destination_network : IsNetwork (is_ip s.family) s.destination

  rule_semantics-IsCanonical : (text : String) → Yields IsCanonical (rule_semantics network text)
  unfolding rule_semantics
  rule_semantics-IsCanonical text =
      bind-Yields IsCanonical (match_rule (parts_between is_blank text)) _ (λ m hm.
        require-Yields IsCanonical
          (same_bool (is_ip m.family)
            (not (holds_text m.source ":") && not (holds_text m.destination ":")))
          "Shared routing address family differs" _
          (λ _.
            bind-Yields IsCanonical (canonical_network network m.source (is_ip m.family)) _
              (λ source h_source.
                bind-Yields IsCanonical (canonical_network network m.destination (is_ip m.family)) _
                  (λ destination h_destination.
                    let words = match_rule-IsMatch (parts_between is_blank text) m hm in
                    ok-Yields IsCanonical (record m { source = source; destination = destination })
                      (record {
                        matched = record {
                          iif_name = words.iif_name;
                          oif_name = words.oif_name;
                          is_family = words.is_family;
                          is_owned = words.is_owned;
                        };
                        source_network =
                            canonical_network-IsNetwork m.source (is_ip m.family) source h_source;
                        destination_network =
                            canonical_network-IsNetwork m.destination (is_ip m.family) destination
                              h_destination;
                      })))))

  -- When the texts of networks stand for them again, the canonical text of a rule that was read has the
  -- meaning of the rule.
  pub rule_semantics-canonical_words :
      (text : String) (s : Semantics)
      → rule_semantics network text ≡ ok s
      → rule_semantics network (join_with " " (canonical_words s)) ≡ ok s
  unfolding rule_semantics
  rule_semantics-canonical_words text s h =
      let c = rule_semantics-IsCanonical text s h in
      let from_source = written c.source_network.0 s.source (is_ip s.family) c.source_network.1 in
      let from_destination =
        written c.destination_network.0 s.destination (is_ip s.family) c.destination_network.1 in
      let read =
        parts_between-join is_blank blank "iifname" (rest_words s) refl
          (words-IsPart s c.matched from_source.1 from_destination.1 s.is_reply) in
      let matched = match_rule-with_reply s c.matched from_source.0 from_destination.0 s.is_reply in
      rw
        (
          read,
          matched,
          from_source.3,
          from_destination.3,
          same_version (is_ip s.family),
          canonical_network_again (is_ip s.family) s.source c.source_network,
          canonical_network_again (is_ip s.family) s.destination c.destination_network,
          rule_semantics,
        )
        refl
