-- ===== src/Engine/SharedRule.antt =====
-- `_rule_semantics` and `_canonical_shared_text` of core/engine.py. What `ipaddress.ip_network` makes of a text is an argument: the version and
-- the text of the network, if it is one.
pub mod Words
pub mod Match
pub mod Parts
pub mod Canonical
use l4d2_iptable_suite.Base.{
  Bool, true, false, not, ◌&&◌, ◌||◌, ◌===◌, ◌<>◌, String, Option, none, some, List, [], ◌∷◌, ◌++◌,
  if◌then◌else◌,
}
use l4d2_iptable_suite.Base.Result.{Result, ok, err, policy_error, require, ◌>>=◌, ◌>>◌}
use l4d2_iptable_suite.Base.Texts.{parts_between, join_with, holds_text}
use l4d2_iptable_suite.Engine.RuleWords.{
  Semantics, is_blank, quote, unsafe, interface_name, address, marker, expect, take_word,
  reply_words, counter_words,
}

abbrev pub match_end : List String → Result (Unit {0})
match_end [] = ok tt
match_end (w ∷ words) = unsafe

-- `_SHARED_RULE.fullmatch`, on the words between single blanks
unfoldable pub match_rule : List String → Result Semantics
unfolding expect take_word interface_name address reply_words counter_words marker
match_rule words = do
  w1 ← expect "iifname" words
  iif ← take_word interface_name w1
  w2 ← expect "oifname" iif.1
  oif ← take_word interface_name w2
  family ← take_word (λ w. if (w === "ip") || (w === "ip6") then ok w else unsafe) oif.1
  w3 ← expect "saddr" family.1
  source ← take_word address w3
  w4 ← expect family.0 source.1
  w5 ← expect "daddr" w4
  destination ← take_word address w5
  reply ← reply_words destination.1
  w6 ← expect "counter" reply.1
  w7 ← counter_words w6
  w8 ← expect "accept" w7
  w9 ← expect "comment" w8
  comment ← take_word marker w9
  match_end comment.1
  ok (record {
    iif = iif.0;
    oif = oif.0;
    family = family.0;
    source = source.0;
    destination = destination.0;
    is_reply = reply.0;
    comment = comment.0;
  })

abbrev pub same_bool : Bool → Bool → Bool
same_bool true b = b
same_bool false b = not b

abbrev pub is_ip : String → Bool
is_ip family = family === "ip"

-- `_canonical_shared_text`, as its words
abbrev pub canonical_words : Semantics → List String
canonical_words s =
    ("iifname"
      ∷ (quote <> (s.iif <> quote))
      ∷ "oifname"
      ∷ (quote <> (s.oif <> quote))
      ∷ s.family
      ∷ "saddr"
      ∷ s.source
      ∷ s.family
      ∷ "daddr"
      ∷ s.destination
      ∷ [])
    ++ (if s.is_reply
        then "ct" ∷ "direction" ∷ "reply" ∷ "ct" ∷ "state" ∷ "{" ∷ "established," ∷ "related" ∷ "}"
          ∷ []
        else [])
    ++ ("counter" ∷ "accept" ∷ "comment" ∷ (quote <> (s.comment <> quote)) ∷ [])

abbrev pub same_semantics : Semantics → Semantics → Bool
same_semantics s t =
    (s.iif === t.iif)
    && (s.oif === t.oif)
    && (s.family === t.family)
    && (s.source === t.source)
    && (s.destination === t.destination)
    && same_bool s.is_reply t.is_reply
    && (s.comment === t.comment)

module _ (network : String → Option (Bool × String)) where
  -- the network's version is that of the family, and its text is the library's
  unfoldable pub canonical_network : String → Bool → Result String
  canonical_network value is_v4 =
      let full =
        if holds_text value "/" then value else value <> (if is_v4 then "/32" else "/128") in
      elim (network full) [
        | none ↦ err (policy_error "Invalid shared routing network literal")
        | some net ↦
            if (if is_v4 then net.0 else not net.0)
            then ok net.1
            else err (policy_error "Shared routing address family differs")
      ]

  unfoldable pub rule_semantics : String → Result Semantics
  unfolding match_rule canonical_network parts_between
  rule_semantics text = do
    m ← match_rule (parts_between is_blank text)
    require
        (same_bool (is_ip m.family)
          (not (holds_text m.source ":") && not (holds_text m.destination ":")))
        "Shared routing address family differs"
    source ← canonical_network m.source (is_ip m.family)
    destination ← canonical_network m.destination (is_ip m.family)
    ok (record m { source = source; destination = destination })

  unfoldable pub canonical_shared_text : String → Result String
  unfolding rule_semantics join_with
  canonical_shared_text text = rule_semantics text >>= λ s. ok (join_with " " (canonical_words s))
