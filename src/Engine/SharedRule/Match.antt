-- ===== src/Engine/SharedRule/Match.antt =====
-- What `_rule_semantics` of core/engine.py makes sure of in the words of a rule.
use l4d2_iptable_suite.Base.{
  ◌≡◌, Bool, true, not, ◌||◌, ◌===◌, String, Option, none, some, List, [], ◌∷◌, if◌then◌else◌,
  Bool-cases, inl, inr,
}
use l4d2_iptable_suite.Base.Result.{Result, ok}
use l4d2_iptable_suite.Base.Yields.{Yields, ok-Yields, err-Yields, bind-Yields}
use l4d2_iptable_suite.Base.Texts.{holds_text, parts_between, IsPart}
use l4d2_iptable_suite.Engine.RuleWords.{
  Semantics, is_blank, is_name, quoted, name_if, interface_name, is_address_parts, is_slash,
  address, is_marker, marker, expect, take_word, unsafe, reply_words, counter_words,
}
use l4d2_iptable_suite.Engine.SharedRule.{match_end, match_rule}

-- What `ipaddress.ip_network` documents of the text of a network: it is an address of the version with
-- a length, and stands for the network again.
pub record IsReader (network : String → Option (Bool × String)) : Type 0 where
  pub again :
      (text net : String) (is_v4 : Bool)
      → network text ≡ some (is_v4, net)
      → network net ≡ some (is_v4, net)
  pub written :
      (text net : String) (is_v4 : Bool)
      → network text ≡ some (is_v4, net)
      → (is_address_parts (parts_between is_slash net) ≡ true)
        × IsPart is_blank net
        × (holds_text net "/" ≡ true)
        × (holds_text net ":" ≡ not is_v4)

-- what the words of a rule have
pub record IsMatch (s : Semantics) : Type 0 where
  pub iif_name : is_name s.iif ≡ true
  pub oif_name : is_name s.oif ≡ true
  pub is_family : ((s.family === "ip") || (s.family === "ip6")) ≡ true
  pub is_owned : is_marker s.comment ≡ true

abbrev pub IsFamily : String → Type 0
IsFamily f = ((f === "ip") || (f === "ip6")) ≡ true

pub name_if-Yields : (word : String) → Yields (λ s. is_name s ≡ true) (name_if word)
name_if-Yields word = elim (Bool-cases (is_name word)) [
  | inl name ↦ rw name (ok-Yields (λ s. is_name s ≡ true) word name)
  | inr other ↦ rw other (err-Yields (λ s. is_name s ≡ true) _)
]

pub interface_name-Yields : (word : String) → Yields (λ s. is_name s ≡ true) (interface_name word)
unfolding interface_name
interface_name-Yields word =
    elim (quoted word)
      as (λ o.
        Yields (λ s. is_name s ≡ true)
          (elim o [ none ↦ name_if word | some inner ↦ name_if inner ])) [
            | none ↦ name_if-Yields word
            | some inner ↦ name_if-Yields inner
          ]

pub marker_if-Yields :
    (word : String) → Yields (λ s. is_marker s ≡ true) (if is_marker word then ok word else unsafe)
marker_if-Yields word = elim (Bool-cases (is_marker word)) [
  | inl mark ↦ rw mark (ok-Yields (λ s. is_marker s ≡ true) word mark)
  | inr other ↦ rw other (err-Yields (λ s. is_marker s ≡ true) _)
]

pub marker-Yields : (word : String) → Yields (λ s. is_marker s ≡ true) (marker word)
unfolding marker
marker-Yields word =
    elim (quoted word)
      as (λ o.
        Yields (λ s. is_marker s ≡ true)
          (elim o [
            | none ↦ unsafe
            | some comment ↦ if is_marker comment then ok comment else unsafe
          ])) [
            | none ↦ err-Yields (λ s. is_marker s ≡ true) _
            | some comment ↦ marker_if-Yields comment
          ]

pub IsFamily-Yields :
    (w : String) → Yields IsFamily (if (w === "ip") || (w === "ip6") then ok w else unsafe)
IsFamily-Yields w = elim (Bool-cases ((w === "ip") || (w === "ip6"))) [
  | inl known ↦ rw known (ok-Yields IsFamily w known)
  | inr other ↦ rw other (err-Yields IsFamily _)
]

pub take_word-Yields :
    (P : String → Type 0) (read : String → Result String)
    → ((w : String) → Yields P (read w))
    → (words : List String) → Yields (λ r. P r.0) (take_word read words)
unfolding take_word
take_word-Yields P read yields [] = err-Yields _ _
take_word-Yields P read yields (w ∷ words) =
    bind-Yields (λ r. P r.0) (read w) _ (λ x h. ok-Yields (λ r. P r.0) (x, words) (yields w x h))

pub match_rule-IsMatch : (words : List String) → Yields IsMatch (match_rule words)
unfolding match_rule
match_rule-IsMatch words = bind-Yields IsMatch (expect "iifname" words) _ (λ w1 _.
    bind-Yields IsMatch (take_word interface_name w1) _ (λ iif h_iif.
      bind-Yields IsMatch (expect "oifname" iif.1) _ (λ w2 _.
        bind-Yields IsMatch (take_word interface_name w2) _ (λ oif h_oif.
          bind-Yields IsMatch
            (take_word (λ w. if (w === "ip") || (w === "ip6") then ok w else unsafe) oif.1) _
            (λ family h_family. bind-Yields IsMatch (expect "saddr" family.1) _ (λ w3 _.
              bind-Yields IsMatch (take_word address w3) _ (λ source _.
                bind-Yields IsMatch (expect family.0 source.1) _ (λ w4 _.
                  bind-Yields IsMatch (expect "daddr" w4) _ (λ w5 _.
                    bind-Yields IsMatch (take_word address w5) _ (λ destination _.
                      bind-Yields IsMatch (reply_words destination.1) _ (λ reply _.
                        bind-Yields IsMatch (expect "counter" reply.1) _ (λ w6 _.
                          bind-Yields IsMatch (counter_words w6) _ (λ w7 _.
                            bind-Yields IsMatch (expect "accept" w7) _ (λ w8 _.
                              bind-Yields IsMatch (expect "comment" w8) _ (λ w9 _.
                                bind-Yields IsMatch (take_word marker w9) _ (λ comment h_comment.
                                  bind-Yields IsMatch (match_end comment.1) _ (λ _ _.
                                    ok-Yields IsMatch
                                      (record {
                                        iif = iif.0;
                                        oif = oif.0;
                                        family = family.0;
                                        source = source.0;
                                        destination = destination.0;
                                        is_reply = reply.0;
                                        comment = comment.0;
                                      })
                                      (record {
                                        iif_name =
                                            take_word-Yields (λ s. is_name s ≡ true) interface_name
                                              interface_name-Yields w1 iif h_iif;
                                        oif_name =
                                            take_word-Yields (λ s. is_name s ≡ true) interface_name
                                              interface_name-Yields w2 oif h_oif;
                                        is_family =
                                            take_word-Yields IsFamily _ IsFamily-Yields oif.1 family
                                              h_family;
                                        is_owned =
                                            take_word-Yields (λ s. is_marker s ≡ true) marker
                                              marker-Yields w9 comment h_comment;
                                      }))))))))))))))))))
