-- ===== src/Engine/SharedRule/Parts.antt =====
-- The words of the canonical text of a rule, in core/engine.py, and its parts between blanks.
use Prim.Native.Char.{Char}
use l4d2_iptable_suite.Base.{
  ◌≡◌, refl, Bool, true, false, not, ◌&&◌, ◌===◌, eq_refl, eq_iff, String, List, [], ◌∷◌, All,
  Bool-cases, inl, inr,
}
use l4d2_iptable_suite.Base.Result.{ok}
use l4d2_iptable_suite.Base.Texts.{all_in, parts_between, IsPart}
use l4d2_iptable_suite.Engine.RuleWords.{Semantics, is_blank, is_address_parts, is_slash, address}
use l4d2_iptable_suite.Engine.SharedRule.{match_rule, same_bool, canonical_words}
use l4d2_iptable_suite.Engine.SharedRule.Words.{
  name-IsPart, marker-IsPart, interface_name-quote, marker-quote,
}
use l4d2_iptable_suite.Engine.SharedRule.Match.{IsFamily, IsMatch}

-- the words of a canonical text
module _ (s : Semantics) (m : IsMatch s) where
  open m use {iif_name, oif_name, is_family, is_owned}

  module _ (source_ok : is_address_parts (parts_between is_slash s.source) ≡ true)
      (destination_ok : is_address_parts (parts_between is_slash s.destination) ≡ true) where
    address-source : address s.source ≡ ok s.source
    unfolding address
    address-source = rw source_ok refl

    address-destination : address s.destination ≡ ok s.destination
    unfolding address
    address-destination = rw destination_ok refl

    pub match_rule-with_reply :
        (b : Bool)
        → match_rule (canonical_words (record s { is_reply = b })) ≡ ok (record s { is_reply = b })
    unfolding match_rule
    match_rule-with_reply true = simp (
      interface_name-quote s.iif iif_name,
      interface_name-quote s.oif oif_name,
      is_family,
      eq_refl,
      address-source,
      address-destination,
      marker-quote s.comment is_owned,
    )
    match_rule-with_reply false = simp (
      interface_name-quote s.iif iif_name,
      interface_name-quote s.oif oif_name,
      is_family,
      eq_refl,
      address-source,
      address-destination,
      marker-quote s.comment is_owned,
    )

abbrev pub tail_words : List String → List String
tail_words [] = []
tail_words (w ∷ words) = words

abbrev pub rest_words : Semantics → List String
rest_words s = tail_words (canonical_words s)

abbrev pub blank : Char
blank = " "

pub family-IsPart : (family : String) → IsFamily family → IsPart is_blank family
unfolding all_in
family-IsPart family h = elim (Bool-cases (family === "ip")) [
  | inl v4 ↦ rw ((eq_iff family "ip").0 v4) refl
  | inr other ↦ rw ((eq_iff family "ip6").0 (rw other at h)) refl
]

pub same_version : (b : Bool) → same_bool b (not (not b) && not (not b)) ≡ true
same_version true = refl
same_version false = refl

pub words-IsPart :
    (s : Semantics)
    → IsMatch s
    → IsPart is_blank s.source
    → IsPart is_blank s.destination
    → (b : Bool) → All (IsPart is_blank) (canonical_words (record s { is_reply = b }))
unfolding all_in
words-IsPart s m source destination true =
    let family = family-IsPart s.family m.is_family in
    (
      refl,
      (
        name-IsPart s.iif m.iif_name,
        (
          refl,
          (
            name-IsPart s.oif m.oif_name,
            (
              family,
              (
                refl,
                (
                  source,
                  (
                    family,
                    (
                      refl,
                      (
                        destination,
                        (
                          refl,
                          (
                            refl,
                            (
                              refl,
                              (
                                refl,
                                (
                                  refl,
                                  (
                                    refl,
                                    (
                                      refl,
                                      (
                                        refl,
                                        (
                                          refl,
                                          (
                                            refl,
                                            (
                                              refl,
                                              (refl, (marker-IsPart s.comment m.is_owned, tt)),
                                            ),
                                          ),
                                        ),
                                      ),
                                    ),
                                  ),
                                ),
                              ),
                            ),
                          ),
                        ),
                      ),
                    ),
                  ),
                ),
              ),
            ),
          ),
        ),
      ),
    )
words-IsPart s m source destination false =
    let family = family-IsPart s.family m.is_family in
    (
      refl,
      (
        name-IsPart s.iif m.iif_name,
        (
          refl,
          (
            name-IsPart s.oif m.oif_name,
            (
              family,
              (
                refl,
                (
                  source,
                  (
                    family,
                    (
                      refl,
                      (
                        destination,
                        (refl, (refl, (refl, (marker-IsPart s.comment m.is_owned, tt)))),
                      ),
                    ),
                  ),
                ),
              ),
            ),
          ),
        ),
      ),
    )
