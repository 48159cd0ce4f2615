-- ===== src/Engine/Shared.antt =====
-- `_shared_descriptors` of core/engine.py: the rules for Docker's chain that policies register.
use Prim.Native.String.{slice, len}
use l4d2_iptable_suite.Base.{
  ◌-◌, Bool, not, ◌&&◌, ◌||◌, ◌===◌, ◌<>◌, String, Option, List, [], ◌∷◌, ◌++◌, leb, if◌then◌else◌,
}
use l4d2_iptable_suite.Base.Result.{Result, ok, require, ◌>>=◌, ◌>>◌}
use l4d2_iptable_suite.Base.Texts.{holds_text}
use l4d2_iptable_suite.Engine.RuleWords.{is_marker}
use l4d2_iptable_suite.Engine.SharedRule.{rule_semantics, same_semantics}

pub record Descriptor : Type 0 where
  pub family : String
  pub table : String
  pub chain : String
  pub comment : String
  pub text : String

-- `(family, table, chain, comment)` is the same
abbrev pub same_marker : Descriptor → Descriptor → Bool
same_marker d e =
    (d.family === e.family)
    && (d.table === e.table)
    && (d.chain === e.chain)
    && (d.comment === e.comment)

-- `text.endswith(part)`
abbrev pub ends_with : String → String → Bool
ends_with text part =
    leb (len part) (len text) && (slice text (len text - len part) (len text) === part)

abbrev pub all_rules : List (List Descriptor) → List Descriptor
all_rules [] = []
all_rules (rules ∷ policies) = rules ++ all_rules policies

module _ (network : String → Option (Bool × String)) where
  -- the checks of one descriptor
  unfoldable pub check_descriptor : Descriptor → Result (Unit {0})
  unfolding is_marker rule_semantics
  check_descriptor desc = do
    require
        (((desc.family === "ip") || (desc.family === "ip6"))
          && (desc.table === "filter")
          && (desc.chain === "DOCKER-USER")
          && is_marker desc.comment)
        "Invalid shared routing ownership descriptor"
    require
        (not (holds_text desc.text "\n")
          && not (holds_text desc.text "\r")
          && ends_with desc.text ("comment \"" <> (desc.comment <> "\"")))
        "Invalid shared routing rule literal"
    semantics ← rule_semantics network desc.text
    require ((semantics.family === desc.family) && (semantics.comment === desc.comment))
        "Shared routing rule and descriptor differ"

  unfoldable pub check_descriptors : List Descriptor → Result (Unit {0})
  unfolding check_descriptor
  check_descriptors [] = ok tt
  check_descriptors (desc ∷ descs) = check_descriptor desc >> check_descriptors descs

  -- `by_marker[key] = desc`, after the test of a collision
  unfoldable pub add_marker : Descriptor → List Descriptor → Result (List Descriptor)
  unfolding rule_semantics
  add_marker desc [] = ok (desc ∷ [])
  add_marker desc (old ∷ olds) =
      if same_marker old desc
      then (do
        was ← rule_semantics network old.text
        now ← rule_semantics network desc.text
        require (same_semantics was now) "Shared routing marker collision"
        ok (desc ∷ olds))
      else (add_marker desc olds >>= λ rest. ok (old ∷ rest))

  unfoldable pub merge_markers : List Descriptor → List Descriptor → Result (List Descriptor)
  unfolding add_marker
  merge_markers by_marker [] = ok by_marker
  merge_markers by_marker (desc ∷ descs) =
      add_marker desc by_marker >>= λ next. merge_markers next descs

  -- `_shared_descriptors`, on the `shared_rules` of the policies that are there
  unfoldable pub shared_descriptors : List (List Descriptor) → Result (List Descriptor)
  unfolding check_descriptors merge_markers
  shared_descriptors policies =
      check_descriptors (all_rules policies) >> merge_markers [] (all_rules policies)
