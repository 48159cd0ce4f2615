-- ===== src/Engine/Version.antt =====
-- `version_identity` and `compatibility` of core/engine.py. What `iptables --version` printed is a text
-- for each family.

use Prim.Native.String.{[] as empty, ◌∷◌ as ◌followed_by◌}
use Prim.Native.Char.{code}
use l4d2_iptable_suite.Base.{
  Bool, true, false, ◌&&◌, ◌||◌, ◌===◌, ◌==◌, ◌<>◌, String, Option, none, some, if◌then◌else◌,
}
use l4d2_iptable_suite.Base.Result.{Result, ok, err, policy_error, require, ◌>>=◌, ◌>>◌}
use l4d2_iptable_suite.Base.Texts.{drop_text, holds_text, is_digit_code}

pub record Versions : Type 0 where
  pub v4 : String
  pub v6 : String

-- a version and the frontend, `nft` or `legacy`
abbrev pub Identity : Type 0
Identity = String × String

-- `[0-9]*`, and what follows
unfoldable pub take_digits : String → String × String
take_digits empty = (empty, empty)
take_digits (c followed_by s) =
    let rest = take_digits s in
    if is_digit_code (code c) then ((c followed_by rest.0), rest.1) else (empty, (c followed_by s))

-- `[0-9]+`, and what follows
abbrev pub digits_of : String × String → Option (String × String)
digits_of (digits, rest) = if digits === "" then none else some (digits, rest)

-- The text up to the first `(`, without `)` and without a new line, and what follows it.
unfoldable pub up_to_paren : String → Option (String × String)
up_to_paren empty = none
up_to_paren (c followed_by s) =
    let rest = up_to_paren s in
    if code c == 40
    then some (empty, s)
    else if (code c == 41) || (code c == 10)
    then none
    else elim rest [ none ↦ none | some found ↦ some ((c followed_by found.0), found.1) ]

unfoldable pub ends_blank : String → Bool
ends_blank empty = false
ends_blank (c followed_by empty) = code c == 32
ends_blank (c followed_by (d followed_by s)) = ends_blank (d followed_by s)

-- `(nf_tables)` or `(legacy)`, behind its `(`
abbrev pub engine_rest : String → Option (String × String)
engine_rest s = elim (drop_text "nf_tables)" s) [
  | some rest ↦ some ("nft", rest)
  | none ↦ elim (drop_text "legacy)" s) [ none ↦ none | some rest ↦ some ("legacy", rest) ]
]

-- what follows the number: ` (engine)`, with other words before and behind it
unfoldable pub engine_of : String → Option String
unfolding up_to_paren ends_blank drop_text
engine_of s = elim (up_to_paren s) [
  | none ↦ none
  | some found ↦
      if ends_blank found.0
      then elim (engine_rest found.1) [
        | none ↦ none
        | some engine ↦ if holds_text engine.1 "\n" then none else some engine.0
      ]
      else none
]

infixl 5 ◌>=>◌
abbrev ◌>=>◌ : {A B : Type 0} → Option A → (A → Option B) → Option B
none >=> f = none
some a >=> f = f a

-- the regular expression of `version_identity`
unfoldable pub match_version : String → String → Option Identity
unfolding drop_text take_digits engine_of
match_version name value = drop_text (name <> " v") value >=> λ s.
    digits_of (take_digits s) >=> λ major. drop_text "." major.1 >=> λ s1.
    digits_of (take_digits s1) >=> λ minor. drop_text "." minor.1 >=> λ s2.
    digits_of (take_digits s2) >=> λ patch.
    engine_of patch.1 >=> λ engine. some (major.0 <> ("." <> (minor.0 <> ("." <> patch.0))), engine)

abbrev pub known : Option Identity → Result Identity
known none = err (policy_error "Compatibility: unknown iptables version identity")
known (some identity) = ok identity

unfoldable pub version_identity : Versions → Result Identity
unfolding match_version
version_identity versions = do
  first ← known (match_version "iptables" versions.v4)
  second ← known (match_version "ip6tables" versions.v6)
  require ((first.0 === second.0) && (first.1 === second.1))
      "Compatibility: IPv4/IPv6 versions or frontends differ"
  ok first

pub data Decision : Type 0 where
  unchanged evaluated_version operator_maintenance : Decision

-- `policy['compatibility']`, with its decision, versions and frontend
pub record Acceptance : Type 0 where
  pub decision : Decision
  pub previous : Option Versions
  pub current : Versions
  pub frontend : String

-- what `compatibility` reads of the previous policy
pub record Registered : Type 0 where
  pub versions : Option Versions
  pub pinned_frontend : Option String
  pub acceptance : Option Acceptance

abbrev pub same_versions : Versions → Versions → Bool
same_versions a b = (a.v4 === b.v4) && (a.v6 === b.v6)

-- `SUPPORTED_IPTABLES_VERSIONS`
abbrev pub is_supported : String → Bool
is_supported version = version === "1.8.10"

abbrev pub is_maintenance : Decision → Bool
is_maintenance operator_maintenance = true
is_maintenance _ = false

abbrev pub is_accepted : Option Acceptance → Versions → String → Bool
is_accepted none current frontend = false
is_accepted (some a) current frontend =
    is_maintenance a.decision && same_versions a.current current && (a.frontend === frontend)

abbrev pub pinned_or : Option String → String → String
pinned_or none old = old
pinned_or (some pinned) old = pinned

-- the versions of `previous`, if it is there and has any
abbrev pub old_versions : Option Registered → Option Versions
old_versions none = none
old_versions (some r) = r.versions

abbrev pub pinned_of : Option Registered → Option String
pinned_of none = none
pinned_of (some r) = r.pinned_frontend

abbrev pub acceptance_of : Option Registered → Option Acceptance
acceptance_of none = none
acceptance_of (some r) = r.acceptance

module _ (previous : Option Registered) (current : Versions) (accept_version_change : Bool) where
  abbrev pub first_decision : Identity → Result Acceptance
  first_decision new = do
    require (is_supported new.0 || accept_version_change)
        "Compatibility: iptables version not evaluated; use explicit --accept-version-change maintenance flow"
    ok (record {
      decision = if is_supported new.0 then evaluated_version else operator_maintenance;
      previous = none;
      current = current;
      frontend = new.1;
    })

  abbrev pub next_decision : Identity → Versions → Identity → Result Acceptance
  next_decision new was old = do
    require ((new.1 === old.1) && (old.1 === pinned_or (pinned_of previous) old.1))
        "iptables frontend changed; explicit migration required"
    let accepted = is_accepted (acceptance_of previous) current new.1
    let known_equal = same_versions was current && (is_supported new.0 || accepted)
    let evaluated = is_supported old.0 && is_supported new.0
    require (known_equal || evaluated || accept_version_change)
        "iptables backend/version changed and transition is not evaluated; use --accept-version-change explicitly in maintenance"
    ok (record {
      decision =
          if known_equal
          then unchanged
          else if evaluated
          then evaluated_version
          else operator_maintenance;
      previous = some was;
      current = current;
      frontend = new.1;
    })

  -- `live.get('frontend', frontend)` is the argument
  unfoldable pub compatibility : String → Result Acceptance
  unfolding version_identity
  compatibility live_frontend = do
    new ← version_identity current
    require (live_frontend === new.1) "Compatibility: inconsistent effective frontend"
    elim (old_versions previous) [
      | none ↦ first_decision new
      | some was ↦ version_identity was >>= λ old. next_decision new was old
    ]
