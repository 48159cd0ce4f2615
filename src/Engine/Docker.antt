-- ===== src/Engine/Docker.antt =====
-- `docker_forward_diagnostic` and `actual_hooks` of core/engine.py. A message is its constructor and
-- its numbers.
pub mod Topology
use l4d2_iptable_suite.Base.{
  ℕ, zero, suc, ◌+◌, Bool, true, false, not, ◌&&◌, ◌||◌, ◌===◌, ◌==◌, String, Option, none, some,
  List, [], ◌∷◌, ◌++◌, map, length, if◌then◌else◌, is_some,
}
use l4d2_iptable_suite.Base.Sets.{lookup, lookup_or, keys, member, same_words, count_words}
use l4d2_iptable_suite.Engine.Save.{Rule, Table, hook_rule, jump_targets, unconditional_jump}
use l4d2_iptable_suite.Engine.Iptables.{Hook, Policy, Chains, table_of}

pub data Problem : Type 0 where
  no_forward no_docker_user conditional_link : Problem
  link_count : ℕ → Problem
  -- the rule's position, from 1
  link_position : ℕ → Problem
  hook_count : ℕ → String → Problem
  hook_not_first : String → Problem

-- `[rule for rule in rules if len(rule) >= 2 and rule[1] == chain]`
unfoldable pub rules_of : String → List Rule → List Rule
rules_of chain [] = []
rules_of chain ((a ∷ c ∷ ws) ∷ rs) =
    let rest = rules_of chain rs in if c === chain then (a ∷ c ∷ ws) ∷ rest else rest
rules_of chain ([] ∷ rs) = rules_of chain rs
rules_of chain ((a ∷ []) ∷ rs) = rules_of chain rs

abbrev pub is_empty : List (String × String) → Bool
is_empty [] = true
is_empty (x ∷ xs) = false

-- `[(index, rule) for index, rule in enumerate(forward) if _jump_targets(rule, 'DOCKER-USER')]`
unfoldable pub links_from : ℕ → List Rule → List (ℕ × Rule)
links_from i [] = []
links_from i (r ∷ rs) =
    let rest = links_from (suc i) rs in
    if is_empty (jump_targets r "DOCKER-USER") then rest else (i, r) ∷ rest

module _ (isdecimal : String → Bool) where
  -- the three cases of the links
  abbrev pub link_problems : List (ℕ × Rule) → List Problem
  link_problems ((i, r) ∷ []) =
      if not (i == 0)
      then link_position (i + 1) ∷ []
      else if not (unconditional_jump isdecimal r "FORWARD" "DOCKER-USER")
      then conditional_link ∷ []
      else []
  link_problems links = link_count (length links) ∷ []

  abbrev pub chain_problems : List String → List Problem
  chain_problems chains =
      (if member "FORWARD" chains then [] else no_forward ∷ [])
      ++ (if member "DOCKER-USER" chains then [] else no_docker_user ∷ [])

  abbrev pub is_first : Rule → List Rule → Bool
  is_first r [] = false
  is_first r (q ∷ qs) = same_words q r

  -- the suite's own hook in DOCKER-USER
  unfoldable pub own_hook_problems : String → List Rule → List Problem
  own_hook_problems target rules =
      let own = hook_rule "DOCKER-USER" target in
      let docker_user = rules_of "DOCKER-USER" rules in
      if not (count_words docker_user own == 1)
      then hook_count (count_words docker_user own) target ∷ []
      else if not (is_first own docker_user)
      then hook_not_first target ∷ []
      else []

  abbrev pub is_docker_hook : Hook → Bool
  is_docker_hook h = (h.table === "filter") && (h.parent === "DOCKER-USER")

  -- the first registered hook whose chain is there
  unfoldable pub own_target : List Hook → List String → List String → Option String
  own_target [] registered chains = none
  own_target (h ∷ hs) registered chains =
      let rest = own_target hs registered chains in
      if is_docker_hook h && member h.target registered && member h.target chains
      then some h.target
      else rest

  abbrev pub hook_problems : Option String → List Rule → List Problem
  hook_problems none rules = []
  hook_problems (some target) rules = own_hook_problems target rules

  abbrev pub previous_target : Option Policy → List String → Option String
  previous_target none chains = none
  previous_target (some p) chains = own_target p.hooks (keys (table_of "filter" p)) chains

  -- the status of one family
  pub record FamilyStatus : Type 0 where
    pub errors : List Problem
    pub forward_present : Bool
    pub docker_user_present : Bool
    pub forward_link_count : ℕ
    pub suite_hook_target : Option String

  unfoldable pub family_status : Option Policy → Table → FamilyStatus
  unfolding rules_of links_from own_hook_problems own_target
  family_status previous table =
      let chains = keys table.chains in
      let links = links_from 0 (rules_of "FORWARD" table.rules) in
      let target = previous_target previous chains in
      record {
        errors = chain_problems chains ++ (link_problems links ++ hook_problems target table.rules);
        forward_present = member "FORWARD" chains;
        docker_user_present = member "DOCKER-USER" chains;
        forward_link_count = length links;
        suite_hook_target = target;
      }

-- `actual_hooks`: the container hook moves to DOCKER-USER
abbrev pub move_hook : Hook → Hook
move_hook h =
    if (h.parent === "FORWARD") && (h.table === "filter")
    then record h { parent = "DOCKER-USER" }
    else h

unfoldable pub actual_hooks : List Hook → String → Bool → List Hook
actual_hooks hooks docker has_containers =
    if (docker === "iptables") && has_containers then map move_hook hooks else hooks
