-- ===== src/Tests/EngineRuns.antt =====
-- A transaction of the iptables engine, and a plain jump.
use l4d2_iptable_suite.Base.{
  ◌≡◌, refl, Bool, true, false, ◌||◌, String, some, none, List, [], ◌∷◌, ◌++◌, all, ◌===◌, take,
}
use l4d2_iptable_suite.Base.Sets.{keys, count_words, same_words}
use l4d2_iptable_suite.Engine.Save.{
  Rule, Table, hook_rule, unconditional_jump, scan, drop_counters, after_head,
}
use l4d2_iptable_suite.Base.Sets.{lookup}
use l4d2_iptable_suite.Engine.Save.{jump_targets, branches}
use l4d2_iptable_suite.Engine.Docker.{
  family_status, rules_of, links_from, own_hook_problems, own_target,
}
use l4d2_iptable_suite.Engine.Docker.Topology.{IsSound, family_status-IsSound}
use l4d2_iptable_suite.Engine.Plain.{Plain, unconditional_jump-Plain}
use l4d2_iptable_suite.Engine.Iptables.{
  Policy, Hook, hook_lines, table_lines, old_chains, old_hooks, desired_chains, desired_hooks,
}
use l4d2_iptable_suite.Engine.Iptables.Hooks.{run_lines, count-hook_lines}
use l4d2_iptable_suite.Engine.Iptables.Owned.{is_own, all-table_lines}

abbrev input_hook : Hook
input_hook = record { table = "filter"; parent = "INPUT"; target = "L4D2_INPUT" }

abbrev rules_policy : Policy
rules_policy = record {
  tables = ("filter", ("L4D2_INPUT", ("-j" ∷ "DROP" ∷ []) ∷ []) ∷ []) ∷ [];
  hooks = input_hook ∷ [];
}

-- the hook stands twice, after a foreign rule
abbrev live_rules : List Rule
live_rules =
    ("-A" ∷ "INPUT" ∷ "-j" ∷ "ACCEPT" ∷ [])
    ∷ hook_rule "INPUT" "L4D2_INPUT"
    ∷ hook_rule "INPUT" "L4D2_INPUT"
    ∷ []

abbrev live_table : Table
live_table = record {
  chains = ("INPUT", ":INPUT") ∷ ("L4D2_INPUT", ":L4D2_INPUT") ∷ [];
  rules = live_rules;
}

twice : count_words live_rules (hook_rule "INPUT" "L4D2_INPUT") ≡ 2
unfolding count_words same_words
twice = refl

count-hook_lines_example :
    (count_words
        (run_lines (hook_lines true 2 "INPUT" "L4D2_INPUT") live_rules)
        (hook_rule "INPUT" "L4D2_INPUT")
      ≡ 1)
    × ((s : Rule)
        → same_words (hook_rule "INPUT" "L4D2_INPUT") s ≡ false
        → count_words (run_lines (hook_lines true 2 "INPUT" "L4D2_INPUT") live_rules) s
          ≡ count_words live_rules s)
count-hook_lines_example = count-hook_lines "INPUT" "L4D2_INPUT" true 2 live_rules twice

all-table_lines_example :
    all
      (is_own
        (old_chains (some rules_policy ∷ []) "filter" ++ keys (desired_chains none "filter"))
        (old_hooks (some rules_policy ∷ []) ++ desired_hooks none)
        "filter")
      (table_lines none (some rules_policy ∷ []) (some live_table) "filter")
    ≡ true
all-table_lines_example = all-table_lines none (some rules_policy ∷ []) (some live_table) "filter"

abbrev counted_jump : Rule
counted_jump = "-A" ∷ "FORWARD" ∷ "-c" ∷ "10" ∷ "20" ∷ "-j" ∷ "DOCKER-USER" ∷ []

abbrev two_digits : String → Bool
two_digits s = (s === "10") || (s === "20")

is_plain : unconditional_jump two_digits counted_jump "FORWARD" "DOCKER-USER" ≡ true
unfolding unconditional_jump scan
is_plain = refl

unconditional_jump-Plain_example :
    (same_words (take 2 counted_jump) ("-A" ∷ "FORWARD" ∷ []) ≡ true)
    × Plain "DOCKER-USER" 1 (drop_counters two_digits (after_head counted_jump))
unconditional_jump-Plain_example =
    unconditional_jump-Plain two_digits counted_jump "FORWARD" "DOCKER-USER" is_plain

abbrev docker_table : Table
docker_table = record {
  chains = ("FORWARD", ":FORWARD") ∷ ("DOCKER-USER", ":DOCKER-USER") ∷ [];
  rules = counted_jump ∷ ("-A" ∷ "DOCKER-USER" ∷ "-j" ∷ "RETURN" ∷ []) ∷ [];
}

sound : (family_status two_digits (some rules_policy) docker_table).errors ≡ []
unfolding family_status rules_of links_from own_hook_problems own_target unconditional_jump scan
    jump_targets branches lookup
sound = refl

family_status-IsSound_example : IsSound two_digits (some rules_policy) docker_table
family_status-IsSound_example =
    family_status-IsSound two_digits (some rules_policy) docker_table sound
