-- ===== src/Tests/RestoreRuns.antt =====
-- A rollback of the iptables engine: the suite's chain had one rule, and the kernel has another now.
use l4d2_iptable_suite.Base.{◌≡◌, refl, some, none, [], ◌∷◌}
use l4d2_iptable_suite.Base.Sets.{lookup}
use l4d2_iptable_suite.Engine.Save.{Table}
use l4d2_iptable_suite.Engine.Docker.{rules_of}
use l4d2_iptable_suite.Engine.Iptables.{Policy, Chains, table_lines, old_hooks}
use l4d2_iptable_suite.Engine.Snapshot.{ip_snapshot}
use l4d2_iptable_suite.Engine.Snapshot.Filling.{fill_lines}
use l4d2_iptable_suite.Engine.Snapshot.Restore.{table_lines-restores}

abbrev suite_chains : Chains
suite_chains = ("L4D2_INPUT", ("-j" ∷ "DROP" ∷ []) ∷ []) ∷ []

abbrev suite : Policy
suite = record {
  tables = ("filter", suite_chains) ∷ [];
  hooks = record { table = "filter"; parent = "INPUT"; target = "L4D2_INPUT" } ∷ [];
}

abbrev saved : Table
saved = record {
  chains = ("INPUT", ":INPUT ACCEPT [0:0]") ∷ ("L4D2_INPUT", ":L4D2_INPUT - [0:0]") ∷ [];
  rules =
      ("-A" ∷ "INPUT" ∷ "-j" ∷ "L4D2_INPUT" ∷ [])
      ∷ ("-A" ∷ "L4D2_INPUT" ∷ "-s" ∷ "10.0.0.0/8" ∷ "-j" ∷ "ACCEPT" ∷ [])
      ∷ ("-A" ∷ "L4D2_INPUT" ∷ "-j" ∷ "DROP" ∷ [])
      ∷ [];
}

abbrev changed : Table
changed = record {
  chains = ("L4D2_INPUT", ":L4D2_INPUT - [0:0]") ∷ [];
  rules = ("-A" ∷ "L4D2_INPUT" ∷ "-j" ∷ "REJECT" ∷ []) ∷ [];
}

table_lines-restores_example :
    fill_lines "L4D2_INPUT"
      (table_lines
        (some (ip_snapshot suite (("filter", saved) ∷ [])))
        (some suite ∷ [])
        (some changed)
        "filter")
      none
    ≡ some (("-s" ∷ "10.0.0.0/8" ∷ "-j" ∷ "ACCEPT" ∷ []) ∷ ("-j" ∷ "DROP" ∷ []) ∷ [])
unfolding lookup old_hooks rules_of
table_lines-restores_example =
    table_lines-restores suite (("filter", saved) ∷ []) (some suite ∷ []) (some changed) "filter"
      "L4D2_INPUT" suite_chains refl refl refl refl (refl, (refl, tt))
