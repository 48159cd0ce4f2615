-- ===== src/Engine/Iptables.antt =====
-- `ip_transaction` of core/engine.py: the iptables-restore input of one address family, as lines that
-- are not rendered yet (`quote_args` joins and quotes the words).
pub mod Hooks
pub mod Owned
use Prim.Native.Nat.{Ordering}
use Prim.Native.String.{compare, then as first_of}
use l4d2_iptable_suite.Base.{
  ℕ, zero, suc, Bool, true, false, not, ◌&&◌, ◌||◌, ◌===◌, ◌==◌, String, Option, none, some, List,
  [], ◌∷◌, ◌++◌, map, any, if◌then◌else◌,
}
use l4d2_iptable_suite.Base.Sets.{
  lookup, lookup_or, keys, member, sorted_set, same_words, count_words,
}
use l4d2_iptable_suite.Engine.Save.{Rule, Table, hook_rule}

-- a hook: its table, the foreign chain it stands in, and the suite's chain that it jumps to
pub record Hook : Type 0 where
  pub table : String
  pub parent : String
  pub target : String

-- chains with their rules, by table
abbrev pub Chains : Type 0
Chains = List (String × List Rule)

-- a compiled policy for one family
pub record Policy : Type 0 where
  pub tables : List (String × Chains)
  pub hooks : List Hook

pub data Line : Type 0 where
  -- `*table`, `:chain - [0:0]`, `-F chain`, `-X chain` and `COMMIT`
  table_line declare flush delete_chain : String → Line
  commit : Line
  -- `-D`, `-I parent 1` and `-A chain`, each with the words that follow
  delete_rule insert_rule append_rule : String → List String → Line

abbrev pub same_hook : Hook → Hook → Bool
same_hook h k = (h.table === k.table) && (h.parent === k.parent) && (h.target === k.target)

abbrev pub has_hook : Hook → List Hook → Bool
has_hook h hooks = any (same_hook h) hooks

-- the order of tuples
abbrev pub compare_hooks : Hook → Hook → Ordering
compare_hooks h k =
    first_of (compare h.table k.table)
      (first_of (compare h.parent k.parent) (compare h.target k.target))

unfoldable pub insert_hook : Hook → List Hook → List Hook
insert_hook h [] = h ∷ []
insert_hook h (k ∷ ks) =
    let rest = insert_hook h ks in
    elim (compare_hooks h k) [
      | Ordering.lt ↦ h ∷ k ∷ ks
      | Ordering.eq ↦ k ∷ ks
      | Ordering.gt ↦ k ∷ rest
    ]

-- `sorted(hooks | wanted_hooks)`
unfoldable pub sorted_hooks : List Hook → List Hook
unfolding insert_hook
sorted_hooks [] = []
sorted_hooks (h ∷ hs) = insert_hook h (sorted_hooks hs)

abbrev pub table_of : String → Policy → Chains
table_of t p = lookup_or (lookup p.tables t) []

-- the chains and the hooks of `target or {}`
abbrev pub desired_chains : Option Policy → String → Chains
desired_chains none t = []
desired_chains (some p) t = table_of t p

abbrev pub desired_hooks : Option Policy → List Hook
desired_hooks none = []
desired_hooks (some p) = p.hooks

abbrev pub desired_tables : Option Policy → List String
desired_tables none = []
desired_tables (some p) = keys p.tables

-- `oldtables` and `hooks`, gathered from the policies of the union that are there
unfoldable pub old_chains : List (Option Policy) → String → List String
old_chains [] t = []
old_chains (none ∷ ps) t = old_chains ps t
old_chains (some p ∷ ps) t = keys (table_of t p) ++ old_chains ps t

unfoldable pub old_tables : List (Option Policy) → List String
old_tables [] = []
old_tables (none ∷ ps) = old_tables ps
old_tables (some p ∷ ps) = keys p.tables ++ old_tables ps

unfoldable pub old_hooks : List (Option Policy) → List Hook
old_hooks [] = []
old_hooks (none ∷ ps) = old_hooks ps
old_hooks (some p ∷ ps) = p.hooks ++ old_hooks ps

-- `filter` first, the others in their order
unfoldable pub without : String → List String → List String
without x [] = []
without x (y ∷ ys) = let rest = without x ys in if x === y then rest else y ∷ rest

abbrev pub table_order : List String → List String
table_order ts =
    if member "filter" ts then "filter" ∷ without "filter" (sorted_set ts) else sorted_set ts

-- the first `for c in sorted(owned)`
unfoldable pub prepare_chains : List String → List String → List String → List Line
prepare_chains [] desired present = []
prepare_chains (c ∷ cs) desired present =
    (if member c desired then declare c ∷ [] else [])
    ++ (if member c present || member c desired then flush c ∷ [] else [])
    ++ prepare_chains cs desired present

abbrev pub repeat : ℕ → Line → List Line
repeat zero l = []
repeat (suc n) l = l ∷ repeat n l

-- `exact[2:]`
abbrev pub hook_words : String → List String
hook_words target = "-m" ∷ "comment" ∷ "--comment" ∷ "l4d2-suite:integration" ∷ "-j" ∷ target ∷ []

-- One turn of the loop on hooks, for a hook of this table: nothing when the one wanted hook is there.
unfoldable pub hook_lines : Bool → ℕ → String → String → List Line
hook_lines wanted count parent target =
    if wanted && (count == 1)
    then []
    else repeat count (delete_rule parent (hook_words target))
      ++ (if wanted then insert_rule parent (hook_words target) ∷ [] else [])

unfoldable pub all_hook_lines : String → List Hook → List Hook → List Rule → List Line
unfolding hook_lines
all_hook_lines t [] wanted rules = []
all_hook_lines t (h ∷ hs) wanted rules =
    let rest = all_hook_lines t hs wanted rules in
    if not (h.table === t)
    then rest
    else hook_lines (has_hook h wanted) (count_words rules (hook_rule h.parent h.target)) h.parent
        h.target
      ++ rest

unfoldable pub append_rules : Chains → List Line
append_rules [] = []
append_rules ((c, rules) ∷ cs) = map (append_rule c) rules ++ append_rules cs

-- the last loop: chains that are no longer wanted
unfoldable pub drop_chains : List String → List String → List String → List Line
drop_chains [] desired present = []
drop_chains (c ∷ cs) desired present =
    let rest = drop_chains cs desired present in
    if not (member c desired) && member c present then delete_chain c ∷ rest else rest

-- `oldtables.get(t, set()) | set(desired)`, in its order
abbrev pub owned_chains : Option Policy → List (Option Policy) → String → List String
owned_chains target union t = sorted_set (old_chains union t ++ keys (desired_chains target t))

abbrev pub present_chains : Option Table → List String
present_chains none = []
present_chains (some table) = keys table.chains

abbrev pub present_rules : Option Table → List Rule
present_rules none = []
present_rules (some table) = table.rules

unfoldable pub table_lines :
    Option Policy → List (Option Policy) → Option Table → String → List Line
unfolding prepare_chains all_hook_lines append_rules drop_chains
table_lines target union live t =
    let present = present_chains live in
    let rules = present_rules live in
    let desired = keys (desired_chains target t) in
    let owned = owned_chains target union t in
    table_line t
    ∷ (prepare_chains owned desired present
        ++ (all_hook_lines t (sorted_hooks (old_hooks union ++ desired_hooks target))
              (desired_hooks target) rules
            ++ (append_rules (desired_chains target t)
                ++ (drop_chains owned desired present ++ (commit ∷ [])))))

unfoldable pub ip_transaction :
    Option Policy → List (Option Policy) → List (String × Table) → List (List Line)
unfolding table_lines
ip_transaction target union parsed =
    map (λ t. table_lines target union (lookup parsed t) t)
      (table_order (old_tables union ++ desired_tables target))
