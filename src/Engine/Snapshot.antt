-- ===== src/Engine/Snapshot.antt =====
-- `snapshot`, `require_owned_present` and `_require_shared_order` of core/engine.py: what is there of a
-- registered policy. What nft prints, and the parsed iptables-save, are arguments.
pub mod Filling
pub mod Restore
use l4d2_iptable_suite.Base.{
  ℕ, zero, suc, ◌+◌, Bool, true, false, not, ◌&&◌, ◌||◌, ◌===◌, ◌==◌, String, Option, none, some,
  List, [], ◌∷◌, ◌++◌, map, any, all, length, leb, ltb, if◌then◌else◌,
}
use l4d2_iptable_suite.Base.Result.{Result, ok, err, policy_error, require, ◌>>=◌, ◌>>◌}
use l4d2_iptable_suite.Base.Sets.{lookup, lookup_or, keys, member}
use l4d2_iptable_suite.Base.Texts.{parts_between, is_space}
use l4d2_iptable_suite.Engine.Save.{Rule, Table, after_head}
use l4d2_iptable_suite.Engine.Iptables.{Chains, Policy, present_chains, present_rules}
use l4d2_iptable_suite.Engine.Docker.{rules_of}
use l4d2_iptable_suite.Engine.SharedRule.{rule_semantics, same_semantics}
use l4d2_iptable_suite.Engine.Shared.{Descriptor, shared_descriptors}
use l4d2_iptable_suite.Engine.Inventory.{Row, own_line, inventory_chain}
use l4d2_iptable_suite.Engine.Nft.{TableKey, Object, NftPolicy, has_key, key_of, rows_with}
use l4d2_iptable_suite.Engine.Checks.{chains_at}

-- `{c: [r[2:] for r in rules if r[1] == c] for c in chains if c in ...}`
unfoldable pub kept_chains : Chains → Option Table → Chains
unfolding rules_of
kept_chains [] live = []
kept_chains ((c, old) ∷ chains) live =
    let rest = kept_chains chains live in
    if member c (present_chains live)
    then (c, map after_head (rules_of c (present_rules live))) ∷ rest
    else rest

unfoldable pub kept_tables : List (String × Chains) → List (String × Table) → List (String × Chains)
unfolding kept_chains lookup
kept_tables [] parsed = []
kept_tables ((t, chains) ∷ tables) parsed =
    (t, kept_chains chains (lookup parsed t)) ∷ kept_tables tables parsed

-- the iptables branch, for one family
abbrev pub ip_snapshot : Policy → List (String × Table) → Policy
ip_snapshot policy parsed = record {
  tables = kept_tables policy.tables parsed;
  hooks = policy.hooks;
}

-- the rules that `_require_shared_order` looks at: the comments of one chain
pub record Group : Type 0 where
  pub family : String
  pub table : String
  pub chain : String
  pub comments : List String

-- `groups.setdefault(key, set()).add(comment)`
unfoldable pub add_comment : Descriptor → List Group → List Group
add_comment desc [] =
    record {
      family = desc.family;
      table = desc.table;
      chain = desc.chain;
      comments = desc.comment ∷ [];
    }
    ∷ []
add_comment desc (g ∷ groups) =
    let rest = add_comment desc groups in
    if (g.family === desc.family) && (g.table === desc.table) && (g.chain === desc.chain)
    then record {
      family = g.family;
      table = g.table;
      chain = g.chain;
      comments =
          if member desc.comment g.comments then g.comments else g.comments ++ desc.comment ∷ [];
    }
      ∷ groups
    else g ∷ rest

unfoldable pub groups_of : List Group → List Descriptor → List Group
unfolding add_comment
groups_of groups [] = groups
groups_of groups (desc ∷ descs) = groups_of (add_comment desc groups) descs

-- `[row['position'] for row in rows if row['comment'] in expected]`
unfoldable pub positions_of : List String → List Row → List ℕ
positions_of expected [] = []
positions_of expected (row ∷ rows) =
    let rest = positions_of expected rows in
    if member row.comment expected then row.position ∷ rest else rest

-- `max`
abbrev pub last_position : List ℕ → ℕ
last_position [] = 0
last_position (n ∷ ns) = let m = last_position ns in if ltb n m then m else n

-- the words that end a packet's way, or lead it elsewhere
abbrev pub is_terminal : String → Bool
is_terminal text =
    any (λ word. member word ("accept" ∷ "drop" ∷ "reject" ∷ "return" ∷ "jump" ∷ "goto" ∷ []))
      (parts_between is_space text)

-- the loop on the lines, where those with a handle are counted
unfoldable pub check_lines : ℕ → ℕ → List ℕ → List String → Result (Unit {0})
unfolding own_line parts_between
check_lines index last positions [] = ok tt
check_lines index last positions (line ∷ lines) = elim (own_line line) [
  | none ↦ check_lines index last positions lines
  | some found ↦
      require (not (ltb index last && not (any (λ p. p == index) positions) && is_terminal found.0))
        "Readiness: foreign terminal rule precedes shared routing"
      >> check_lines (index + 1) last positions lines
]

abbrev pub is_inside : List String → List String → Bool
is_inside xs ys = all (λ x. member x ys) xs

-- the iptables branch of `require_owned_present`, for one family
unfoldable pub ip_present : List (String × Chains) → List (String × Table) → Result (Unit {0})
ip_present [] parsed = ok tt
ip_present ((t, chains) ∷ tables) parsed =
    require (is_inside (keys chains) (chains_at parsed t))
      "Partial operation requires all registered chains to exist"
    >> ip_present tables parsed

module _ (network : String → Option (Bool × String)) (list_table : String → String → Result String)
    (list_chain : String → String → String → Option (List String)) where
  -- the tables that are there, as nft lists them without counters
  unfoldable pub live_objects : List Object → List TableKey → Result (List Object)
  live_objects [] live = ok []
  live_objects (o ∷ objects) live =
      let rest = live_objects objects live in
      if has_key (key_of o) live
      then (list_table o.family o.name >>= λ text.
          rest >>= λ kept. ok (record { family = o.family; name = o.name; text = text } ∷ kept))
      else rest

  -- a registered rule as it is there
  unfoldable pub live_rule : Descriptor → List Row → Result (List Descriptor)
  unfolding rule_semantics
  live_rule desc [] = ok []
  live_rule desc (row ∷ []) = do
    now ← rule_semantics network row.text
    was ← rule_semantics network desc.text
    require (same_semantics now was) "Registered shared rule changed"
    ok (
        record {
          family = desc.family;
          table = desc.table;
          chain = desc.chain;
          comment = desc.comment;
          text = row.text;
        }
        ∷ [])
  live_rule desc (row ∷ next ∷ rows) = err (policy_error "Ambiguous registered shared rule")

  unfoldable pub live_rules : List Descriptor → Result (List Descriptor)
  unfolding live_rule inventory_chain rows_with
  live_rules [] = ok []
  live_rules (desc ∷ descs) =
      inventory_chain (list_chain desc.family desc.table desc.chain) >>= λ rows.
      live_rule desc (rows_with desc.comment rows) >>= λ first.
      live_rules descs >>= λ rest. ok (first ++ rest)

  -- the nftables branch
  unfoldable pub nft_snapshot : NftPolicy → List TableKey → Result NftPolicy
  unfolding live_objects live_rules
  nft_snapshot policy live = do
    objects ← live_objects policy.objects live
    rules ← live_rules policy.shared_rules
    ok (record { objects = objects; shared_rules = rules })

  unfoldable pub check_group : Group → Result (Unit {0})
  unfolding inventory_chain positions_of check_lines
  check_group g = do
    rows ← inventory_chain (list_chain g.family g.table g.chain)
    require (length (positions_of g.comments rows) == length g.comments)
        "Readiness: shared routing ownership is ambiguous"
    elim (list_chain g.family g.table g.chain) [
      | none ↦ err (policy_error "Readiness: missing shared chain")
      | some lines ↦
          check_lines 0 (last_position (positions_of g.comments rows))
            (positions_of g.comments rows) lines
    ]

  unfoldable pub check_groups : List Group → Result (Unit {0})
  unfolding check_group
  check_groups [] = ok tt
  check_groups (g ∷ groups) = check_group g >> check_groups groups

  abbrev pub require_shared_order : List Descriptor → Result (Unit {0})
  require_shared_order descs = check_groups (groups_of [] descs)

  -- a rule is there once, and has its meaning
  unfoldable pub present_rule : Descriptor → List Row → Result (Unit {0})
  unfolding rule_semantics
  present_rule desc (row ∷ []) = do
    now ← rule_semantics network row.text
    was ← rule_semantics network desc.text
    require (same_semantics now was) "Readiness: shared routing rule missing or changed"
  present_rule desc rows = err (policy_error "Readiness: shared routing rule missing or changed")

  unfoldable pub rules_present : List Descriptor → Result (Unit {0})
  unfolding present_rule inventory_chain rows_with
  rules_present [] = ok tt
  rules_present (desc ∷ descs) =
      inventory_chain (list_chain desc.family desc.table desc.chain) >>= λ rows.
      present_rule desc (rows_with desc.comment rows) >> rules_present descs

  -- the nftables branch of `require_owned_present`
  unfoldable pub nft_present : NftPolicy → List TableKey → Result (Unit {0})
  unfolding shared_descriptors rules_present check_groups groups_of
  nft_present policy live = do
    require (all (λ o. has_key (key_of o) live) policy.objects)
        "Partial operation requires all registered tables to exist"
    descs ← shared_descriptors network (policy.shared_rules ∷ [])
    rules_present descs
    elim policy.shared_rules [ [] ↦ ok tt | desc ∷ rules ↦ require_shared_order descs ]
