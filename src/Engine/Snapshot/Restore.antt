-- ===== src/Engine/Snapshot/Restore.antt =====
-- What the iptables transaction of a rollback leaves in the suite's chains.
use mathlib.Core.List.{append-nil, append_assoc}
use l4d2_iptable_suite.Base.{
  ◌≡◌, refl, ap, ◌∙◌, true, false, ◌===◌, String, Option, none, some, List, [], ◌∷◌, ◌++◌, map, All,
  if◌then◌else◌, arith, eq_refl, eq_iff, Bool-cases, inl, inr,
}
use l4d2_iptable_suite.Base.Sets.{lookup, lookup_or, keys, member}
use l4d2_iptable_suite.Engine.Save.{Table, after_head}
use l4d2_iptable_suite.Engine.Docker.{rules_of}
use l4d2_iptable_suite.Engine.Iptables.{
  Policy, Chains, Line, commit, append_rule, all_hook_lines, append_rules, drop_chains,
  prepare_chains, table_lines, table_of, owned_chains, old_chains, old_hooks, sorted_hooks,
  present_chains, present_rules,
}
use l4d2_iptable_suite.Engine.Snapshot.{kept_chains, kept_tables, ip_snapshot}
use l4d2_iptable_suite.Engine.Snapshot.Filling.{
  fill_lines, are_keys, fill_lines-append, sorted_set-member, prepare_chains-flushes, Foreign,
  all_hook_lines-keeps, sorted_hooks-Foreign, drop_chains-keeps,
}

module _ (c : String) where
  -- the rules of the chain among those that are appended
  unfoldable words_for : Chains → List (List String)
  words_for [] = []
  words_for ((d, rules) ∷ chains) =
      let rest = words_for chains in if d === c then rules ++ rest else rest

  append-and_then :
      (d : String) (rules : List (List String)) (rest : List Line) (done : List (List String))
      → fill_lines c (map (append_rule d) rules ++ rest) (some done)
        ≡ fill_lines c rest (some (if d === c then done ++ rules else done))
  unfolding fill_lines
  append-and_then d [] rest done = rw append-nil (ground arith)
  append-and_then d (r ∷ rules) rest done = elim (Bool-cases (d === c)) [
    | inl same ↦
        rw (same, fill_lines, append-and_then d rules rest (done ++ r ∷ []), same, append_assoc)
          refl
    | inr other ↦ rw (other, fill_lines, append-and_then d rules rest done, other) refl
  ]

  append_rules-adds :
      (chains : Chains) (done : List (List String))
      → fill_lines c (append_rules chains) (some done) ≡ some (done ++ words_for chains)
  unfolding words_for append_rules fill_lines
  append_rules-adds [] done = rw append-nil refl
  append_rules-adds ((d, rules) ∷ chains) done = elim (Bool-cases (d === c)) [
    | inl same ↦
        rw
          (
            append-and_then d rules (append_rules chains) done,
            same,
            append_rules-adds chains (done ++ rules),
            append_assoc,
          )
          refl
    | inr other ↦
        rw
          (append-and_then d rules (append_rules chains) done, other, append_rules-adds chains done)
          refl
  ]

  abbrev saved_words : Option Table → List (List String)
  saved_words live = map after_head (rules_of c (present_rules live))

  kept_chains-none :
      (chains : Chains) (live : Option Table)
      → member c (keys chains) ≡ false
      → words_for (kept_chains chains live) ≡ []
  unfolding words_for kept_chains
  kept_chains-none [] live h = refl
  kept_chains-none ((d, old) ∷ chains) live h =
      let rest = kept_chains-none chains live (ground (arith, h)) in
      ground (arith, h, rest, eq_iff c d, eq_iff d c)

  kept_chains-words :
      (chains : Chains) (live : Option Table)
      → member c (keys chains) ≡ true
      → member c (present_chains live) ≡ true
      → are_keys (keys chains) ≡ true
      → words_for (kept_chains chains live) ≡ saved_words live
  unfolding words_for kept_chains
  kept_chains-words [] live h there once = cc
  kept_chains-words ((d, old) ∷ chains) live h there once = elim (Bool-cases (d === c)) [
    | inl same ↦
        let path = (eq_iff d c).0 same in
        let alone = rw path at once in
        let none_left = kept_chains-none chains live (ground (arith, alone)) in
        let here : member d (present_chains live) ≡ true = rw path there in
        rw (here, words_for, same, none_left, append-nil, path) refl
    | inr other ↦
        let rest =
          kept_chains-words chains live (ground (arith, h, other, eq_iff c d, eq_iff d c)) there
            (ground (arith, once)) in
        ground (arith, other, rest)
  ]

  kept_chains-member :
      (chains : Chains) (live : Option Table)
      → member c (keys chains) ≡ true
      → member c (present_chains live) ≡ true
      → member c (keys (kept_chains chains live)) ≡ true
  unfolding kept_chains
  kept_chains-member [] live h there = h
  kept_chains-member ((d, old) ∷ chains) live h there = elim (Bool-cases (d === c)) [
    | inl same ↦ rw ((eq_iff d c).0 same, there) (ground (arith, eq_refl c))
    | inr other ↦
        let rest =
          kept_chains-member chains live (ground (arith, h, other, eq_iff c d, eq_iff d c)) there in
        ground (arith, other, rest)
  ]

kept_tables-lookup :
    (tables : List (String × Chains)) (parsed : List (String × Table)) (t : String)
    (chains : Chains)
    → lookup tables t ≡ some chains
    → lookup (kept_tables tables parsed) t ≡ some (kept_chains chains (lookup parsed t))
unfolding lookup kept_tables
kept_tables-lookup [] parsed t chains h = cc
kept_tables-lookup ((u, old) ∷ tables) parsed t chains h =
    let rest = kept_tables-lookup tables parsed t chains in
    elim (Bool-cases (u === t)) [
      | inl same ↦ let found = rw same at h in rw same (cc (found, (eq_iff u t).0 same))
      | inr other ↦ let found = rw other at h in rw other (rest found)
    ]

has_chain-left :
    (z : String) (xs ys : List String) → member z ys ≡ true → member z (xs ++ ys) ≡ true
has_chain-left z [] ys h = h
has_chain-left z (x ∷ xs) ys h = ground (arith, has_chain-left z xs ys)

-- a transaction flushes a chain that it wants, and then only appends its rules
table_lines-fills :
    (policy : Policy) (union : List (Option Policy)) (now : Option Table) (t c : String)
    → member c (keys (table_of t policy)) ≡ true
    → All (Foreign c) (old_hooks union ++ policy.hooks)
    → fill_lines c (table_lines (some policy) union now t) none
      ≡ some (words_for c (table_of t policy))
unfolding table_lines fill_lines
table_lines-fills policy union now t c wanted foreign =
    let chains = table_of t policy in
    let owned = owned_chains (some policy) union t in
    let present = present_chains now in
    let hooks = sorted_hooks (old_hooks union ++ policy.hooks) in
    let mine = sorted_set-member c _ (has_chain-left c (old_chains union t) (keys chains) wanted) in
    rw
      (
        fill_lines-append c (prepare_chains owned (keys chains) present) _ none,
        prepare_chains-flushes c owned (keys chains) present wanted mine none,
        fill_lines-append c (all_hook_lines t hooks policy.hooks (present_rules now)) _ (some []),
        all_hook_lines-keeps c t hooks policy.hooks (present_rules now) (some [])
            (sorted_hooks-Foreign c _ foreign),
        fill_lines-append c (append_rules chains) _ (some []),
        append_rules-adds c chains [],
        fill_lines-append c (drop_chains owned (keys chains) present) (commit ∷ []) _,
        drop_chains-keeps c owned (keys chains) present (some (words_for c chains)) wanted,
      )
      refl

-- When a chain of a registered policy was there as the snapshot was taken, and the policy has it once, the
-- transaction that puts the snapshot back, whatever the kernel has then, flushes the chain and leaves in it
-- the rules that it had, in their order. No hook of the policies may have the chain as its parent.
pub table_lines-restores :
    (policy : Policy) (parsed : List (String × Table)) (union : List (Option Policy))
    (now : Option Table) (t c : String) (chains : Chains)
    → lookup policy.tables t ≡ some chains
    → are_keys (keys chains) ≡ true
    → member c (keys chains) ≡ true
    → member c (present_chains (lookup parsed t)) ≡ true
    → All (Foreign c) (old_hooks union ++ policy.hooks)
    → fill_lines c (table_lines (some (ip_snapshot policy parsed)) union now t) none
      ≡ some (map after_head (rules_of c (present_rules (lookup parsed t))))
unfolding lookup
table_lines-restores policy parsed union now t c chains registered once mine there foreign =
    let kept : table_of t (ip_snapshot policy parsed) ≡ kept_chains chains (lookup parsed t) =
      ap (λ found. lookup_or found [])
        (kept_tables-lookup policy.tables parsed t chains registered) in
    let wanted = kept_chains-member c chains (lookup parsed t) mine there in
    table_lines-fills (ip_snapshot policy parsed) union now t c (rw kept wanted) foreign
    ∙ ap some (ap (words_for c) kept ∙ kept_chains-words c chains (lookup parsed t) mine there once)
