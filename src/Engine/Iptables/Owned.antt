-- ===== src/Engine/Iptables/Owned.antt =====
-- A transaction only touches the suite's chains and hooks.
use l4d2_iptable_suite.Base.{
  ℕ, zero, suc, ◌≡◌, refl, Bool, true, false, ◌&&◌, ◌||◌, ◌===◌, ◌==◌, String, Option, List, [],
  ◌∷◌, ◌++◌, map, any, all, if◌then◌else◌, arith, eq_refl, Bool-cases, inl, inr,
}
use l4d2_iptable_suite.Base.Sets.{keys, member, same_words, member-sorted_set, count_words}
use l4d2_iptable_suite.Engine.Save.{Rule, Table, hook_rule}
use l4d2_iptable_suite.Engine.Iptables.{
  Hook, Policy, Chains, Line, table_line, declare, flush, delete_chain, commit, delete_rule,
  insert_rule, append_rule, repeat, hook_words, hook_lines, all_hook_lines, append_rules,
  drop_chains, prepare_chains, table_lines, owned_chains, old_chains, old_hooks, desired_chains,
  desired_hooks, sorted_hooks, insert_hook, has_hook, present_chains, present_rules,
}
use l4d2_iptable_suite.Engine.Iptables.Hooks.{same_words_refl}

-- the words of a hook of this table and parent
abbrev pub is_hook : String → String → List String → Hook → Bool
is_hook t parent words h =
    (h.table === t) && (h.parent === parent) && same_words words (hook_words h.target)

-- A line that names one of the given chains, or one of the given hooks.
abbrev pub is_own : List String → List Hook → String → Line → Bool
is_own chains hooks t (table_line u) = u === t
is_own chains hooks t commit = true
is_own chains hooks t (declare c) = member c chains
is_own chains hooks t (flush c) = member c chains
is_own chains hooks t (delete_chain c) = member c chains
is_own chains hooks t (append_rule c words) = member c chains
is_own chains hooks t (delete_rule parent words) = any (is_hook t parent words) hooks
is_own chains hooks t (insert_rule parent words) = any (is_hook t parent words) hooks

all-append :
    {A : Type 0} (p : A → Bool) (xs ys : List A)
    → all p xs ≡ true
    → all p ys ≡ true
    → all p (xs ++ ys) ≡ true
all-append p [] ys hx hy = hy
all-append p (x ∷ xs) ys hx hy = ground (arith, all-append p xs ys)

member-left : (z : String) (xs ys : List String) → member z xs ≡ true → member z (xs ++ ys) ≡ true
member-left z [] ys h = cc
member-left z (x ∷ xs) ys h = ground (arith, member-left z xs ys)

member-right : (z : String) (xs ys : List String) → member z ys ≡ true → member z (xs ++ ys) ≡ true
member-right z [] ys h = h
member-right z (x ∷ xs) ys h = ground (arith, member-right z xs ys h)

any-insert_hook :
    (p : Hook → Bool) (h : Hook) (ks : List Hook)
    → any p (insert_hook h ks) ≡ true
    → (p h || any p ks) ≡ true
unfolding insert_hook
any-insert_hook p h [] e = e
any-insert_hook p h (k ∷ ks) e = ground (arith, any-insert_hook p h ks)

any-sorted_hooks :
    (p : Hook → Bool) (hs : List Hook) → any p (sorted_hooks hs) ≡ true → any p hs ≡ true
unfolding sorted_hooks
any-sorted_hooks p [] e = e
any-sorted_hooks p (h ∷ hs) e =
    ground (arith, any-insert_hook p h (sorted_hooks hs) e, any-sorted_hooks p hs)

module _ (chains : List String) (hooks : List Hook) (t : String) where
  own-prepare_chains :
      (cs desired present : List String)
      → ((c : String) → member c cs ≡ true → member c chains ≡ true)
      → all (is_own chains hooks t) (prepare_chains cs desired present) ≡ true
  unfolding prepare_chains
  own-prepare_chains [] desired present sub = refl
  own-prepare_chains (c ∷ cs) desired present sub =
      let rest = own-prepare_chains cs desired present (λ d h. sub d (ground (arith, h))) in
      let here = sub c (ground (arith, eq_refl c)) in ground (arith, rest, here)

  own-drop_chains :
      (cs desired present : List String)
      → ((c : String) → member c cs ≡ true → member c chains ≡ true)
      → all (is_own chains hooks t) (drop_chains cs desired present) ≡ true
  unfolding drop_chains
  own-drop_chains [] desired present sub = refl
  own-drop_chains (c ∷ cs) desired present sub =
      let rest = own-drop_chains cs desired present (λ d h. sub d (ground (arith, h))) in
      let here = sub c (ground (arith, eq_refl c)) in ground (arith, rest, here)

  own-map :
      (c : String) (rules : List Rule)
      → member c chains ≡ true
      → all (is_own chains hooks t) (map (append_rule c) rules) ≡ true
  own-map c [] h = refl
  own-map c (r ∷ rs) h = ground (arith, own-map c rs h)

  own-append_rules :
      (cs : Chains)
      → ((c : String) → member c (keys cs) ≡ true → member c chains ≡ true)
      → all (is_own chains hooks t) (append_rules cs) ≡ true
  unfolding append_rules
  own-append_rules [] sub = refl
  own-append_rules ((c, rules) ∷ cs) sub =
      all-append (is_own chains hooks t) (map (append_rule c) rules) (append_rules cs)
        (own-map c rules (sub c (ground (arith, eq_refl c))))
        (own-append_rules cs (λ d h. sub d (ground (arith, h))))

  own-repeat :
      (n : ℕ) (l : Line)
      → is_own chains hooks t l ≡ true
      → all (is_own chains hooks t) (repeat n l) ≡ true
  own-repeat zero l h = refl
  own-repeat (suc n) l h = ground (arith, own-repeat n l h)

  own-hook_lines :
      (wanted : Bool) (n : ℕ) (parent target : String)
      → any (is_hook t parent (hook_words target)) hooks ≡ true
      → all (is_own chains hooks t) (hook_lines wanted n parent target) ≡ true
  unfolding hook_lines
  own-hook_lines wanted n parent target h = elim (Bool-cases (wanted && (n == 1))) [
    | inl e ↦ rw e refl
    | inr e ↦ rw e (
        all-append (is_own chains hooks t) (repeat n (delete_rule parent (hook_words target))) _
          (own-repeat n _ h) (own_insert wanted))
  ]
    where
      own_insert :
          (b : Bool)
          → all
              (is_own chains hooks t)
              (if b then insert_rule parent (hook_words target) ∷ [] else [])
            ≡ true
      own_insert true = ground (arith, h)
      own_insert false = refl

  own-all_hook_lines :
      (hs wanted : List Hook) (rules : List Rule)
      → ((p : Hook → Bool) → any p hs ≡ true → any p hooks ≡ true)
      → all (is_own chains hooks t) (all_hook_lines t hs wanted rules) ≡ true
  unfolding all_hook_lines
  own-all_hook_lines [] wanted rules sub = refl
  own-all_hook_lines (h ∷ hs) wanted rules sub =
      let rest = own-all_hook_lines hs wanted rules (λ p k. sub p (ground (arith, k))) in
      elim (Bool-cases (h.table === t)) [
        | inl e ↦ rw e (
            all-append (is_own chains hooks t)
              (hook_lines (has_hook h wanted) (count_words rules (hook_rule h.parent h.target))
                h.parent h.target)
              (all_hook_lines t hs wanted rules)
              (own-hook_lines (has_hook h wanted) (count_words rules (hook_rule h.parent h.target))
                h.parent h.target (sub (is_hook t h.parent (hook_words h.target)) (here e)))
              rest)
        | inr e ↦ rw e rest
      ]
    where
      here : (h.table === t) ≡ true → any (is_hook t h.parent (hook_words h.target)) (h ∷ hs) ≡ true
      here e = rw (e, eq_refl h.parent, same_words_refl (hook_words h.target)) refl

-- Every line of a table's transaction names that table, a chain that a policy of the union or the target
-- registers for it, or a hook that one of them registers for it.
pub all-table_lines :
    (target : Option Policy) (union : List (Option Policy)) (live : Option Table) (t : String)
    → all
        (is_own
          (old_chains union t ++ keys (desired_chains target t))
          (old_hooks union ++ desired_hooks target)
          t)
        (table_lines target union live t)
      ≡ true
unfolding table_lines
all-table_lines target union live t = rw (eq_refl t) (
    all-append own_line (prepare_chains owned desired present) _
      (own-prepare_chains chains hooks t owned desired present owned_sub)
      (all-append own_line
        (all_hook_lines t (sorted_hooks hooks) (desired_hooks target) (present_rules live)) _
        (own-all_hook_lines chains hooks t (sorted_hooks hooks) (desired_hooks target)
          (present_rules live) (λ p. any-sorted_hooks p hooks))
        (all-append own_line (append_rules (desired_chains target t)) _
          (own-append_rules chains hooks t (desired_chains target t)
            (λ c. member-right c (old_chains union t) desired))
          (all-append own_line (drop_chains owned desired present) (commit ∷ [])
            (own-drop_chains chains hooks t owned desired present owned_sub) refl))))
  where
    desired : List String
    desired = keys (desired_chains target t)

    chains : List String
    chains = old_chains union t ++ desired

    hooks : List Hook
    hooks = old_hooks union ++ desired_hooks target

    owned : List String
    owned = owned_chains target union t

    present : List String
    present = present_chains live

    own_line : Line → Bool
    own_line = is_own chains hooks t

    owned_sub : (c : String) → member c owned ≡ true → member c chains ≡ true
    owned_sub c = member-sorted_set c chains
