-- ===== src/Engine/Docker/Topology.antt =====
-- What a diagnosis without errors has seen.
use mathlib.Core.Path.{subst}
use l4d2_iptable_suite.Base.{
  ap, ℕ, suc, ◌≡◌, ◌⊎◌, inl, inr, refl, Bool, true, false, ◌&&◌, ◌===◌, Bool-cases, eq_refl, String,
  Option, none, some, List, [], ◌∷◌, ◌++◌, All, any, take, arith,
}
use l4d2_iptable_suite.Base.Sets.{keys, member, same_words, count_words}
use l4d2_iptable_suite.Engine.Save.{
  Rule, Table, hook_rule, jump_targets, unconditional_jump, after_head, drop_counters,
}
use l4d2_iptable_suite.Engine.Plain.{Plain, unconditional_jump-Plain}
use l4d2_iptable_suite.Engine.Iptables.{Hook, Policy, table_of}
use l4d2_iptable_suite.Engine.Iptables.Hooks.{same_words-eq}
use l4d2_iptable_suite.Engine.Docker.{
  rules_of, is_empty, links_from, link_problems, chain_problems, is_first, own_hook_problems,
  hook_problems, own_target, previous_target, family_status,
}

append-nil : {A : Type 0} (xs ys : List A) → xs ++ ys ≡ [] → (xs ≡ []) × (ys ≡ [])
append-nil [] ys h = (refl, h)
append-nil (x ∷ xs) ys h = cc

-- no jump to DOCKER-USER
abbrev pub Passes : Rule → Type 0
Passes r = jump_targets r "DOCKER-USER" ≡ []

-- The suite's hook is the first rule of DOCKER-USER, and stands in it once.
abbrev pub StandsFirst : String → List Rule → Type 0
StandsFirst target rules =
    (after : List Rule) × (rules_of "DOCKER-USER" rules ≡ hook_rule "DOCKER-USER" target ∷ after)
    × (count_words after (hook_rule "DOCKER-USER" target) ≡ 0)

-- a registered hook of DOCKER-USER whose chain is registered and there
abbrev pub is_live : List String → List String → Hook → Bool
is_live registered chains h =
    ((h.table === "filter") && (h.parent === "DOCKER-USER"))
    && member h.target registered
    && member h.target chains

-- Nothing is registered for DOCKER-USER that is there, or one such hook stands first.
abbrev pub OwnHook : Option Policy → Table → Type 0
OwnHook none table = Unit
OwnHook (some p) table =
    All (λ h. is_live (keys (table_of "filter" p)) (keys table.chains) h ≡ false) p.hooks
    ⊎ ((target : String) × (any
            (λ h. is_live (keys (table_of "filter" p)) (keys table.chains) h && h.target === target)
            p.hooks
          ≡ true)
        × StandsFirst target table.rules)

is_empty-nil : (xs : List (String × String)) → is_empty xs ≡ true → xs ≡ []
is_empty-nil [] h = refl
is_empty-nil (x ∷ xs) h = cc

links_from-nil : (i : ℕ) (rs : List Rule) → links_from i rs ≡ [] → All Passes rs
unfolding links_from
links_from-nil i [] h = tt
links_from-nil i (r ∷ rs) h = elim (Bool-cases (is_empty (jump_targets r "DOCKER-USER"))) [
  | inl e ↦ (is_empty-nil _ e, links_from-nil (suc i) rs (rw e at h))
  | inr e ↦ let no : (i, r) ∷ links_from (suc i) rs ≡ [] = rw e at h in cc
]

-- A link of a position below the first one counted is none.
links_from-below :
    (i : ℕ) (rs : List Rule) (r : Rule) (ls : List (ℕ × Rule))
    → links_from (suc i) rs ≡ (0, r) ∷ ls
    → ⊥
unfolding links_from
links_from-below i [] r ls h = cc
links_from-below i (q ∷ rs) r ls h = elim (Bool-cases (is_empty (jump_targets q "DOCKER-USER"))) [
  | inl e ↦ links_from-below (suc i) rs r ls (rw e at h)
  | inr e ↦ let no : (suc i, q) ∷ links_from (suc (suc i)) rs ≡ (0, r) ∷ ls = rw e at h in cc
]

-- A single link of position 0 is the first rule, and no other rule links.
links_from-first :
    (rs : List Rule) (r : Rule)
    → links_from 0 rs ≡ (0, r) ∷ []
    → (rest : List Rule) × (rs ≡ r ∷ rest) × All Passes rest
unfolding links_from
links_from-first [] r h = cc
links_from-first (q ∷ rs) r h = elim (Bool-cases (is_empty (jump_targets q "DOCKER-USER"))) [
  | inl e ↦ elim (links_from-below 0 rs r [] (rw e at h)) [ ]
  | inr e ↦
      let both : (0, q) ∷ links_from 1 rs ≡ (0, r) ∷ [] = rw e at h in
      let same : q ≡ r = cc in
      let none_left : links_from 1 rs ≡ [] = cc in
      (rs, ap (λ x. x ∷ rs) same, links_from-nil 1 rs none_left)
]

own_target-cases :
    (isdecimal : String → Bool) (hs : List Hook) (registered chains : List String)
    → ((own_target isdecimal hs registered chains ≡ none)
        × All (λ h. is_live registered chains h ≡ false) hs)
      ⊎ ((t : String) × (own_target isdecimal hs registered chains ≡ some t)
          × (any (λ h. is_live registered chains h && h.target === t) hs ≡ true))
unfolding own_target
own_target-cases isdecimal [] registered chains = inl (refl, tt)
own_target-cases isdecimal (h ∷ hs) registered chains =
    elim (Bool-cases (is_live registered chains h)) [
      | inl e ↦ inr (h.target, rw e refl, rw (e, eq_refl) refl)
      | inr e ↦ elim (own_target-cases isdecimal hs registered chains) [
        | inl k ↦ inl (rw e k.0, (e, k.1))
        | inr k ↦ let (t, same, live) = k in inr (t, rw e same, rw e live)
      ]
    ]

module _ (isdecimal : String → Bool) where
  -- The chains are there; the first rule of FORWARD is a plain jump to DOCKER-USER, and no other rule of
  -- it jumps there; and the suite's own hook, if one is registered and its chain is there, is the first
  -- rule of DOCKER-USER and stands in it once.
  pub record IsSound (previous : Option Policy) (table : Table) : Type 0 where
    pub forward : member "FORWARD" (keys table.chains) ≡ true
    pub docker_user : member "DOCKER-USER" (keys table.chains) ≡ true
    pub link : Rule
    pub others : List Rule
    pub link_first : rules_of "FORWARD" table.rules ≡ link ∷ others
    pub only_link : All Passes others
    pub of_forward : same_words (take 2 link) ("-A" ∷ "FORWARD" ∷ []) ≡ true
    pub plain : Plain "DOCKER-USER" 1 (drop_counters isdecimal (after_head link))
    pub own_hook : OwnHook previous table

  one_link :
      (i : ℕ) (r : Rule)
      → link_problems isdecimal ((i, r) ∷ []) ≡ []
      → (i ≡ 0) × (unconditional_jump isdecimal r "FORWARD" "DOCKER-USER" ≡ true)
  one_link i r h = ground arith

  link_problems-nil :
      (links : List (ℕ × Rule))
      → link_problems isdecimal links ≡ []
      → (r : Rule) × (links ≡ (0, r) ∷ [])
        × (unconditional_jump isdecimal r "FORWARD" "DOCKER-USER" ≡ true)
  link_problems-nil [] h = cc
  link_problems-nil ((i, r) ∷ x ∷ xs) h = cc
  link_problems-nil ((i, r) ∷ []) h = let (e, u) = one_link i r h in (r, ap (λ j. (j, r) ∷ []) e, u)

  is_first-StandsFirst :
      (own : Rule) (rules : List Rule)
      → is_first isdecimal own rules ≡ true
      → count_words rules own ≡ 1
      → (after : List Rule) × (rules ≡ own ∷ after) × (count_words after own ≡ 0)
  unfolding count_words
  is_first-StandsFirst own [] h n = cc
  is_first-StandsFirst own (q ∷ qs) h n =
      (qs, ap (λ r. r ∷ qs) (same_words-eq q own h), ground arith)

  own_hook_problems-nil :
      (target : String) (rules : List Rule)
      → own_hook_problems isdecimal target rules ≡ []
      → (count_words (rules_of "DOCKER-USER" rules) (hook_rule "DOCKER-USER" target) ≡ 1)
        × (is_first isdecimal (hook_rule "DOCKER-USER" target) (rules_of "DOCKER-USER" rules)
            ≡ true)
  unfolding own_hook_problems
  own_hook_problems-nil target rules h = ground arith

  hook_problems-OwnHook :
      (previous : Option Policy) (table : Table)
      → hook_problems isdecimal (previous_target isdecimal previous (keys table.chains)) table.rules
        ≡ []
      → OwnHook previous table
  hook_problems-OwnHook none table h = tt
  hook_problems-OwnHook (some p) table h =
      elim (own_target-cases isdecimal p.hooks (keys (table_of "filter" p)) (keys table.chains)) [
        | inl k ↦ inl k.1
        | inr k ↦
            let (target, e, live) = k in
            let quiet : hook_problems isdecimal (some target) table.rules ≡ [] =
              subst (λ o. hook_problems isdecimal o table.rules ≡ []) e h in
            let (once, first) = own_hook_problems-nil target table.rules quiet in
            inr (target, live, is_first-StandsFirst _ _ first once)
      ]

  chain_problems-nil :
      (chains : List String)
      → chain_problems isdecimal chains ≡ []
      → (member "FORWARD" chains ≡ true) × (member "DOCKER-USER" chains ≡ true)
  chain_problems-nil chains h = ground arith

  -- If the diagnosis of a family has no errors then both chains are there; the first rule of FORWARD is
  -- a plain jump to DOCKER-USER and no other rule of FORWARD jumps there; and either no hook that the
  -- previous policy registers for DOCKER-USER has its chain registered and there, or one such hook is
  -- the first rule of DOCKER-USER and stands in it once.
  pub family_status-IsSound :
      (previous : Option Policy) (table : Table)
      → (family_status isdecimal previous table).errors ≡ []
      → IsSound previous table
  unfolding family_status
  family_status-IsSound previous table h =
      let (c, h₁) = append-nil (chain_problems isdecimal (keys table.chains)) _ h in
      let (l, k) =
        append-nil (link_problems isdecimal (links_from 0 (rules_of "FORWARD" table.rules))) _ h₁ in
      let (forward, docker_user) = chain_problems-nil (keys table.chains) c in
      let (r, only, jump) = link_problems-nil (links_from 0 (rules_of "FORWARD" table.rules)) l in
      let (others, first, pass) = links_from-first (rules_of "FORWARD" table.rules) r only in
      let (of_forward, plain) = unconditional_jump-Plain isdecimal r "FORWARD" "DOCKER-USER" jump in
      record {
        forward = forward;
        docker_user = docker_user;
        link = r;
        others = others;
        link_first = first;
        only_link = pass;
        of_forward = of_forward;
        plain = plain;
        own_hook = hook_problems-OwnHook previous table k;
      }
