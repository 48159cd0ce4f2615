-- ===== src/Compiler/HookedIp.antt =====
-- The NAT chains of `Compiler` in core/compiler.py for iptables: each has a hook that jumps to it.
use mathlib.Core.Path.{subst}
use l4d2_iptable_suite.Base.{
  ◌≡◌, ◌∙◌, sym, ap, refl, Bool, true, false, ◌===◌, ◌&&◌, Bool-cases, inl, inr, eq_refl, String,
  Option, List, [], ◌∷◌, ◌++◌, All, any, arith, if◌then◌else◌,
}
use l4d2_iptable_suite.Base.Sets.{lookup, lookup_or, keys}
use l4d2_iptable_suite.Engine.Save.{Rule}
use l4d2_iptable_suite.Engine.Iptables.{Hook, Chains}
use l4d2_iptable_suite.Compiler.{
  same_family, Family, filter_for, Compiler, set_family, set_default, change_at, nft_chain,
  ip_chain, nft_add, ip_add, add, families_of,
}
use l4d2_iptable_suite.Compiler.Vpn.{nat_rule}
use l4d2_iptable_suite.Compiler.Dicts.{
  lookup-set_default, lookup-set_default-other, lookup-change_at, lookup-change_at-other,
  keys-change_at, keys-set_default,
}

-- the chains of the table `nat` of a family
abbrev pub nat_chains : List (String × Chains) → Chains
nat_chains tables = lookup_or (lookup tables "nat") []

-- a hook of the table `nat` jumps to the chain
abbrev pub is_entered : List Hook → String → Bool
is_entered hooks name = any (λ h. (h.table === "nat") && (h.target === name)) hooks

abbrev pub AllEntered : Compiler → Type 0
AllEntered c =
    (family : Family)
    → All (λ name. is_entered c.hooks name ≡ true) (keys (nat_chains (c.ip family)))

-- the chains after `chain` and `add` in the table `nat`
nat_chains-chain :
    (name : String) (tables : List (String × Chains))
    → nat_chains (change_at "nat" (set_default name []) (set_default "nat" [] tables))
      ≡ set_default name [] (nat_chains tables)
nat_chains-chain name tables =
    ap (λ o. lookup_or o [])
      (lookup-change_at "nat" (set_default name []) (nat_chains tables)
        (set_default "nat" [] tables) (lookup-set_default "nat" [] tables))

nat_chains-other :
    (name : String) (tables : List (String × Chains))
    → nat_chains (change_at "filter" (set_default name []) (set_default "filter" [] tables))
      ≡ nat_chains tables
nat_chains-other name tables =
    ap (λ o. lookup_or o [])
      (lookup-change_at-other "nat" "filter" (set_default name []) (set_default "filter" [] tables)
          refl
        ∙ lookup-set_default-other "nat" "filter" [] tables refl)

keys-nat_chains :
    (name : String) (change : List Rule → List Rule) (tables : List (String × Chains))
    → keys (nat_chains (change_at "nat" (change_at name change) tables)) ≡ keys (nat_chains tables)
unfolding lookup change_at
keys-nat_chains name change [] = refl
keys-nat_chains name change ((j, w) ∷ d) = elim (Bool-cases (j === "nat")) [
  | inl e ↦ rw (e, e) (keys-change_at name change w)
  | inr e ↦ rw (e, e) (keys-nat_chains name change d)
]

set_family-All :
    (P : List (String × Chains) → Type 0) (f : Family) (tables : List (String × Chains))
    (ip : Family → List (String × Chains))
    → P tables
    → ((g : Family) → P (ip g))
    → (g : Family) → P (set_family f tables ip g)
set_family-All P f tables ip one all g =
    elim (same_family g f) as (λ b. P (if b then tables else ip g)) [ true ↦ one | false ↦ all g ]

module _ (Q : String → Type 0) where
  -- each NAT chain is such a one
  abbrev pub InNat : List (String × Chains) → Type 0
  InNat tables = All Q (keys (nat_chains tables))

  ip_chain-InNat :
      (f : Family) (name : String) (c : Compiler)
      → Q name
      → ((g : Family) → InNat (c.ip g))
      → (g : Family) → InNat ((ip_chain f "nat" name c).ip g)
  unfolding ip_chain
  ip_chain-InNat f name c q all =
      set_family-All InNat f _ c.ip
        (subst (λ chains. All Q (keys chains)) (sym (nat_chains-chain name (c.ip f)))
          (keys-set_default Q name [] (nat_chains (c.ip f)) q (all f)))
        all

  ip_nat-InNat :
      (f : Family) (name : String) (rule : Rule) (c : Compiler)
      → Q name
      → ((g : Family) → InNat (c.ip g))
      → (g : Family) → InNat ((ip_add (f ∷ []) "nat" name rule c).ip g)
  unfolding ip_add
  ip_nat-InNat f name rule c q all =
      let d_all = ip_chain-InNat f name c q all in
      set_family-All InNat f _ (ip_chain f "nat" name c).ip
        (subst (λ names. All Q names)
          (sym (keys-nat_chains name _ ((ip_chain f "nat" name c).ip f))) (d_all f))
        d_all

  ip_chain-other :
      (f : Family) (name : String) (c : Compiler)
      → ((g : Family) → InNat (c.ip g))
      → (g : Family) → InNat ((ip_chain f "filter" name c).ip g)
  unfolding ip_chain
  ip_chain-other f name c all =
      set_family-All InNat f _ c.ip
        (subst (λ chains. All Q (keys chains)) (sym (nat_chains-other name (c.ip f))) (all f)) all

  ip_add-other :
      (families : List Family) (name : String) (rule : Rule) (c : Compiler)
      → ((g : Family) → InNat (c.ip g))
      → (g : Family) → InNat ((ip_add families "filter" name rule c).ip g)
  unfolding ip_add
  ip_add-other [] name rule c all = all
  ip_add-other (f ∷ families) name rule c all =
      let d = ip_chain f "filter" name c in
      let d_all = ip_chain-other f name c all in
      ip_add-other families name rule _ (
        set_family-All InNat f _ d.ip
          (subst (λ chains. All Q (keys chains))
            (sym (ap (λ o. lookup_or o []) (lookup-change_at-other "nat" "filter" _ (d.ip f) refl)))
            (d_all f))
          d_all)

ip_add-hooks :
    (families : List Family) (table name : String) (rule : Rule) (c : Compiler)
    → (ip_add families table name rule c).hooks ≡ c.hooks
unfolding ip_add ip_chain
ip_add-hooks [] table name rule c = refl
ip_add-hooks (f ∷ families) table name rule c = ip_add-hooks families table name rule _

is_entered-append :
    (hooks more : List Hook) (name : String)
    → is_entered hooks name ≡ true
    → is_entered (hooks ++ more) name ≡ true
is_entered-append [] more name h = cc
is_entered-append (x ∷ hooks) more name h = ground (arith, h, is_entered-append hooks more name)

is_entered-last :
    (hooks : List Hook) (parent name : String)
    → is_entered (hooks ++ (record { table = "nat"; parent = parent; target = name } ∷ [])) name
      ≡ true
is_entered-last [] parent name = rw eq_refl refl
is_entered-last (x ∷ hooks) parent name = ground (arith, is_entered-last hooks parent name)

All-entered-append :
    (hooks more : List Hook) (names : List String)
    → All (λ name. is_entered hooks name ≡ true) names
    → All (λ name. is_entered (hooks ++ more) name ≡ true) names
All-entered-append hooks more [] h = tt
All-entered-append hooks more (n ∷ names) h =
    (is_entered-append hooks more n h.0, All-entered-append hooks more names h.1)

-- a rule of the filter table
pub add-AllEntered :
    (short : String → String) (family : Option Family) (logical nf : String) (ip : Rule)
    (c : Compiler)
    → AllEntered c
    → AllEntered (add short (filter_for family) logical nf ip c)
unfolding add nft_add nft_chain
add-AllEntered short family logical nf ip c all =
    let families = families_of (filter_for family) in
    let name = short logical in
    elim c.is_nft
      as (λ b. AllEntered (
        if b
        then nft_add (filter_for family) logical nf c
        else ip_add families "filter" name ip c)) [
          | true ↦ all
          | false ↦
              subst
                (λ hooks.
                  (g : Family)
                  → InNat (λ n. is_entered hooks n ≡ true)
                      ((ip_add families "filter" name ip c).ip g))
                (sym (ip_add-hooks families "filter" name ip c))
                (ip_add-other (λ n. is_entered c.hooks n ≡ true) families name ip c all)
        ]

-- a rule of a NAT table, and its hook
pub nat_rule-AllEntered :
    (short : String → String) (f : Family) (logical parent nf : String) (ip : Rule) (c : Compiler)
    → AllEntered c
    → AllEntered (nat_rule short f logical parent nf ip c)
unfolding nat_rule add ip_chain nft_chain nft_add ip_add
nat_rule-AllEntered short f logical parent nf ip c all =
    let name = short logical in
    let hooks = c.hooks ++ (record { table = "nat"; parent = parent; target = name } ∷ []) in
    let entered = is_entered-last c.hooks parent name in
    elim c.is_nft
      as (λ b. AllEntered (nat_rule short f logical parent nf ip (record c { is_nft = b }))) [
        | true ↦ all
        | false ↦
            ip_nat-InNat (λ n. is_entered hooks n ≡ true) f name ip
              (ip_chain f "nat" name (record c { is_nft = false })) entered
              (ip_chain-InNat (λ n. is_entered hooks n ≡ true) f name (record c { is_nft = false })
                entered (λ g. All-entered-append c.hooks _ _ (all g)))
      ]
