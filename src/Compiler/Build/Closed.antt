-- ===== src/Compiler/Build/Closed.antt =====
-- What `build` of core/compiler.py leaves at the end of the forward chain.
use l4d2_iptable_suite.Base.{
  ◌≡◌, refl, Bool, ◌===◌, String, Option, some, none, List, [], ◌∷◌, ◌++◌, if◌then◌else◌, eq_refl,
  Bool-cases, inl, inr,
}
use l4d2_iptable_suite.Base.Result.{Result, ok}
use l4d2_iptable_suite.Base.Yields.{ok-Yields, bind-Yields}
use l4d2_iptable_suite.Base.Sets.{lookup, lookup_or}
use l4d2_iptable_suite.Config.Access.{Grant}
use l4d2_iptable_suite.Engine.Save.{Rule}
use l4d2_iptable_suite.Compiler.{
  Family, ipv4, ipv6, inet, filter_for, Compiler, rule_line, set_default, change_at, nft_chain,
  ip_chain, ip_add, nft_add, add,
}
use l4d2_iptable_suite.Engine.Iptables.{Chains}
use l4d2_iptable_suite.Compiler.Rules.{Call, add_call, make_all}
use l4d2_iptable_suite.Compiler.Vpn.{Values}
use l4d2_iptable_suite.Compiler.Scopes.{Network}
use l4d2_iptable_suite.Compiler.Records.{Purpose, routed_calls}
use l4d2_iptable_suite.Compiler.Build.{AccessPolicy, build, granted_rules}
use l4d2_iptable_suite.Compiler.Containers.{containers}

unfoldable pub last_of {ℓ} : {A : Type ℓ} → List A → Option A
last_of [] = none
last_of (x ∷ []) = some x
last_of (x ∷ y ∷ xs) = last_of (y ∷ xs)

last_of-append : {A : Type 0} → (xs : List A) (x : A) → last_of (xs ++ (x ∷ [])) ≡ some x
unfolding last_of
last_of-append [] x = refl
last_of-append (y ∷ []) x = refl
last_of-append (y ∷ z ∷ xs) x = last_of-append (z ∷ xs) x

abbrev changed : {A : Type 0} → (A → A) → Option A → Option A
changed change none = none
changed change (some a) = some (change a)

lookup-change_at :
    {A : Type 0}
    → (k : String) (change : A → A) (d : List (String × A))
    → lookup (change_at k change d) k ≡ changed change (lookup d k)
unfolding lookup change_at
lookup-change_at k change [] = refl
lookup-change_at k change ((j, w) ∷ d) = elim (Bool-cases (j === k)) [
  | inl same ↦ rw same (rw same refl)
  | inr other ↦ rw other (rw other (lookup-change_at k change d))
]

lookup-set_default :
    {A : Type 0}
    → (k : String) (v : A) (d : List (String × A))
    → lookup (set_default k v d) k ≡ some (lookup_or (lookup d k) v)
unfolding lookup set_default
lookup-set_default k v [] = rw (eq_refl k) refl
lookup-set_default k v ((j, w) ∷ d) = elim (Bool-cases (j === k)) [
  | inl same ↦ rw same (rw same refl)
  | inr other ↦ rw other (rw other (lookup-set_default k v d))
]

-- the rules of a chain, in one family
abbrev pub rules_in : Compiler → Family → String → String → List Rule
rules_in c f table name = lookup_or (lookup (lookup_or (lookup (c.ip f) table) []) name) []

-- the tables of a family after a rule was added to a chain
abbrev with_rule : String → String → Rule → List (String × Chains) → List (String × Chains)
with_rule table name rule tables =
    change_at table (change_at name (λ rules. rules ++ (rule ∷ [])))
      (change_at table (set_default name []) (set_default table [] tables))

with_rule-last :
    (table name : String) (rule : Rule) (tables : List (String × Chains))
    → last_of (
        lookup_or (lookup (lookup_or (lookup (with_rule table name rule tables) table) []) name) [])
      ≡ some rule
unfolding last_of lookup change_at set_default
with_rule-last table name rule tables =
    rw
      (
        lookup-change_at table (change_at name (λ rules. rules ++ (rule ∷ []))) _,
        lookup-change_at table (set_default name []) _,
        lookup-set_default table [] tables,
        lookup-change_at name (λ rules. rules ++ (rule ∷ [])) _,
        lookup-set_default name [] (lookup_or (lookup tables table) []),
      )
      (last_of-append (lookup_or (lookup (lookup_or (lookup tables table) []) name) []) rule)

-- The last rule of the forward chain, of both backends and families, drops the packet.
abbrev pub IsClosed : (String → String) → Compiler → Type 0
IsClosed short c =
    if c.is_nft
    then last_of (c.objects inet).lines ≡ some (rule_line "forward" "counter drop")
    else (last_of (rules_in c ipv4 "filter" (short "forward")) ≡ some ("-j" ∷ "DROP" ∷ []))
      × (last_of (rules_in c ipv6 "filter" (short "forward")) ≡ some ("-j" ∷ "DROP" ∷ []))

nft_add-last :
    (c : Compiler) (name text : String)
    → last_of ((nft_add (filter_for none) name text c).objects inet).lines
      ≡ some (rule_line name text)
unfolding nft_add nft_chain
nft_add-last c name text = last_of-append _ (rule_line name text)

ip_add-last :
    (c : Compiler) (name : String) (rule : Rule) (f : Family)
    → last_of (rules_in (ip_add (ipv4 ∷ ipv6 ∷ []) "filter" name rule c) f "filter" name)
      ≡ some rule
unfolding ip_add ip_chain
ip_add-last c name rule ipv4 = with_rule-last "filter" name rule (c.ip ipv4)
ip_add-last c name rule ipv6 = with_rule-last "filter" name rule (c.ip ipv6)

drop-IsClosed :
    (short : String → String) (c : Compiler)
    → IsClosed short (add short (filter_for none) "forward" "counter drop" ("-j" ∷ "DROP" ∷ []) c)
unfolding add
drop-IsClosed short c = elim (Bool-cases c.is_nft) [
  | inl nft ↦ rw nft (nft_add-last c "forward" "counter drop")
  | inr iptables ↦
      let added = ip_add-last c (short "forward") ("-j" ∷ "DROP" ∷ []) in
      rw iptables (added ipv4, added ipv6)
]

routed_calls-drop :
    (v : Values) (containers : List Grant) (calls : List Call)
    → lookup v "ROUTED_POLICY" ≡ some "drop"
    → routed_calls v containers ≡ ok calls
    → calls ≡ add_call none "forward" "counter drop" ("-j" ∷ "DROP" ∷ []) ∷ []
unfolding routed_calls
routed_calls-drop v containers calls set made = let found = rw set at made in cc

module _ (short digest upper : String → String) (version : String → Result Family)
    (networks : List String → Result (List Network))
    (run_modules : List String → String → Values → Result (List (List String)))
    (nft_records : Purpose → List (List String) → Compiler → Result Compiler) where
  -- When the routed policy is to drop, and the policy is built, the last rule of the forward chain drops
  -- every packet, in the nftables object and in both families of iptables.
  pub build-IsClosed :
      (v : Values) (names : List String) (has_game is_nft : Bool) (validated : Result (Unit {0}))
      (access : AccessPolicy) (c : Compiler)
      → lookup v "ROUTED_POLICY" ≡ some "drop"
      → build short digest upper version networks run_modules nft_records v names has_game is_nft
          validated access
        ≡ ok c
      → IsClosed short c
  unfolding build make_all
  build-IsClosed v names has_game is_nft validated access c routed built =
      let P = IsClosed short in
      bind-Yields P
        (granted_rules short digest upper version networks run_modules nft_records v names has_game
          is_nft validated access)
        _
        (λ granted _.
          bind-Yields P (routed_calls v access.containers)
            (λ calls. ok (make_all short calls granted))
            (λ calls called. ok-Yields P (make_all short calls granted) (
              rw (routed_calls-drop v access.containers calls routed called)
                (drop-IsClosed short granted))))
        c built
