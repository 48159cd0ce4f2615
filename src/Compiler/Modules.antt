-- ===== src/Compiler/Modules.antt =====
-- The second loop of `iptables_records` of core/compiler.py: the rules of a module with the names that
-- they have here, the bounds of their hashlimit tables, and their places. The name that `short` gives,
-- and the version of a network, are arguments.
pub mod Options
pub mod Plain
pub mod Limits
use l4d2_iptable_suite.Base.{
  ℕ, zero, suc, ◌*◌, ◌/◌, ◌%◌, Bool, true, false, not, ◌&&◌, ◌===◌, ◌==◌, String, ◌<>◌, Option,
  none, some, List, [], ◌∷◌, ◌++◌, ltb, starts_with, if◌then◌else◌,
}
use l4d2_iptable_suite.Base.Result.{Result, ok, err, type_error, ◌>>=◌, ◌>>◌}
use l4d2_iptable_suite.Base.Sets.{lookup, member}
use l4d2_iptable_suite.Base.Texts.{drop_text}
use l4d2_iptable_suite.Config.Access.{member_of}
use l4d2_iptable_suite.Config.Ports.{duration}
use l4d2_iptable_suite.Engine.Save.{Rule}
use l4d2_iptable_suite.Engine.Iptables.{Chains}
use l4d2_iptable_suite.Compiler.{Family, ipv4, ipv6, same_family, Compiler}
use l4d2_iptable_suite.Compiler.Rules.{Call, add_call, make_all}
use l4d2_iptable_suite.Compiler.Vpn.{Values, is_set, splitlist}
use l4d2_iptable_suite.Compiler.Records.{Purpose, own_chains}

-- `str` of a number: its decimal digits
abbrev pub digit_text : ℕ → String
digit_text n =
    if n == 0
    then "0"
    else if n == 1
    then "1"
    else if n == 2
    then "2"
    else if n == 3
    then "3"
    else if n == 4
    then "4"
    else if n == 5
    then "5"
    else if n == 6
    then "6"
    else if n == 7
    then "7"
    else if n == 8
    then "8"
    else "9"

unfoldable pub digits_within : ℕ → ℕ → String
digits_within zero n = digit_text n
digits_within (suc fuel) n = elim (ltb n 10) [
  | true ↦ digit_text n
  | false ↦ digits_within fuel (n / 10) <> digit_text (n % 10)
]

-- a number has less digits than it counts, or one
abbrev pub decimal_text : ℕ → String
decimal_text n = digits_within n n

-- The word after the first occurrence of a flag is changed; a flag at the end has none (an `IndexError`).
unfoldable pub replace_after : String → (String → String) → Rule → Result Rule
replace_after flag change [] = ok []
replace_after flag change (word ∷ []) = if word === flag then err type_error else ok (word ∷ [])
replace_after flag change (word ∷ next ∷ rule) =
    let rest = replace_after flag change (next ∷ rule) in
    if word === flag then ok (word ∷ change next ∷ rule) else (rest >>= λ words. ok (word ∷ words))

-- `rule[rule.index(flag) + 1]`, if the flag is there
unfoldable pub word_after : String → Rule → Option String
word_after flag [] = none
word_after flag (word ∷ []) = none
word_after flag (word ∷ next ∷ rule) =
    let rest = word_after flag (next ∷ rule) in if word === flag then some next else rest

-- `if flag in rule: … else: rule += [flag, value]`
unfoldable pub set_option : String → String → Rule → Result Rule
unfolding replace_after
set_option flag value rule =
    if member flag rule
    then replace_after flag (λ word. value) rule
    else ok (rule ++ (flag ∷ value ∷ []))

-- the timeout of a meter, by the name that the module gives it; empty for none
abbrev pub timeout_of : Values → String → Result String
timeout_of v raw =
    if starts_with raw "SSH_"
    then member_of v "SSH_METER_TIMEOUT"
    else if starts_with raw "HTTPHTTPS"
    then member_of v "NFT_HTTP_HTTPS_METER_TIMEOUT"
    else if starts_with raw "L4D2_ESTABLISHED"
    then member_of v "NFT_UDP_EST_METER_TIMEOUT"
    else if starts_with raw "A2S"
    then member_of v "NFT_A2S_METER_TIMEOUT"
    else if starts_with raw "STEAMGROUP"
    then member_of v "NFT_A2S_METER_TIMEOUT"
    else if starts_with raw "L4D2CONNECT"
    then member_of v "NFT_LOGIN_METER_TIMEOUT"
    else if starts_with raw "L4D2RESERVE"
    then member_of v "NFT_LOGIN_METER_TIMEOUT"
    else if starts_with raw "L4D2_NEW_"
    then member_of v "NFT_UDP_NEW_METER_TIMEOUT"
    else ok ""

unfoldable pub set_expiry : String → Rule → Result Rule
unfolding set_option duration digits_within
set_expiry timeout rule =
    if is_set timeout
    then (duration timeout >>= λ seconds.
        set_option "--hashlimit-htable-expire" (decimal_text (seconds * 1000)) rule)
    else ok rule

abbrev pub default_expiry : Rule → Rule
default_expiry rule =
    if member "--hashlimit-htable-expire" rule
    then rule
    else rule ++ ("--hashlimit-htable-expire" ∷ "60000" ∷ [])

-- `{key[len(context)+1:]: key for key in own if key.startswith(context + '_')}`
abbrev pub all_names : String → Chains → List (String × String)
all_names context [] = []
all_names context ((key, rules) ∷ own) = elim (drop_text (context <> "_") key) [
  | none ↦ all_names context own
  | some name ↦ (name, key) ∷ all_names context own
]

-- `v.get(k) == word`
abbrev pub is_value : Option String → String → Bool
is_value none word = false
is_value (some value) word = value === word

module _ (short : String → String) where
  -- a hashlimit rule, whose table has the name `raw`
  unfoldable pub limit_named : Values → String → String → Rule → Result Rule
  unfolding replace_after set_option set_expiry
  limit_named v context raw rule = do
    named ← replace_after "--hashlimit-name" (λ word. short (context <> word)) rule
    timeout ← timeout_of v raw
    expiring ← set_expiry timeout named
    capacity ← member_of v "STATE_CAPACITY"
    sized ← set_option "--hashlimit-htable-size" capacity expiring
    bounded ← set_option "--hashlimit-htable-max" capacity sized
    ok (default_expiry bounded)

  -- the table of a hashlimit rule: its name, and its bounds
  unfoldable pub limit_rule : Values → String → Rule → Result Rule
  unfolding word_after limit_named
  limit_rule v context rule = elim (member "--hashlimit-name" rule) [
    | false ↦ ok rule
    | true ↦ elim (word_after "--hashlimit-name" rule) [
      | none ↦ err type_error
      | some raw ↦ limit_named v context raw rule
    ]
  ]

  -- a jump to a chain of the module goes to its name here
  abbrev pub to_own : List (String × String) → String → String
  to_own names word = elim (lookup names word) [ none ↦ word | some key ↦ short key ]

  unfoldable pub finish_rule : Values → String → List (String × String) → Rule → Result Rule
  unfolding replace_after limit_rule lookup
  finish_rule v context names rule = do
    jumping ← replace_after "-j" (to_own names) rule
    going ← replace_after "-g" (to_own names) jumping
    limit_rule v context going

  -- `splitlist(self.v['ADMIN_SOURCES'])` for a rule of the SSH port, and none otherwise
  unfoldable pub admin_sources : Values → String → Rule → Result (List String)
  unfolding word_after splitlist lookup
  admin_sources v key rule =
      if (key === "input") && member "--dports" rule
      then elim (word_after "--dports" rule) [
        | none ↦ err type_error
        | some port ↦
            if is_value (lookup v "SSH_PORT") port
            then (member_of v "ADMIN_SOURCES" >>= λ sources. ok (splitlist sources))
            else ok []
      ]
      else ok []

  module _ (version : String → Result Family) where
    unfoldable pub source_calls : Family → String → Rule → List String → Result (List Call)
    source_calls f key rule [] = ok []
    source_calls f key rule (source ∷ sources) = version source >>= λ g.
        source_calls f key rule sources >>= λ rest.
        ok
          (if same_family g f then add_call (some f) key "" ("-s" ∷ source ∷ rule) ∷ rest else rest)

    -- one turn of the loop on the families; a module of the game has no rules for IPv6
    unfoldable pub family_calls : Values → Bool → String → Rule → Family → Result (List Call)
    unfolding admin_sources source_calls
    family_calls v has_game key rule f =
        if has_game && same_family f ipv6
        then ok []
        else (admin_sources v key rule >>= λ sources. elim sources [
          | [] ↦ ok (add_call (some f) key "" rule ∷ [])
          | source ∷ rest ↦ source_calls f key rule (source ∷ rest)
        ])

    unfoldable pub rule_calls :
        Values → Bool → String → List (String × String) → String → List Rule → Result (List Call)
    unfolding finish_rule family_calls
    rule_calls v has_game context names key [] = ok []
    rule_calls v has_game context names key (rule ∷ rules) = do
      finished ← finish_rule v context names rule
      first ← family_calls v has_game key finished ipv4
      second ← family_calls v has_game key finished ipv6
      rest ← rule_calls v has_game context names key rules
      ok (first ++ (second ++ rest))

    unfoldable pub chain_calls :
        Values → Bool → String → List (String × String) → Chains → Result (List Call)
    unfolding rule_calls
    chain_calls v has_game context names [] = ok []
    chain_calls v has_game context names ((key, rules) ∷ own) = do
      first ← rule_calls v has_game context names key rules
      rest ← chain_calls v has_game context names own
      ok (first ++ rest)

    unfoldable pub iptables_records :
        Values → Bool → Purpose → List (List String) → Compiler → Result Compiler
    unfolding own_chains chain_calls drop_text make_all
    iptables_records v has_game purpose records c = do
      own ← own_chains purpose records []
      calls ← chain_calls v has_game purpose.context (all_names purpose.context own) own
      ok (make_all short calls c)
