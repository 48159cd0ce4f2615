-- ===== src/Compiler.antt =====
-- `Compiler` of core/compiler.py: what it accumulates, and `chain` and `add`. The hashed name that
-- `short` gives a chain is an argument.

pub mod Rules
pub mod Core
pub mod Declared
pub mod Vpn
pub mod Scopes
pub mod Hooked
pub mod Dicts
pub mod HookedIp
pub mod Nat
pub mod VpnPolicy
pub mod Records
pub mod Policy
pub mod Modules
pub mod Containers
pub mod Build
use Prim.Native.String.{slice}
use l4d2_iptable_suite.Base.{
  Bool, true, false, ◌===◌, String, ◌<>◌, Option, none, some, List, [], ◌∷◌, ◌++◌, any,
  if◌then◌else◌,
}
use l4d2_iptable_suite.Base.Sets.{lookup, lookup_or, member}
use l4d2_iptable_suite.Engine.Save.{Rule}
use l4d2_iptable_suite.Engine.Iptables.{Hook, Chains}

-- `short`, where the digest of a name is an argument
abbrev pub short_name : (String → String) → String → String
short_name digest name = "L4S_" <> slice (digest name) 0 16

pub data Family : Type 0 where
  ipv4 ipv6 : Family

-- the nftables tables that are written: `inet`, and `ip` or `ip6` with the name that ends in `_nat4`
-- or `_nat6`
pub data Key : Type 0 where
  inet : Key
  nat_of : Family → Key

-- where a rule goes: the filter table for one family or for both, or the nat table of a family
pub data Place : Type 0 where
  filter_for : Option Family → Place
  nat_for : Family → Place

-- the lines `add chain` and `add rule` of an object, without the table's name that both repeat
pub data Statement : Type 0 where
  chain_line rule_line : (name text : String) → Statement

-- the object of a table: its lines, and the chains in `nf_chains`
pub record Object : Type 0 where
  pub lines : List Statement
  pub declared : List String

-- a rule for the chain DOCKER-USER of the table `filter`
pub record SharedRule : Type 0 where
  pub family : String
  pub comment : String
  pub text : String

pub record Compiler : Type 0 where
  pub is_nft : Bool
  pub objects : Key → Object
  pub ip : Family → List (String × Chains)
  pub hooks : List Hook
  pub shared_rules : List SharedRule

abbrev pub same_family : Family → Family → Bool
same_family ipv4 ipv4 = true
same_family ipv6 ipv6 = true
same_family _ _ = false

abbrev pub same_key : Key → Key → Bool
same_key inet inet = true
same_key (nat_of f) (nat_of g) = same_family f g
same_key _ _ = false

-- `__init__`
abbrev pub start : Bool → Compiler
start is_nft = record {
  is_nft = is_nft;
  objects = λ key. record { lines = []; declared = [] };
  ip = λ family. ("filter", []) ∷ [];
  hooks = [];
  shared_rules = [];
}

-- `d[k] = v`, of the tables and of the families
abbrev pub set_object : Key → Object → (Key → Object) → Key → Object
set_object key object objects k = if same_key k key then object else objects k

abbrev pub set_family :
    Family
    → List (String × Chains)
    → (Family → List (String × Chains))
    → Family
    → List (String × Chains)
set_family family tables ip f = if same_family f family then tables else ip f

-- `d.setdefault(k, v)`, and `d[k] = change(d[k])` at a key that is there
unfoldable pub set_default {ℓ} : {A : Type ℓ} → String → A → List (String × A) → List (String × A)
set_default k v [] = (k, v) ∷ []
set_default k v ((j, w) ∷ d) =
    let rest = set_default k v d in if j === k then (j, w) ∷ d else (j, w) ∷ rest

unfoldable pub change_at {ℓ} :
    {A : Type ℓ} → String → (A → A) → List (String × A) → List (String × A)
change_at k change [] = []
change_at k change ((j, w) ∷ d) =
    let rest = change_at k change d in if j === k then (j, change w) ∷ d else (j, w) ∷ rest

abbrev pub key_of : Place → Key
key_of (filter_for family) = inet
key_of (nat_for family) = nat_of family

abbrev pub table_of : Place → String
table_of (filter_for family) = "filter"
table_of (nat_for family) = "nat"

-- `type`, `hook`, `priority` and `policy` of a base chain
abbrev pub chain_spec : Key → Option String → String
chain_spec key none = ""
chain_spec inet (some base) =
    " { type filter hook "
    <> base
    <> " priority -5; policy "
    <> (if base === "input" then "drop" else "accept")
    <> "; }"
chain_spec (nat_of family) (some base) =
    " { type nat hook "
    <> base
    <> " priority "
    <> (if base === "postrouting" then "100" else "-100")
    <> "; policy "
    <> (if base === "input" then "drop" else "accept")
    <> "; }"

-- the nftables branch of `chain`
abbrev pub declare : String → String → Object → Object
declare name spec object = if member name object.declared then object else record {
  lines = object.lines ++ (chain_line name spec ∷ []);
  declared = name ∷ object.declared;
}

unfoldable pub nft_chain : Key → String → Option String → Compiler → Compiler
nft_chain key name base c = record c {
  objects = set_object key (declare name (chain_spec key base) (c.objects key)) c.objects;
}

-- the iptables branch of `chain`: the table and the chain are there afterwards
unfoldable pub ip_chain : Family → String → String → Compiler → Compiler
unfolding set_default change_at
ip_chain family table name c = record c {
  ip =
      set_family family (change_at table (set_default name []) (set_default table [] (c.ip family)))
        c.ip;
}

-- `chain` in the filter table, for IPv4
unfoldable pub chain : (String → String) → String → Option String → Compiler → Compiler
unfolding nft_chain ip_chain
chain short logical base c =
    if c.is_nft then nft_chain inet logical base c else ip_chain ipv4 "filter" (short logical) c

abbrev pub families_of : Place → List Family
families_of (filter_for none) = ipv4 ∷ ipv6 ∷ []
families_of (filter_for (some family)) = family ∷ []
families_of (nat_for family) = family ∷ []

abbrev pub with_family : Place → String → String
with_family (filter_for (some ipv4)) text = "meta nfproto ipv4 " <> text
with_family (filter_for (some ipv6)) text = "meta nfproto ipv6 " <> text
with_family place text = text

abbrev pub append_line : Statement → Object → Object
append_line line object = record object { lines = object.lines ++ (line ∷ []) }

-- the nftables branch of `add`
unfoldable pub nft_add : Place → String → String → Compiler → Compiler
unfolding nft_chain
nft_add place name text c =
    let d = nft_chain (key_of place) name none c in
    record d {
      objects =
          set_object (key_of place)
            (append_line (rule_line name (with_family place text)) (d.objects (key_of place)))
            d.objects;
    }

-- the iptables branch of `add`, in each family
unfoldable pub ip_add : List Family → String → String → Rule → Compiler → Compiler
unfolding ip_chain change_at
ip_add [] table name rule c = c
ip_add (family ∷ families) table name rule c =
    let d = ip_chain family table name c in
    ip_add families table name rule (record d {
      ip =
          set_family family
            (change_at table (change_at name (λ rules. rules ++ (rule ∷ []))) (d.ip family)) d.ip;
    })

unfoldable pub add : (String → String) → Place → String → String → Rule → Compiler → Compiler
unfolding nft_add ip_add
add short place logical nf ip c =
    if c.is_nft
    then nft_add place logical nf c
    else ip_add (families_of place) (table_of place) (short logical) ip c
