-- ===== src/Compiler/Hooked.antt =====
-- The NAT chains of `Compiler` in core/compiler.py: each is declared as a base chain, on the hook of its
-- name.
use mathlib.Core.Path.{subst}
use l4d2_iptable_suite.Base.{
  ◌≡◌, refl, sym, ap, ◌∙◌, true, false, Bool-cases, inl, inr, String, Option, none, some, List, [],
  ◌∷◌, All, All-append, if◌then◌else◌,
}
use l4d2_iptable_suite.Base.Sets.{member}
use l4d2_iptable_suite.Engine.Save.{Rule}
use l4d2_iptable_suite.Compiler.{
  Key, inet, nat_of, Family, ipv4, ipv6, Place, filter_for, nat_for, Statement, chain_line,
  rule_line, Object, Compiler, set_object, key_of, declare, append_line, chain_spec, with_family,
  nft_chain, ip_chain, nft_add, ip_add, add, families_of,
}
use l4d2_iptable_suite.Compiler.Vpn.{nat_rule}
use l4d2_iptable_suite.Compiler.Declared.{set_object-at, declare-member}

-- the declaration of a base chain, on the hook that the chain has as its name
abbrev pub IsHooked : Family → Statement → Type 0
IsHooked family (chain_line name text) = text ≡ chain_spec (nat_of family) (some name)
IsHooked family (rule_line name text) = Unit

abbrev pub HookedAt : Key → Object → Type 0
HookedAt inet object = Unit
HookedAt (nat_of family) object = All (IsHooked family) object.lines

abbrev pub AllHooked : Compiler → Type 0
AllHooked c = (key : Key) → HookedAt key (c.objects key)

set_object-AllHooked :
    (key : Key) (object : Object) (objects : Key → Object)
    → HookedAt key object
    → ((k : Key) → HookedAt k (objects k))
    → (k : Key) → HookedAt k (set_object key object objects k)
set_object-AllHooked key object objects one all inet = tt
set_object-AllHooked inet object objects one all (nat_of f) = all (nat_of f)
set_object-AllHooked (nat_of ipv4) object objects one all (nat_of ipv4) = one
set_object-AllHooked (nat_of ipv4) object objects one all (nat_of ipv6) = all (nat_of ipv6)
set_object-AllHooked (nat_of ipv6) object objects one all (nat_of ipv4) = all (nat_of ipv4)
set_object-AllHooked (nat_of ipv6) object objects one all (nat_of ipv6) = one

declare-HookedAt :
    (key : Key) (name : String) (object : Object)
    → HookedAt key object
    → HookedAt key (declare name (chain_spec key (some name)) object)
declare-HookedAt inet name object h = tt
declare-HookedAt (nat_of f) name object h = elim (Bool-cases (member name object.declared)) [
  | inl e ↦ rw e h
  | inr e ↦ rw e (All-append (IsHooked f) object.lines _ h (refl, tt))
]

-- a chain is declared once
declare-again :
    (name spec : String) (object : Object)
    → member name object.declared ≡ true
    → declare name spec object ≡ object
declare-again name spec object e = rw e refl

append_line-HookedAt :
    (key : Key) (name text : String) (object : Object)
    → HookedAt key object
    → HookedAt key (append_line (rule_line name text) object)
append_line-HookedAt inet name text object h = tt
append_line-HookedAt (nat_of f) name text object h =
    All-append (IsHooked f) object.lines _ h (tt, tt)

nft_chain-AllHooked :
    (key : Key) (name : String) (c : Compiler)
    → AllHooked c
    → AllHooked (nft_chain key name (some name) c)
unfolding nft_chain
nft_chain-AllHooked key name c all =
    set_object-AllHooked key _ c.objects (declare-HookedAt key name (c.objects key) (all key)) all

nft_add-AllHooked :
    (place : Place) (name text : String) (c : Compiler)
    → HookedAt
        (key_of place)
        (declare name (chain_spec (key_of place) none) (c.objects (key_of place)))
    → AllHooked c
    → AllHooked (nft_add place name text c)
unfolding nft_add nft_chain
nft_add-AllHooked place name text c one all =
    let d_all = set_object-AllHooked (key_of place) _ c.objects one all in
    set_object-AllHooked (key_of place) _ _
      (append_line-HookedAt (key_of place) name (with_family place text) _ (d_all (key_of place)))
      d_all

ip_add-AllHooked :
    (families : List Family) (table name : String) (rule : Rule) (c : Compiler)
    → AllHooked c
    → AllHooked (ip_add families table name rule c)
unfolding ip_add ip_chain
ip_add-AllHooked [] table name rule c all = all
ip_add-AllHooked (family ∷ families) table name rule c all =
    ip_add-AllHooked families table name rule _ all

-- a rule of the filter table
pub add-AllHooked :
    (short : String → String) (family : Option Family) (logical nf : String) (ip : Rule)
    (c : Compiler)
    → AllHooked c
    → AllHooked (add short (filter_for family) logical nf ip c)
unfolding add
add-AllHooked short family logical nf ip c all =
    elim c.is_nft
      as (λ b. AllHooked (
        if b
        then nft_add (filter_for family) logical nf c
        else ip_add (families_of (filter_for family)) "filter" (short logical) ip c)) [
          | true ↦ nft_add-AllHooked (filter_for family) logical nf c tt all
          | false ↦
              ip_add-AllHooked (families_of (filter_for family)) "filter" (short logical) ip c all
        ]

-- a rule of a NAT table, whose base chain is declared first
nft_nat-AllHooked :
    (f : Family) (logical nf : String) (c : Compiler)
    → AllHooked c
    → AllHooked (nft_add (nat_for f) logical nf (nft_chain (nat_of f) logical (some logical) c))
unfolding nft_chain
nft_nat-AllHooked f logical nf c all =
    let d = nft_chain (nat_of f) logical (some logical) c in
    let d_all = nft_chain-AllHooked (nat_of f) logical c all in
    let spec = chain_spec (nat_of f) (some logical) in
    let there : member logical (d.objects (nat_of f)).declared ≡ true =
      ap (λ o. member logical o.declared)
        (set_object-at (nat_of f) (declare logical spec (c.objects (nat_of f))) c.objects)
      ∙ declare-member logical spec (c.objects (nat_of f)) in
    nft_add-AllHooked (nat_for f) logical nf d
      (subst (HookedAt (nat_of f)) (sym (declare-again logical "" (d.objects (nat_of f)) there))
        (d_all (nat_of f)))
      d_all

pub nat_rule-AllHooked :
    (short : String → String) (f : Family) (logical parent nf : String) (ip : Rule) (c : Compiler)
    → AllHooked c
    → AllHooked (nat_rule short f logical parent nf ip c)
unfolding nat_rule add ip_chain nft_chain nft_add
nat_rule-AllHooked short f logical parent nf ip c all =
    elim c.is_nft
      as (λ b. AllHooked (nat_rule short f logical parent nf ip (record c { is_nft = b }))) [
        | true ↦ nft_nat-AllHooked f logical nf (record c { is_nft = true }) all
        | false ↦
            ip_add-AllHooked (f ∷ []) "nat" (short logical) ip
              (ip_chain f "nat" (short logical) (record c { is_nft = false })) all
      ]
