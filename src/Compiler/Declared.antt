-- ===== src/Compiler/Declared.antt =====
-- The order of the lines of `Compiler` in core/compiler.py: chains before the rules in them.
use l4d2_iptable_suite.Base.{
  ◌≡◌, refl, ap, ◌∙◌, true, false, eq_refl, String, Option, none, some, List, [], ◌∷◌, ◌++◌, arith,
  if◌then◌else◌,
}
use l4d2_iptable_suite.Base.Sets.{member}
use l4d2_iptable_suite.Engine.Save.{Rule}
use l4d2_iptable_suite.Compiler.{
  Key, Place, Statement, chain_line, rule_line, Object, Compiler, set_object, key_of, declare,
  append_line, same_key, chain_spec, with_family, nft_chain, ip_chain, chain, nft_add, ip_add, add,
  families_of, table_of, Family,
}

-- The chains that one line leaves declared: a chain is declared once, and a rule stands in a
-- declared one.
abbrev pub read_line : List String → Statement → Option (List String)
read_line seen (chain_line name text) = if member name seen then none else some (name ∷ seen)
read_line seen (rule_line name text) = if member name seen then some seen else none

unfoldable pub read_lines : List String → List Statement → Option (List String)
read_lines seen [] = some seen
read_lines seen (line ∷ lines) = elim (read_line seen line) [
  | none ↦ none
  | some next ↦ read_lines next lines
]

-- nft can read the object from the top, and what it has declared then is what the compiler noted
abbrev pub IsReadable : Object → Type 0
IsReadable object = read_lines [] object.lines ≡ some object.declared

abbrev pub AllReadable : Compiler → Type 0
AllReadable c = (key : Key) → IsReadable (c.objects key)

read_lines-snoc :
    (seen : List String) (lines : List Statement) (line : Statement) (found : List String)
    → read_lines seen lines ≡ some found
    → read_lines seen (lines ++ (line ∷ []))
      ≡ elim (read_line found line) [ none ↦ none | some next ↦ some next ]
unfolding read_lines
read_lines-snoc seen [] line found h = cc
read_lines-snoc seen (first ∷ lines) line found h =
    elim (read_line seen first)
        as (λ r.
          (elim r [ none ↦ none | some next ↦ read_lines next lines ]) ≡ some found
          → (elim r [ none ↦ none | some next ↦ read_lines next (lines ++ (line ∷ [])) ])
            ≡ (elim (read_line found line) [ none ↦ none | some next ↦ some next ])) [
              | none ↦ (λ h. cc)
              | some next ↦ read_lines-snoc next lines line found
            ]
      h

declare-IsReadable :
    (name spec : String) (object : Object)
    → IsReadable object
    → IsReadable (declare name spec object)
declare-IsReadable name spec object h =
    let snoc = read_lines-snoc [] object.lines (chain_line name spec) object.declared h in
    ground (arith, h, snoc)

append_line-IsReadable :
    (name text : String) (object : Object)
    → member name object.declared ≡ true
    → IsReadable object
    → IsReadable (append_line (rule_line name text) object)
append_line-IsReadable name text object there h =
    let snoc = read_lines-snoc [] object.lines (rule_line name text) object.declared h in
    ground (arith, snoc, there, h)

pub declare-member :
    (name spec : String) (object : Object) → member name (declare name spec object).declared ≡ true
declare-member name spec object = ground (arith, eq_refl name)

set_object-AllReadable :
    (key : Key) (object : Object) (objects : Key → Object)
    → IsReadable object
    → ((k : Key) → IsReadable (objects k))
    → (k : Key) → IsReadable (set_object key object objects k)
set_object-AllReadable key object objects one all k =
    elim (same_key k key) as (λ b. IsReadable (if b then object else objects k)) [
      | true ↦ one
      | false ↦ all k
    ]

pub nft_chain-AllReadable :
    (key : Key) (name : String) (base : Option String) (c : Compiler)
    → AllReadable c
    → AllReadable (nft_chain key name base c)
unfolding nft_chain
nft_chain-AllReadable key name base c all =
    set_object-AllReadable key (declare name (chain_spec key base) (c.objects key)) c.objects
      (declare-IsReadable name (chain_spec key base) (c.objects key) (all key)) all

same_key_refl : (key : Key) → same_key key key ≡ true
same_key_refl Key.inet = refl
same_key_refl (Key.nat_of Family.ipv4) = refl
same_key_refl (Key.nat_of Family.ipv6) = refl

pub set_object-at :
    (key : Key) (object : Object) (objects : Key → Object)
    → set_object key object objects key ≡ object
set_object-at key object objects = ap (λ b. if b then object else objects key) (same_key_refl key)

nft_add-AllReadable :
    (place : Place) (name text : String) (c : Compiler)
    → AllReadable c
    → AllReadable (nft_add place name text c)
unfolding nft_add nft_chain
nft_add-AllReadable place name text c all =
    let d = nft_chain (key_of place) name none c in
    let d-all = nft_chain-AllReadable (key_of place) name none c all in
    set_object-AllReadable (key_of place)
      (append_line (rule_line name (with_family place text)) (d.objects (key_of place))) d.objects
      (append_line-IsReadable name (with_family place text) (d.objects (key_of place))
        (ap (λ o. member name o.declared)
            (set_object-at (key_of place)
              (declare name (chain_spec (key_of place) none) (c.objects (key_of place))) c.objects)
          ∙ declare-member name (chain_spec (key_of place) none) (c.objects (key_of place)))
        (d-all (key_of place)))
      d-all

pub ip_chain-AllReadable :
    (family : Family) (table name : String) (c : Compiler)
    → AllReadable c
    → AllReadable (ip_chain family table name c)
unfolding ip_chain
ip_chain-AllReadable family table name c all = all

ip_add-AllReadable :
    (families : List Family) (table name : String) (rule : Rule) (c : Compiler)
    → AllReadable c
    → AllReadable (ip_add families table name rule c)
unfolding ip_add ip_chain
ip_add-AllReadable [] table name rule c all = all
ip_add-AllReadable (family ∷ families) table name rule c all =
    ip_add-AllReadable families table name rule _ all

pub chain-AllReadable :
    (short : String → String) (logical : String) (base : Option String) (c : Compiler)
    → AllReadable c
    → AllReadable (chain short logical base c)
unfolding chain
chain-AllReadable short logical base c all =
    elim c.is_nft
      as (λ b. AllReadable (
        if b
        then nft_chain Key.inet logical base c
        else ip_chain Family.ipv4 "filter" (short logical) c)) [
          | true ↦ nft_chain-AllReadable Key.inet logical base c all
          | false ↦ ip_chain-AllReadable Family.ipv4 "filter" (short logical) c all
        ]

pub add-AllReadable :
    (short : String → String) (place : Place) (logical nf : String) (ip : Rule) (c : Compiler)
    → AllReadable c
    → AllReadable (add short place logical nf ip c)
unfolding add
add-AllReadable short place logical nf ip c all =
    elim c.is_nft
      as (λ b. AllReadable (
        if b
        then nft_add place logical nf c
        else ip_add (families_of place) (table_of place) (short logical) ip c)) [
          | true ↦ nft_add-AllReadable place logical nf c all
          | false ↦ ip_add-AllReadable (families_of place) (table_of place) (short logical) ip c all
        ]
