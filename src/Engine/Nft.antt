-- ===== src/Engine/Nft.antt =====
-- `nft_transaction`, the nftables branches of `snapshot` and of `require_owned_present`, and what they
-- share, in core/engine.py. What nft prints of a chain, or that it fails, is an argument; a transaction
-- is its lines before they are joined, and the text of a table is one of them.
use Prim.Native.Nat.{Ordering}
use Prim.Native.String.{compare, then as first_of}
use l4d2_iptable_suite.Base.{
  ℕ, Bool, true, ◌&&◌, ◌===◌, String, Option, none, some, List, [], ◌∷◌, ◌++◌, map, any,
  if◌then◌else◌,
}
use l4d2_iptable_suite.Base.Result.{Result, ok, err, policy_error, require, ◌>>=◌, ◌>>◌}
use l4d2_iptable_suite.Engine.SharedRule.{rule_semantics, same_semantics, canonical_shared_text}
use l4d2_iptable_suite.Engine.Shared.{Descriptor, same_marker, shared_descriptors}
use l4d2_iptable_suite.Engine.Inventory.{Row, inventory_chain}

-- a table's family and name
abbrev pub TableKey : Type 0
TableKey = String × String

pub record Object : Type 0 where
  pub family : String
  pub name : String
  pub text : String

pub record NftPolicy : Type 0 where
  pub objects : List Object
  pub shared_rules : List Descriptor

pub data Line : Type 0 where
  delete_table : (key : TableKey) → Line
  table_text : (text : String) → Line
  delete_rule : (family table chain : String) (handle : ℕ) → Line
  insert_rule : (family table chain text : String) → Line
  -- the two of `pin_transaction` in core/legacy.py
  delete_handle : (family : String) (handle : ℕ) → Line
  destroy_table : (key : TableKey) → Line

abbrev pub same_key : TableKey → TableKey → Bool
same_key a b = (a.0 === b.0) && (a.1 === b.1)

abbrev pub has_key : TableKey → List TableKey → Bool
has_key key keys = any (same_key key) keys

abbrev pub key_of : Object → TableKey
key_of o = (o.family, o.name)

-- `p.get('objects', [])` and `p.get('shared_rules', [])` of the policies that are there
unfoldable pub keys_of : List (Option NftPolicy) → List TableKey
keys_of [] = []
keys_of (none ∷ policies) = keys_of policies
keys_of (some p ∷ policies) = map key_of p.objects ++ keys_of policies

unfoldable pub shared_of : List (Option NftPolicy) → List (List Descriptor)
shared_of [] = []
shared_of (none ∷ policies) = shared_of policies
shared_of (some p ∷ policies) = p.shared_rules ∷ shared_of policies

abbrev pub target_objects : Option NftPolicy → List Object
target_objects none = []
target_objects (some p) = p.objects

abbrev pub target_rules : Option NftPolicy → List Descriptor
target_rules none = []
target_rules (some p) = p.shared_rules

-- `sorted` of a set of keys
unfoldable pub insert_key : TableKey → List TableKey → List TableKey
insert_key key [] = key ∷ []
insert_key key (k ∷ keys) =
    let rest = insert_key key keys in
    elim (first_of (compare key.0 k.0) (compare key.1 k.1)) [
      | Ordering.lt ↦ key ∷ k ∷ keys
      | Ordering.eq ↦ k ∷ keys
      | Ordering.gt ↦ k ∷ rest
    ]

unfoldable pub sorted_keys : List TableKey → List TableKey
unfolding insert_key
sorted_keys [] = []
sorted_keys (key ∷ keys) = insert_key key (sorted_keys keys)

unfoldable pub delete_lines : List TableKey → List TableKey → List Line
delete_lines [] live = []
delete_lines (key ∷ keys) live =
    let rest = delete_lines keys live in if has_key key live then delete_table key ∷ rest else rest

-- `row['comment'] == desc['comment']`
unfoldable pub rows_with : String → List Row → List Row
rows_with comment [] = []
rows_with comment (row ∷ rows) =
    let rest = rows_with comment rows in if row.comment === comment then row ∷ rest else rest

-- `registered.get(key)`
unfoldable pub registered_as : Descriptor → List Descriptor → Option Descriptor
registered_as desc [] = none
registered_as desc (d ∷ descs) =
    let rest = registered_as desc descs in if same_marker d desc then some d else rest

-- `union[0] if union else None`, and `union[1]`
abbrev pub first_rules : List (Option NftPolicy) → List (List Descriptor)
first_rules [] = []
first_rules (p ∷ ps) = shared_of (p ∷ [])

abbrev pub second_rules : Bool → List (Option NftPolicy) → List (List Descriptor)
second_rules true (p ∷ q ∷ ps) = shared_of (q ∷ [])
second_rules _ _ = []

module _ (network : String → Option (Bool × String))
    (list_chain : String → String → String → Option (List String)) where
  -- one turn of the loop on descriptors: the rule that is there is deleted by its handle
  unfoldable pub replace_rule : List Descriptor → Descriptor → List Row → Result (List Line)
  unfolding registered_as rule_semantics
  replace_rule registered desc [] = ok []
  replace_rule registered desc (row ∷ []) = elim (registered_as desc registered) [
    | none ↦ err (policy_error "Unregistered shared rule marker collision")
    | some owned ↦ do
      now ← rule_semantics network row.text
      was ← rule_semantics network owned.text
      require (same_semantics now was) "Registered shared rule changed"
      ok (delete_rule desc.family desc.table desc.chain row.handle ∷ [])
  ]
  replace_rule registered desc (row ∷ next ∷ rows) =
      err (policy_error "Ambiguous shared rule marker")

  -- The loop on descriptors. A chain prints the same each time that it is asked for; an inventory
  -- that fails stops the transaction.
  unfoldable pub replace_rules : List Descriptor → List Descriptor → Result (List Line)
  unfolding replace_rule inventory_chain rows_with
  replace_rules registered [] = ok []
  replace_rules registered (desc ∷ descs) =
      inventory_chain (list_chain desc.family desc.table desc.chain) >>= λ rows.
      replace_rule registered desc (rows_with desc.comment rows) >>= λ lines.
      replace_rules registered descs >>= λ rest. ok (lines ++ rest)

  unfoldable pub insert_rules : List Descriptor → Result (List Line)
  unfolding canonical_shared_text
  insert_rules [] = ok []
  insert_rules (desc ∷ descs) = canonical_shared_text network desc.text >>= λ text.
      insert_rules descs >>= λ rest. ok (insert_rule desc.family desc.table desc.chain text ∷ rest)

  abbrev pub shared_lines :
      Option NftPolicy → List (Option NftPolicy) → Bool → List Descriptor → Result (List Line)
  shared_lines target union rollback [] = ok []
  shared_lines target union rollback (desc ∷ descs) =
      shared_descriptors network (first_rules union) >>= λ first.
      shared_descriptors network (second_rules rollback union) >>= λ second.
      replace_rules (second ++ first) (desc ∷ descs) >>= λ deleted.
      insert_rules (target_rules target) >>= λ inserted. ok (deleted ++ inserted)

  unfoldable pub nft_transaction :
      Option NftPolicy → List (Option NftPolicy) → List TableKey → Bool → Result (List Line)
  unfolding keys_of sorted_keys delete_lines shared_of shared_descriptors replace_rules insert_rules
  nft_transaction target union live rollback =
      shared_descriptors network (shared_of (union ++ (target ∷ []))) >>= λ descriptors.
      shared_lines target union rollback descriptors >>= λ shared. ok (
        delete_lines (sorted_keys (keys_of (union ++ (target ∷ [])))) live
        ++ (map (λ o. table_text o.text) (target_objects target) ++ shared))
