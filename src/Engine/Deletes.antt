-- ===== src/Engine/Deletes.antt =====
-- What `nft_transaction` of core/engine.py deletes.
use Prim.Native.Nat.{Ordering}
use Prim.Native.String.{compare, then as first_of}
use l4d2_iptable_suite.Base.{
  ◌≡◌, refl, Bool, true, ◌||◌, eq_refl, String, Option, none, some, List, [], ◌∷◌, ◌++◌, map, All,
  All-append, arith, Bool-cases, inl, inr,
}
use l4d2_iptable_suite.Base.Result.{ok, err, policy_error, require, ◌>>=◌, ◌>>◌}
use l4d2_iptable_suite.Engine.Nft.{
  TableKey, NftPolicy, Object, Line, delete_table, table_text, delete_rule, insert_rule,
  delete_handle, destroy_table, has_key, key_of, keys_of, insert_key, sorted_keys, registered_as,
  target_rules, rows_with, first_rules, second_rules, replace_rule, replace_rules, insert_rules,
  delete_lines, shared_of, shared_lines, nft_transaction, target_objects,
}
use mathlib.Core.List.{append_assoc}
use l4d2_iptable_suite.Base.Yields.{Yields, ok-Yields, err-Yields, bind-Yields, require-Yields}
use l4d2_iptable_suite.Engine.SharedRule.{rule_semantics, same_semantics, canonical_shared_text}
use l4d2_iptable_suite.Engine.Shared.{Descriptor, shared_descriptors}
use l4d2_iptable_suite.Engine.Inventory.{Row, inventory_chain}

-- a table that is there is one of the owned
abbrev pub IsOwnedIn : List TableKey → List TableKey → TableKey → Type 0
IsOwnedIn live owned key = has_key key live ≡ true → has_key key owned ≡ true

-- A line deletes a table only if it is there and owned.
abbrev pub SparesForeign : List TableKey → List TableKey → Line → Type 0
SparesForeign live owned (delete_table key) = (has_key key live ≡ true) × (has_key key owned ≡ true)
SparesForeign live owned (delete_handle family handle) = ⊥
SparesForeign live owned (destroy_table key) = ⊥
SparesForeign live owned _ = Unit

pub insert_key-All {κ} :
    (P : TableKey → Type κ) (key : TableKey) (keys : List TableKey)
    → P key
    → All P keys
    → All P (insert_key key keys)
unfolding insert_key
insert_key-All P key [] h all = (h, tt)
insert_key-All P key (k ∷ keys) h all =
    elim (first_of (compare key.0 k.0) (compare key.1 k.1))
      as (λ o. All P (elim o [
        | Ordering.lt ↦ key ∷ k ∷ keys
        | Ordering.eq ↦ k ∷ keys
        | Ordering.gt ↦ k ∷ insert_key key keys
      ])) [
        | Ordering.lt ↦ (h, all)
        | Ordering.eq ↦ all
        | Ordering.gt ↦ (all.0, insert_key-All P key keys h all.1)
      ]

pub sorted_keys-All {κ} :
    (P : TableKey → Type κ) (keys : List TableKey) → All P keys → All P (sorted_keys keys)
unfolding sorted_keys
sorted_keys-All P [] all = tt
sorted_keys-All P (key ∷ keys) all =
    insert_key-All P key (sorted_keys keys) all.0 (sorted_keys-All P keys all.1)

pub has_key-append :
    (key : TableKey) (xs ys : List TableKey)
    → has_key key (xs ++ ys) ≡ (has_key key xs || has_key key ys)
has_key-append key [] ys = refl
has_key-append key (x ∷ xs) ys = ground (arith, has_key-append key xs ys)

pub has_key-head : (key : TableKey) (keys : List TableKey) → has_key key (key ∷ keys) ≡ true
has_key-head key keys = ground (arith, eq_refl key.0, eq_refl key.1)

-- the keys of a list stay owned when others are, in front or behind
pub All-weaken :
    (keys live owned more : List TableKey)
    → ((key : TableKey) → has_key key owned ≡ true → has_key key more ≡ true)
    → All (IsOwnedIn live owned) keys
    → All (IsOwnedIn live more) keys
All-weaken [] live owned more step all = tt
All-weaken (key ∷ keys) live owned more step all =
    ((λ there. step key (all.0 there)), All-weaken keys live owned more step all.1)

pub All-owned : (keys live : List TableKey) → All (IsOwnedIn live keys) keys
All-owned [] live = tt
All-owned (key ∷ keys) live = (
  (λ there. has_key-head key keys),
  All-weaken keys live keys (key ∷ keys) (λ k h. ground (arith, h)) (All-owned keys live),
)

pub delete_lines-All :
    (keys live owned : List TableKey)
    → All (IsOwnedIn live owned) keys
    → All (SparesForeign live owned) (delete_lines keys live)
unfolding delete_lines
delete_lines-All [] live owned all = tt
delete_lines-All (key ∷ keys) live owned all = elim (Bool-cases (has_key key live)) [
  | inl there ↦ rw there ((there, all.0 there), delete_lines-All keys live owned all.1)
  | inr gone ↦ rw gone (delete_lines-All keys live owned all.1)
]

pub keys_of-append :
    (ps qs : List (Option NftPolicy)) → keys_of (ps ++ qs) ≡ keys_of ps ++ keys_of qs
unfolding keys_of
keys_of-append [] qs = refl
keys_of-append (none ∷ ps) qs = keys_of-append ps qs
keys_of-append (some p ∷ ps) qs = rw (keys_of-append ps qs, append_assoc) refl

pub keys_of-All :
    (P : TableKey → Type 0) (ps qs : List (Option NftPolicy))
    → All P (keys_of ps)
    → All P (keys_of qs)
    → All P (keys_of (ps ++ qs))
keys_of-All P ps qs h k = rw (keys_of-append ps qs) (All-append P (keys_of ps) (keys_of qs) h k)

pub keys_of-some :
    (P : TableKey → Type 0) (p : NftPolicy) (ps : List (Option NftPolicy))
    → All P (map key_of p.objects)
    → All P (keys_of ps)
    → All P (keys_of (some p ∷ ps))
unfolding keys_of
keys_of-some P p ps h k = All-append P (map key_of p.objects) (keys_of ps) h k

pub SparesForeign-texts :
    (live owned : List TableKey) (objects : List Object) (rest : List Line)
    → All (SparesForeign live owned) rest
    → All (SparesForeign live owned) (map (λ o. table_text o.text) objects ++ rest)
SparesForeign-texts live owned [] rest all = all
SparesForeign-texts live owned (o ∷ objects) rest all =
    (tt, SparesForeign-texts live owned objects rest all)

module _ (network : String → Option (Bool × String))
    (list_chain : String → String → String → Option (List String))
    (live owned : List TableKey) where
  abbrev Spares : List Line → Type 0
  Spares lines = All (SparesForeign live owned) lines

  replace_rule-Spares :
      (registered : List Descriptor) (desc : Descriptor) (rows : List Row)
      → Yields Spares (replace_rule network list_chain registered desc rows)
  unfolding replace_rule
  replace_rule-Spares registered desc [] = ok-Yields Spares [] tt
  replace_rule-Spares registered desc (row ∷ []) =
      elim (registered_as desc registered)
        as (λ o. Yields Spares (elim o [
          | none ↦ err (policy_error "Unregistered shared rule marker collision")
          | some owned_rule ↦ do
            now ← rule_semantics network row.text
            was ← rule_semantics network owned_rule.text
            require (same_semantics now was) "Registered shared rule changed"
            ok (delete_rule desc.family desc.table desc.chain row.handle ∷ [])
        ])) [
          | none ↦ err-Yields Spares _
          | some owned_rule ↦ bind-Yields Spares (rule_semantics network row.text) _ (λ now _.
              bind-Yields Spares (rule_semantics network owned_rule.text) _ (λ was _.
                require-Yields Spares (same_semantics now was) "Registered shared rule changed" _
                  (λ same.
                    ok-Yields Spares (delete_rule desc.family desc.table desc.chain row.handle ∷ [])
                      (tt, tt))))
        ]
  replace_rule-Spares registered desc (row ∷ next ∷ rows) = err-Yields Spares _

  replace_rules-Spares :
      (registered descs : List Descriptor)
      → Yields Spares (replace_rules network list_chain registered descs)
  unfolding replace_rules
  replace_rules-Spares registered [] = ok-Yields Spares [] tt
  replace_rules-Spares registered (desc ∷ descs) =
      bind-Yields Spares (inventory_chain (list_chain desc.family desc.table desc.chain)) _
        (λ rows _.
          bind-Yields Spares
            (replace_rule network list_chain registered desc (rows_with desc.comment rows)) _
            (λ lines first.
              bind-Yields Spares (replace_rules network list_chain registered descs) _
                (λ rest after. ok-Yields Spares (lines ++ rest) (
                  All-append (SparesForeign live owned) lines rest
                    (replace_rule-Spares registered desc _ lines first)
                    (replace_rules-Spares registered descs rest after)))))

  insert_rules-Spares :
      (descs : List Descriptor) → Yields Spares (insert_rules network list_chain descs)
  unfolding insert_rules
  insert_rules-Spares [] = ok-Yields Spares [] tt
  insert_rules-Spares (desc ∷ descs) =
      bind-Yields Spares (canonical_shared_text network desc.text) _ (λ text _.
        bind-Yields Spares (insert_rules network list_chain descs) _ (λ rest after.
          ok-Yields Spares (insert_rule desc.family desc.table desc.chain text ∷ rest)
            (tt, insert_rules-Spares descs rest after)))

  shared_lines-Spares :
      (target : Option NftPolicy) (union : List (Option NftPolicy)) (rollback : Bool)
      (descs : List Descriptor)
      → Yields Spares (shared_lines network list_chain target union rollback descs)
  shared_lines-Spares target union rollback [] = ok-Yields Spares [] tt
  shared_lines-Spares target union rollback (desc ∷ descs) =
      bind-Yields Spares (shared_descriptors network (first_rules union)) _ (λ first _.
        bind-Yields Spares (shared_descriptors network (second_rules rollback union)) _ (λ second _.
          bind-Yields Spares (replace_rules network list_chain (second ++ first) (desc ∷ descs)) _
            (λ deleted del.
              bind-Yields Spares (insert_rules network list_chain (target_rules target)) _
                (λ inserted ins. ok-Yields Spares (deleted ++ inserted) (
                  All-append (SparesForeign live owned) deleted inserted
                    (replace_rules-Spares (second ++ first) (desc ∷ descs) deleted del)
                    (insert_rules-Spares (target_rules target) inserted ins))))))

  -- Whatever the policies are: if their tables are owned where they are there, no other is deleted.
  pub nft_transaction-Spares :
      (target : Option NftPolicy) (union : List (Option NftPolicy)) (rollback : Bool)
      → All (IsOwnedIn live owned) (keys_of (union ++ (target ∷ [])))
      → Yields Spares (nft_transaction network list_chain target union live rollback)
  unfolding nft_transaction
  nft_transaction-Spares target union rollback all =
      bind-Yields Spares (shared_descriptors network (shared_of (union ++ (target ∷ [])))) _
        (λ descriptors _.
          bind-Yields Spares (shared_lines network list_chain target union rollback descriptors) _
            (λ shared sh.
              ok-Yields Spares
                (delete_lines (sorted_keys (keys_of (union ++ (target ∷ [])))) live
                  ++ (map (λ o. table_text o.text) (target_objects target) ++ shared))
                (All-append (SparesForeign live owned)
                  (delete_lines (sorted_keys (keys_of (union ++ (target ∷ [])))) live) _
                  (delete_lines-All _ live owned (sorted_keys-All _ _ all))
                  (SparesForeign-texts live owned (target_objects target) shared
                    (shared_lines-Spares target union rollback descriptors shared sh)))))
