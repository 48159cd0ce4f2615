-- ===== src/Legacy/Made.antt =====
-- The entries that `_table_inventory` of core/legacy.py makes, and how `validate` reads them.
use l4d2_iptable_suite.Base.{
  ◌≡◌, refl, ap, ℕ, suc, ◌≤◌, true, false, not, ◌&&◌, ◌===◌, eq_iff, String, none, some, List, [],
  ◌∷◌, map, length, leb, leb→le, All, arith,
}
use l4d2_iptable_suite.Base.Int.{pos}
use l4d2_iptable_suite.Config.Ports.{codes}
use l4d2_iptable_suite.Config.Validate.{is_table_name}
use l4d2_iptable_suite.Base.Result.{ok, err, policy_error, type_error}
use l4d2_iptable_suite.Base.Yields.{Yields, ok-Yields, err-Yields, require-Yields}
use l4d2_iptable_suite.Base.Json.{
  Json, Items, Fields, null, int, str, is_str, value_or, arr, obj, nil, cons, end, field, get,
}
use l4d2_iptable_suite.Engine.Nft.{TableKey, same_key, has_key}
use l4d2_iptable_suite.Legacy.{
  Entry, Manifest, single, several, table_name, handle_member, is_digest, among, key_of,
  entry_members, validate_entry, validate_entries, validate_tables, are_distinct, items_count,
  validate,
}
use l4d2_iptable_suite.Legacy.Handover.{table_handle, listed_handle, read_handle, inventory_of}

-- the dictionaries that `_table_inventory` and `inventory` return
abbrev pub entry_fields : Entry → Fields
entry_fields e = field "family" (str e.family) (
    field "name" (str e.name)
      (field "handle" (int (pos e.handle)) (field "sha256" (str e.sha256) end)))

unfoldable pub entry_items : List Entry → Items
entry_items [] = nil
entry_items (e ∷ es) = cons (obj (entry_fields e)) (entry_items es)

abbrev pub manifest_json : Manifest → Json
manifest_json (single e) = obj (field "schema" (int (pos 1)) (entry_fields e))
manifest_json (several es) =
    obj (field "schema" (int (pos 2)) (field "tables" (arr (entry_items es)) end))

-- what the inventory makes sure of in an entry
pub record IsInventoried (families : List String) (e : Entry) : Type 0 where
  pub known_family : among e.family families ≡ true
  pub known_name : table_name e.name ≡ ok e.name
  pub known_handle : handle_member (int (pos e.handle)) ≡ ok e.handle
  pub known_digest : is_digest e.sha256 ≡ true

pub entry_members-json :
    (families : List String) (message : String) (e : Entry)
    → IsInventoried families e
    → entry_members families message (obj (entry_fields e)) ≡ ok e
unfolding entry_members
entry_members-json families message e i =
    rw (i.known_family) (rw (i.known_name) (rw (i.known_handle) (rw (i.known_digest) refl)))

pub validate_entry-json :
    (families : List String) (e : Entry)
    → IsInventoried families e
    → validate_entry families (obj (entry_fields e)) ≡ ok e
unfolding validate_entry
validate_entry-json families e i = entry_members-json families "Invalid legacy table family" e i

pub table_name_self : (name : String) → Yields (λ n. n ≡ name) (table_name name)
unfolding table_name
table_name_self name =
    require-Yields (λ n. n ≡ name) (is_table_name (codes name)) "Invalid legacy table name" _
      (λ _.
        require-Yields (λ n. n ≡ name) (not (name === "l4d2_boot_guard"))
          "Cannot hand over the independent boot guard" _
          (λ _. ok-Yields (λ n. n ≡ name) name refl))

abbrev pub IsHandle : ℕ → Type 0
IsHandle n = handle_member (int (pos n)) ≡ ok n

pub read_handle-IsHandle : (value : Json) → Yields IsHandle (read_handle value)
read_handle-IsHandle (int (pos (suc n))) = ok-Yields IsHandle (suc n) refl
read_handle-IsHandle value = err-Yields IsHandle (policy_error "Legacy table handle unavailable")

pub table_handle-IsHandle :
    (family name : String) (value : Json) → Yields IsHandle (table_handle family name value)
unfolding table_handle
table_handle-IsHandle family name (obj fs) =
    require-Yields IsHandle
      (is_str (value_or (get fs "name") null) name
        && is_str (value_or (get fs "family") null) family)
      "Unexpected legacy table inventory" _
      (λ _.
        elim (get fs "handle")
          as (λ o. Yields IsHandle (elim o [
            | none ↦ err (policy_error "Legacy table handle unavailable")
            | some value ↦ read_handle value
          ])) [ none ↦ err-Yields IsHandle _ | some value ↦ read_handle-IsHandle value ])
table_handle-IsHandle family name value = err-Yields IsHandle type_error

pub listed_handle-IsHandle :
    (family name : String) (values : List Json) → Yields IsHandle (listed_handle family name values)
unfolding listed_handle
listed_handle-IsHandle family name (value ∷ []) = table_handle-IsHandle family name value
listed_handle-IsHandle family name values = err-Yields IsHandle _

pub same_key_sym : (a b : TableKey) → same_key a b ≡ same_key b a
same_key_sym a b = ground (arith, eq_iff a.0 b.0, eq_iff b.0 a.0, eq_iff a.1 b.1, eq_iff b.1 a.1)

pub fresh_key :
    (key : TableKey) (seen keys : List TableKey)
    → All (λ k. has_key k (key ∷ seen) ≡ false) keys
    → has_key key keys ≡ false
fresh_key key seen [] all = refl
fresh_key key seen (k ∷ keys) all =
    ground (arith, all.0, same_key_sym key k, fresh_key key seen keys all.1)

pub fresh_rest :
    (key : TableKey) (seen keys : List TableKey)
    → All (λ k. has_key k (key ∷ seen) ≡ false) keys
    → All (λ k. has_key k seen ≡ false) keys
fresh_rest key seen [] all = tt
fresh_rest key seen (k ∷ keys) all = (ground (arith, all.0), fresh_rest key seen keys all.1)

-- the members of an entry that `_table_inventory` made
pub record IsMade (family name : String) (e : Entry) : Type 0 where
  pub same_family : e.family ≡ family
  pub same_name : e.name ≡ name
  pub good_name : table_name name ≡ ok name
  pub good_handle : IsHandle e.handle
  pub good_digest : is_digest e.sha256 ≡ true

pub made-IsInventoried :
    (families : List String) (family name : String) (e : Entry)
    → among family families ≡ true
    → IsMade family name e
    → IsInventoried families e
made-IsInventoried families family name e known made = record {
  known_family = rw made.same_family known;
  known_name = rw made.same_name made.good_name;
  known_handle = made.good_handle;
  known_digest = made.good_digest;
}

-- the entries of the NAT tables: they have the keys, which are distinct and not of those before
pub record IsNat (seen keys : List TableKey) (entries : List Entry) : Type 0 where
  pub are_good : All (IsInventoried ("ip" ∷ "ip6" ∷ [])) entries
  pub same_keys : map key_of entries ≡ keys
  pub are_fresh : All (λ k. has_key k seen ≡ false) keys
  pub are_apart : are_distinct keys ≡ true

le→leb : (a b : ℕ) → a ≤ b → leb a b ≡ true
le→leb a b h = ground arith

pub validate_entries-json :
    (entries : List Entry)
    → All (IsInventoried ("ip" ∷ "ip6" ∷ [])) entries
    → validate_entries false (entry_items entries) ≡ ok entries
unfolding validate_entries entry_items
validate_entries-json [] good = refl
validate_entries-json (e ∷ es) good =
    rw (validate_entry-json ("ip" ∷ "ip6" ∷ []) e good.0, validate_entries-json es good.1) refl

pub items_count-json : (entries : List Entry) → items_count (entry_items entries) ≡ length entries
unfolding items_count entry_items
items_count-json [] = refl
items_count-json (e ∷ es) = ap suc (items_count-json es)

pub validate-single :
    (e : Entry)
    → IsInventoried ("inet" ∷ []) e
    → validate (manifest_json (single e)) ≡ ok (single e)
unfolding validate entry_members
validate-single e i =
    rw (i.known_family) (rw (i.known_name) (rw (i.known_handle) (rw (i.known_digest) refl)))

pub validate-several :
    (inet : Entry) (entries : List Entry)
    → IsInventoried ("inet" ∷ []) inet
    → All (IsInventoried ("ip" ∷ "ip6" ∷ [])) entries
    → are_distinct (map key_of (inet ∷ entries)) ≡ true
    → 1 ≤ length entries
    → length entries ≤ 7
    → validate (manifest_json (several (inet ∷ entries))) ≡ ok (several (inet ∷ entries))
unfolding validate validate_tables validate_entries items_count entry_items
validate-several inet entries i good apart low high =
    rw
      (
        items_count-json entries,
        le→leb 2 (suc (length entries)) (omega arith),
        le→leb (suc (length entries)) 8 (omega arith),
        validate_entry-json ("inet" ∷ []) inet i,
        validate_entries-json entries good,
        apart,
      )
      refl

abbrev pub Accepted : Manifest → Type 0
Accepted m = validate (manifest_json m) ≡ ok m

pub length-map : (entries : List Entry) → length (map key_of entries) ≡ length entries
length-map [] = refl
length-map (e ∷ es) = ap suc (length-map es)

pub distinct_keys :
    (key : TableKey) (keys : List TableKey)
    → All (λ k. has_key k (key ∷ []) ≡ false) keys
    → are_distinct keys ≡ true
    → (found : List TableKey) → found ≡ key ∷ keys
    → are_distinct found ≡ true
unfolding are_distinct
distinct_keys key keys fresh apart found same = rw (same, fresh_key key [] keys fresh) apart

pub accepted :
    (name : String) (nat_tables : List TableKey)
    → leb (length nat_tables) 7 ≡ true
    → (inet : Entry) → IsMade "inet" name inet
    → (entries : List Entry) → IsNat (("inet", name) ∷ []) nat_tables entries
    → Accepted (inventory_of inet entries)
accepted name nat_tables few inet made [] nat =
    validate-single inet (made-IsInventoried ("inet" ∷ []) "inet" name inet refl made)
accepted name nat_tables few inet made (e ∷ es) nat =
    validate-several inet (e ∷ es) (made-IsInventoried ("inet" ∷ []) "inet" name inet refl made)
      nat.are_good
      (distinct_keys ("inet", name) nat_tables nat.are_fresh nat.are_apart
        (map key_of (inet ∷ e ∷ es)) (cc (made.same_family, made.same_name, nat.same_keys)))
      (omega arith)
      (omega
        (arith, leb→le (length nat_tables) 7 few, ap length nat.same_keys, length-map (e ∷ es)))
