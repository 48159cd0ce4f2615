-- ===== src/Legacy.antt =====
-- core/legacy.py: the manifest of tables that are handed over, their inventory, and the pinning of
-- their deletion. A manifest is a JSON value; what is accepted of it is the list of its entries.

pub mod Handover
pub mod Transaction
pub mod Made
pub mod RoundTrip
pub mod Pinned
use l4d2_iptable_suite.Base.{
  ℕ, zero, suc, Bool, true, false, not, ◌&&◌, ◌||◌, ◌===◌, ◌==◌, String, Option, none, some, List,
  [], ◌∷◌, ◌++◌, map, any, all, length, leb, if◌then◌else◌,
}
use l4d2_iptable_suite.Base.Int.{ℤ, pos}
use l4d2_iptable_suite.Base.Result.{
  Result, ok, err, policy_error, key_error, type_error, require, ◌>>=◌, ◌>>◌,
}
use l4d2_iptable_suite.Base.Json.{
  Json, Items, Fields, null, int, str, arr, obj, nil, cons, end, field, get, item,
}
use l4d2_iptable_suite.Base.Texts.{all_in, chars_in, is_hex_code}
use l4d2_iptable_suite.Config.Ports.{codes}
use l4d2_iptable_suite.Config.Validate.{is_table_name}
use l4d2_iptable_suite.Engine.Nft.{TableKey, same_key, has_key}

pub record Entry : Type 0 where
  pub family : String
  pub name : String
  pub handle : ℕ
  pub sha256 : String

-- an accepted manifest: schema 1 has one table, schema 2 several
pub data Manifest : Type 0 where
  single : Entry → Manifest
  several : List Entry → Manifest

abbrev pub invalid {ℓ} : {A : Type ℓ} → String → Result A
invalid message = err (policy_error message)

-- `table_name`, on a text
unfoldable pub table_name : String → Result String
unfolding codes
table_name name = do
  require (is_table_name (codes name)) "Invalid legacy table name"
  require (not (name === "l4d2_boot_guard")) "Cannot hand over the independent boot guard"
  ok name

-- `table_name` and the other tests of a member, on a JSON value
unfoldable pub name_member : Json → Result String
unfolding table_name
name_member (str name) = table_name name
name_member _ = invalid "Invalid legacy table name"

-- `type(v) is int and v > 0`
abbrev pub handle_member : Json → Result ℕ
handle_member (int (pos (suc n))) = ok (suc n)
handle_member _ = invalid "Invalid legacy handle"

abbrev pub is_digest : String → Bool
is_digest s = all_in is_hex_code s && (chars_in s == 64)

unfoldable pub digest_member : Json → Result String
unfolding all_in chars_in
digest_member (str s) = if is_digest s then ok s else invalid "Invalid legacy fingerprint"
digest_member _ = invalid "Invalid legacy fingerprint"

abbrev pub among : String → List String → Bool
among s texts = any (λ t. s === t) texts

-- `v in families`
abbrev pub family_member : List String → String → Json → Result String
family_member families message (str f) = if among f families then ok f else invalid message
family_member families message _ = invalid message

-- `set(d)`
unfoldable pub keys_of : Fields → List String
keys_of end = []
keys_of (field k v fs) = k ∷ keys_of fs

abbrev pub same_keys : List String → List String → Bool
same_keys xs ys = all (λ x. among x ys) xs && all (λ y. among y xs) ys

abbrev pub entry_keys : List String
entry_keys = "family" ∷ "name" ∷ "handle" ∷ "sha256" ∷ []

-- the tests of the members, with the member that is wrong first as the error
unfoldable pub entry_members : List String → String → Json → Result Entry
unfolding name_member digest_member item get
entry_members families message value = do
  family_value ← item value "family"
  family ← family_member families message family_value
  name_value ← item value "name"
  name ← name_member name_value
  handle_value ← item value "handle"
  handle ← handle_member handle_value
  digest_value ← item value "sha256"
  sha256 ← digest_member digest_value
  ok (record { family = family; name = name; handle = handle; sha256 = sha256 })

-- `_validate_entry`, which gives the entry that it has accepted
unfoldable pub validate_entry : List String → Json → Result Entry
unfolding entry_members keys_of
validate_entry families (obj fs) =
    require (same_keys (keys_of fs) entry_keys) "Invalid legacy table entry"
    >> entry_members families "Invalid legacy table family" (obj fs)
validate_entry families _ = invalid "Invalid legacy table entry"

unfoldable pub validate_entries : Bool → Items → Result (List Entry)
unfolding validate_entry
validate_entries first nil = ok []
validate_entries first (cons value values) =
    validate_entry (if first then "inet" ∷ [] else "ip" ∷ "ip6" ∷ []) value >>= λ entry.
    validate_entries false values >>= λ entries. ok (entry ∷ entries)

abbrev pub key_of : Entry → TableKey
key_of entry = (entry.family, entry.name)

-- `len(set(keys)) == len(keys)`
unfoldable pub are_distinct : List TableKey → Bool
are_distinct [] = true
are_distinct (key ∷ keys) = not (has_key key keys) && are_distinct keys

unfoldable pub items_count : Items → ℕ
items_count nil = 0
items_count (cons value values) = suc (items_count values)

abbrev pub is_schema : Option Json → ℕ → Bool
is_schema (some (int (pos n))) k = n == k
is_schema _ k = false

-- the tables of schema 2
unfoldable pub validate_tables : Json → Result (List Entry)
unfolding validate_entries are_distinct items_count
validate_tables (arr values) = do
  require (leb 2 (items_count values) && leb (items_count values) 8)
      "Schema 2 requires an inet table and at most seven NAT tables"
  entries ← validate_entries true values
  require (are_distinct (map key_of entries)) "Duplicate legacy table"
  ok entries
validate_tables _ = invalid "Schema 2 requires an inet table and at most seven NAT tables"

-- `validate`, which gives what it has accepted
unfoldable pub validate : Json → Result Manifest
unfolding entry_members validate_tables keys_of get item
validate (obj fs) =
    if is_schema (get fs "schema") 1
    then (do
      require (same_keys (keys_of fs) ("schema" ∷ entry_keys)) "Invalid legacy manifest fields"
      entry ← entry_members ("inet" ∷ []) "Unsupported legacy manifest schema/family" (obj fs)
      ok (single entry))
    else (do
      require (is_schema (get fs "schema") 2 && same_keys (keys_of fs) ("schema" ∷ "tables" ∷ []))
          "Unsupported legacy manifest schema/family"
      values ← item (obj fs) "tables"
      entries ← validate_tables values
      ok (several entries))
validate _ = invalid "Invalid legacy manifest fields"

-- `tables` and `owned_keys` of an accepted manifest
abbrev pub tables : Manifest → List Entry
tables (single entry) = entry ∷ []
tables (several entries) = entries

abbrev pub owned_keys : Manifest → List TableKey
owned_keys manifest = map key_of (tables manifest)
