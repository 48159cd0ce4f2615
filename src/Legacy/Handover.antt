-- ===== src/Legacy/Handover.antt =====
-- `inventory`, `verify` and `prepare` of core/legacy.py.
use l4d2_iptable_suite.Base.{
  ℕ, suc, Bool, true, false, not, ◌&&◌, ◌===◌, ◌==◌, String, none, some, List, [], ◌∷◌, map, all,
  length, leb, if◌then◌else◌,
}
use l4d2_iptable_suite.Base.Int.{pos}
use l4d2_iptable_suite.Base.Result.{Result, ok, err, policy_error, type_error, require, ◌>>=◌, ◌>>◌}
use l4d2_iptable_suite.Base.Json.{
  Json, Items, null, int, str, arr, obj, nil, cons, get, value_or, is_str, item,
}
use l4d2_iptable_suite.Engine.Nft.{TableKey, has_key}
use l4d2_iptable_suite.Legacy.{
  Entry, Manifest, single, several, table_name, among, key_of, validate, tables, owned_keys,
}

-- `[item['table'] for item in raw['nftables'] if 'table' in item]`, and that for chains
unfoldable pub members : String → Items → Result (List Json)
unfolding get
members kind nil = ok []
members kind (cons (obj fs) values) = members kind values >>= λ rest.
    ok (elim (get fs kind) [ none ↦ rest | some value ↦ value ∷ rest ])
members kind (cons value values) = err type_error

abbrev pub items_of : Json → Result Items
items_of (arr values) = ok values
items_of _ = err type_error

abbrev pub known_hooks : String → List String
known_hooks family =
    if family === "inet"
    then "input" ∷ "forward" ∷ "output" ∷ []
    else "prerouting" ∷ "postrouting" ∷ []

abbrev pub is_one_of : Json → List String → Bool
is_one_of (str s) texts = among s texts
is_one_of _ texts = false

-- one chain with a hook
abbrev pub check_chain : String → Json → Result (Unit {0})
check_chain family (obj fs) = elim (get fs "hook") [
  | none ↦ ok tt
  | some hook ↦
      require
        (is_str (value_or (get fs "type") null) (if family === "inet" then "filter" else "nat")
          && is_one_of hook (known_hooks family))
        "Legacy handover supports only an inet filter or ip/ip6 NAT hooks"
]
check_chain family _ = err type_error

unfoldable pub check_chains : String → List Json → Result (Unit {0})
unfolding get
check_chains family [] = ok tt
check_chains family (chain ∷ chains) = check_chain family chain >> check_chains family chains

-- `type(handle) is int and handle > 0`
abbrev pub read_handle : Json → Result ℕ
read_handle (int (pos (suc n))) = ok (suc n)
read_handle _ = err (policy_error "Legacy table handle unavailable")

-- dictionaries with the same keys are equal when their members are
abbrev pub same_entry : Entry → Entry → Bool
same_entry a b =
    (a.family === b.family)
    && (a.name === b.name)
    && (a.handle == b.handle)
    && (a.sha256 === b.sha256)

abbrev pub same_entries : List Entry → List Entry → Bool
same_entries [] [] = true
same_entries (a ∷ xs) (b ∷ ys) = same_entry a b && same_entries xs ys
same_entries _ _ = false

abbrev pub same_manifest : Manifest → Manifest → Bool
same_manifest (single a) (single b) = same_entry a b
same_manifest (several xs) (several ys) = same_entries xs ys
same_manifest _ _ = false

-- the handle of a listed table, which is the one asked for
unfoldable pub table_handle : String → String → Json → Result ℕ
unfolding get
table_handle family name (obj fs) = do
  require
      (is_str (value_or (get fs "name") null) name
        && is_str (value_or (get fs "family") null) family)
      "Unexpected legacy table inventory"
  elim (get fs "handle") [
    | none ↦ err (policy_error "Legacy table handle unavailable")
    | some value ↦ read_handle value
  ]
table_handle family name _ = err type_error

-- there is one
unfoldable pub listed_handle : String → String → List Json → Result ℕ
unfolding table_handle
listed_handle family name (value ∷ []) = table_handle family name value
listed_handle family name _ = err (policy_error "Unexpected legacy table inventory")

abbrev pub inventory_of : Entry → List Entry → Manifest
inventory_of inet [] = single inet
inventory_of inet (entry ∷ entries) = several (inet ∷ entry ∷ entries)

module _ (list_table : String → String → Result Json) (fingerprint : Json → String) where
  -- `_table_inventory`; the digest of what nft listed, without its counters, is an argument
  unfoldable pub table_inventory : String → String → Result Entry
  unfolding table_name members listed_handle check_chains item
  table_inventory family name = do
    _ ← table_name name
    require (among family ("inet" ∷ "ip" ∷ "ip6" ∷ [])) "Unsupported legacy table family"
    raw ← list_table family name
    listed ← item raw "nftables"
    values ← items_of listed
    found ← members "table" values
    handle ← listed_handle family name found
    chains ← members "chain" values
    check_chains family chains
    ok (record { family = family; name = name; handle = handle; sha256 = fingerprint raw })

  -- the loop on the NAT tables
  unfoldable pub nat_inventory : List TableKey → List TableKey → Result (List Entry)
  unfolding table_inventory table_name
  nat_inventory seen [] = ok []
  nat_inventory seen (key ∷ keys) = do
    require (among key.0 ("ip" ∷ "ip6" ∷ [])) "Legacy NAT table family must be ip or ip6"
    _ ← table_name key.1
    require (not (has_key key seen)) "Duplicate legacy table"
    entry ← table_inventory key.0 key.1
    entries ← nat_inventory (key ∷ seen) keys
    ok (entry ∷ entries)

  unfoldable pub inventory : String → List TableKey → Result Manifest
  unfolding table_inventory nat_inventory
  inventory name nat_tables = do
    require (leb (length nat_tables) 7) "Legacy inventory supports at most eight tables"
    inet ← table_inventory "inet" name
    entries ← nat_inventory (("inet", name) ∷ []) nat_tables
    ok (inventory_of inet entries)

  -- the inventory of the tables of a manifest
  abbrev pub inventory_again : List Entry → Result Manifest
  inventory_again [] = err type_error
  inventory_again (inet ∷ nat) = inventory inet.name (map key_of nat)

  unfoldable pub verify : Json → Result (Unit {0})
  unfolding inventory validate
  verify value = do
    manifest ← validate value
    current ← inventory_again (tables manifest)
    require (same_manifest current manifest)
        "Legacy table changed since review; inventory and approve it again"

-- what `prepare` reads of the candidate
pub record Candidate : Type 0 where
  pub backend : String
  pub disabled : Bool
  -- `config.get(k)` of three options, where an absent one counts as empty
  pub host_services : String
  pub container_policy : String
  pub routed_policy : String
  pub keys : List TableKey

abbrev pub inet_keys : List TableKey → List TableKey
inet_keys [] = []
inet_keys (key ∷ keys) = if key.0 === "inet" then key ∷ inet_keys keys else inet_keys keys

-- the tables that the candidate may have beside the reviewed inet table
abbrev pub fits_schema : Manifest → List TableKey → Bool
fits_schema (single entry) keys = length keys == 1
fits_schema (several entries) keys = all (λ key. among key.0 ("inet" ∷ "ip" ∷ "ip6" ∷ [])) keys

-- exactly one inet table, which is the reviewed one
abbrev pub replaces_inet : List Entry → List TableKey → Bool
replaces_inet [] keys = false
replaces_inet (inet ∷ nat) keys = (length (inet_keys keys) == 1) && has_key ("inet", inet.name) keys

-- The inventory is verified before and after the snapshot, so that it is listed twice; the snapshot
-- and the check of the rollback are those of core/engine.py.
module _ (list_before list_after : String → String → Result Json) (fingerprint : Json → String)
    (Snapshot : Type 0) (snapshot_of : List TableKey → Result Snapshot) (size : Snapshot → ℕ)
    (check_rollback : Snapshot → Result (Unit {0})) where
  unfoldable pub prepare : Candidate → Bool → Json → Result Snapshot
  unfolding validate verify
  prepare candidate has_previous value = do
    manifest ← validate value
    require (not has_previous) "Legacy handover requires no current registered policy"
    require ((candidate.backend === "nftables") && not candidate.disabled)
        "Legacy handover requires a complete nftables application"
    require
        ((candidate.host_services === "true")
          && among candidate.container_policy ("off" ∷ "ingress" ∷ [])
          && (candidate.routed_policy === "unmanaged"))
        "Legacy handover supports host services, off/ingress containers and unmanaged routing"
    require (replaces_inet (tables manifest) candidate.keys)
        "Legacy handover must replace exactly the reviewed inet filter table"
    require (fits_schema manifest candidate.keys)
        "Legacy handover requires schema 2 for additional NAT objects, of a supported family"
    verify list_before fingerprint value
    snapshot ← snapshot_of (owned_keys manifest)
    verify list_after fingerprint value
    require (size snapshot == length (tables manifest)) "Legacy rollback snapshot unavailable"
    check_rollback snapshot
    ok snapshot
