-- ===== src/Boot/Guard.antt =====
-- `guard_present` and `require_guard_owned` of core/boot.py: the queries of the early barrier.
use l4d2_iptable_suite.Base.{
  Bool, true, false, ◌&&◌, String, none, some, List, [], ◌∷◌, ◌<>◌, if◌then◌else◌,
}
use l4d2_iptable_suite.Base.Result.{Result, ok, err, type_error, require, ◌>>=◌}
use l4d2_iptable_suite.Base.Json.{
  Json, Items, null, str, arr, nil, cons, obj, end, item, item_or, find_item, is_str,
}
use l4d2_iptable_suite.Exec.{lift, asks, ◌>>=◌ as ◌then_action◌}
use l4d2_iptable_suite.World.{Host}
use l4d2_iptable_suite.Store.Files.{Action}

-- BOOT_GUARD_TABLE of core/config.py
abbrev pub guard_table : String
guard_table = "l4d2_boot_guard"

-- the rows that a `for` statement goes through
unfoldable pub rows_of : Json → Result Items
rows_of (arr rows) = ok rows
rows_of _ = err type_error

-- `x.get('table', {}).get('family') == 'inet' and x.get('table', {}).get('name') == TABLE`
unfoldable pub is_guard : Json → Result Bool
is_guard row = do
  table ← item_or row "table" (obj end)
  family ← item_or table "family" null
  name ← item_or table "name" null
  ok (is_str family "inet" && is_str name guard_table)

-- `any(...)`, which stops at the first row that is the guard
unfoldable pub any_guard : Items → Result Bool
unfolding is_guard
any_guard nil = ok false
any_guard (cons row rows) =
    let rest = any_guard rows in is_guard row >>= λ found. if found then ok true else rest

unfoldable pub has_guard : Json → Result Bool
unfolding any_guard rows_of
has_guard listing = do rows ← item listing "nftables"; items ← rows_of rows; any_guard items

-- `[x['table'] for x in raw['nftables'] if 'table' in x]`
unfoldable pub tables_of : Items → Result (List Json)
tables_of nil = ok []
tables_of (cons row rows) = do
  table ← find_item row "table"
  rest ← tables_of rows
  ok (elim table [ none ↦ rest | some t ↦ t ∷ rest ])

-- `value['owner']`, which is added to a text
unfoldable pub owner_text : Json → Result String
owner_text (str s) = ok s
owner_text _ = err type_error

-- `len(tables) == 1 and tables[0].get('comment') == 'l4d2-suite:boot:' + value['owner']`
unfoldable pub is_only_owned : String → List Json → Result Bool
is_only_owned owner (table ∷ []) = do
  comment ← item_or table "comment" null
  ok (is_str comment ("l4d2-suite:boot:" <> owner))
is_only_owned owner _ = ok false

unfoldable pub is_owned : Json → Json → Result Bool
unfolding tables_of rows_of owner_text is_only_owned
is_owned value listing = do
  rows ← item listing "nftables"
  items ← rows_of rows
  tables ← tables_of items
  owner ← item value "owner"
  text ← owner_text owner
  is_only_owned text tables

module _ (H : Host) where
  unfoldable pub guard_present : Action H Bool
  unfolding has_guard
  guard_present = asks (λ w. H.list_tables w.kernel >>= has_guard)

  unfoldable pub require_guard_owned : Json → Action H (Unit {0})
  unfolding is_owned
  require_guard_owned value =
      ◌then_action◌ (asks (λ w. H.list_guard w.kernel >>= is_owned value)) λ owned. lift (
        require owned
          "Boot barrier table is not registered to this suite; refusing adoption or deletion")
