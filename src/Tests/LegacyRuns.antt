-- ===== src/Tests/LegacyRuns.antt =====
-- A handover of two tables, from what nft lists to the pinned transaction.
use l4d2_iptable_suite.Base.{
  ◌≡◌, refl, true, false, String, Bool, Option, none, some, List, [], ◌∷◌, All,
}
use l4d2_iptable_suite.Base.Texts.{all_in, chars_in}
use l4d2_iptable_suite.Base.Int.{pos}
use l4d2_iptable_suite.Base.Result.{Result, ok}
use l4d2_iptable_suite.Base.Json.{Json, Items, int, str, arr, obj, nil, cons, end, field}
use l4d2_iptable_suite.Engine.Nft.{
  NftPolicy, Line, delete_table, table_text, delete_handle, destroy_table, nft_transaction,
}
use l4d2_iptable_suite.Engine.Checks.{Bundle, Live}
use l4d2_iptable_suite.Engine.Snapshot.{nft_snapshot}
use l4d2_iptable_suite.Engine.Preflight.{preflight}
use l4d2_iptable_suite.Engine.Preflight.Ownership.{target_of}
use l4d2_iptable_suite.Legacy.{Manifest, Entry, several, tables, owned_keys, validate}
use l4d2_iptable_suite.Legacy.Handover.{inventory, verify}
use l4d2_iptable_suite.Legacy.Transaction.{pin_transaction, prior_of, prior_objects}
use l4d2_iptable_suite.Legacy.Made.{manifest_json}
use l4d2_iptable_suite.Legacy.RoundTrip.{validate-inventory, verify-inventory}
use l4d2_iptable_suite.Legacy.Pinned.{IsPinnedTo, pin_transaction-IsPinnedTo}

abbrev digest : String
digest = "0123456789abcdef0123456789abcdef0123456789abcdef0123456789abcdef"

abbrev listed : String → String → Result Json
listed family name = ok (
    obj (
      field "nftables"
        (arr (
          cons
            (obj (
              field "table"
                (obj (
                  field "family" (str family)
                    (field "name" (str name) (field "handle" (int (pos 12)) end))))
                end))
            (cons
              (obj (
                field "chain"
                  (obj (field "family" (str family) (field "name" (str "unhooked") end))) end))
              nil)))
        end))

abbrev digest_of : Json → String
digest_of value = digest

abbrev old_filter : Entry
old_filter = record { family = "inet"; name = "l4d2"; handle = 12; sha256 = digest }

abbrev old_nat : Entry
old_nat = record { family = "ip"; name = "l4d2_nat"; handle = 12; sha256 = digest }

abbrev reviewed : Manifest
reviewed = several (old_filter ∷ old_nat ∷ [])

inventoried : inventory listed digest_of "l4d2" (("ip", "l4d2_nat") ∷ []) ≡ ok reviewed
unfolding inventory
inventoried = refl

validate-inventory_example : validate (manifest_json reviewed) ≡ ok reviewed
unfolding all_in chars_in
validate-inventory_example =
    validate-inventory listed digest_of (λ value. refl) "l4d2" (("ip", "l4d2_nat") ∷ []) reviewed
      inventoried

verify-inventory_example : verify listed digest_of (manifest_json reviewed) ≡ ok tt
unfolding all_in chars_in
verify-inventory_example =
    verify-inventory listed digest_of (λ value. refl) "l4d2" (("ip", "l4d2_nat") ∷ []) reviewed
      inventoried

abbrev new_tables : NftPolicy
new_tables = record {
  objects =
      record { family = "inet"; name = "l4d2"; text = "add table inet l4d2\n" }
      ∷ record { family = "ip"; name = "l4d2_nat"; text = "add table ip l4d2_nat\n" }
      ∷ [];
  shared_rules = [];
}

abbrev candidate : Bundle
candidate = record {
  backend = "nftables";
  disabled = false;
  nft = new_tables;
  families = [];
  hooks = [];
  has_containers = false;
  has_forward = false;
  docker_backend = none;
  registered = record { versions = none; pinned_frontend = none; acceptance = none };
}

abbrev before : Live
before = record {
  tables = ("ip", "l4d2_nat") ∷ ("inet", "l4d2") ∷ [];
  versions = record { v4 = "iptables v1.8.10 (nf_tables)"; v6 = "ip6tables v1.8.10 (nf_tables)" };
  frontend = "nft";
  iprules = [];
  save_texts = [];
  docker = "iptables";
}

abbrev no_decimal : String → Bool
no_decimal text = false

abbrev same_network : String → Option (Bool × String)
same_network text = some (true, text)

abbrev no_chain : String → String → String → Option (List String)
no_chain family table chain = none

abbrev no_forward : String → Option Items
no_forward family = none

abbrev handover_lines : List Line
handover_lines =
    delete_table ("inet", "l4d2")
    ∷ delete_table ("ip", "l4d2_nat")
    ∷ table_text "add table inet l4d2\n"
    ∷ table_text "add table ip l4d2_nat\n"
    ∷ []

abbrev pinned_transaction : List Line
pinned_transaction =
    delete_handle "inet" 12
    ∷ destroy_table ("inet", "l4d2")
    ∷ delete_handle "ip" 12
    ∷ destroy_table ("ip", "l4d2_nat")
    ∷ table_text "add table inet l4d2\n"
    ∷ table_text "add table ip l4d2_nat\n"
    ∷ []

checked :
    preflight no_decimal same_network no_chain no_forward candidate none before false
      (owned_keys reviewed)
    ≡ ok tt
unfolding preflight
checked = refl

abbrev list_text : String → String → Result String
list_text family name = ok "table of before"

abbrev rollback_tables : NftPolicy
rollback_tables = record {
  objects =
      record { family = "inet"; name = "l4d2"; text = "table of before" }
      ∷ record { family = "ip"; name = "l4d2_nat"; text = "table of before" }
      ∷ [];
  shared_rules = [];
}

taken :
    nft_snapshot same_network list_text no_chain (prior_of reviewed) before.tables
    ≡ ok rollback_tables
unfolding nft_snapshot prior_objects
taken = refl

prepared :
    nft_transaction same_network no_chain
      (target_of candidate)
      (none ∷ some new_tables ∷ some rollback_tables ∷ [])
      before.tables
      false
    ≡ ok handover_lines
unfolding nft_transaction
prepared = refl

pinned : pin_transaction reviewed handover_lines ≡ ok pinned_transaction
unfolding pin_transaction
pinned = refl

pin_transaction-IsPinnedTo_example : All (IsPinnedTo (tables reviewed)) pinned_transaction
pin_transaction-IsPinnedTo_example =
    pin_transaction-IsPinnedTo no_decimal same_network no_chain no_forward candidate before false
      reviewed list_text rollback_tables handover_lines pinned_transaction refl checked taken
      prepared pinned
