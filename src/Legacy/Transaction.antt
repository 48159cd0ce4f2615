-- ===== src/Legacy/Transaction.antt =====
-- `pin_transaction` of core/legacy.py, and the policy whose snapshot `prepare` takes.
use l4d2_iptable_suite.Base.{Bool, false, List, [], ◌∷◌, ◌++◌, any, all, if◌then◌else◌}
use l4d2_iptable_suite.Base.Result.{Result, ok, require, ◌>>◌}
use l4d2_iptable_suite.Engine.Nft.{
  Object, NftPolicy, TableKey, Line, delete_table, delete_handle, destroy_table, same_key, has_key,
}
use l4d2_iptable_suite.Legacy.{Entry, Manifest, key_of, tables, owned_keys}

-- whether a line is the deletion, by its name, of a reviewed table
abbrev pub is_reviewed : List TableKey → Line → Bool
is_reviewed keys (delete_table key) = has_key key keys
is_reviewed keys _ = false

abbrev pub deletes_key : TableKey → Line → Bool
deletes_key key (delete_table other) = same_key key other
deletes_key key _ = false

unfoldable pub without_reviewed : List TableKey → List Line → List Line
without_reviewed keys [] = []
without_reviewed keys (line ∷ lines) =
    let rest = without_reviewed keys lines in if is_reviewed keys line then rest else line ∷ rest

unfoldable pub pinned_lines : List Entry → List Line
pinned_lines [] = []
pinned_lines (entry ∷ entries) =
    delete_handle entry.family entry.handle ∷ destroy_table (key_of entry) ∷ pinned_lines entries

-- `pin_transaction`, on the lines of the one nft transaction
unfoldable pub pin_transaction : Manifest → List Line → Result (List Line)
unfolding without_reviewed pinned_lines
pin_transaction manifest lines = do
  require (all (λ key. any (deletes_key key) lines) (owned_keys manifest))
      "Missing reviewed legacy deletion"
  ok (pinned_lines (tables manifest) ++ without_reviewed (owned_keys manifest) lines)

-- `prior` of `prepare`: the reviewed tables, without a text
unfoldable pub prior_objects : List Entry → List Object
prior_objects [] = []
prior_objects (entry ∷ entries) =
    record { family = entry.family; name = entry.name; text = "" } ∷ prior_objects entries

abbrev pub prior_of : Manifest → NftPolicy
prior_of manifest = record { objects = prior_objects (tables manifest); shared_rules = [] }
