-- ===== src/Engine/DockerLink.antt =====
-- `_require_docker_user_link` of core/engine.py, on what `json.loads` makes of the inventory of FORWARD;
-- `none` is a failure of nft or of the decoder.
use l4d2_iptable_suite.Base.{
  ℕ, suc, Bool, true, false, ◌&&◌, ◌||◌, ◌===◌, ◌==◌, String, Option, none, some, List, [], ◌∷◌,
  ◌++◌, any, length, if◌then◌else◌,
}
use l4d2_iptable_suite.Base.Int.{pos}
use l4d2_iptable_suite.Base.Result.{Result, ok, err, policy_error, type_error, require, ◌>>=◌, ◌>>◌}
use l4d2_iptable_suite.Base.Json.{
  Json, Items, Fields, null, bool, int, str, arr, obj, nil, cons, end, field, get, value_or, is_str,
}

abbrev pub has_text : Fields → String → String → Bool
has_text fs k t = is_str (value_or (get fs k) null) t

-- `x[kind]` of an entry that is a dictionary with this key
abbrev pub entry_of : String → Json → Result (Option Fields)
entry_of kind (obj fs) = elim (get fs kind) [
  | none ↦ ok none
  | some (obj g) ↦ ok (some g)
  | some _ ↦ err type_error
]
entry_of kind _ = ok none

-- an entry of FORWARD in the family's filter table; `key` is the member with the chain's name
abbrev pub is_forward : String → String → Fields → Bool
is_forward family key fs =
    has_text fs "family" family && has_text fs "table" "filter" && has_text fs key "FORWARD"

abbrev pub keep_forward : String → String → Option Fields → List Fields → List Fields
keep_forward family key none rest = rest
keep_forward family key (some fs) rest = if is_forward family key fs then fs ∷ rest else rest

unfoldable pub forward_entries : String → String → String → Items → Result (List Fields)
unfolding get
forward_entries family kind key nil = ok []
forward_entries family kind key (cons x xs) = entry_of kind x >>= λ entry.
    forward_entries family kind key xs >>= λ rest. ok (keep_forward family key entry rest)

-- `isinstance(n, int) and n >= 0`, which a truth value is too
abbrev pub is_count : Json → Bool
is_count (bool b) = true
is_count (int (pos n)) = true
is_count _ = false

unfoldable pub are_counts : Fields → Bool
are_counts end = true
are_counts (field k v fs) = ((k === "packets") || (k === "bytes")) && is_count v && are_counts fs

abbrev pub is_counter : Json → Bool
is_counter null = true
is_counter (obj fs) = are_counts fs
is_counter _ = false

abbrev pub jump_target : Json → Result String
jump_target (obj (field k (str t) end)) =
    if k === "target" then ok t else err (policy_error "Invalid nft jump in FORWARD chain")
jump_target _ = err (policy_error "Invalid nft jump in FORWARD chain")

-- What an expression adds to `targets`: `true` is the jump to Docker's chain and `false` a condition
-- or an operation of another kind.
abbrev pub targets_of : Json → Result (List Bool)
targets_of (obj (field k v end)) =
    if k === "counter"
    then (require (is_counter v) "Invalid nft counter in FORWARD chain" >> ok [])
    else if k === "jump"
    then (jump_target v >>= λ t. ok (if t === "DOCKER-USER" then true ∷ [] else []))
    else ok (false ∷ [])
targets_of _ = ok (false ∷ [])

unfoldable pub expression_targets : Items → Result (List Bool)
unfolding are_counts
expression_targets nil = ok []
expression_targets (cons x xs) =
    targets_of x >>= λ first. expression_targets xs >>= λ rest. ok (first ++ rest)

abbrev pub is_only_jump : List Bool → Bool
is_only_jump (true ∷ []) = true
is_only_jump _ = false

abbrev pub items_of : Option Json → Result Items
items_of (some (arr xs)) = ok xs
items_of _ = err (policy_error "Invalid nft FORWARD rule expression")

-- the indices of the rules that jump to Docker's chain
unfoldable pub forward_links : ℕ → List Fields → Result (List ℕ)
unfolding expression_targets get
forward_links i [] = ok []
forward_links i (rule ∷ rules) = items_of (get rule "expr") >>= λ expressions.
    expression_targets expressions >>= λ targets.
    require (if any (λ t. t) targets then (i == 0) && is_only_jump targets else true)
      "FORWARD must jump unconditionally to DOCKER-USER first"
    >> (forward_links (suc i) rules >>= λ links.
        ok (if any (λ t. t) targets then i ∷ links else links))

abbrev pub is_first_only : List ℕ → Bool
is_first_only (i ∷ []) = i == 0
is_first_only _ = false

abbrev pub is_filled : List Fields → Bool
is_filled [] = false
is_filled (x ∷ xs) = true

unfoldable pub require_docker_user_link : String → Option Items → Result (Unit {0})
unfolding forward_entries forward_links
require_docker_user_link family none = err (policy_error "Invalid nft FORWARD chain inventory")
require_docker_user_link family (some entries) = do
  chains ← forward_entries family "chain" "name" entries
  rules ← forward_entries family "rule" "chain" entries
  require ((length chains == 1) && is_filled rules) "Invalid filter/FORWARD chain topology"
  links ← forward_links 0 rules
  require (is_first_only links) "filter/FORWARD has no unique first DOCKER-USER jump"
