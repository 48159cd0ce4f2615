-- ===== src/Engine/Save.antt =====
-- `hook_rule`, `_jump_targets` and `_unconditional_jump` of core/engine.py, and the parsed tables.
use Prim.Native.String.{slice, len}
use l4d2_iptable_suite.Base.{
  ℕ, suc, Bool, true, false, ◌&&◌, ◌||◌, ◌===◌, ◌==◌, ◌<>◌, String, List, [], ◌∷◌, starts_with,
  if◌then◌else◌,
}

abbrev pub Rule : Type 0
Rule = List String

-- one table of `parse_save`: its chains, with their lines, and its rules
pub record Table : Type 0 where
  pub chains : List (String × String)
  pub rules : List Rule

abbrev pub hook_rule : String → String → Rule
hook_rule parent target =
    "-A" ∷ parent ∷ "-m" ∷ "comment" ∷ "--comment" ∷ "l4d2-suite:integration" ∷ "-j" ∷ target ∷ []

abbrev pub is_jump : String → Bool
is_jump t = (t === "-j") || (t === "--jump")

-- `token in ('-j', '--jump', '-g', '--goto')`
abbrev pub is_branch : String → Bool
is_branch t = is_jump t || (t === "-g") || (t === "--goto")

-- a token that is a jump by itself, before those of the rest
abbrev pub glued : String → List (String × String) → List (String × String)
glued t rest =
    if starts_with t "--jump="
    then ("--jump", slice t 7 (len t)) ∷ rest
    else if starts_with t "--goto="
    then ("--goto", slice t 7 (len t)) ∷ rest
    else rest

-- the `while` statement
unfoldable pub branches : List String → List (String × String)
branches [] = []
branches (t ∷ []) = glued t []
branches (t ∷ u ∷ rest) = elim (is_branch t) [
  | true ↦ (t, u) ∷ branches rest
  | false ↦ glued t (branches (u ∷ rest))
]

-- `[... for operation, target in result if target == chain]`
abbrev pub to_chain : String → List (String × String) → List (String × String)
to_chain chain [] = []
to_chain chain ((o, t) ∷ bs) = if t === chain then (o, t) ∷ to_chain chain bs else to_chain chain bs

-- what follows the first two tokens
abbrev pub after_head : Rule → List String
after_head (a ∷ b ∷ rest) = rest
after_head _ = []

unfoldable pub jump_targets : Rule → String → List (String × String)
unfolding branches
jump_targets rule chain = to_chain chain (branches (after_head rule))

-- The `while` statement of `_unconditional_jump`: comments, and jumps to the target, which are counted.
unfoldable pub scan : String → ℕ → List String → Bool
scan target jumps [] = jumps == 1
scan target jumps (t ∷ []) = elim (t === ("--jump=" <> target)) [
  | true ↦ scan target (suc jumps) []
  | false ↦ false
]
scan target jumps (t ∷ u ∷ []) = elim (is_jump t && (u === target)) [
  | true ↦ scan target (suc jumps) []
  | false ↦ elim (t === ("--jump=" <> target)) [
    | true ↦ scan target (suc jumps) (u ∷ [])
    | false ↦ false
  ]
]
scan target jumps (t ∷ u ∷ v ∷ []) = elim (is_jump t && (u === target)) [
  | true ↦ scan target (suc jumps) (v ∷ [])
  | false ↦ elim (t === ("--jump=" <> target)) [
    | true ↦ scan target (suc jumps) (u ∷ v ∷ [])
    | false ↦ false
  ]
]
scan target jumps (t ∷ u ∷ v ∷ w ∷ rest) = elim ((t === "-m") && (u === "comment")) [
  | true ↦ elim (v === "--comment") [ true ↦ scan target jumps rest | false ↦ false ]
  | false ↦ elim (is_jump t && (u === target)) [
    | true ↦ scan target (suc jumps) (v ∷ w ∷ rest)
    | false ↦ elim (t === ("--jump=" <> target)) [
      | true ↦ scan target (suc jumps) (u ∷ v ∷ w ∷ rest)
      | false ↦ false
    ]
  ]
]

-- Counters are `-c PACKETS BYTES`; `isdecimal` of the two is the argument.
module _ (isdecimal : String → Bool) where
  abbrev pub drop_counters : List String → List String
  drop_counters (c ∷ packets ∷ bytes ∷ rest) =
      if (c === "-c") && isdecimal packets && isdecimal bytes
      then rest
      else c ∷ packets ∷ bytes ∷ rest
  drop_counters ts = ts

  unfoldable pub unconditional_jump : Rule → String → String → Bool
  unfolding scan
  unconditional_jump (a ∷ chain ∷ t ∷ ts) source target =
      (a === "-A") && (chain === source) && scan target 0 (drop_counters (t ∷ ts))
  unconditional_jump _ source target = false
