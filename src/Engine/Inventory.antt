-- ===== src/Engine/Inventory.antt =====
-- `_inventory_chain` of core/engine.py: the rules that `nft -a list chain` shows with a marker of the
-- suite. What nft prints is an argument, by lines.
use Prim.Native.String.{[] as empty, ◌∷◌ as ◌followed_by◌}
use Prim.Native.Char.{code}
use l4d2_iptable_suite.Base.{
  ℕ, zero, suc, ◌+◌, ◌-◌, Bool, true, false, ◌&&◌, ◌==◌, String, Option, none, some, List, [], ◌∷◌,
  leb, if◌then◌else◌, starts_with,
}
use l4d2_iptable_suite.Base.Result.{Result, ok, err, policy_error, ◌>>=◌}
use l4d2_iptable_suite.Base.Texts.{
  all_in, chars_in, drop_text, holds_text, is_digit_code, is_space, strip_left, decimal,
}
use l4d2_iptable_suite.Engine.RuleWords.{is_marker}

pub record Row : Type 0 where
  pub comment : String
  pub handle : ℕ
  pub text : String
  pub position : ℕ

-- digits, and white space to the end
unfoldable pub digits_then_space : String → Option String
digits_then_space empty = some empty
digits_then_space (c followed_by s) =
    let rest = digits_then_space s in
    if is_digit_code (code c)
    then elim rest [ none ↦ none | some digits ↦ some (c followed_by digits) ]
    else if is_space (code c) && all_in is_space s
    then some empty
    else none

-- `# handle ([0-9]+)\s*$`
unfoldable pub handle_at : String → Option ℕ
unfolding digits_then_space drop_text chars_in decimal all_in
handle_at s = elim (drop_text "# handle " s) [
  | none ↦ none
  | some rest ↦ elim (digits_then_space rest) [
    | none ↦ none
    | some digits ↦ if leb 1 (chars_in digits) then some (decimal 0 digits) else none
  ]
]

abbrev pub starts_with_space : String → Bool
starts_with_space empty = false
starts_with_space (c followed_by s) = is_space (code c)

-- The first place from which white space and the handle are left: the literal before it. With white
-- space before white space, the literal ends at the first.
unfoldable pub own_line_from : String → Option (String × ℕ)
unfolding handle_at strip_left
own_line_from empty = none
own_line_from (c followed_by s) =
    let rest = own_line_from s in
    elim (if is_space (code c) then handle_at (strip_left s) else none) [
      | some handle ↦ some (empty, handle)
      | none ↦ elim rest [ none ↦ none | some found ↦ some ((c followed_by found.0), found.1) ]
    ]

-- `_OWN_LINE.fullmatch`
unfoldable pub own_line : String → Option (String × ℕ)
unfolding own_line_from strip_left
own_line line = elim (own_line_from line) [
  | none ↦ none
  | some found ↦ some (strip_left found.0, found.1)
]

-- the text up to a quote, if there is one
unfoldable pub up_to_quote : String → Option String
up_to_quote empty = none
up_to_quote (c followed_by s) =
    let rest = up_to_quote s in
    if code c == 34
    then some empty
    else elim rest [ none ↦ none | some inner ↦ some (c followed_by inner) ]

-- `comment\s+"([^"]*)"` at the beginning: the comment, and the characters that were read
unfoldable pub comment_at : String → Option (String × ℕ)
unfolding drop_text strip_left up_to_quote chars_in
comment_at s = elim (drop_text "comment" s) [
  | none ↦ none
  | some rest ↦
      if starts_with_space rest
      then elim (drop_text "\"" (strip_left rest)) [
        | none ↦ none
        | some after ↦ elim (up_to_quote after) [
          | none ↦ none
          | some comment ↦
              some
                (comment, 7 + (chars_in rest - chars_in (strip_left rest)) + 2 + chars_in comment)
        ]
      ]
      else none
]

-- `re.findall`, which goes on behind a match: so many characters are passed over
unfoldable pub comments_in : ℕ → String → List String
unfolding comment_at
comments_in n empty = []
comments_in (suc n) (c followed_by s) = comments_in n s
comments_in zero (c followed_by s) = elim (comment_at (c followed_by s)) [
  | none ↦ comments_in 0 s
  | some found ↦ found.0 ∷ comments_in (found.1 - 1) s
]

abbrev pub marker : String
marker = "l4d2-suite:s2s:"

abbrev pub with_marker : List String → List String
with_marker [] = []
with_marker (c ∷ cs) = if starts_with c marker then c ∷ with_marker cs else with_marker cs

-- the one comment of the suite
unfoldable pub owned_comment : List String → Result String
unfolding is_marker
owned_comment (comment ∷ []) =
    if is_marker comment
    then ok comment
    else err (policy_error "Malformed shared routing ownership comment; refusing transaction")
owned_comment _ =
    err (policy_error "Malformed shared routing ownership comment; refusing transaction")

-- one line with the marker
unfoldable pub read_row : ℕ → String → Result Row
unfolding own_line comments_in owned_comment
read_row position line = elim (own_line line) [
  | none ↦ err (policy_error "Malformed shared routing rule inventory; refusing transaction")
  | some found ↦ owned_comment (with_marker (comments_in 0 found.0)) >>= λ comment.
      ok (record { comment = comment; handle = found.1; text = found.0; position = position })
]

-- the loop on the lines
unfoldable pub read_rows : ℕ → List String → Result (List Row)
unfolding read_row
read_rows position [] = ok []
read_rows position (line ∷ lines) = elim (holds_text line marker) [
  | false ↦ read_rows (if holds_text line "# handle " then position + 1 else position) lines
  | true ↦
      read_row position line >>= λ row. read_rows (position + 1) lines >>= λ rows. ok (row ∷ rows)
]

-- `none` is a failure of nft
unfoldable pub inventory_chain : Option (List String) → Result (List Row)
unfolding read_rows
inventory_chain none = err (policy_error "Missing shared routing chain")
inventory_chain (some lines) = read_rows 0 lines
