-- ===== src/Engine/RuleWords.antt =====
-- The words of the rules for Docker's chain: the parts of the regular expression `_SHARED_RULE` in core/engine.py.
use Prim.Native.String.{[] as empty, ◌∷◌ as ◌followed_by◌}
use Prim.Native.Char.{code}
use l4d2_iptable_suite.Base.{
  ℕ, Bool, true, false, ◌&&◌, ◌||◌, ◌===◌, ◌==◌, String, Option, none, some, List, [], ◌∷◌, leb,
  if◌then◌else◌,
}
use l4d2_iptable_suite.Base.Result.{Result, ok, err, policy_error, ◌>>=◌}
use l4d2_iptable_suite.Base.Texts.{
  parts_between, all_in, chars_in, drop_text, is_digit_code, is_hex_code,
}

-- what `_rule_semantics` returns, in its order
pub record Semantics : Type 0 where
  pub iif : String
  pub oif : String
  pub family : String
  pub source : String
  pub destination : String
  pub is_reply : Bool
  pub comment : String

abbrev pub is_blank : ℕ → Bool
is_blank c = c == 32

-- `[A-Za-z0-9_.:-]{1,15}`
abbrev pub is_name_code : ℕ → Bool
is_name_code c =
    is_digit_code c
    || (leb 65 c && leb c 90)
    || (leb 97 c && leb c 122)
    || (c == 95)
    || (c == 46)
    || (c == 58)
    || (c == 45)

abbrev pub is_name : String → Bool
is_name s = all_in is_name_code s && leb 1 (chars_in s) && leb (chars_in s) 15

-- the text before a last quote, and that between two quotes
unfoldable pub before_quote : String → Option String
before_quote empty = none
before_quote (c followed_by empty) = if code c == 34 then some empty else none
before_quote (c followed_by (d followed_by s)) = elim (before_quote (d followed_by s)) [
  | none ↦ none
  | some inner ↦ some (c followed_by inner)
]

abbrev pub quote : String
quote = "\""

unfoldable pub quoted : String → Option String
unfolding before_quote
quoted empty = none
quoted (c followed_by s) = if code c == 34 then before_quote s else none

abbrev pub unsafe {ℓ} : {A : Type ℓ} → Result A
unsafe = err (policy_error "Unsafe shared routing rule literal")

abbrev pub name_if : String → Result String
name_if s = if is_name s then ok s else unsafe

-- an interface, with quotes or without
unfoldable pub interface_name : String → Result String
unfolding quoted all_in chars_in
interface_name word = elim (quoted word) [ none ↦ name_if word | some inner ↦ name_if inner ]

-- `[0-9a-fA-F:.]+(?:/[0-9]{1,3})?`
abbrev pub is_address_code : ℕ → Bool
is_address_code c = is_hex_code c || (leb 65 c && leb c 70) || (c == 58) || (c == 46)

abbrev pub is_address_parts : List String → Bool
is_address_parts (a ∷ []) = all_in is_address_code a && leb 1 (chars_in a)
is_address_parts (a ∷ n ∷ []) =
    all_in is_address_code a
    && leb 1 (chars_in a)
    && all_in is_digit_code n
    && leb 1 (chars_in n)
    && leb (chars_in n) 3
is_address_parts _ = false

abbrev pub is_slash : ℕ → Bool
is_slash c = c == 47

unfoldable pub address : String → Result String
unfolding parts_between all_in chars_in
address word = if is_address_parts (parts_between is_slash word) then ok word else unsafe

-- `l4d2-suite:s2s:[0-9a-f]{16}`
abbrev pub is_hex_16 : Option String → Bool
is_hex_16 none = false
is_hex_16 (some digits) = all_in is_hex_code digits && (chars_in digits == 16)

unfoldable pub is_marker : String → Bool
unfolding drop_text all_in chars_in
is_marker comment = is_hex_16 (drop_text "l4d2-suite:s2s:" comment)

unfoldable pub marker : String → Result String
unfolding quoted is_marker
marker word = elim (quoted word) [
  | none ↦ unsafe
  | some comment ↦ if is_marker comment then ok comment else unsafe
]

-- one word of the grammar, or one of a class, and the words after it
unfoldable pub expect : String → List String → Result (List String)
expect word [] = unsafe
expect word (w ∷ words) = if w === word then ok words else unsafe

unfoldable pub take_word : (String → Result String) → List String → Result (String × List String)
take_word read [] = unsafe
take_word read (w ∷ words) = read w >>= λ x. ok (x, words)

-- `{ established, related }`, or both with a comma
unfoldable pub established_words : List String → Result (List String)
unfolding expect
established_words [] = unsafe
established_words (x ∷ xs) = if x === "established,related" then ok xs else do
  x1 ← expect "{" (x ∷ xs)
  x2 ← expect "established," x1
  x3 ← expect "related" x2
  expect "}" x3

-- the optional words about the replies
unfoldable pub reply_words : List String → Result (Bool × List String)
unfolding expect established_words
reply_words [] = unsafe
reply_words (w ∷ words) =
    if w === "ct"
    then (do
      w1 ← expect "direction" words
      w2 ← expect "reply" w1
      w3 ← expect "ct" w2
      w4 ← expect "state" w3
      w5 ← established_words w4
      ok (true, w5))
    else ok (false, w ∷ words)

-- `[0-9]+`
abbrev pub number_word : String → Result String
number_word w = if all_in is_digit_code w && leb 1 (chars_in w) then ok w else unsafe

-- the optional numbers of a counter
unfoldable pub counter_words : List String → Result (List String)
unfolding expect take_word all_in chars_in
counter_words [] = unsafe
counter_words (w ∷ words) =
    if w === "packets"
    then (do
      packets ← take_word number_word words
      w1 ← expect "bytes" packets.1
      bytes ← take_word number_word w1
      ok bytes.1)
    else ok (w ∷ words)
