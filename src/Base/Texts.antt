-- ===== src/Base/Texts.antt =====
-- Python's operations on texts: splitting, joining, and the classes and the prefixes that regular
-- expressions use.
use Prim.Native.String.{String, [] as empty, ◌∷◌ as ◌followed_by◌, ◌++◌ as ◌<>◌}
use Prim.Native.Char.{Char, code}
use Prim.Native.Nat.{ℕ, suc, ◌+◌, ◌*◌, ◌-◌}
use mathlib.Core.Path.{◌≡◌, refl, ap, ◌∙◌}
use mathlib.Core.Bool.{Bool, true, false, not, ◌&&◌, ◌||◌}
use mathlib.Core.Option.{Option, none, some}
use mathlib.Core.List.{List, [], ◌∷◌}
use native.Mathlib.Omega.{arith}
use text.Mathlib.Text.{find?}
use text.Mathlib.TextLemmas.{nil-append, cons-append}
use l4d2_iptable_suite.Base.Tests.{leb, ◌==◌, if◌then◌else◌, is_some}
use l4d2_iptable_suite.Base.Lists.{any, All}

-- the parts of a text between the characters that a test finds
unfoldable pub parts_between : (ℕ → Bool) → String → List String
parts_between ends empty = empty ∷ []
parts_between ends (c followed_by s) =
    let rest = parts_between ends s in
    if ends (code c)
    then empty ∷ rest
    else elim rest [ [] ↦ [] | part ∷ parts ↦ (c followed_by part) ∷ parts ]

-- `separator.join(parts)`
unfoldable pub join_with : String → List String → String
join_with separator [] = empty
join_with separator (part ∷ []) = part
join_with separator (part ∷ next ∷ parts) =
    part <> (separator <> join_with separator (next ∷ parts))

-- all the characters are of a class
unfoldable pub all_in : (ℕ → Bool) → String → Bool
all_in p empty = true
all_in p (c followed_by s) = p (code c) && all_in p s

unfoldable pub chars_in : String → ℕ
chars_in empty = 0
chars_in (c followed_by s) = suc (chars_in s)

-- what follows a prefix, if it is there
unfoldable pub drop_text : String → String → Option String
drop_text empty s = some s
drop_text (c followed_by p) empty = none
drop_text (c followed_by p) (d followed_by s) =
    let rest = drop_text p s in if code c == code d then rest else none

-- `part in text`
abbrev pub holds_text : String → String → Bool
holds_text text part = is_some (find? text part)

abbrev pub is_digit_code : ℕ → Bool
is_digit_code c = leb 48 c && leb c 57

abbrev pub is_hex_code : ℕ → Bool
is_hex_code c = is_digit_code c || (leb 97 c && leb c 102)

-- `\s` and `str.isspace`
abbrev pub is_space : ℕ → Bool
is_space c =
    (leb 9 c && leb c 13)
    || (leb 28 c && leb c 32)
    || (leb 8192 c && leb c 8202)
    || any (λ d. c == d) (133 ∷ 160 ∷ 5760 ∷ 8232 ∷ 8233 ∷ 8239 ∷ 8287 ∷ 12288 ∷ [])

unfoldable pub strip_left : String → String
strip_left empty = empty
strip_left (c followed_by s) = elim (is_space (code c)) [
  | true ↦ strip_left s
  | false ↦ c followed_by s
]

-- `int(text)` of decimal digits
unfoldable pub decimal : ℕ → String → ℕ
decimal n empty = n
decimal n (c followed_by s) = decimal (n * 10 + (code c - 48)) s

-- no character of the text ends a part
abbrev pub IsPart : (ℕ → Bool) → String → Type 0
IsPart ends s = all_in (λ c. not (ends c)) s ≡ true

parts_between-IsPart :
    (ends : ℕ → Bool) (s : String) → IsPart ends s → parts_between ends s ≡ s ∷ []
unfolding parts_between all_in
parts_between-IsPart ends empty h = refl
parts_between-IsPart ends (c followed_by s) h = ground (arith, parts_between-IsPart ends s)

parts_between-append :
    (ends : ℕ → Bool) (c : Char) (s t : String)
    → ends (code c) ≡ true
    → IsPart ends s
    → parts_between ends (s <> (c followed_by t)) ≡ s ∷ parts_between ends t
unfolding parts_between all_in
parts_between-append ends c empty t sep h = rw nil-append (rw sep refl)
parts_between-append ends c (d followed_by s) t sep h =
    rw cons-append (ground (arith, parts_between-append ends c s t sep))

-- Parts that are joined by a character which ends them are read back, when they have none of it.
pub parts_between-join :
    (ends : ℕ → Bool) (c : Char) (part : String) (parts : List String)
    → ends (code c) ≡ true
    → All (IsPart ends) (part ∷ parts)
    → parts_between ends (join_with (c followed_by empty) (part ∷ parts)) ≡ part ∷ parts
unfolding join_with
parts_between-join ends c part [] sep h = parts_between-IsPart ends part h.0
parts_between-join ends c part (next ∷ parts) sep h =
    let rest = parts_between-join ends c next parts sep h.1 in
    rw (cons-append, nil-append) (parts_between-append ends c part _ sep h.0 ∙ ap (◌∷◌ part) rest)
