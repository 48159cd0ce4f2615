-- ===== src/Config/Ports.antt =====
-- `ports`, `duration` and the overlap of port lists in core/config.py.
pub mod Bounds
use Prim.Native.String.{[] as empty, ◌∷◌ as ◌followed_by◌}
use Prim.Native.Char.{Char, code}
use l4d2_iptable_suite.Base.{
  ℕ, suc, zero, ◌+◌, ◌-◌, ◌*◌, Bool, true, false, not, ◌&&◌, ◌||◌, ◌==◌, ◌===◌, String, Option,
  none, some, List, [], ◌∷◌, map, any, length, all, leb, ltb, max, min, if◌then◌else◌,
}
use l4d2_iptable_suite.Base.Result.{Result, ok, err, policy_error, require, ◌>>=◌, ◌>>◌}

-- the characters of a text, by their numbers
unfoldable pub codes : String → List ℕ
codes empty = []
codes (c followed_by s) = code c ∷ codes s

abbrev pub is_digit : ℕ → Bool
is_digit c = leb 48 c && leb c 57

-- `text.split(separator)`: the part before the first separator, and the others
abbrev pub extend : ℕ → List (List ℕ) → List (List ℕ)
extend c [] = (c ∷ []) ∷ []
extend c (part ∷ parts) = (c ∷ part) ∷ parts

unfoldable pub split_on : ℕ → List ℕ → List (List ℕ)
split_on separator [] = [] ∷ []
split_on separator (c ∷ cs) =
    let rest = split_on separator cs in if c == separator then [] ∷ rest else extend c rest

-- `int(text)` of decimal digits
unfoldable pub number_from : ℕ → List ℕ → ℕ
number_from n [] = n
number_from n (c ∷ cs) = number_from (n * 10 + (c - 48)) cs

-- `[0-9]+`
abbrev pub is_number : List ℕ → Bool
is_number [] = false
is_number (c ∷ cs) = all is_digit (c ∷ cs)

-- `[0-9]+(?::[0-9]+)?`
abbrev pub is_part : List (List ℕ) → Bool
is_part (a ∷ []) = is_number a
is_part (a ∷ b ∷ []) = is_number a && is_number b
is_part _ = false

-- one or two ends, the first and the last
abbrev pub ends_of : List (List ℕ) → ℕ × ℕ
ends_of [] = (0, 0)
ends_of (a ∷ []) = (number_from 0 a, number_from 0 a)
ends_of (a ∷ b ∷ rest) = (number_from 0 a, number_from 0 b)

abbrev pub is_port : ℕ → Bool
is_port i = leb 1 i && leb i 65535

unfoldable pub port_range : ℕ × ℕ → Result (ℕ × ℕ)
port_range ends =
    require (is_port ends.0 && is_port ends.1 && leb ends.0 ends.1) "Invalid port range" >> ok ends

unfoldable pub port_ranges : List (List ℕ) → Result (List (ℕ × ℕ))
unfolding port_range split_on
port_ranges [] = ok []
port_ranges (p ∷ ps) = port_range (ends_of (split_on 58 p)) >>= λ range.
    port_ranges ps >>= λ ranges. ok (range ∷ ranges)

-- a range counts twice
abbrev pub entries_used : List (ℕ × ℕ) → ℕ
entries_used [] = 0
entries_used ((a, b) ∷ ranges) = (if a == b then 1 else 2) + entries_used ranges

abbrev pub within_limit : List (ℕ × ℕ) → Result (List (ℕ × ℕ))
within_limit out =
    require (leb (entries_used out) 15) "At most 15 multiport entries (range counts twice)"
    >> ok out

-- the well-formed text, in its parts between commas
unfoldable pub ports : String → Result (List (ℕ × ℕ))
unfolding codes split_on port_ranges
ports value =
    let parts = split_on 44 (codes value) in
    require (all (λ p. is_part (split_on 58 p)) parts) "Invalid port list"
    >> (port_ranges parts >>= within_limit)

-- `[smhdw]`, in seconds
abbrev pub unit_seconds : ℕ → Option ℕ
unit_seconds c =
    if c == 115
    then some 1
    else if c == 109
    then some 60
    else if c == 104
    then some 3600
    else if c == 100
    then some 86400
    else if c == 119
    then some 604800
    else none

-- the digits, and the last character
unfoldable pub split_last : List ℕ → List ℕ × ℕ
split_last [] = ([], 0)
split_last (c ∷ []) = ([], c)
split_last (c ∷ d ∷ cs) = (c ∷ (split_last (d ∷ cs)).0, (split_last (d ∷ cs)).1)

-- `[1-9][0-9]{0,6}`
abbrev pub is_amount : List ℕ → Bool
is_amount [] = false
is_amount (c ∷ cs) = leb 49 c && leb c 57 && all is_digit cs && leb (length cs) 6

abbrev pub seconds_of : Bool → ℕ → Option ℕ → Result ℕ
seconds_of true amount (some unit) = ok (amount * unit)
seconds_of _ amount _ = err (policy_error "Invalid duration")

unfoldable pub duration : String → Result ℕ
unfolding codes split_last number_from
duration value =
    let parts = split_last (codes value) in
    seconds_of (is_amount parts.0) (number_from 0 parts.0) (unit_seconds parts.1)

-- `any(max(a,c) <= min(b,d) for a,b in xs for c,d in ys)`
abbrev pub meets : ℕ × ℕ → ℕ × ℕ → Bool
meets (a, b) (c, d) = leb (max a c) (min b d)

unfoldable pub overlap : List (ℕ × ℕ) → List (ℕ × ℕ) → Bool
overlap [] ys = false
overlap (x ∷ xs) ys = any (meets x) ys || overlap xs ys
