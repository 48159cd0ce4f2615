-- ===== src/Compiler/Modules/Plain.antt =====
-- The names of chains and the numbers that are written into a rule are no options.
use Prim.Native.String.{[] as empty, ◌∷◌ as ◌followed_by◌}
use Prim.Native.Char.{code}
use text.Mathlib.TextLemmas.{cons-append}
use l4d2_iptable_suite.Base.{
  ◌≤◌, ap, inl, inr, arith, suc, ◌≡◌, refl, ℕ, zero, suc, ◌/◌, ◌%◌, Bool, true, false, not, ◌===◌,
  ◌==◌, String, ◌<>◌, ltb, if◌then◌else◌, arith, eq_iff, Bool-cases, inl, inr,
}
use l4d2_iptable_suite.Compiler.{short_name}
use l4d2_iptable_suite.Compiler.Modules.Options.{is_limit}
use l4d2_iptable_suite.Compiler.Modules.{digit_text, digits_within, decimal_text}

abbrev pub starts_with_dash : String → Bool
starts_with_dash empty = false
starts_with_dash (c followed_by s) = code c == 45

dash_at :
    (w flag : String)
    → starts_with_dash flag ≡ true
    → starts_with_dash w ≡ false
    → (w === flag) ≡ false
dash_at w flag dash none_there = elim (Bool-cases (w === flag)) [
  | inl same ↦ let path = (eq_iff w flag).0 same in cc
  | inr other ↦ other
]

no_dash : (w : String) → starts_with_dash w ≡ false → is_limit w ≡ false
unfolding is_limit
no_dash w h = ground (
  arith,
  dash_at w "--hashlimit-name" refl h,
  dash_at w "--hashlimit-htable-size" refl h,
  dash_at w "--hashlimit-htable-max" refl h,
  dash_at w "--hashlimit-htable-expire" refl h,
)

pub short_name-plain :
    (digest : String → String) (name : String) → is_limit (short_name digest name) ≡ false
short_name-plain digest name = no_dash (short_name digest name) (rw cons-append refl)

-- a number is no option
abbrev pub starts_plain : String → Bool
starts_plain empty = false
starts_plain (c followed_by s) = not (code c == 45)

starts_plain-append : (s t : String) → starts_plain s ≡ true → starts_plain (s <> t) ≡ true
starts_plain-append empty t h = cc
starts_plain-append (c followed_by s) t h = rw cons-append h

starts_plain-if :
    (b : Bool) (s t : String)
    → starts_plain s ≡ true
    → starts_plain t ≡ true
    → starts_plain (if b then s else t) ≡ true
starts_plain-if true s t h k = h
starts_plain-if false s t h k = k

digit_text-plain : (n : ℕ) → starts_plain (digit_text n) ≡ true
digit_text-plain n = starts_plain-if (n == 0) "0" _ refl (
    starts_plain-if (n == 1) "1" _ refl (
      starts_plain-if (n == 2) "2" _ refl (
        starts_plain-if (n == 3) "3" _ refl (
          starts_plain-if (n == 4) "4" _ refl (
            starts_plain-if (n == 5) "5" _ refl (
              starts_plain-if (n == 6) "6" _ refl (
                starts_plain-if (n == 7) "7" _ refl
                  (starts_plain-if (n == 8) "8" "9" refl refl))))))))

digits_within-plain : (fuel n : ℕ) → starts_plain (digits_within fuel n) ≡ true
unfolding digits_within
digits_within-plain zero n = digit_text-plain n
digits_within-plain (suc fuel) n =
    elim (ltb n 10)
      as (λ b.
        starts_plain (elim b [
          | true ↦ digit_text n
          | false ↦ digits_within fuel (n / 10) <> digit_text (n % 10)
        ])
        ≡ true) [
          | true ↦ digit_text-plain n
          | false ↦
              starts_plain-append (digits_within fuel (n / 10)) (digit_text (n % 10))
                (digits_within-plain fuel (n / 10))
        ]

starts_plain-no_dash : (s : String) → starts_plain s ≡ true → starts_with_dash s ≡ false
starts_plain-no_dash empty h = cc
starts_plain-no_dash (c followed_by s) h = ground (arith, h)

pub decimal_text-plain : (n : ℕ) → is_limit (decimal_text n) ≡ false
decimal_text-plain n =
    no_dash (decimal_text n) (starts_plain-no_dash (decimal_text n) (digits_within-plain n n))

zero_below : (n : ℕ) → n ≤ 0 → n ≡ 0
zero_below n h = omega arith

tenth : (n fuel : ℕ) → n ≤ suc fuel → n / 10 ≤ fuel
tenth n fuel h = omega arith

-- More fuel than the number changes nothing, so that all the digits are written.
digits_within-enough : (fuel n : ℕ) → n ≤ fuel → digits_within (suc fuel) n ≡ digits_within fuel n
unfolding digits_within
digits_within-enough zero n h = rw (zero_below n h) refl
digits_within-enough (suc fuel) n h = elim (Bool-cases (ltb n 10)) [
  | inl small ↦ ground (arith, small)
  | inr large ↦
      let rest = digits_within-enough fuel (n / 10) (tenth n fuel h) in
      ap (λ start. elim (ltb n 10) [ true ↦ digit_text n | false ↦ start <> digit_text (n % 10) ])
        rest
]
