-- ===== src/Engine/SharedRule/Words.antt =====
-- How the words of `_canonical_shared_text` in core/engine.py are read back.
use Prim.Native.String.{[] as empty, ◌∷◌ as ◌followed_by◌}
use Prim.Native.Char.{code}
use text.Mathlib.TextEquality.{Char-path}
use text.Mathlib.TextLemmas.{nil-append, cons-append}
use l4d2_iptable_suite.Base.{
  ◌≡◌, refl, ℕ, Bool, true, false, not, ◌&&◌, ◌==◌, ◌<>◌, String, Option, none, some, arith,
  Bool-cases, inl, inr, ==_iff, Option-cases,
}
use l4d2_iptable_suite.Base.Result.{ok}
use l4d2_iptable_suite.Base.Texts.{all_in, drop_text, IsPart, is_hex_code}
use l4d2_iptable_suite.Engine.RuleWords.{
  is_blank, is_name_code, is_name, before_quote, quote, quoted, interface_name, is_hex_16,
  is_marker, marker,
}

all_in-append : (p : ℕ → Bool) (s t : String) → all_in p (s <> t) ≡ (all_in p s && all_in p t)
unfolding all_in
all_in-append p empty t = rw nil-append refl
all_in-append p (c followed_by s) t = rw cons-append (ground (arith, all_in-append p s t))

-- a class within another
all_in_le :
    (p q : ℕ → Bool)
    → ((c : ℕ) → p c ≡ true → q c ≡ true)
    → (s : String) → all_in p s ≡ true
    → all_in q s ≡ true
unfolding all_in
all_in_le p q step empty h = refl
all_in_le p q step (c followed_by s) h = ground (arith, step (code c), all_in_le p q step s)

before_quote-append : (s : String) → before_quote (s <> quote) ≡ some s
unfolding before_quote
before_quote-append empty = refl
before_quote-append (c followed_by empty) = rw cons-append refl
before_quote-append (c followed_by (d followed_by s)) =
    let rest = before_quote-append (d followed_by s) in
    let opened : before_quote (d followed_by (s <> quote)) ≡ some (d followed_by s) =
      rw cons-append at rest in
    rw (cons-append, cons-append) (cc opened)

quoted-quote : (s : String) → quoted (quote <> (s <> quote)) ≡ some s
unfolding quoted
quoted-quote s = rw (cons-append, nil-append) (before_quote-append s)

no_rest : {rest : String} → ◌≡◌ {A = Option String} none (some rest) → ⊥
no_rest h = cc

drop_text-append : (p s rest : String) → drop_text p s ≡ some rest → s ≡ p <> rest
unfolding drop_text
drop_text-append empty s rest h = rw nil-append (cc)
drop_text-append (c followed_by p) empty rest h = cc
drop_text-append (c followed_by p) (d followed_by s) rest h = elim (Bool-cases (code c == code d)) [
  | inl same ↦
      let step = drop_text-append p s rest (rw same at h) in
      rw cons-append (cc (Char-path c d ((==_iff _ _).0 same), step))
  | inr other ↦ absurd (no_rest (rw other at h))
]

-- a class without the blank
IsPart-of :
    (p : ℕ → Bool)
    → ((c : ℕ) → p c ≡ true → not (is_blank c) ≡ true)
    → (s : String) → all_in p s ≡ true
    → IsPart is_blank s
IsPart-of p no_blank s h = all_in_le p (λ c. not (is_blank c)) no_blank s h

quote_lit : (all_in (λ c. not (is_blank c)) quote && all_in (λ c. not (is_blank c)) quote) ≡ true
unfolding all_in
quote_lit = refl

quote-IsPart : (s : String) → IsPart is_blank s → IsPart is_blank (quote <> (s <> quote))
quote-IsPart s h =
    rw
      (
        all_in-append (λ c. not (is_blank c)) quote (s <> quote),
        all_in-append (λ c. not (is_blank c)) s quote,
        h,
      )
      quote_lit

name_codes : (s : String) → is_name s ≡ true → all_in is_name_code s ≡ true
name_codes s h = ground (arith, h)

pub name-IsPart : (s : String) → is_name s ≡ true → IsPart is_blank (quote <> (s <> quote))
name-IsPart s h =
    quote-IsPart s (IsPart-of is_name_code (λ c name. ground arith) s (name_codes s h))

marker_lit : (all_in (λ c. not (is_blank c)) "l4d2-suite:s2s:" && true) ≡ true
unfolding all_in
marker_lit = refl

no_marker : false ≡ true → ⊥
no_marker h = cc

hex_codes : (s : String) → is_hex_16 (some s) ≡ true → all_in is_hex_code s ≡ true
hex_codes s h = ground (arith, h)

pub marker-IsPart : (s : String) → is_marker s ≡ true → IsPart is_blank (quote <> (s <> quote))
unfolding is_marker
marker-IsPart s h = quote-IsPart s (elim (Option-cases (drop_text "l4d2-suite:s2s:" s)) [
  | inl missing ↦ absurd (no_marker (rw missing at h))
  | inr (digits, found) ↦
      rw
        (
          drop_text-append "l4d2-suite:s2s:" s digits found,
          all_in-append (λ c. not (is_blank c)) "l4d2-suite:s2s:" digits,
          IsPart-of is_hex_code (λ c hex. ground arith) digits (hex_codes digits (rw found at h)),
        )
        marker_lit
])

pub interface_name-quote :
    (s : String) → is_name s ≡ true → interface_name (quote <> (s <> quote)) ≡ ok s
unfolding interface_name
interface_name-quote s h = rw (quoted-quote s, interface_name) (ground (arith, h))

pub marker-quote : (s : String) → is_marker s ≡ true → marker (quote <> (s <> quote)) ≡ ok s
unfolding marker
marker-quote s h = rw (quoted-quote s, marker) (ground (arith, h))
