-- ===== src/Compiler/Modules/Options.antt =====
-- The words after the options of a hashlimit rule, as `replace_after` and `set_option` leave them.
use l4d2_iptable_suite.Base.{
  ◌≡◌, refl, sym, ap, ◌∙◌, Bool, true, false, not, ◌&&◌, ◌===◌, String, some, [], ◌∷◌, ◌++◌,
  if◌then◌else◌, arith, eq_iff, eq_refl, Bool-cases, inl, inr,
}
use l4d2_iptable_suite.Base.Result.{ok, err, type_error}
use l4d2_iptable_suite.Base.Yields.{Yields, ok-Yields, err-Yields, bind-Yields, if-Yields}
use l4d2_iptable_suite.Base.Sets.{member}
use l4d2_iptable_suite.Engine.Save.{Rule}
use l4d2_iptable_suite.Compiler.Modules.{replace_after, word_after, set_option}

unfoldable pub is_limit : String → Bool
is_limit word = member word (
    "--hashlimit-name" ∷ "--hashlimit-htable-size" ∷ "--hashlimit-htable-max"
    ∷ "--hashlimit-htable-expire" ∷ [])

-- Each of these options is followed by a word that is none of them; the first argument is the word before.
unfoldable pub apart : String → Rule → Bool
apart word [] = not (is_limit word)
apart word (next ∷ rule) = not (is_limit word && is_limit next) && apart next rule

-- the rule that `replace_after` gives
unfoldable pub replaced : String → (String → String) → Rule → Rule
replaced flag change [] = []
replaced flag change (word ∷ []) = word ∷ []
replaced flag change (word ∷ next ∷ rule) =
    let rest = replaced flag change (next ∷ rule) in
    if word === flag then word ∷ change next ∷ rule else word ∷ rest

pub replace_after-replaced :
    (flag : String) (change : String → String) (rule : Rule)
    → Yields (λ out. out ≡ replaced flag change rule) (replace_after flag change rule)
unfolding replace_after replaced
replace_after-replaced flag change [] = ok-Yields (λ out. out ≡ []) [] refl
replace_after-replaced flag change (word ∷ []) =
    if-Yields (λ out. out ≡ word ∷ []) (word === flag) (err type_error) (ok (word ∷ []))
      (err-Yields (λ out. out ≡ word ∷ []) type_error)
      (ok-Yields (λ out. out ≡ word ∷ []) (word ∷ []) refl)
replace_after-replaced flag change (word ∷ next ∷ rule) = elim (Bool-cases (word === flag)) [
  | inl same ↦
      rw same (ok-Yields (λ out. out ≡ word ∷ change next ∷ rule) (word ∷ change next ∷ rule) refl)
  | inr other ↦ rw other (
      bind-Yields (λ out. out ≡ word ∷ replaced flag change (next ∷ rule))
        (replace_after flag change (next ∷ rule)) _
        (λ words found.
          ok-Yields (λ out. out ≡ word ∷ replaced flag change (next ∷ rule)) (word ∷ words)
            (ap (◌∷◌ word) (replace_after-replaced flag change (next ∷ rule) words found))))
]

-- the rule that `set_option` gives
abbrev pub put_option : String → String → Rule → Rule
put_option flag value rule =
    if member flag rule then replaced flag (λ word. value) rule else rule ++ (flag ∷ value ∷ [])

pub set_option-put_option :
    (flag value : String) (rule : Rule)
    → Yields (λ out. out ≡ put_option flag value rule) (set_option flag value rule)
unfolding set_option
set_option-put_option flag value rule = elim (Bool-cases (member flag rule)) [
  | inl there ↦ rw there (replace_after-replaced flag (λ word. value) rule)
  | inr gone ↦ rw gone (ok-Yields (λ out. out ≡ rule ++ (flag ∷ value ∷ [])) _ refl)
]

pub differ : (x f : String) → is_limit x ≡ false → is_limit f ≡ true → (x === f) ≡ false
differ x f plain limit = elim (Bool-cases (x === f)) [
  | inl same ↦ let path = (eq_iff x f).0 same in cc
  | inr other ↦ other
]

pub same_sym : (x y : String) → (x === y) ≡ (y === x)
same_sym x y = ground (arith, eq_iff x y, eq_iff y x)

-- a word that is an option
pub limit_at : (n flag : String) → is_limit flag ≡ true → (n === flag) ≡ true → is_limit n ≡ true
limit_at n flag limit same = rw ((eq_iff n flag).0 same) limit

-- a word is not two options
pub not_both : (x f g : String) → (g === f) ≡ false → (x === f) ≡ true → (x === g) ≡ false
not_both x f g other same = elim (Bool-cases (x === g)) [
  | inl again ↦
      let first = (eq_iff x f).0 same in
      let second = (eq_iff x g).0 again in let meet = (eq_iff g f).1 (sym second ∙ first) in cc
  | inr apart_from ↦ apart_from
]

module _ (flag : String) (change : String → String)
    (plain : (word : String) → is_limit (change word) ≡ false) where
  pub replaced-apart :
      (word next : String) (rule : Rule)
      → apart word (next ∷ rule) ≡ true
      → apart word (replaced flag change (next ∷ rule)) ≡ true
  unfolding apart replaced
  replaced-apart word next [] h = h
  replaced-apart word next (m ∷ []) h = ground (arith, h, plain m)
  replaced-apart word next (m ∷ k ∷ rule) h =
      ground (arith, h, plain m, replaced-apart next m (k ∷ rule))

  -- a word after another option stays
  pub replaced-other :
      (other : String)
      → (other === flag) ≡ false
      → is_limit other ≡ true
      → is_limit flag ≡ true
      → (word : String) (rule : Rule) → apart word rule ≡ true
      → word_after other (replaced flag change rule) ≡ word_after other rule
  unfolding apart replaced word_after
  replaced-other other differs is_other is_flag word [] h = refl
  replaced-other other differs is_other is_flag word (n ∷ []) h = refl
  replaced-other other differs is_other is_flag word (n ∷ m ∷ []) h =
      ground (arith, not_both n flag other differs)
  replaced-other other differs is_other is_flag word (n ∷ m ∷ k ∷ rule) h =
      let rest = replaced-other other differs is_other is_flag n (m ∷ k ∷ rule) in
      elim (Bool-cases (n === flag)) [
        | inl same ↦
            let n_other = not_both n flag other differs same in
            let m_plain : is_limit m ≡ false = ground (arith, h, limit_at n flag is_flag same) in
            rw same (
              ground (
                arith,
                n_other,
                differ m other m_plain is_other,
                differ (change m) other (plain m) is_other,
              ))
        | inr away ↦ rw away (ground (arith, h, rest))
      ]

  -- the word after the option is the changed one
  pub replaced_self :
      (value : String)
      → ((word : String) → change word ≡ value)
      → (rule : Rule) → member flag rule ≡ true
      → (word : String) → apart word rule ≡ true
      → is_limit flag ≡ true
      → word_after flag (replaced flag change rule) ≡ some value
  unfolding apart replaced word_after
  replaced_self value const [] there word h limit = cc
  replaced_self value const (n ∷ []) there word h limit =
      ground (arith, h, there, same_sym flag n, limit_at n flag limit)
  replaced_self value const (n ∷ m ∷ []) there word h limit =
      ground (arith, h, there, const m, same_sym flag n, same_sym flag m, limit_at m flag limit)
  replaced_self value const (n ∷ m ∷ k ∷ rule) there word h limit =
      let rest = replaced_self value const (m ∷ k ∷ rule) in
      elim (Bool-cases (n === flag)) [
        | inl same ↦ rw (same, replaced) (rw same (ap some (const m)))
        | inr away ↦
            let tail =
              rest (ground (arith, there, away, same_sym flag n)) n (ground (arith, h)) limit in
            rw away (ground (arith, away, tail))
      ]

module _ (flag value : String) (limit : is_limit flag ≡ true) (plain : is_limit value ≡ false) where
  pub appended-apart :
      (word : String) (rule : Rule)
      → apart word rule ≡ true
      → apart word (rule ++ (flag ∷ value ∷ [])) ≡ true
  unfolding apart
  appended-apart word [] h = ground (arith, h, plain)
  appended-apart word (n ∷ rule) h = ground (arith, h, appended-apart n rule)

  pub appended-other :
      (other : String)
      → (other === flag) ≡ false
      → is_limit other ≡ true
      → (word : String) (rule : Rule) → apart word rule ≡ true
      → word_after other (rule ++ (flag ∷ value ∷ [])) ≡ word_after other rule
  unfolding apart word_after
  appended-other other differs is_other word [] h = ground (arith, same_sym flag other, differs)
  appended-other other differs is_other word (n ∷ []) h =
      ground (arith, h, same_sym flag other, differs, limit_at n other is_other)
  appended-other other differs is_other word (n ∷ m ∷ rule) h =
      ground (arith, h, appended-other other differs is_other n (m ∷ rule))

  pub appended_self :
      (rule : Rule)
      → member flag rule ≡ false
      → word_after flag (rule ++ (flag ∷ value ∷ [])) ≡ some value
  unfolding word_after
  appended_self [] gone = rw (eq_refl flag) refl
  appended_self (n ∷ []) gone = ground (arith, gone, same_sym flag n, eq_refl flag)
  appended_self (n ∷ m ∷ rule) gone =
      ground (arith, gone, same_sym flag n, appended_self (m ∷ rule))

-- `set_option`, of an option whose value is none
module _ (flag value : String) (limit : is_limit flag ≡ true) (plain : is_limit value ≡ false) where
  pub put_option-apart :
      (rule : Rule) → apart "" rule ≡ true → apart "" (put_option flag value rule) ≡ true
  put_option-apart [] h = appended-apart flag value limit plain "" [] h
  put_option-apart (n ∷ rule) h = elim (Bool-cases (member flag (n ∷ rule))) [
    | inl there ↦ rw there (replaced-apart flag (λ word. value) (λ word. plain) "" n rule h)
    | inr gone ↦ rw gone (appended-apart flag value limit plain "" (n ∷ rule) h)
  ]

  pub put_option-other :
      (other : String)
      → (other === flag) ≡ false
      → is_limit other ≡ true
      → (rule : Rule) → apart "" rule ≡ true
      → word_after other (put_option flag value rule) ≡ word_after other rule
  put_option-other other differs is_other rule h = elim (Bool-cases (member flag rule)) [
    | inl there ↦
        rw there (
          replaced-other flag (λ word. value) (λ word. plain) other differs is_other limit "" rule
            h)
    | inr gone ↦ rw gone (appended-other flag value limit plain other differs is_other "" rule h)
  ]

  pub put_option_self :
      (rule : Rule)
      → apart "" rule ≡ true
      → word_after flag (put_option flag value rule) ≡ some value
  put_option_self rule h = elim (Bool-cases (member flag rule)) [
    | inl there ↦ rw there (
        replaced_self flag (λ word. value) (λ word. plain) value (λ word. refl) rule there "" h
          limit)
    | inr gone ↦ rw gone (appended_self flag value limit plain rule gone)
  ]
