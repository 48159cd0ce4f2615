-- ===== src/Compiler/Modules/Limits.antt =====
-- The bounds of the hashlimit tables in the rules of the modules.
use l4d2_iptable_suite.Base.{
  ◌≡◌, refl, ◌∙◌, ◌*◌, true, false, ◌===◌, String, ◌<>◌, none, some, List, [], ◌∷◌, ◌++◌, arith,
  eq_refl, Bool-cases, inl, inr,
}
use l4d2_iptable_suite.Base.Result.{ok, err, type_error}
use l4d2_iptable_suite.Base.Yields.{Yields, ok-Yields, err-Yields, bind-Yields}
use l4d2_iptable_suite.Base.Sets.{lookup, member}
use l4d2_iptable_suite.Engine.Save.{Rule}
use l4d2_iptable_suite.Compiler.{short_name}
use l4d2_iptable_suite.Compiler.Vpn.{Values, is_set}
use l4d2_iptable_suite.Config.Ports.{duration}
use l4d2_iptable_suite.Config.Access.{member_of}
use l4d2_iptable_suite.Compiler.Modules.Plain.{short_name-plain, decimal_text-plain}
use l4d2_iptable_suite.Compiler.Modules.Options.{
  is_limit, apart, replaced, replace_after-replaced, put_option, set_option-put_option,
  replaced-apart, appended-other, put_option-apart, put_option-other, put_option_self,
}
use l4d2_iptable_suite.Compiler.Modules.{
  decimal_text, timeout_of, replace_after, word_after, set_option, set_expiry, default_expiry,
  limit_rule, limit_named,
}

-- A rule whose hashlimit table has the capacity as its size and its maximum, and has an expiry.
pub record IsBounded (capacity : String) (rule : Rule) : Type 0 where
  pub size_is : word_after "--hashlimit-htable-size" rule ≡ some capacity
  pub max_is : word_after "--hashlimit-htable-max" rule ≡ some capacity
  pub expires : member "--hashlimit-htable-expire" rule ≡ true

module _ (digest : String → String) where
  renamed-apart :
      (context : String) (rule : Rule)
      → apart "" rule ≡ true
      → apart "" (replaced "--hashlimit-name" (λ word. short_name digest (context <> word)) rule)
        ≡ true
  unfolding replaced
  renamed-apart context [] h = h
  renamed-apart context (n ∷ rule) h =
      replaced-apart "--hashlimit-name" (λ word. short_name digest (context <> word))
        (λ word. short_name-plain digest (context <> word)) "" n rule h

  set_expiry-apart :
      (timeout : String) (rule : Rule)
      → apart "" rule ≡ true
      → Yields (λ out. apart "" out ≡ true) (set_expiry timeout rule)
  unfolding set_expiry is_limit
  set_expiry-apart timeout rule h = elim (Bool-cases (is_set timeout)) [
    | inl given ↦ rw given (
        bind-Yields (λ out. apart "" out ≡ true) (duration timeout) _
          (λ seconds _ out found.
            rw
              (set_option-put_option "--hashlimit-htable-expire" (decimal_text (seconds * 1000))
                rule out found)
              (put_option-apart "--hashlimit-htable-expire" (decimal_text (seconds * 1000)) refl
                (decimal_text-plain (seconds * 1000)) rule h)))
    | inr absent ↦ rw absent (ok-Yields (λ out. apart "" out ≡ true) rule h)
  ]

  default_expiry-other :
      (other : String)
      → (other === "--hashlimit-htable-expire") ≡ false
      → is_limit other ≡ true
      → (rule : Rule) → apart "" rule ≡ true
      → word_after other (default_expiry rule) ≡ word_after other rule
  unfolding is_limit
  default_expiry-other other differs is_other rule h =
      elim (Bool-cases (member "--hashlimit-htable-expire" rule)) [
        | inl there ↦ rw there refl
        | inr gone ↦ rw gone (
            appended-other "--hashlimit-htable-expire" "60000" refl refl other differs is_other ""
              rule h)
      ]

  member-appended : (x v : String) (xs : List String) → member x (xs ++ (x ∷ v ∷ [])) ≡ true
  member-appended x v [] = ground (arith, eq_refl x)
  member-appended x v (y ∷ xs) = ground (arith, member-appended x v xs)

  default_expiry-expires :
      (rule : Rule) → member "--hashlimit-htable-expire" (default_expiry rule) ≡ true
  default_expiry-expires rule = elim (Bool-cases (member "--hashlimit-htable-expire" rule)) [
    | inl there ↦ rw there there
    | inr gone ↦ rw gone (member-appended "--hashlimit-htable-expire" "60000" rule)
  ]

  module _ (capacity : String) (plain : is_limit capacity ≡ false) where
    -- the two bounds are set, and the expiry is there
    bounded :
        (rule : Rule)
        → apart "" rule ≡ true
        → IsBounded capacity (
            default_expiry (
              put_option "--hashlimit-htable-max" capacity
                (put_option "--hashlimit-htable-size" capacity rule)))
    unfolding is_limit
    bounded rule h =
        let sized = put_option "--hashlimit-htable-size" capacity rule in
        let last = put_option "--hashlimit-htable-max" capacity sized in
        let sized_apart = put_option-apart "--hashlimit-htable-size" capacity refl plain rule h in
        let last_apart =
          put_option-apart "--hashlimit-htable-max" capacity refl plain sized sized_apart in
        record {
          size_is =
              default_expiry-other "--hashlimit-htable-size" refl refl last last_apart
              ∙ put_option-other "--hashlimit-htable-max" capacity refl plain
                  "--hashlimit-htable-size" refl refl sized sized_apart
              ∙ put_option_self "--hashlimit-htable-size" capacity refl plain rule h;
          max_is =
              default_expiry-other "--hashlimit-htable-max" refl refl last last_apart
              ∙ put_option_self "--hashlimit-htable-max" capacity refl plain sized sized_apart;
          expires = default_expiry-expires last;
        }

    limit_named-IsBounded :
        (v : Values) (context raw : String) (rule : Rule)
        → lookup v "STATE_CAPACITY" ≡ some capacity
        → apart "" rule ≡ true
        → Yields (IsBounded capacity) (limit_named (short_name digest) v context raw rule)
    unfolding limit_named
    limit_named-IsBounded v context raw rule given h =
        let P = IsBounded capacity in
        bind-Yields P (replace_after "--hashlimit-name" _ rule) _ (λ named renamed.
          bind-Yields P (timeout_of v raw) _ (λ timeout _.
            bind-Yields P (set_expiry timeout named) _ (λ expiring expired.
              bind-Yields P (member_of v "STATE_CAPACITY") _ (λ found has.
                bind-Yields P (set_option "--hashlimit-htable-size" found expiring) _ (λ sized size.
                  bind-Yields P (set_option "--hashlimit-htable-max" found sized) _ (λ last max.
                    let same : found ≡ capacity = (let got = rw given at has in cc) in
                    let named_is =
                      replace_after-replaced "--hashlimit-name"
                        (λ word. short_name digest (context <> word)) rule named renamed in
                    let named_apart : apart "" named ≡ true =
                      rw named_is (renamed-apart context rule h) in
                    let tidy = set_expiry-apart timeout named named_apart expiring expired in
                    ok-Yields P (default_expiry last) (
                      rw
                        (
                          set_option-put_option "--hashlimit-htable-max" found sized last max,
                          set_option-put_option "--hashlimit-htable-size" found expiring sized size,
                          same,
                        )
                        (bounded expiring tidy))))))))

    -- When no option of the hashlimit table in a rule is followed by another one or by nothing, and the
    -- capacity is none of these options, the rule that is made of it, if it is accepted, has the capacity as
    -- the size and as the maximum of its table, and an expiry.
    pub limit_rule-IsBounded :
        (v : Values) (context : String) (rule out : Rule)
        → lookup v "STATE_CAPACITY" ≡ some capacity
        → apart "" rule ≡ true
        → member "--hashlimit-name" rule ≡ true
        → limit_rule (short_name digest) v context rule ≡ ok out
        → IsBounded capacity out
    unfolding limit_rule
    limit_rule-IsBounded v context rule out given h limited made =
        let P = IsBounded capacity in
        let all_bounded : Yields P (limit_rule (short_name digest) v context rule) =
          rw (limited, limit_rule)
            (elim (word_after "--hashlimit-name" rule)
              as (λ o. Yields P (elim o [
                | none ↦ err type_error
                | some raw ↦ limit_named (short_name digest) v context raw rule
              ])) [
                | none ↦ err-Yields P type_error
                | some raw ↦ limit_named-IsBounded v context raw rule given h
              ]) in
        all_bounded out made
