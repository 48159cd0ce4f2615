-- ===== src/Engine/Iptables/Hooks.antt =====
-- What the hook lines of a transaction do to the rules of a table, when iptables-restore runs them.
use l4d2_iptable_suite.Base.{
  ℕ, zero, suc, ◌-◌, ◌≡◌, refl, ◌∙◌, Bool, true, false, ◌===◌, ◌==◌, String, List, [], ◌∷◌, ◌++◌,
  if◌then◌else◌, arith, eq_iff, eq_refl, Bool-cases, inl, inr, ==_iff,
}
use l4d2_iptable_suite.Base.Sets.{same_words, count_words}
use l4d2_iptable_suite.Engine.Save.{Rule, hook_rule}
use l4d2_iptable_suite.Engine.Iptables.{
  Line, delete_rule, insert_rule, append_rule, repeat, hook_words, hook_lines,
}

-- `-D`: the first rule that is the same goes
unfoldable pub remove_first : Rule → List Rule → List Rule
remove_first r [] = []
remove_first r (q ∷ qs) = let rest = remove_first r qs in if same_words q r then qs else q ∷ rest

abbrev pub stands_in : String → Rule → Bool
stands_in chain (a ∷ c ∷ ws) = c === chain
stands_in chain _ = false

-- `-I chain 1`: before the chain's first rule
unfoldable pub insert_first : String → Rule → List Rule → List Rule
insert_first chain r [] = r ∷ []
insert_first chain r (q ∷ qs) =
    let rest = insert_first chain r qs in if stands_in chain q then r ∷ q ∷ qs else q ∷ rest

abbrev pub run_line : Line → List Rule → List Rule
run_line (delete_rule chain words) rules = remove_first ("-A" ∷ chain ∷ words) rules
run_line (insert_rule chain words) rules = insert_first chain ("-A" ∷ chain ∷ words) rules
run_line (append_rule chain words) rules = rules ++ ("-A" ∷ chain ∷ words) ∷ []
run_line _ rules = rules

abbrev pub run_lines : List Line → List Rule → List Rule
run_lines [] rules = rules
run_lines (l ∷ ls) rules = run_lines ls (run_line l rules)

pub same_words_refl : (r : Rule) → same_words r r ≡ true
unfolding same_words
same_words_refl [] = refl
same_words_refl (w ∷ ws) = rw (eq_refl, same_words_refl ws) refl

pub same_words-eq : (q r : Rule) → same_words q r ≡ true → q ≡ r
unfolding same_words
same_words-eq [] [] h = refl
same_words-eq (x ∷ xs) (y ∷ ys) h = ground (arith, eq_iff x y, same_words-eq xs ys)
same_words-eq [] (y ∷ ys) h = cc
same_words-eq (x ∷ xs) [] h = cc

count-remove_first :
    (r : Rule) (qs : List Rule) → count_words (remove_first r qs) r ≡ count_words qs r - 1
unfolding count_words remove_first
count-remove_first r [] = refl
count-remove_first r (q ∷ qs) = ground (arith, count-remove_first r qs)

count-remove_other :
    (r s : Rule) (qs : List Rule)
    → same_words r s ≡ false
    → count_words (remove_first r qs) s ≡ count_words qs s
unfolding count_words remove_first
count-remove_other r s [] n = refl
count-remove_other r s (q ∷ qs) n = ground (arith, same_words-eq q r, count-remove_other r s qs n)

count-insert_first :
    (chain : String) (r s : Rule) (qs : List Rule)
    → count_words (insert_first chain r qs) s
      ≡ (if same_words r s then suc (count_words qs s) else count_words qs s)
unfolding count_words insert_first
count-insert_first chain r s [] = ground arith
count-insert_first chain r s (q ∷ qs) = ground (arith, count-insert_first chain r s qs)

run_lines-append :
    (ks ls : List Line) (rules : List Rule)
    → run_lines (ks ++ ls) rules ≡ run_lines ls (run_lines ks rules)
run_lines-append [] ls rules = refl
run_lines-append (k ∷ ks) ls rules = run_lines-append ks ls (run_line k rules)

module _ (parent target : String) where
  count-repeat :
      (n : ℕ) (rules : List Rule)
      → count_words
          (run_lines (repeat n (delete_rule parent (hook_words target))) rules)
          (hook_rule parent target)
        ≡ count_words rules (hook_rule parent target) - n
  count-repeat zero rules = omega arith
  count-repeat (suc n) rules = omega (
    arith,
    count-repeat n (remove_first (hook_rule parent target) rules),
    count-remove_first (hook_rule parent target) rules,
  )

  count-repeat_other :
      (n : ℕ) (rules : List Rule) (s : Rule)
      → same_words (hook_rule parent target) s ≡ false
      → count_words (run_lines (repeat n (delete_rule parent (hook_words target))) rules) s
        ≡ count_words rules s
  count-repeat_other zero rules s h = refl
  count-repeat_other (suc n) rules s h =
      count-repeat_other n (remove_first (hook_rule parent target) rules) s h
      ∙ count-remove_other (hook_rule parent target) s rules h

  -- a wanted hook that is not there exactly once: all go, one comes
  replaced : ℕ → List Rule → List Rule
  replaced n rules =
      insert_first parent (hook_rule parent target)
        (run_lines (repeat n (delete_rule parent (hook_words target))) rules)

  run-replace :
      (n : ℕ) (rules : List Rule)
      → run_lines
          (repeat n (delete_rule parent (hook_words target))
            ++ insert_rule parent (hook_words target) ∷ [])
          rules
        ≡ replaced n rules
  unfolding replaced
  run-replace n rules = run_lines-append (repeat n (delete_rule parent (hook_words target))) _ rules

  count-replaced :
      (n : ℕ) (rules : List Rule)
      → count_words rules (hook_rule parent target) ≡ n
      → count_words (replaced n rules) (hook_rule parent target) ≡ 1
  unfolding replaced
  count-replaced n rules e = ground (
    arith,
    count-repeat n rules,
    same_words_refl (hook_rule parent target),
    count-insert_first parent (hook_rule parent target) (hook_rule parent target)
        (run_lines (repeat n (delete_rule parent (hook_words target))) rules),
  )

  count-replaced_other :
      (n : ℕ) (rules : List Rule) (s : Rule)
      → same_words (hook_rule parent target) s ≡ false
      → count_words (replaced n rules) s ≡ count_words rules s
  unfolding replaced
  count-replaced_other n rules s h = ground (
    arith,
    count-repeat_other n rules s h,
    count-insert_first parent (hook_rule parent target) s
        (run_lines (repeat n (delete_rule parent (hook_words target))) rules),
  )

  run-delete :
      (n : ℕ) (rules : List Rule)
      → run_lines (repeat n (delete_rule parent (hook_words target)) ++ []) rules
        ≡ run_lines (repeat n (delete_rule parent (hook_words target))) rules
  run-delete n rules = run_lines-append (repeat n (delete_rule parent (hook_words target))) [] rules

  -- After its lines have run, a hook stands in the table exactly once if it is wanted, and not at all
  -- otherwise, however often it stood there; and every other rule stands there as often as before.
  pub count-hook_lines :
      (wanted : Bool) (n : ℕ) (rules : List Rule)
      → count_words rules (hook_rule parent target) ≡ n
      → (count_words (run_lines (hook_lines wanted n parent target) rules) (hook_rule parent target)
          ≡ (if wanted then 1 else 0))
        × ((s : Rule)
            → same_words (hook_rule parent target) s ≡ false
            → count_words (run_lines (hook_lines wanted n parent target) rules) s
              ≡ count_words rules s)
  unfolding hook_lines
  count-hook_lines true n rules e = elim (Bool-cases (n == 1)) [
    | inl one ↦ (rw (one) (e ∙ (==_iff n 1).0 one), λ s h. rw one refl)
    | inr more ↦ (
      rw (more, run-replace n rules) (count-replaced n rules e),
      λ s h. rw (more, run-replace n rules) (count-replaced_other n rules s h),
    )
  ]
  count-hook_lines false n rules e = (
    rw (run-delete n rules) (count-repeat n rules ∙ omega (arith, e)),
    λ s h. rw (run-delete n rules) (count-repeat_other n rules s h),
  )
