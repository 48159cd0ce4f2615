-- ===== src/Engine/Plain.antt =====
-- `_unconditional_jump` of core/engine.py accepts only plain jumps.
use mathlib.Core.Path.{subst}
use l4d2_iptable_suite.Base.{
  sym, take, ◌&&◌, and-true, Bool-cases, inl, inr, ℕ, suc, ◌+◌, ◌≡◌, Bool, true, false, ◌===◌, ◌<>◌,
  String, List, [], ◌∷◌, arith, eq_iff,
}
use l4d2_iptable_suite.Engine.Save.{
  scan, is_jump, Rule, unconditional_jump, drop_counters, after_head,
}
use l4d2_iptable_suite.Base.Sets.{same_words}

-- Words that are comments and `jumps` jumps to the target, and nothing else.
pub data Plain (target : String) : ℕ → List String → Type 0 where
  done : Plain target 0 []
  comment :
      {n : ℕ} {ts : List String} (text : String)
      → Plain target n ts
      → Plain target n ("-m" ∷ "comment" ∷ "--comment" ∷ text ∷ ts)
  jump :
      {n : ℕ} {ts : List String} (word : String)
      → is_jump word ≡ true
      → Plain target n ts
      → Plain target (suc n) (word ∷ target ∷ ts)
  glued_jump :
      {n : ℕ} {ts : List String}
      → Plain target n ts
      → Plain target (suc n) (("--jump=" <> target) ∷ ts)

absurd_scan : {A : Type 0} → false ≡ true → A
absurd_scan h = cc

module _ (target : String) where
  -- the words after a scan that succeeds
  Accepted : ℕ → List String → Type 0
  Accepted jumps ts = (n : ℕ) × (jumps + n ≡ 1) × Plain target n ts

  accept_jump :
      (jumps : ℕ) (word u : String) (ts : List String)
      → (is_jump word && (u === target)) ≡ true
      → Accepted (suc jumps) ts
      → Accepted jumps (word ∷ u ∷ ts)
  unfolding Accepted
  accept_jump jumps word u ts h (n, e, p) =
      let (j, q) = and-true h in
      (
        suc n,
        omega arith,
        subst (λ v. Plain target (suc n) (word ∷ v ∷ ts)) (sym ((eq_iff u target).0 q))
            (jump word j p),
      )

  accept_glued :
      (jumps : ℕ) (word : String) (ts : List String)
      → (word === ("--jump=" <> target)) ≡ true
      → Accepted (suc jumps) ts
      → Accepted jumps (word ∷ ts)
  unfolding Accepted
  accept_glued jumps word ts h (n, e, p) = (
    suc n,
    omega arith,
    subst (λ v. Plain target (suc n) (v ∷ ts)) (sym ((eq_iff word _).0 h)) (glued_jump p),
  )

  accept_comment :
      (jumps : ℕ) (t u v w : String) (ts : List String)
      → ((t === "-m") && (u === "comment")) ≡ true
      → (v === "--comment") ≡ true
      → Accepted jumps ts
      → Accepted jumps (t ∷ u ∷ v ∷ w ∷ ts)
  unfolding Accepted
  accept_comment jumps t u v w ts m c (n, e, p) =
      let (mt, mu) = and-true m in
      (
        n,
        e,
        rw ((eq_iff t "-m").0 mt, (eq_iff u "comment").0 mu, (eq_iff v "--comment").0 c)
            (comment w p),
      )

  scan-Accepted : (jumps : ℕ) (ts : List String) → scan target jumps ts ≡ true → Accepted jumps ts
  unfolding scan Accepted
  scan-Accepted jumps [] h = (0, ground arith, done)
  scan-Accepted jumps (t ∷ []) h = elim (Bool-cases (t === ("--jump=" <> target))) [
    | inl g ↦ accept_glued jumps t [] g (scan-Accepted (suc jumps) [] (rw (scan, g) at h))
    | inr g ↦ absurd_scan (rw (scan, g) at h)
  ]
  scan-Accepted jumps (t ∷ u ∷ []) h = elim (Bool-cases (is_jump t && (u === target))) [
    | inl j ↦ accept_jump jumps t u [] j (scan-Accepted (suc jumps) [] (rw (scan, j) at h))
    | inr j ↦ elim (Bool-cases (t === ("--jump=" <> target))) [
      | inl g ↦
          accept_glued jumps t (u ∷ []) g
            (scan-Accepted (suc jumps) (u ∷ []) (rw (scan, j, g) at h))
      | inr g ↦ absurd_scan (rw (scan, j, g) at h)
    ]
  ]
  scan-Accepted jumps (t ∷ u ∷ v ∷ []) h = elim (Bool-cases (is_jump t && (u === target))) [
    | inl j ↦
        accept_jump jumps t u (v ∷ []) j (scan-Accepted (suc jumps) (v ∷ []) (rw (scan, j) at h))
    | inr j ↦ elim (Bool-cases (t === ("--jump=" <> target))) [
      | inl g ↦
          accept_glued jumps t (u ∷ v ∷ []) g
            (scan-Accepted (suc jumps) (u ∷ v ∷ []) (rw (scan, j, g) at h))
      | inr g ↦ absurd_scan (rw (scan, j, g) at h)
    ]
  ]
  scan-Accepted jumps (t ∷ u ∷ v ∷ w ∷ ts) h =
      elim (Bool-cases ((t === "-m") && (u === "comment"))) [
        | inl m ↦ elim (Bool-cases (v === "--comment")) [
          | inl c ↦
              accept_comment jumps t u v w ts m c (scan-Accepted jumps ts (rw (scan, m, c) at h))
          | inr c ↦ absurd_scan (rw (scan, m, c) at h)
        ]
        | inr m ↦ elim (Bool-cases (is_jump t && (u === target))) [
          | inl j ↦
              accept_jump jumps t u (v ∷ w ∷ ts) j
                (scan-Accepted (suc jumps) (v ∷ w ∷ ts) (rw (scan, m, j) at h))
          | inr j ↦ elim (Bool-cases (t === ("--jump=" <> target))) [
            | inl g ↦
                accept_glued jumps t (u ∷ v ∷ w ∷ ts) g
                  (scan-Accepted (suc jumps) (u ∷ v ∷ w ∷ ts) (rw (scan, m, j, g) at h))
            | inr g ↦ absurd_scan (rw (scan, m, j, g) at h)
          ]
        ]
      ]

only_one : (n : ℕ) → 0 + n ≡ 1 → n ≡ 1
only_one n e = omega arith

-- If `_unconditional_jump` accepts a rule then the rule appends to the source chain, and after its
-- counters it is made of comments and exactly one jump, to the target.
pub unconditional_jump-Plain :
    (isdecimal : String → Bool) (rule : Rule) (source target : String)
    → unconditional_jump isdecimal rule source target ≡ true
    → (same_words (take 2 rule) ("-A" ∷ source ∷ []) ≡ true)
      × Plain target 1 (drop_counters isdecimal (after_head rule))
unfolding unconditional_jump same_words Accepted
unconditional_jump-Plain isdecimal (a ∷ c ∷ t ∷ ts) source target h =
    let (ac, s) = and-true {a = (a === "-A") && (c === source)} h in
    let (n, e, p) = scan-Accepted target 0 (drop_counters isdecimal (t ∷ ts)) s in
    (
      ground (arith, ac),
      subst (λ m. Plain target m (drop_counters isdecimal (t ∷ ts))) (only_one n e) p,
    )
unconditional_jump-Plain isdecimal [] source target h = cc
unconditional_jump-Plain isdecimal (a ∷ []) source target h = cc
unconditional_jump-Plain isdecimal (a ∷ c ∷ []) source target h = cc
