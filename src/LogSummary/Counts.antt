-- ===== src/LogSummary/Counts.antt =====
-- The counters of the summary: which values they hold, and what ranking leaves of them.
use mathlib.Core.Path.{subst}
use l4d2_iptable_suite.Base.{
  ℕ, zero, suc, ◌≤◌, ◌≡◌, refl, ◌∙◌, false, ◌===◌, ◌⊎◌, String, none, some, List, [], ◌∷◌, All,
  take, leb, arith, eq_iff, Bool-cases, eq_refl, inl, inr,
}
use l4d2_iptable_suite.Base.Sets.{lookup, lookup_or}
use l4d2_iptable_suite.LogSummary.{Event, Counter, bump, tally_into, tally, rank, ranked}

-- `counter[k]`, which is 0 for a missing key
abbrev pub count_of : Counter → String → ℕ
count_of c k = lookup_or (lookup c k) 0

-- each count is at least the next
abbrev pub IsDescending : Counter → Type 0
IsDescending [] = Unit
IsDescending (x ∷ []) = Unit
IsDescending (x ∷ y ∷ c) = (y.1 ≤ x.1) × IsDescending (y ∷ c)

-- no value stands twice
abbrev pub IsDistinct : Counter → Type 0
IsDistinct [] = Unit
IsDistinct ((k, n) ∷ c) = (lookup c k ≡ none) × IsDistinct c

lookup-bump-none :
    (k j : String) (c : Counter)
    → (j === k) ≡ false
    → lookup c j ≡ none
    → lookup (bump k c) j ≡ none
unfolding bump lookup
lookup-bump-none k j [] d h = ground (arith, eq_iff k j, eq_iff j k)
lookup-bump-none k j ((i, n) ∷ c) d h =
    ground (arith, lookup-bump-none k j c d, eq_iff k j, eq_iff j k, eq_iff i k, eq_iff i j)

bump-IsDistinct : (k : String) (c : Counter) → IsDistinct c → IsDistinct (bump k c)
unfolding bump lookup
bump-IsDistinct k [] h = (refl, tt)
bump-IsDistinct k ((j, n) ∷ c) h = elim (Bool-cases (j === k)) [
  | inl e ↦ rw e h
  | inr e ↦ rw e (lookup-bump-none k j c e h.0, bump-IsDistinct k c h.1)
]

tally_into-IsDistinct :
    (key : Event → String) (es : List Event) (c : Counter)
    → IsDistinct c
    → IsDistinct (tally_into key es c)
unfolding tally_into
tally_into-IsDistinct key [] c h = h
tally_into-IsDistinct key (e ∷ es) c h =
    tally_into-IsDistinct key es (bump (key e) c) (bump-IsDistinct (key e) c h)

pub tally-IsDistinct : (key : Event → String) (es : List Event) → IsDistinct (tally key es)
tally-IsDistinct key es = tally_into-IsDistinct key es [] tt

pub All-imply :
    {P Q : String × ℕ → Type 0} (c : Counter) → ((p : String × ℕ) → P p → Q p) → All P c → All Q c
All-imply [] f h = tt
All-imply (x ∷ c) f h = (f x h.0, All-imply c f h.1)

-- Each entry is the one that its value has.
pub All-lookup : (c : Counter) → IsDistinct c → All (λ p. lookup c p.0 ≡ some p.1) c
unfolding lookup
All-lookup [] h = tt
All-lookup ((k, n) ∷ c) h =
    (rw eq_refl refl, All-imply c (λ p e. ground (arith, e, h.0, eq_iff k p.0)) (All-lookup c h.1))

rank-All :
    (P : String × ℕ → Type 0) (x : String × ℕ) (c : Counter) → P x → All P c → All P (rank x c)
unfolding rank
rank-All P x [] p h = (p, tt)
rank-All P x (y ∷ c) p h = elim (Bool-cases (leb y.1 x.1)) [
  | inl e ↦ rw e (p, h)
  | inr e ↦ rw e (h.0, rank-All P x c p h.1)
]

pub ranked-All : (P : String × ℕ → Type 0) (c : Counter) → All P c → All P (ranked c)
unfolding ranked
ranked-All P [] h = tt
ranked-All P (x ∷ c) h = rank-All P x (ranked c) h.0 (ranked-All P c h.1)

pub take-All : (P : String × ℕ → Type 0) (n : ℕ) (c : Counter) → All P c → All P (take n c)
take-All P zero c h = tt
take-All P (suc n) [] h = tt
take-All P (suc n) (x ∷ c) h = (h.0, take-All P n c h.1)

-- Ranking moves the entries and keeps them.
lookup-rank :
    (x : String × ℕ) (c : Counter) (v : String)
    → lookup c x.0 ≡ none
    → lookup (rank x c) v ≡ lookup (x ∷ c) v
unfolding rank lookup
lookup-rank x [] v h = refl
lookup-rank x (y ∷ c) v h =
    ground (arith, lookup-rank x c v, eq_iff y.0 x.0, eq_iff y.0 v, eq_iff x.0 v)

pub lookup-ranked : (c : Counter) (v : String) → IsDistinct c → lookup (ranked c) v ≡ lookup c v
unfolding ranked lookup
lookup-ranked [] v h = refl
lookup-ranked (x ∷ c) v h =
    let kept = lookup-ranked c v h.1 in
    lookup-rank x (ranked c) v (lookup-ranked c x.0 h.1 ∙ h.0) ∙ ground (arith, kept)

IsDescending-tail : (x : String × ℕ) (c : Counter) → IsDescending (x ∷ c) → IsDescending c
IsDescending-tail x [] h = tt
IsDescending-tail x (y ∷ c) h = h.1

count_of-head :
    (x : String × ℕ) (c : Counter) (v : String) → IsDescending (x ∷ c) → count_of c v ≤ x.1
unfolding lookup
count_of-head x [] v h = omega arith
count_of-head x (y ∷ c) v h = ground (arith, h.0, count_of-head y c v h.1)

-- A value keeps its count among the first, or each of these is counted at least as often.
pub take-IsTop :
    (n : ℕ) (c : Counter) (v : String)
    → IsDescending c
    → (count_of (take n c) v ≡ count_of c v) ⊎ All (λ p. count_of c v ≤ p.1) (take n c)
unfolding lookup
take-IsTop zero c v h = inr tt
take-IsTop (suc n) [] v h = inl refl
take-IsTop (suc n) (x ∷ c) v h = elim (Bool-cases (x.0 === v)) [
  | inl e ↦ inl (rw e refl)
  | inr e ↦ elim (take-IsTop n c v (IsDescending-tail x c h)) [
    | inl same ↦ inl (rw e same)
    | inr above ↦
        let skipped : count_of c v ≡ count_of (x ∷ c) v = rw e refl in
        inr (subst (λ m. All (λ p. m ≤ p.1) (x ∷ take n c)) skipped (count_of-head x c v h, above))
  ]
]
