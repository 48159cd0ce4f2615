-- ===== src/Config/Ports/Bounds.antt =====
-- What accepted port lists are, and what their overlap means.
use mathlib.Core.Path.{subst}
use l4d2_iptable_suite.Base.{
  ap, all, ℕ, ◌≤◌, ◌≡◌, refl, Bool, true, false, ◌&&◌, ◌||◌, String, List, [], ◌∷◌, any, All, leb,
  leb→le, arith, Bool-cases, inl, inr,
}
use l4d2_iptable_suite.Base.Result.{Result, ok, err, require, ◌>>◌, >>=-eq-ok}
use l4d2_iptable_suite.Config.Ports.{
  split_on, codes, ports, port_range, port_ranges, ends_of, entries_used, within_limit, meets,
  overlap, is_part,
}

-- a range of ports, in order
abbrev pub IsRange : ℕ × ℕ → Type 0
IsRange r = (1 ≤ r.0) × (r.0 ≤ r.1) × (r.1 ≤ 65535)

-- a port that the ranges list
abbrev pub lists : List (ℕ × ℕ) → ℕ → Bool
lists [] p = false
lists ((a, b) ∷ rs) p = (leb a p && leb p b) || lists rs p

port_range-IsRange : (ends r : ℕ × ℕ) → port_range ends ≡ ok r → IsRange r
unfolding port_range
port_range-IsRange (a, b) (c, d) h = ground arith

from_ok : {A : Type 0} → A → Result A → A
from_ok d (ok a) = a
from_ok d (err e) = d

pub ok-injective : {A : Type 0} (a b : A) → ok a ≡ ok b → a ≡ b
unfolding from_ok
ok-injective a b h = ap (from_ok a) h

port_ranges-All :
    (ps : List (List ℕ)) (out : List (ℕ × ℕ)) → port_ranges ps ≡ ok out → All IsRange out
unfolding port_ranges
port_ranges-All [] out h = subst (All IsRange) (ok-injective [] out h) tt
port_ranges-All (p ∷ ps) out h =
    let (r, e, h₁) = >>=-eq-ok (port_range (ends_of (split_on 58 p))) _ h in
    let (rs, f, h₂) = >>=-eq-ok (port_ranges ps) _ h₁ in
    subst (All IsRange) (ok-injective (r ∷ rs) out h₂)
      (port_range-IsRange (ends_of (split_on 58 p)) r e, port_ranges-All ps rs f)

-- a text that is refused is not accepted
met :
    (b : Bool) (message : String) {A : Type 0} (k : Result A) (out : A)
    → (require b message >> k) ≡ ok out
    → k ≡ ok out
met true message k out h = h
met false message k out h = cc

within_limit-lem :
    (rs out : List (ℕ × ℕ)) → within_limit rs ≡ ok out → (rs ≡ out) × (entries_used rs ≤ 15)
within_limit-lem rs out h = elim (Bool-cases (leb (entries_used rs) 15)) [
  | inl e ↦ (ok-injective rs out (met (leb (entries_used rs) 15) _ (ok rs) out h), leb→le _ _ e)
  | inr e ↦ refused (rw e at h)
]
  where
    refused :
        {A : Type 0}
        → (require false "At most 15 multiport entries (range counts twice)" >> ok rs) ≡ ok out
        → A
    refused k = cc

-- If `ports` accepts a text then every range that it returns runs from a first port, which is at least 1,
-- to a last one, which is at least the first and at most 65535; and the ranges use at most 15 entries.
pub ports-All :
    (value : String) (out : List (ℕ × ℕ))
    → ports value ≡ ok out
    → All IsRange out × (entries_used out ≤ 15)
unfolding ports
ports-All value out h =
    let (rs, e, h₁) =
      >>=-eq-ok (port_ranges (split_on 44 (codes value))) within_limit
        (met (all (λ p. is_part (split_on 58 p)) (split_on 44 (codes value))) _ _ out h) in
    let (same, limit) = within_limit-lem rs out h₁ in
    subst (λ l. All IsRange l × (entries_used l ≤ 15)) same
      (port_ranges-All (split_on 44 (codes value)) rs e, limit)

lists-meets :
    (r : ℕ × ℕ) (ys : List (ℕ × ℕ)) (p : ℕ)
    → any (meets r) ys ≡ false
    → r.0 ≤ p
    → p ≤ r.1
    → lists ys p ≡ false
lists-meets (a, b) [] p h l u = refl
lists-meets (a, b) ((c, d) ∷ ys) p h l u = ground (arith, lists-meets (a, b) ys p)

-- If two port lists do not overlap then no port is in both.
pub overlap-lists :
    (xs ys : List (ℕ × ℕ)) (p : ℕ) → overlap xs ys ≡ false → lists xs p ≡ true → lists ys p ≡ false
unfolding overlap
overlap-lists [] ys p h k = cc
overlap-lists ((a, b) ∷ xs) ys p h k =
    ground (arith, lists-meets (a, b) ys p, overlap-lists xs ys p)
