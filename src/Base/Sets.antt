-- ===== src/Base/Sets.antt =====
-- Python's dictionaries and sets of texts: association lists, and `sorted(set)`.
use Prim.Native.Nat.{ℕ, suc, Ordering}
use Prim.Native.String.{String, compare}
use mathlib.Core.Path.{◌≡◌}
use mathlib.Core.Bool.{Bool, true, false, ◌||◌, ◌&&◌}
use mathlib.Core.Option.{Option, none, some}
use mathlib.Core.List.{List, [], ◌∷◌}
use native.Mathlib.Omega.{arith}
use text.Mathlib.Text.{◌==◌}
use l4d2_iptable_suite.Base.Tests.{if◌then◌else◌}

-- `d.get(k)`
unfoldable pub lookup {ℓ} : {A : Type ℓ} → List (String × A) → String → Option A
lookup [] k = none
lookup ((j, v) ∷ d) k = if j == k then some v else lookup d k

-- `d.get(k, default)`
abbrev pub lookup_or {ℓ} : {A : Type ℓ} → Option A → A → A
lookup_or none d = d
lookup_or (some v) d = v

abbrev pub keys {ℓ} : {A : Type ℓ} → List (String × A) → List String
keys [] = []
keys ((k, v) ∷ d) = k ∷ keys d

-- `x in xs`
abbrev pub member : String → List String → Bool
member x [] = false
member x (y ∷ ys) = (x == y) || member x ys

-- `sorted`: the place of one element, which a set has once
unfoldable pub insert_once : String → List String → List String
insert_once x [] = x ∷ []
insert_once x (y ∷ ys) =
    let rest = insert_once x ys in
    elim (compare x y) [ Ordering.lt ↦ x ∷ y ∷ ys | Ordering.eq ↦ y ∷ ys | Ordering.gt ↦ y ∷ rest ]

-- `sorted(set(xs))`
unfoldable pub sorted_set : List String → List String
unfolding insert_once
sorted_set [] = []
sorted_set (x ∷ xs) = insert_once x (sorted_set xs)

-- an element of the sorted set is one of the list
pub member-insert_once :
    (z x : String) (ys : List String)
    → member z (insert_once x ys) ≡ true
    → ((z == x) || member z ys) ≡ true
unfolding insert_once
member-insert_once z x [] h = h
member-insert_once z x (y ∷ ys) h = ground (arith, member-insert_once z x ys)

pub member-sorted_set :
    (z : String) (xs : List String) → member z (sorted_set xs) ≡ true → member z xs ≡ true
unfolding sorted_set
member-sorted_set z [] h = h
member-sorted_set z (x ∷ xs) h =
    ground (arith, member-insert_once z x (sorted_set xs) h, member-sorted_set z xs)

-- equality of rules, which are lists of words
unfoldable pub same_words : List String → List String → Bool
same_words [] [] = true
same_words (x ∷ xs) (y ∷ ys) = (x == y) && same_words xs ys
same_words [] (y ∷ ys) = false
same_words (x ∷ xs) [] = false

-- `rules.count(rule)`
unfoldable pub count_words : List (List String) → List String → ℕ
count_words [] r = 0
count_words (q ∷ qs) r = let n = count_words qs r in if same_words q r then suc n else n
