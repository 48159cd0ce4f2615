-- ===== src/Compiler/Dicts.antt =====
-- What set_default and change_at leave of a dictionary, for the tables and chains of core/compiler.py.
use l4d2_iptable_suite.Base.{
  ◌≡◌, ap, refl, false, ◌===◌, Bool-cases, inl, inr, eq_refl, eq_iff, String, some, List, [], ◌∷◌,
  All, arith, if◌then◌else◌,
}
use l4d2_iptable_suite.Base.Sets.{lookup, lookup_or, keys}
use l4d2_iptable_suite.Compiler.{set_default, change_at}

pub lookup-set_default :
    {A : Type 0} (k : String) (v : A) (d : List (String × A))
    → lookup (set_default k v d) k ≡ some (lookup_or (lookup d k) v)
unfolding lookup set_default
lookup-set_default k v [] = rw eq_refl refl
lookup-set_default k v ((j, w) ∷ d) = elim (Bool-cases (j === k)) [
  | inl e ↦ rw (e, e) refl
  | inr e ↦ rw (e, e) (lookup-set_default k v d)
]

pub lookup-set_default-other :
    {A : Type 0} (i k : String) (v : A) (d : List (String × A))
    → (k === i) ≡ false
    → lookup (set_default k v d) i ≡ lookup d i
unfolding lookup set_default
lookup-set_default-other i k v [] n = rw n refl
lookup-set_default-other i k v ((j, w) ∷ d) n = elim (Bool-cases (j === k)) [
  | inl e ↦ rw e refl
  | inr e ↦ rw e (ap (λ o. if j === i then some w else o) (lookup-set_default-other i k v d n))
]

pub lookup-change_at :
    {A : Type 0} (k : String) (f : A → A) (v : A) (d : List (String × A))
    → lookup d k ≡ some v
    → lookup (change_at k f d) k ≡ some (f v)
unfolding lookup change_at
lookup-change_at k f v [] h = cc
lookup-change_at k f v ((j, w) ∷ d) h = elim (Bool-cases (j === k)) [
  | inl e ↦ rw (e, e) (let same : some w ≡ some v = rw e at h in cc)
  | inr e ↦ rw (e, e) (lookup-change_at k f v d (rw e at h))
]

pub lookup-change_at-other :
    {A : Type 0} (i k : String) (f : A → A) (d : List (String × A))
    → (k === i) ≡ false
    → lookup (change_at k f d) i ≡ lookup d i
unfolding lookup change_at
lookup-change_at-other i k f [] n = refl
lookup-change_at-other i k f ((j, w) ∷ d) n = elim (Bool-cases (j === k)) [
  | inl e ↦
      let apart : (j === i) ≡ false = ground (arith, eq_iff j k, eq_iff j i, eq_iff k i) in
      rw (e, apart) refl
  | inr e ↦ rw e (ap (λ o. if j === i then some w else o) (lookup-change_at-other i k f d n))
]

pub keys-change_at :
    {A : Type 0} (k : String) (f : A → A) (d : List (String × A)) → keys (change_at k f d) ≡ keys d
unfolding change_at
keys-change_at k f [] = refl
keys-change_at k f ((j, w) ∷ d) = elim (Bool-cases (j === k)) [
  | inl e ↦ rw e refl
  | inr e ↦ rw e (ap (λ ks. j ∷ ks) (keys-change_at k f d))
]

pub keys-set_default :
    {A : Type 0} (P : String → Type 0) (k : String) (v : A) (d : List (String × A))
    → P k
    → All P (keys d)
    → All P (keys (set_default k v d))
unfolding set_default
keys-set_default P k v [] p h = (p, tt)
keys-set_default P k v ((j, w) ∷ d) p h = elim (Bool-cases (j === k)) [
  | inl e ↦ rw e h
  | inr e ↦ rw e (h.0, keys-set_default P k v d p h.1)
]
