-- ===== src/Base/Result.antt =====
-- Python's exceptions as values. `PolicyError` is the suite's own (core/config.py); `KeyError` is
-- that of a missing dictionary key, and `type_error` stands for a `TypeError` or `AttributeError` of
-- a value that has another type. Of an f-string message the fixed words are kept.
use Prim.Native.String.{String}
use mathlib.Core.Path.{◌≡◌, refl}
use mathlib.Core.Bool.{Bool, true, false}
use mathlib.Core.Logic.{◌⊎◌, inl, inr}
use l4d2_iptable_suite.Base.Tests.{if◌then◌else◌}

pub data Error : Type 0 where
  policy_error : String → Error
  key_error : String → Error
  type_error : Error

-- a raise, or a return
pub data Result {ℓ} (Returned : Type ℓ) : Type ℓ where
  err : (raised : Error) → Result Returned
  ok : (returned : Returned) → Result Returned

-- `require(ok, message)` of core/config.py.
abbrev pub require : Bool → String → Result (Unit {0})
require holds message = if holds then ok tt else err (policy_error message)

module _ {ℓ κ} {First : Type ℓ} {Then : Type κ} where
  infixl 5 ◌>>=◌
  -- a raise ends the statements that follow it
  abbrev pub ◌>>=◌ : Result First → (First → Result Then) → Result Then
  err raised >>= continue = err raised
  ok returned >>= continue = continue returned

  -- both statements returned when the two in a row did
  pub >>=-eq-ok :
      (m : Result First) (continue : First → Result Then) {last : Then}
      → (m >>= continue) ≡ ok last
      → (first : First) × (m ≡ ok first) × (continue first ≡ ok last)
  >>=-eq-ok (err raised) continue h = cc
  >>=-eq-ok (ok first) continue h = (first, refl, h)

infixl 5 ◌>>◌
abbrev pub ◌>>◌ {κ} : {Then : Type κ} → Result (Unit {0}) → Result Then → Result Then
statement >> rest = statement >>= λ _. rest

-- a requirement that was met, and what came after it
pub require_met {κ} :
    {Then : Type κ} (holds : Bool) (message : String) (rest : Result Then) {last : Then}
    → (require holds message >> rest) ≡ ok last
    → (holds ≡ true) × (rest ≡ ok last)
require_met true message rest h = (refl, h)
require_met false message rest h = cc

-- a computation raises or returns
pub Result-cases {ℓ} :
    {A : Type ℓ} → (m : Result A) → ((e : Error) × (m ≡ err e)) ⊎ ((a : A) × (m ≡ ok a))
Result-cases (err e) = inl (e, refl)
Result-cases (ok a) = inr (a, refl)
