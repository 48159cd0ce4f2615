-- ===== src/Base/Yields.antt =====
-- What a computation that may raise gives when it returns.
use mathlib.Core.Path.{◌≡◌, refl, subst}
use Prim.Native.String.{String}
use mathlib.Core.Bool.{Bool, true, false}
use l4d2_iptable_suite.Base.Tests.{if◌then◌else◌}
use l4d2_iptable_suite.Base.Result.{Error, policy_error, Result, ok, err, require, ◌>>=◌, ◌>>◌}

module _ {ℓ κ} {A : Type ℓ} (P : A → Type κ) where
  abbrev pub Yields : Result A → Type (ℓ ⊔ κ)
  Yields r = (a : A) → r ≡ ok a → P a

  pub ok-Yields : (a : A) → P a → Yields (ok a)
  ok-Yields a p b h = let same : a ≡ b = cc in subst P same p

  pub err-Yields : (e : Error) → Yields (err e)
  err-Yields e b h = cc

  pub if-Yields : (b : Bool) (m n : Result A) → Yields m → Yields n → Yields (if b then m else n)
  if-Yields true m n first second = first
  if-Yields false m n first second = second

  pub bind-Yields {μ} :
      {B : Type μ} (m : Result B) (f : B → Result A)
      → ((x : B) → m ≡ ok x → Yields (f x))
      → Yields (m >>= f)
  bind-Yields (err e) f then_yields b h = cc
  bind-Yields (ok x) f then_yields b h = then_yields x refl b h

  -- a requirement is met in what follows it
  pub require-Yields :
      (holds : Bool) (message : String) (m : Result A)
      → (holds ≡ true → Yields m)
      → Yields (require holds message >> m)
  require-Yields true message m then_yields = then_yields refl
  require-Yields false message m then_yields = err-Yields (policy_error message)
