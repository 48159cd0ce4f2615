-- ===== src/Exec/Returned.antt =====
-- What a run that returned says of its parts.
use mathlib.Core.Path.{subst}
use l4d2_iptable_suite.Base.{ap, ◌≡◌, refl, Bool, true, false, String}
use l4d2_iptable_suite.Base.Result.{Result, ok, err, require}
use l4d2_iptable_suite.Exec.{Exec, pure, lift, reads, asks, ◌>>=◌, resume}

module _ {ℓ} {S A : Type ℓ} where
  -- a last statement
  pub lift-last :
      (r : Result A) {s t : S} {a : A} → lift {S = S} r s ≡ (ok a, t) → (r ≡ ok a) × (s ≡ t)
  unfolding lift
  lift-last r e = (ap (λ p. p.0) e, ap (λ p. p.1) e)

  pub pure-last : (a : A) (s : S) {t : S} {b : A} → pure {S = S} a s ≡ (ok b, t) → b ≡ a
  unfolding pure
  pure-last a s {b = b} e = let same : ok a ≡ ok b = ap (λ p. p.0) e in cc

module _ {ℓ} {S A B : Type ℓ} where
  resume-inv :
      (r : Result A) (s : S) (g : A → Exec S B) {b : B} {t : S}
      → resume r g s ≡ (ok b, t)
      → (a : A) × (r ≡ ok a) × (g a s ≡ (ok b, t))
  resume-inv (ok a) s g e = (a, refl, e)
  resume-inv (err x) s g e = cc

  pub asks-inv :
      (f : S → Result A) (g : A → Exec S B) {s t : S} {b : B}
      → (asks f >>= g) s ≡ (ok b, t)
      → (a : A) × (f s ≡ ok a) × (g a s ≡ (ok b, t))
  unfolding ◌>>=◌
  asks-inv f g {s} e = resume-inv (f s) s g e

  pub lift-inv :
      (r : Result A) (g : A → Exec S B) {s t : S} {b : B}
      → (lift r >>= g) s ≡ (ok b, t)
      → (a : A) × (r ≡ ok a) × (g a s ≡ (ok b, t))
  unfolding ◌>>=◌
  lift-inv r g {s} e = resume-inv r s g e

  pub reads-inv :
      (f : S → A) (g : A → Exec S B) {s t : S} {b : B}
      → (reads f >>= g) s ≡ (ok b, t)
      → g (f s) s ≡ (ok b, t)
  unfolding ◌>>=◌
  reads-inv f g e = e

  -- any first action
  pub bind-inv :
      (m : Exec S A) (g : A → Exec S B) {s t : S} {b : B}
      → (m >>= g) s ≡ (ok b, t)
      → (a : A) × ((m s).0 ≡ ok a) × (g a (m s).1 ≡ (ok b, t))
  unfolding ◌>>=◌
  bind-inv m g {s} e = resume-inv (m s).0 (m s).1 g e

  -- a first action that left the state alone
  pub bind-same :
      (m : Exec S A) (g : A → Exec S B) {s t : S} {b : B}
      → (m s).1 ≡ s
      → (m >>= g) s ≡ (ok b, t)
      → (a : A) × (m s ≡ (ok a, s)) × (g a s ≡ (ok b, t))
  bind-same m g {s} {t} {b} p e =
      let (a, h, k) = bind-inv m g e in
      (
        a,
        subst (λ u. m s ≡ (ok a, u)) p (ap (λ r. (r, (m s).1)) h),
        subst (λ u. g a u ≡ (ok b, t)) p k,
      )

pub require-inv : (b : Bool) (message : String) {u : Unit {0}} → require b message ≡ ok u → b ≡ true
require-inv true message e = refl
require-inv false message e = cc

module _ {S B : Type 0} where
  -- a check that was passed
  pub passed-inv :
      (b : Bool) (message : String) (g : Unit {0} → Exec S B) {s t : S} {r : B}
      → (lift (require b message) >>= g) s ≡ (ok r, t)
      → (b ≡ true) × (g tt s ≡ (ok r, t))
  passed-inv b message g {s} {t} {r} e =
      let (u, h, k) = lift-inv (require b message) g e in (require-inv b message h, k)
