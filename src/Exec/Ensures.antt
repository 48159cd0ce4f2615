-- ===== src/Exec/Ensures.antt =====
-- What an action leads to from the states with `P`: if it returns `a`, a state with `Q a`, and if it
-- raises, a state with `E`. One rule for each way to build an action.
use l4d2_iptable_suite.Base.{◌≡◌, refl, Bool, true, false, if◌then◌else◌}
use l4d2_iptable_suite.Base.Result.{Error, policy_error, key_error, type_error, Result, ok, err}
use l4d2_iptable_suite.Exec.{
  Exec, pure, lift, asks, ◌>>=◌, resume, rescue, after_error, cleanup_then_raise, clean,
  recover_policy,
}

abbrev pub Outcome {ℓ} : {S A : Type ℓ} → (A → S → Type ℓ) → (S → Type ℓ) → Result A × S → Type ℓ
Outcome Q E (ok a, s) = Q a s
Outcome Q E (err e, s) = E s

pub Outcome-both {ℓ} :
    {S A : Type ℓ} (P : S → Type ℓ) (r : Result A) (s : S) → P s → Outcome (λ _. P) P (r, s)
Outcome-both P (ok a) s p = p
Outcome-both P (err e) s p = p

pub Outcome-either {ℓ} :
    {S A : Type ℓ} (P : S → Type ℓ) (r : Result A) (s : S) → Outcome (λ _. P) P (r, s) → P s
Outcome-either P (ok a) s p = p
Outcome-either P (err e) s p = p

pub record Ensures {ℓ} {S A : Type ℓ} (P : S → Type ℓ) (m : Exec S A) (Q : A → S → Type ℓ)
    (E : S → Type ℓ) : Type ℓ where
  pub at : (s : S) → P s → Outcome Q E (m s)

module _ {ℓ} {S A : Type ℓ} {P E : S → Type ℓ} {Q : A → S → Type ℓ} where
  pub Ensures-pure : (a : A) → ((s : S) → P s → Q a s) → Ensures P (pure a) Q E
  unfolding pure
  Ensures-pure a h = record { at = h }

  -- an action that leaves the state alone
  pub Ensures-asks :
      (f : S → Result A)
      → ((s : S) → P s → E s)
      → ((s : S) (a : A) → f s ≡ ok a → P s → Q a s)
      → Ensures P (asks f) Q E
  unfolding asks
  Ensures-asks f failed done = record { at = λ s p. read_outcome s (f s) p refl }
    where
      read_outcome : (s : S) (r : Result A) → P s → f s ≡ r → Outcome Q E (r, s)
      read_outcome s (ok a) p e = done s a e p
      read_outcome s (err x) p e = failed s p

  pub Ensures-lift :
      (r : Result A)
      → ((s : S) → P s → E s)
      → ((s : S) (a : A) → r ≡ ok a → P s → Q a s)
      → Ensures P (lift r) Q E
  unfolding lift
  Ensures-lift (ok a) failed done = record { at = λ s. done s a refl }
  Ensures-lift (err x) failed done = record { at = failed }

  pub Ensures-if :
      (b : Bool) (m n : Exec S A)
      → (b ≡ true → Ensures P m Q E)
      → (b ≡ false → Ensures P n Q E)
      → Ensures P (if b then m else n) Q E
  Ensures-if true m n km kn = km refl
  Ensures-if false m n km kn = kn refl

module _ {ℓ} {S A B : Type ℓ} {P E : S → Type ℓ} {R : A → S → Type ℓ} {Q : B → S → Type ℓ} where
  pub Ensures-bind :
      (m : Exec S A) (f : A → Exec S B)
      → Ensures P m R E
      → ((a : A) → Ensures (R a) (f a) Q E)
      → Ensures P (m >>= f) Q E
  unfolding ◌>>=◌
  Ensures-bind m f km kf = record { at = λ s p. go (m s).0 (m s).1 (km.at s p) }
    where
      go : (r : Result A) (s : S) → Outcome R E (r, s) → Outcome Q E (resume r f s)
      go (ok a) s h = (kf a).at s h
      go (err e) s h = h

-- What a run that returned led to.
pub Ensures-ok {ℓ} :
    {S A : Type ℓ} {P E : S → Type ℓ} {Q : A → S → Type ℓ} {m : Exec S A} {s t : S} {a : A}
    → Ensures P m Q E
    → P s
    → m s ≡ (ok a, t)
    → Q a t
Ensures-ok {s} k p e = rw e at (k.at s p)

-- A first action that keeps `P`.
pub Ensures-bind_keeps {ℓ} :
    {S A B : Type ℓ} {P E : S → Type ℓ} {Q : B → S → Type ℓ} (m : Exec S A) (f : A → Exec S B)
    → Ensures P m (λ _. P) E
    → ((a : A) → Ensures P (f a) Q E)
    → Ensures P (m >>= f) Q E
Ensures-bind_keeps {P} m f km kf = Ensures-bind {R = λ _. P} m f km kf

-- Weaken what is promised, and ask for more.
module _ {ℓ} {S A : Type ℓ} {P P' E E' : S → Type ℓ} {Q Q' : A → S → Type ℓ} where
  pub Ensures-weaken :
      {m : Exec S A}
      → Ensures P m Q E
      → ((s : S) → P' s → P s)
      → ((a : A) (s : S) → Q a s → Q' a s)
      → ((s : S) → E s → E' s)
      → Ensures P' m Q' E'
  Ensures-weaken {m} km ask give fail = record {
    at = λ s p. go (m s).0 (m s).1 (km.at s (ask s p));
  }
    where
      go : (r : Result A) (s : S) → Outcome Q E (r, s) → Outcome Q' E' (r, s)
      go (ok a) s h = give a s h
      go (err e) s h = fail s h

-- A handler runs from what the exception leaves.
module _ {ℓ} {S A : Type ℓ} {P E E' : S → Type ℓ} {Q : A → S → Type ℓ} where
  pub Ensures-rescue :
      {handler m : Exec S A}
      → Ensures P m Q E
      → ((s : S) → E s → E' s)
      → Ensures E handler Q E'
      → Ensures P (rescue handler m) Q E'
  unfolding rescue
  Ensures-rescue {handler} {m} km up kh = record { at = λ s p. go (m s).0 (m s).1 (km.at s p) }
    where
      go :
          (r : Result A) (s : S) → Outcome Q E (r, s) → Outcome Q E' (recover_policy handler (r, s))
      go (ok a) s h = h
      go (err (policy_error m)) s h = kh.at s h
      go (err (key_error m)) s h = up s h
      go (err type_error) s h = up s h

  pub Ensures-cleanup :
      {handler : Exec S (Unit {ℓ})} {m : Exec S A}
      → Ensures P m Q E
      → Ensures E handler (λ _. E') E'
      → Ensures P (cleanup_then_raise handler m) Q E'
  unfolding cleanup_then_raise
  Ensures-cleanup {handler} {m} km kh = record { at = λ s p. go (m s).0 (m s).1 (km.at s p) }
    where
      after :
          (e : Error) (r : Result (Unit {ℓ})) (s : S)
          → Outcome (λ _. E') E' (r, s)
          → Outcome Q E' (after_error e (r, s))
      after e (ok a) s h = h
      after e (err e') s h = h

      go : (r : Result A) (s : S) → Outcome Q E (r, s) → Outcome Q E' (clean handler (r, s))
      go (ok a) s h = h
      go (err e) s h = after e (handler s).0 (handler s).1 (kh.at s h)
