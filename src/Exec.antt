-- ===== src/Exec.antt =====
-- Python methods that change an object and may raise: an action is a function of the state, and the
-- state comes back beside an exception too, since what was done before a raise stays done.
pub mod Ensures
pub mod Returned
use l4d2_iptable_suite.Base.Result.{Error, policy_error, Result, ok, err}

abbrev pub Exec {ℓ} : Type ℓ → Type ℓ → Type ℓ
Exec S A = S → Result A × S

module _ {ℓ} {S A : Type ℓ} where
  unfoldable pub pure : A → Exec S A
  pure a s = (ok a, s)

  unfoldable pub raise : Error → Exec S A
  raise e s = (err e, s)

  -- a computation that only reads its arguments
  unfoldable pub lift : Result A → Exec S A
  lift r s = (r, s)

  unfoldable pub reads : (S → A) → Exec S A
  reads f s = (ok (f s), s)

  unfoldable pub asks : (S → Result A) → Exec S A
  asks f s = (f s, s)

module _ {ℓ} {S : Type ℓ} where
  unfoldable pub modify : (S → S) → Exec S (Unit {ℓ})
  modify f s = (ok tt, f s)

module _ {ℓ} {S A B : Type ℓ} where
  abbrev resume : Result A → (A → Exec S B) → Exec S B
  resume (ok a) f s = f a s
  resume (err e) f s = (err e, s)

  infixl 10 ◌>>=◌ ◌>>◌
  -- opening this opens the actions above
  unfoldable pub ◌>>=◌ : Exec S A → (A → Exec S B) → Exec S B
  unfolding pure raise lift reads asks modify
  ◌>>=◌ m f s = resume (m s).0 f (m s).1

  abbrev pub ◌>>◌ : Exec S A → Exec S B → Exec S B
  m >> n = m >>= λ _. n

module _ {ℓ} {S A : Type ℓ} where
  abbrev after_error : Error → Result (Unit {ℓ}) × S → Result A × S
  after_error e (ok done, s) = (err e, s)
  after_error e (err e', s) = (err e', s)

  abbrev clean : Exec S (Unit {ℓ}) → Result A × S → Result A × S
  clean handler (ok a, s) = (ok a, s)
  clean handler (err e, s) = after_error e (handler s)

  -- `try: m`, `except BaseException: handler; raise`. An exception of the handler takes the first
  -- one's place.
  unfoldable pub cleanup_then_raise : Exec S (Unit {ℓ}) → Exec S A → Exec S A
  cleanup_then_raise handler m s = clean handler (m s)

  abbrev recover_policy : Exec S A → Result A × S → Result A × S
  recover_policy handler (err (policy_error message), s) = handler s
  recover_policy handler (r, s) = (r, s)

  -- `try: m`, `except (PolicyError, OSError, ValueError, SubprocessError): handler`, which lets a
  -- `KeyError` or a `TypeError` through.
  unfoldable pub rescue : Exec S A → Exec S A → Exec S A
  rescue handler m s = recover_policy handler (m s)
