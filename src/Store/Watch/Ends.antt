-- ===== src/Store/Watch/Ends.antt =====
-- The watchdog ends: it reaches the rollback of its journal once the deadline has passed.
use l4d2_iptable_suite.Base.{
  ℕ, suc, ◌+◌, ◌≤◌, ◌≡◌, refl, ◌∙◌, true, String, some, arith, Bool, Option, none, sym, ap, false,
}
use mathlib.Core.Path.{subst}
use l4d2_iptable_suite.Base.Result.{Result, ok, err}
use l4d2_iptable_suite.Base.Json.{Json, truthy}
use l4d2_iptable_suite.Exec.{pure, ◌>>=◌}
use l4d2_iptable_suite.Exec.Returned.{bind-inv, pure-last}
use l4d2_iptable_suite.Exec.Ensures.{Outcome}
use l4d2_iptable_suite.Protocol.{IsSafe}
use l4d2_iptable_suite.Store.Journal.{idle-no_journal}
use l4d2_iptable_suite.Store.Rollback.{token_differs, recover, is_early, rollback_locked}
use l4d2_iptable_suite.Store.Rollback.Safe.{AfterRollback, rollback_locked-AfterRollback}
use l4d2_iptable_suite.World.{Host, World}
use l4d2_iptable_suite.Store.Files.{Action, get}
use l4d2_iptable_suite.Store.Confirm.{token_known}
use l4d2_iptable_suite.Store.Watch.{expire_now, watch}
use l4d2_iptable_suite.Store.Watch.Waits.{IsWatched, remaining-IsWatched, is_positive-minus, waits}

module _ (H : Host) (token : String) (journal : Json) (deadline : ℕ) where
  -- The own token is the journal's, so that the rollback does not pass it over.
  token_differs-own :
      (j : Json)
      → token_known token j ≡ ok true
      → (truthy j ≡ true) × (token_differs (some token) j ≡ ok false)
  unfolding token_known token_differs
  token_differs-own j h = ground arith

  rollback_locked-late :
      (w : World H)
      → IsWatched H token journal deadline w
      → deadline ≤ w.clock
      → rollback_locked H (some token) true w ≡ recover H journal w
  unfolding rollback_locked get is_early ◌>>=◌
  rollback_locked-late w h le =
      let (there, same) = token_differs-own journal h.mine in
      rw (h.on_disk, there, same, remaining-IsWatched H token journal deadline w h)
        (ground (arith, is_positive-minus H token journal deadline deadline w.clock))

  -- The watchdog has done the rollback, and no journal is left; what it raised left the protocol kept.
  abbrev pub Undone : Result (Option (Unit {0})) × World H → Type 0
  Undone (ok none, v) = ⊥
  Undone (ok (some u), v) = IsSafe H v × (v.pending_file ≡ none)
  Undone (err e, v) = IsSafe H v

  -- what the watchdog makes of the rollback
  abbrev pub over : Result Bool × World H → Result (Option (Unit {0})) × World H
  over (ok b, v) = (ok (some tt), v)
  over (err e, v) = (err e, v)

  over-bind :
      (m : Action H Bool) (w : World H) (r : Result Bool) (v : World H)
      → m w ≡ (r, v)
      → (m >>= λ b. pure (some tt)) w ≡ over (r, v)
  unfolding ◌>>=◌
  over-bind m w (ok b) v e = rw e refl
  over-bind m w (err x) v e = rw e refl

  expire_now-over :
      (w : World H) → expire_now H token w ≡ over (rollback_locked H (some token) true w)
  unfolding expire_now
  expire_now-over w = over-bind (rollback_locked H (some token) true) w _ _ refl

  -- A recovery that returns returns `True`.
  recover-true : (j : Json) (w v : World H) {b : Bool} → recover H j w ≡ (ok b, v) → b ≡ true
  unfolding recover
  recover-true j w v e =
      let (batch, h₁, e₁) = bind-inv _ _ e in
      let (u₂, h₂, e₂) = bind-inv _ _ e₁ in
      let (u₃, h₃, e₃) = bind-inv _ _ e₂ in
      let (previous, h₄, e₄) = bind-inv _ _ e₃ in
      let (u₅, h₅, e₅) = bind-inv _ _ e₄ in
      let (t, h₆, e₆) = bind-inv _ _ e₅ in
      let (now, h₇, e₇) = bind-inv _ _ e₆ in
      let (u₈, h₈, e₈) = bind-inv _ _ e₇ in
      let (u₉, h₉, e₉) = bind-inv _ _ e₈ in
      let (u₁₀, h₁₀, e₁₀) = bind-inv _ _ e₉ in pure-last true _ e₁₀

  over-Undone :
      (r : Result Bool) (v : World H)
      → Outcome (AfterRollback H) (IsSafe H) (r, v)
      → ((b : Bool) → r ≡ ok b → b ≡ true)
      → Undone (over (r, v))
  over-Undone (ok b) v h always =
      (h.safe, idle-no_journal H v (record { safe = h.safe; at_stage = h.closed (always b refl) }))
  over-Undone (err e) v h always = h

  rollback_locked-Undone :
      (w : World H)
      → IsSafe H w
      → IsWatched H token journal deadline w
      → deadline ≤ w.clock
      → Undone (over (rollback_locked H (some token) true w))
  rollback_locked-Undone w safe h le =
      over-Undone _ _ ((rollback_locked-AfterRollback H (some token) true).at w safe) (λ b e.
        let same = rollback_locked-late w h le in
        let returned : (recover H journal w).0 ≡ ok b = ap (λ p. p.0) (sym same) ∙ e in
        recover-true journal w (recover H journal w).1
          (ap (λ r. (r, (recover H journal w).1)) returned))

  -- The watchdog's run: the rollback of the expired journal in a world whose clock has reached the
  -- deadline, where nothing else has changed.
  pub record Expired (fuel : ℕ) (w w' : World H) : Type 0 where
    pub ends : watch H (suc fuel) token w ≡ over (rollback_locked H (some token) true w')
    pub passed : deadline ≤ w'.clock
    pub same_disk : w'.disk ≡ w.disk
    pub same_kernel : w'.kernel ≡ w.kernel
    pub same_trace : w'.trace ≡ w.trace
    pub undone : Undone (watch H (suc fuel) token w)

  -- If the state directory agrees with the protocol, the journal on disk is of this boot and token with
  -- this deadline on the monotonic clock, readings of the clock take no time, and the fuel covers the
  -- ticks up to the deadline, then one more turn of fuel lets `watch` run as `rollback_locked` for this
  -- token in a world whose clock has reached the deadline and whose disk, kernel and effects are those
  -- of the start. It does not run out of fuel; when it returns, no journal is left and the protocol
  -- is kept, and when it raises, the protocol is kept.
  pub watch-Expired :
      (fuel : ℕ) (w : World H)
      → IsSafe H w
      → IsWatched H token journal deadline w
      → deadline ≤ w.clock + fuel
      → (w' : World H) × Expired fuel w w'
  watch-Expired fuel w safe h enough =
      let (w', e) = waits H token journal deadline fuel w safe h enough in
      let ends = e.ends ∙ expire_now-over w' in
      (
        w',
        record {
          ends = ends;
          passed = e.passed;
          same_disk = e.same_disk;
          same_kernel = e.same_kernel;
          same_trace = e.same_trace;
          undone = subst Undone (sym ends) (rollback_locked-Undone w' e.safe e.watched e.passed);
        },
      )
