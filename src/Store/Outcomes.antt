-- ===== src/Store/Outcomes.antt =====
-- What the transactions of core/store.py leave in the state directory.
use l4d2_iptable_suite.Base.{◌≡◌, refl, Bool, true, String, Option, none, some, is_some, arith}
use l4d2_iptable_suite.Base.Result.{Result, ok, err}
use l4d2_iptable_suite.Base.Json.{Json}
use l4d2_iptable_suite.Exec.Ensures.{Ensures-ok, Outcome}
use l4d2_iptable_suite.World.{Host, World}
use l4d2_iptable_suite.Protocol.{IsSafe}
use l4d2_iptable_suite.Store.Journal.{idle-no_journal}
use l4d2_iptable_suite.Store.Rollback.{rollback_locked}
use l4d2_iptable_suite.Store.Rollback.Safe.{rollback_locked-AfterRollback}
use l4d2_iptable_suite.Store.Apply.{Request, apply_locked}
use l4d2_iptable_suite.Store.Apply.Safe.{Applied, apply_locked-Applied}

-- The transaction is over, and the directory agrees with the protocol, whether it returned or raised.
-- If it returned, the journal is there exactly when a token was returned; after a raise it may be
-- either, since a change that was pending before stays, as does one whose undoing failed.
abbrev pub Settled : (H : Host) → Result (Option String) → World H → Type 0
Settled H (ok none) w = IsSafe H w × (w.pending_file ≡ none)
Settled H (ok (some token)) w = IsSafe H w × (is_some w.pending_file ≡ true)
Settled H (err e) w = IsSafe H w

Applied-Settled :
    (H : Host) (r : Result (Option String)) (w : World H)
    → Outcome (Applied H) (IsSafe H) (r, w)
    → Settled H r w
Applied-Settled H (ok none) w h = (h.safe, idle-no_journal H w h)
Applied-Settled H (ok (some token)) w h = (h.safe, ground (arith, h.safe.journal, h.opened))
Applied-Settled H (err e) w h = h

-- From a state directory that agrees with the protocol, `apply_locked` ends in one that does,
-- whether it returns or raises; if it returns no token then no journal is left, and if it returns a
-- token then a journal is on disk.
pub apply_locked-Settled :
    (H : Host) (request : Request) (given : Json) (w : World H)
    → IsSafe H w
    → Settled H (apply_locked H request given w).0 (apply_locked H request given w).1
apply_locked-Settled H request given w h =
    Applied-Settled H (apply_locked H request given w).0 _
      ((apply_locked-Applied H request given).at w h)

-- A rollback that returns `True` leaves no journal, and a state directory that agrees with the
-- protocol.
pub rollback_locked-no_journal :
    (H : Host) (token : Option String) (expired_only : Bool) {w w' : World H}
    → IsSafe H w
    → rollback_locked H token expired_only w ≡ (ok true, w')
    → IsSafe H w' × (w'.pending_file ≡ none)
rollback_locked-no_journal H token expired_only {w} {w'} h e =
    let k = Ensures-ok (rollback_locked-AfterRollback H token expired_only) h e in
    (k.safe, idle-no_journal H w' (record { safe = k.safe; at_stage = k.closed refl }))
