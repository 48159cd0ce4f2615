-- ===== src/History.antt =====
-- The writers of the state directory take turns under one lock (core/store.py, core/fw.py). A history
-- is any sequence of commands and watchdogs, each with any outcome, while time passes and other
-- programs change the kernel.
use l4d2_iptable_suite.Base.{
  ℕ, ◌+◌, ◌≡◌, true, false, String, Option, some, List, [], ◌∷◌, ◌++◌, is_some, arith,
}
use l4d2_iptable_suite.Base.Result.{Result, ok, err}
use l4d2_iptable_suite.Exec.Ensures.{Outcome}
use l4d2_iptable_suite.World.{Host, World, Event, started, executed, deleted}
use l4d2_iptable_suite.Schema.{pending}
use l4d2_iptable_suite.Protocol.{
  IsSafe, Follows, stage, vouched, last_checked, is_idle, is_journal, closable,
}
use l4d2_iptable_suite.Store.Rollback.{rollback_locked}
use l4d2_iptable_suite.Store.Apply.{Verdict}
use l4d2_iptable_suite.Boot.Barrier.Safe.{rollback-IsSafe}
use l4d2_iptable_suite.Cli.{Arguments}
use l4d2_iptable_suite.Cli.Locked.{main}
use l4d2_iptable_suite.Cli.Safe.{main-IsSafe}

module _ (H : Host) where
  pub data Step (w : World H) : World H → Type 0 where
    command : (a : Arguments) (verdict : Option Verdict) → Step w (main H a verdict w).1
    watchdog : (token : String) → Step w (rollback_locked H (some token) true w).1
    pass :
        (ticks : ℕ) (coming : List ℕ)
        → Step w (record w { clock = w.clock + ticks; delays = coming })
    interfere : (k : H.Kernel) → Step w (record w { kernel = k })

  pub data Reach (w : World H) : World H → Type 0 where
    here : Reach w w
    next : {u v : World H} → Reach w u → Step u v → Reach w v

  ends-IsSafe :
      {A : Type 0} (r : Result A) (w : World H)
      → Outcome (λ _. IsSafe H) (IsSafe H) (r, w)
      → IsSafe H w
  ends-IsSafe (ok a) w h = h
  ends-IsSafe (err e) w h = h

  Step-IsSafe : {w v : World H} → Step w v → IsSafe H w → IsSafe H v
  Step-IsSafe {w} (command a verdict) h =
      ends-IsSafe (main H a verdict w).0 _ ((main-IsSafe H a verdict).at w h)
  Step-IsSafe {w} (watchdog token) h =
      ends-IsSafe (rollback_locked H (some token) true w).0 _
        ((rollback-IsSafe H (some token) true).at w h)
  Step-IsSafe (pass ticks coming) h = record {
    follows = h.follows;
    journal = h.journal;
    readable = h.readable;
    vouches = h.vouches;
  }
  Step-IsSafe (interfere k) h = record {
    follows = h.follows;
    journal = h.journal;
    readable = h.readable;
    vouches = h.vouches;
  }

  pub Reach-IsSafe : {w v : World H} → IsSafe H w → Reach w v → IsSafe H v
  Reach-IsSafe h here = h
  Reach-IsSafe h (next r step) = Step-IsSafe step (Reach-IsSafe h r)

  -- A start of the history: the files as they are found.
  abbrev pub Started : World H → Type 0
  Started w =
      (w.trace ≡ started (is_some w.pending_file) (is_some w.installed_file) ∷ [])
      × (is_journal w.pending_file ≡ true)

  pub Started-IsSafe : (w : World H) → Started w → IsSafe H w
  Started-IsSafe w h = ground arith

  Follows-suffix : (later rest : List (Event H.Batch)) → Follows (later ++ rest) → Follows rest
  Follows-suffix [] rest h = h
  Follows-suffix (e ∷ later) rest h = Follows-suffix later rest h.1

  -- From any start, after any sequence of commands and watchdogs, of time and of foreign changes of
  -- the kernel, a batch was written to the kernel only when a journal was on disk, no installation
  -- record vouched for the kernel, and this very batch was the last that passed its check.
  pub executed_under_journal :
      {w v : World H} (later earlier : List (Event H.Batch)) (b : H.Batch)
      → Started w
      → Reach w v
      → v.trace ≡ later ++ executed b ∷ earlier
      → (is_idle (stage earlier) ≡ false)
        × (vouched earlier ≡ false)
        × (last_checked earlier ≡ some b)
  executed_under_journal {w} later earlier b s r e =
      (Follows-suffix later _ (rw e at ((Reach-IsSafe (Started-IsSafe w s) r).follows))).0

  -- From any start, after any such sequence, a journal was removed only while the kernel was as it was when the journal was
  -- written, or after `current` was written since the last batch.
  pub deleted_when_closable :
      {w v : World H} (later earlier : List (Event H.Batch))
      → Started w
      → Reach w v
      → v.trace ≡ later ++ deleted pending ∷ earlier
      → closable (stage earlier) ≡ true
  deleted_when_closable {w} later earlier s r e =
      (Follows-suffix later _ (rw e at ((Reach-IsSafe (Started-IsSafe w s) r).follows))).0
