-- ===== src/Protocol.antt =====
-- The protocol that the transactions of core/store.py keep, as a reading of the effects in their
-- order: a journal (`pending`) is on disk before the kernel is written and until the change is
-- confirmed or undone. It is an abstract view: nothing of it is stored by the program.
use l4d2_iptable_suite.Base.{
  ◌≡◌, Bool, true, false, not, Option, none, some, List, [], ◌∷◌, if◌then◌else◌, is_some,
}
use l4d2_iptable_suite.Base.Json.{Json, truthy}
use l4d2_iptable_suite.Schema.{current, pending, installed}
use l4d2_iptable_suite.World.{Host, World, Event, started, wrote, deleted, checked, executed}

-- No journal; a journal and a kernel as it was; a kernel that may be changed; a journal whose
-- change is decided, since `current` was written after the last batch.
pub data Stage : Type 0 where
  idle open_journal changed decided : Stage

abbrev pub is_idle : Stage → Bool
is_idle idle = true
is_idle _ = false

abbrev pub settle : Stage → Stage
settle changed = decided
settle s = s

-- the journal may be removed
abbrev pub closable : Stage → Bool
closable open_journal = true
closable decided = true
closable _ = false

abbrev pub write_kernel : Stage → Stage
write_kernel idle = idle
write_kernel s = changed

module _ {Batch : Type 0} where
  abbrev pub stage : List (Event Batch) → Stage
  stage [] = idle
  stage (started journal installation ∷ es) = if journal then changed else idle
  stage (wrote pending ∷ es) = open_journal
  stage (deleted pending ∷ es) = idle
  stage (wrote current ∷ es) = settle (stage es)
  stage (deleted current ∷ es) = settle (stage es)
  stage (executed b ∷ es) = write_kernel (stage es)
  stage (_ ∷ es) = stage es

  -- an installation record vouches for the kernel
  abbrev pub vouched : List (Event Batch) → Bool
  vouched [] = false
  vouched (started journal installation ∷ es) = installation
  vouched (wrote installed ∷ es) = true
  vouched (deleted installed ∷ es) = false
  vouched (_ ∷ es) = vouched es

  abbrev pub last_checked : List (Event Batch) → Option Batch
  last_checked [] = none
  last_checked (started journal installation ∷ es) = none
  last_checked (checked b ∷ es) = some b
  last_checked (_ ∷ es) = last_checked es

  -- What each event needs of those before it: a new journal replaces none, a journal is removed only
  -- when the kernel is as it was or the change is decided, `current` changes only under a journal,
  -- and a batch is written only under a journal, with no installation record, after its check.
  abbrev pub Allowed : Event Batch → List (Event Batch) → Type 0
  Allowed (wrote pending) es = stage es ≡ idle
  Allowed (deleted pending) es = closable (stage es) ≡ true
  Allowed (wrote current) es = is_idle (stage es) ≡ false
  Allowed (deleted current) es = is_idle (stage es) ≡ false
  Allowed (executed b) es =
      (is_idle (stage es) ≡ false) × (vouched es ≡ false) × (last_checked es ≡ some b)
  Allowed _ es = Unit

  -- Every event was allowed when it happened, so this holds of each earlier moment too.
  abbrev pub Follows : List (Event Batch) → Type 0
  Follows [] = Unit
  Follows (e ∷ es) = Allowed e es × Follows es

-- A journal that reads as none would be written over.
abbrev pub is_journal : Option Json → Bool
is_journal none = true
is_journal (some v) = truthy v

-- The state directory agrees with the protocol.
pub record IsSafe (H : Host) (w : World H) : Type 0 where
  pub follows : Follows w.trace
  pub journal : is_some w.pending_file ≡ not (is_idle (stage w.trace))
  pub readable : is_journal w.pending_file ≡ true
  pub vouches : is_some w.installed_file ≡ vouched w.trace

module _ (H : Host) where
  -- safe, at a stage
  pub record InStage (s : Stage) (w : World H) : Type 0 where
    pub safe : IsSafe H w
    pub at_stage : stage w.trace ≡ s

  -- safe, with a journal on disk
  pub record IsOpen (w : World H) : Type 0 where
    pub safe : IsSafe H w
    pub opened : is_idle (stage w.trace) ≡ false

  -- safe, with a journal on disk, and a checked batch
  pub record IsChecked (b : H.Batch) (w : World H) : Type 0 where
    pub safe : IsSafe H w
    pub opened : is_idle (stage w.trace) ≡ false
    pub checked_last : last_checked w.trace ≡ some b

  -- the same, with no installation record
  pub record IsReady (b : H.Batch) (w : World H) : Type 0 where
    pub safe : IsSafe H w
    pub opened : is_idle (stage w.trace) ≡ false
    pub checked_last : last_checked w.trace ≡ some b
    pub unvouched : vouched w.trace ≡ false

  -- safe, with no journal yet, and a checked batch
  pub record IsPrepared (b : H.Batch) (w : World H) : Type 0 where
    pub safe : IsSafe H w
    pub at_stage : stage w.trace ≡ idle
    pub checked_last : last_checked w.trace ≡ some b

  -- safe, with a journal for a checked batch, and the kernel as it was
  pub record IsJournalled (b : H.Batch) (w : World H) : Type 0 where
    pub safe : IsSafe H w
    pub at_stage : stage w.trace ≡ open_journal
    pub checked_last : last_checked w.trace ≡ some b
