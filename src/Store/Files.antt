-- ===== src/Store/Files.antt =====
-- `Store.get`, `put`, `delete` and `remaining` of core/store.py. A file is replaced atomically and
-- fsynced (`atomic_json`), so that a write is one step. Reading back what `json.dump` wrote gives
-- the value that was written.
use l4d2_iptable_suite.Base.{ℕ, ◌+◌, ◌-◌, Option, none, some, List, [], ◌∷◌, leb, if◌then◌else◌}
use l4d2_iptable_suite.Base.Int.{ℤ, pos, negsuc}
use l4d2_iptable_suite.Base.Result.{Result, ok, err, type_error}
use l4d2_iptable_suite.Base.Json.{Json, null, int, str, item, item_or, find_item, is_str}
use l4d2_iptable_suite.Schema.{Name, migrate_record, canonical_for_storage}
use l4d2_iptable_suite.Exec.{Exec, lift, reads, asks, modify, ◌>>=◌}
use l4d2_iptable_suite.World.{Host, World, file, set_file, wrote, deleted}

-- `migrate_record(name, None)` is `None`.
unfoldable pub read_record : Name → Option Json → Result Json
read_record name none = ok null
read_record name (some v) = migrate_record name v

-- `a - b`
unfoldable pub minus : ℕ → ℕ → ℤ
minus a b = if leb b a then pos (a - b) else negsuc (b - a - 1)

-- `deadline - now` of a deadline that is a number
unfoldable pub time_left : Json → ℕ → Result ℤ
unfolding minus
time_left (int (pos n)) now = ok (minus n now)
time_left (int (negsuc n)) now = ok (negsuc (n + now))
time_left _ now = err type_error

module _ (H : Host) where
  abbrev pub Action : Type 0 → Type 0
  Action A = Exec (World H) A

  unfoldable pub get : Name → Action Json
  unfolding read_record
  get name = asks (λ w. read_record name (file name w.disk))

  unfoldable pub write_file : Name → Json → Action (Unit {0})
  write_file name value =
      modify
        (λ w. record w { disk = set_file name (some value) w.disk; trace = wrote name ∷ w.trace })

  unfoldable pub put : Name → Json → Action (Unit {0})
  unfolding write_file
  put name value = do stored ← lift (canonical_for_storage name value); write_file name stored

  unfoldable pub delete : Name → Action (Unit {0})
  delete name =
      modify (λ w. record w { disk = set_file name none w.disk; trace = deleted name ∷ w.trace })

  abbrev tick : World H → List ℕ → World H
  tick w [] = w
  tick w (d ∷ ds) = record w { clock = w.clock + d; delays = ds }

  -- `time.monotonic()`; some time has passed since the last reading
  unfoldable pub monotonic : Action ℕ
  monotonic w = (ok (tick w w.delays).clock, tick w w.delays)

  -- `time.time()`
  unfoldable pub wall_time : Action ℕ
  wall_time w = (ok ((tick w w.delays).boot_time + (tick w w.delays).clock), tick w w.delays)

  -- what is left of a journal whose boot is this one
  unfoldable pub deadline_left : Json → Option Json → Action ℤ
  unfolding time_left monotonic wall_time
  deadline_left journal (some deadline) = do now ← monotonic; lift (time_left deadline now)
  deadline_left journal none = do
    deadline ← lift (item journal "deadline")
    now ← wall_time
    lift (time_left deadline now)

  -- `remaining(pending)`
  unfoldable pub remaining : Json → Action ℤ
  unfolding deadline_left
  remaining journal = do
    id ← reads (λ w. w.boot_id)
    recorded ← lift (item_or journal "boot_id" (str id))
    deadline ← lift (find_item journal "deadline_monotonic")
    if is_str recorded id then deadline_left journal deadline else lift (ok (negsuc 0))
