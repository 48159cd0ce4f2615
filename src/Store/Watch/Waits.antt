-- ===== src/Store/Watch/Waits.antt =====
-- The watchdog of core/store.py waits: turn by turn, until the deadline has passed.
use l4d2_iptable_suite.Base.{
  ℕ, zero, suc, ◌+◌, ◌≤◌, ◌<◌, ◌≡◌, refl, ◌∙◌, true, String, some, [], arith, leb, eq_refl,
}
use native.Mathlib.Decide.{dec_lt}
use l4d2_iptable_suite.Base.Int.{pos, is_positive}
use l4d2_iptable_suite.Base.Result.{ok}
use l4d2_iptable_suite.Base.Json.{Json, int, str, item_or, find_item}
use l4d2_iptable_suite.Schema.{pending}
use l4d2_iptable_suite.Exec.{◌>>=◌}
use l4d2_iptable_suite.Protocol.{IsSafe}
use l4d2_iptable_suite.World.{Host, World}
use l4d2_iptable_suite.Store.Files.{
  get, remaining, read_record, monotonic, deadline_left, time_left, minus,
}
use l4d2_iptable_suite.Store.Confirm.{token_known}
use l4d2_iptable_suite.Store.Watch.{sleep, expire_now, watch}

module _ (H : Host) (token : String) (journal : Json) (deadline : ℕ) where
  -- A journal of this boot with this token and deadline, and a process that is not held up.
  pub record IsWatched (w : World H) : Type 0 where
    pub on_disk : read_record pending w.pending_file ≡ ok journal
    pub mine : token_known token journal ≡ ok true
    pub same_boot : item_or journal "boot_id" (str w.boot_id) ≡ ok (str w.boot_id)
    pub expires : find_item journal "deadline_monotonic" ≡ ok (some (int (pos deadline)))
    pub steady : w.delays ≡ []

  pub remaining-IsWatched :
      (w : World H) → IsWatched w → remaining H journal w ≡ (ok (minus deadline w.clock), w)
  unfolding remaining deadline_left monotonic time_left ◌>>=◌
  remaining-IsWatched w h = rw (h.same_boot, h.expires, eq_refl) (ground (arith, h.steady))

  pub is_positive-minus : (a b : ℕ) → is_positive (minus a b) ≡ leb (b + 1) a
  unfolding minus
  is_positive-minus a b = ground arith

  abbrev later : World H → World H
  later w = record w { clock = w.clock + 1 }

  later-IsWatched : (w : World H) → IsWatched w → IsWatched (later w)
  later-IsWatched w h = record {
    on_disk = h.on_disk;
    mine = h.mine;
    same_boot = h.same_boot;
    expires = h.expires;
    steady = h.steady;
  }

  -- a turn before the deadline, and one after it
  watch-early :
      (fuel : ℕ) (w : World H)
      → IsWatched w
      → w.clock < deadline
      → watch H (suc fuel) token w ≡ watch H fuel token (later w)
  unfolding watch get sleep ◌>>=◌
  watch-early fuel w h lt =
      rw (h.on_disk, h.mine, remaining-IsWatched w h)
        (ground (arith, is_positive-minus deadline w.clock))

  watch-late :
      (fuel : ℕ) (w : World H)
      → IsWatched w
      → deadline ≤ w.clock
      → watch H (suc fuel) token w ≡ expire_now H token w
  unfolding watch get ◌>>=◌
  watch-late fuel w h le =
      rw (h.on_disk, h.mine, remaining-IsWatched w h)
        (ground (arith, is_positive-minus deadline w.clock))

  -- the wait from one world to another
  pub record Waited (fuel : ℕ) (w w' : World H) : Type 0 where
    pub ends : watch H (suc fuel) token w ≡ expire_now H token w'
    pub passed : deadline ≤ w'.clock
    pub same_disk : w'.disk ≡ w.disk
    pub same_kernel : w'.kernel ≡ w.kernel
    pub same_trace : w'.trace ≡ w.trace
    pub watched : IsWatched w'
    pub safe : IsSafe H w'

  waits_no_more :
      (fuel : ℕ) (w : World H) → IsSafe H w → IsWatched w → deadline ≤ w.clock → Waited fuel w w
  waits_no_more fuel w safe h le = record {
    ends = watch-late fuel w h le;
    passed = le;
    same_disk = refl;
    same_kernel = refl;
    same_trace = refl;
    watched = h;
    safe = safe;
  }

  later-IsSafe : (w : World H) → IsSafe H w → IsSafe H (later w)
  later-IsSafe w h = record {
    follows = h.follows;
    journal = h.journal;
    readable = h.readable;
    vouches = h.vouches;
  }

  pub waits :
      (fuel : ℕ) (w : World H)
      → IsSafe H w
      → IsWatched w
      → deadline ≤ w.clock + fuel
      → (w' : World H) × Waited fuel w w'
  waits zero w safe h le = (w, waits_no_more zero w safe h (omega arith))
  waits (suc fuel) w safe h le = elim (dec_lt w.clock deadline) [
    | yes lt ↦
        let (w', e) =
          waits fuel (later w) (later-IsSafe w safe) (later-IsWatched w h) (omega arith) in
        (
          w',
          record {
            ends = watch-early (suc fuel) w h lt ∙ e.ends;
            passed = e.passed;
            same_disk = e.same_disk;
            same_kernel = e.same_kernel;
            same_trace = e.same_trace;
            watched = e.watched;
            safe = e.safe;
          },
        )
    | no ge ↦ (w, waits_no_more (suc fuel) w safe h (omega arith))
  ]
