-- ===== src/Store/Confirm/Current.antt =====
-- The policy that `confirm_locked` leaves in `current` is the candidate of the journal.
use l4d2_iptable_suite.Base.{
  ◌≡◌, refl, ◌∙◌, Bool, true, false, String, Option, none, some, if◌then◌else◌,
}
use l4d2_iptable_suite.Base.Result.{Error, Result, ok, err, require, ◌>>=◌ as ◌then_result◌}
use l4d2_iptable_suite.Base.Json.{Json, null, truthy, item, item_or}
use l4d2_iptable_suite.Schema.{current, pending, installed, canonical_for_storage}
use l4d2_iptable_suite.Exec.{◌>>=◌, ◌>>◌, lift, modify, raise}
use l4d2_iptable_suite.Exec.Ensures.{
  Outcome, Ensures, Ensures-bind, Ensures-lift, Ensures-asks, Ensures-if, Ensures-ok,
  Ensures-weaken,
}
use l4d2_iptable_suite.World.{Host, World}
use l4d2_iptable_suite.Protocol.{IsSafe}
use l4d2_iptable_suite.Base.Int.{is_positive}
use l4d2_iptable_suite.Store.Journal.{idle-no_journal}
use l4d2_iptable_suite.Store.Confirm.Safe.{confirm_locked-InStage}
use mathlib.Core.Path.{subst}
use l4d2_iptable_suite.Store.Files.{remaining, get, put, delete, write_file, read_record}
use l4d2_iptable_suite.Store.Reading.{keeps, inspect_for_keeps}
use l4d2_iptable_suite.Store.Confirm.{token_known, store_candidate, accept, expire, confirm_locked}
use l4d2_iptable_suite.Store.Rollback.{rollback_locked}
use l4d2_iptable_suite.Boot.Installed.{invalidate, record_live, record_installed}

unfoldable pub file_if : Bool → Json → Result (Option Json)
file_if true candidate = ok none
file_if false candidate =
    ◌then_result◌ (canonical_for_storage current candidate) λ stored. ok (some stored)

-- what `current` holds after a confirmation: no file for a disable, the canonical candidate otherwise
abbrev pub confirmed_file : Json → Result (Option Json)
confirmed_file candidate =
    ◌then_result◌ (item_or candidate "disabled" null)
      λ disabled. file_if (truthy disabled) candidate

module _ (H : Host) where
  Any : World H → Type 0
  Any w = Unit

  HasCurrent : Json → World H → Type 0
  HasCurrent candidate w = confirmed_file candidate ≡ ok w.current_file

  any : (P : World H → Type 0) (w : World H) → P w → Any w
  unfolding Any
  any P w p = tt

  module _ (candidate : Json) where
    delete-HasCurrent :
        Ensures
          (λ w. confirmed_file candidate ≡ file_if true candidate)
          (delete H current)
          (λ _. HasCurrent candidate)
          Any
    unfolding delete modify HasCurrent file_if
    delete-HasCurrent = record { at = λ w h. h }

    stored_file :
        (stored : Json)
        → canonical_for_storage current candidate ≡ ok stored
        → file_if false candidate ≡ ok (some stored)
    unfolding file_if
    stored_file stored e = rw e refl

    put-HasCurrent :
        Ensures
          (λ w. confirmed_file candidate ≡ file_if false candidate)
          (put H current candidate)
          (λ _. HasCurrent candidate)
          Any
    unfolding put write_file modify HasCurrent
    put-HasCurrent =
        Ensures-bind {R = λ stored w. confirmed_file candidate ≡ ok (some stored)} _ _
          (Ensures-lift _ (any _) (λ w stored e h. h ∙ stored_file stored e))
          (λ stored. record { at = λ w h. h })

    read_disabled :
        (disabled : Json) (b : Bool)
        → item_or candidate "disabled" null ≡ ok disabled
        → truthy disabled ≡ b
        → confirmed_file candidate ≡ file_if b candidate
    read_disabled disabled b e t = rw (e, t) refl

    store_candidate-HasCurrent :
        Ensures Any (store_candidate H candidate) (λ _. HasCurrent candidate) Any
    unfolding store_candidate
    store_candidate-HasCurrent =
        Ensures-bind {R = λ disabled w. item_or candidate "disabled" null ≡ ok disabled} _ _
          (Ensures-lift _ (any _) (λ w disabled e h. e))
          (λ disabled.
            Ensures-if (truthy disabled) _ _
              (λ t.
                Ensures-weaken delete-HasCurrent (λ w h. read_disabled disabled true h t)
                  (λ a w h. h) (λ w h. h))
              (λ t.
                Ensures-weaken put-HasCurrent (λ w h. read_disabled disabled false h t) (λ a w h. h)
                  (λ w h. h)))

    invalidate-HasCurrent :
        Ensures (HasCurrent candidate) (invalidate H) (λ _. HasCurrent candidate) Any
    unfolding invalidate delete modify HasCurrent
    invalidate-HasCurrent = record { at = λ w h. h }

    write_installed-HasCurrent :
        (v : Json)
        → Ensures (HasCurrent candidate) (write_file H installed v) (λ _. HasCurrent candidate) Any
    unfolding write_file modify HasCurrent
    write_installed-HasCurrent v = record { at = λ w h. h }

    put_installed-HasCurrent :
        (v : Json)
        → Ensures (HasCurrent candidate) (put H installed v) (λ _. HasCurrent candidate) Any
    unfolding put
    put_installed-HasCurrent v = search (keeps, any, write_installed-HasCurrent)

    record_installed-HasCurrent :
        (policy : Json)
        → Ensures (HasCurrent candidate) (record_installed H policy) (λ _. HasCurrent candidate) Any
    unfolding record_installed record_live
    record_installed-HasCurrent policy =
        search
          (
            keeps, any, Ensures-if, inspect_for_keeps, put_installed-HasCurrent,
            invalidate-HasCurrent,
          )
          depth 14

    delete_pending-HasCurrent :
        Ensures (HasCurrent candidate) (delete H pending) (λ _. HasCurrent candidate) Any
    unfolding delete modify HasCurrent
    delete_pending-HasCurrent = record { at = λ w h. h }

  -- the confirmed candidate of a journal
  pub record Confirmed (journal : Json) (w : World H) : Type 0 where
    pub candidate : Json
    pub of_journal : item journal "candidate" ≡ ok candidate
    pub kept : confirmed_file candidate ≡ ok w.current_file

  rest-Confirmed :
      (journal candidate : Json)
      → item journal "candidate" ≡ ok candidate
      → Ensures Any
          (do store_candidate H candidate; record_installed H candidate; delete H pending)
          (λ _. Confirmed journal)
          Any
  unfolding HasCurrent
  rest-Confirmed journal candidate e = Ensures-bind _ _ (store_candidate-HasCurrent candidate) λ _.
      Ensures-bind _ _ (record_installed-HasCurrent candidate candidate) λ _.
        Ensures-weaken (delete_pending-HasCurrent candidate) (λ w h. h)
          (λ a w h. record { candidate = candidate; of_journal = e; kept = h }) (λ w h. h)

  accept-Confirmed : (journal : Json) → Ensures Any (accept H journal) (λ _. Confirmed journal) Any
  unfolding accept Any
  accept-Confirmed journal =
      Ensures-bind {R = λ candidate w. item journal "candidate" ≡ ok candidate} _ _
        (Ensures-lift _ (any _) (λ w c e h. e))
        λ candidate. record { at = λ w h. (rest-Confirmed journal candidate h).at w tt }

  raise-Confirmed :
      (e : Error) (journal : Json) → Ensures Any (raise e) (λ (_ : Unit {0}). Confirmed journal) Any
  unfolding raise
  raise-Confirmed e journal = record { at = λ w h. h }

  trivial : {A : Type 0} (r : Result A) (w : World H) → Outcome (λ _. Any) Any (r, w)
  unfolding Any
  trivial (ok a) w = tt
  trivial (err e) w = tt

  rollback-Any :
      (token : String) → Ensures Any (rollback_locked H (some token) false) (λ _. Any) Any
  rollback-Any token = record { at = λ w h. trivial (rollback_locked H (some token) false w).0 _ }

  expire-Confirmed :
      (token : String) (journal : Json) → Ensures Any (expire H token) (λ _. Confirmed journal) Any
  unfolding expire
  expire-Confirmed token journal =
      Ensures-bind _ _ (rollback-Any token) (λ done. raise-Confirmed _ journal)

  remaining-Any : (journal : Json) → Ensures Any (remaining H journal) (λ _. Any) Any
  remaining-Any journal = record { at = λ w h. trivial (remaining H journal w).0 _ }

  known-Confirmed :
      (token : String) (journal : Json)
      → Ensures Any
          (do
            known ← lift (token_known token journal)
            lift (require known "Unknown pending confirmation token")
            left ← remaining H journal
            if is_positive left then accept H journal else expire H token)
          (λ _. Confirmed journal)
          Any
  known-Confirmed token journal =
      search (keeps, any, Ensures-if, remaining-Any, accept-Confirmed, expire-Confirmed) depth 12

  -- the journal that is read at the start
  confirm-Confirmed :
      (token : String) (start : World H)
      → Ensures
          (λ w. w ≡ start)
          (confirm_locked H token)
          (λ _ w.
            (journal : Json) × (read_record pending start.pending_file ≡ ok journal)
            × Confirmed journal w)
          Any
  unfolding confirm_locked get Any
  confirm-Confirmed token start =
      Ensures-bind {R = λ journal w. read_record pending start.pending_file ≡ ok journal} _ _
        (Ensures-asks _ (any _)
          (λ w journal e h. subst (λ v. read_record pending v.pending_file ≡ ok journal) h e))
        λ journal. record {
          at = λ w e.
              (Ensures-weaken {P' = Any} (known-Confirmed token journal) (λ w h. h)
                  (λ a w h. (journal, e, h)) (λ w h. h)).at
                w tt;
        }

  -- A confirmation that returns leaves no journal, and in `current` what the journal's candidate
  -- stands for: no file for a disable, the candidate in canonical form otherwise.
  pub confirm_locked-current :
      (token : String) {w w' : World H}
      → IsSafe H w
      → confirm_locked H token w ≡ (ok tt, w')
      → (w'.pending_file ≡ none)
        × (journal : Json) × (read_record pending w.pending_file ≡ ok journal)
        × (candidate : Json) × (item journal "candidate" ≡ ok candidate)
        × (confirmed_file candidate ≡ ok w'.current_file)
  confirm_locked-current token {w} {w'} h e =
      let (journal, r, c) = Ensures-ok (confirm-Confirmed token w) refl e in
      (
        idle-no_journal H w' (Ensures-ok (confirm_locked-InStage H token) h e),
        journal,
        r,
        c.candidate,
        c.of_journal,
        c.kept,
      )
