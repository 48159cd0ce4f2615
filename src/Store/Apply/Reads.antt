-- ===== src/Store/Apply/Reads.antt =====
-- The parts of `apply_locked` that only read the state keep whatever holds of it.
use l4d2_iptable_suite.Base.{Option, none, some}
use l4d2_iptable_suite.Base.Json.{Json}
use l4d2_iptable_suite.Exec.{raise}
use l4d2_iptable_suite.Exec.Ensures.{Ensures, Ensures-if}
use l4d2_iptable_suite.World.{Host, World}
use l4d2_iptable_suite.Store.Files.{get}
use l4d2_iptable_suite.Store.Reading.{keeps}
use l4d2_iptable_suite.Store.Apply.{
  Verdict, accepted, refused, failed, Request, prepare_handover, take_snapshot, verify_legacy,
  judge,
}
use l4d2_iptable_suite.Boot.Installed.{require_scope, manifest}

module _ (H : Host) where
  module _ {P E : World H → Type 0} (up : (w : World H) → P w → E w) where
    pub manifest_keeps : Ensures P (manifest H) (λ _. P) E
    unfolding manifest get
    manifest_keeps = search keeps depth 12

    pub require_scope_keeps : (policy : Json) → Ensures P (require_scope H policy) (λ _. P) E
    unfolding require_scope get
    require_scope_keeps policy = search (keeps, Ensures-if, manifest_keeps) depth 16

    pub prepare_handover_keeps :
        (request : Request) (candidate previous live : Json) (m : Option Json)
        → Ensures P (prepare_handover H request candidate previous live m) (λ _. P) E
    unfolding prepare_handover get
    prepare_handover_keeps request candidate previous live none = search keeps
    prepare_handover_keeps request candidate previous live (some m) = search keeps depth 12

    pub take_snapshot_keeps :
        (taken : Option Json) (previous live : Json)
        → Ensures P (take_snapshot H taken previous live) (λ _. P) E
    unfolding take_snapshot
    take_snapshot_keeps none previous live = search keeps
    take_snapshot_keeps (some taken) previous live = search keeps

    pub verify_legacy_keeps : (m : Option Json) → Ensures P (verify_legacy H m) (λ _. P) E
    unfolding verify_legacy
    verify_legacy_keeps none = search keeps
    verify_legacy_keeps (some m) = search keeps

    pub judge_keeps : (verdict : Verdict) → Ensures P (judge H verdict) (λ _. P) E
    unfolding judge raise
    judge_keeps accepted = search keeps
    judge_keeps refused = record { at = up }
    judge_keeps (failed e) = record { at = up }
