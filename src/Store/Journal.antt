-- ===== src/Store/Journal.antt =====
-- What `get('pending')` of core/store.py tells of the stage of the protocol.
use l4d2_iptable_suite.Base.{
  ◌≡◌, sym, inl, inr, Bool-cases, refl, true, false, Option, none, some, is_some, arith, String,
}
use l4d2_iptable_suite.Base.Result.{ok, >>=-eq-ok}
use l4d2_iptable_suite.Base.Json
use l4d2_iptable_suite.Base.Json.{
  Json, null, bool, int, str, arr, obj, Fields, end, field, truthy, value_or, item, item_or,
}
use l4d2_iptable_suite.Schema.{
  pending, migrate_member, migrate_pending, migrate_record, migrate_policy, is_null,
}
use l4d2_iptable_suite.Exec.Ensures.{Ensures, Ensures-asks}
use l4d2_iptable_suite.World.{Host, World}
use l4d2_iptable_suite.Protocol.{idle, is_journal, IsSafe, InStage, IsOpen}
use l4d2_iptable_suite.Store.Files.{get, read_record}

put-truthy : (fs : Fields) (k : String) (v : Json) → truthy (obj (Json.put fs k v)) ≡ true
unfolding Json.put
put-truthy end k v = refl
put-truthy (field j w fs) k v = ground arith

migrate_member-truthy :
    (key : String) (fs out : Fields)
    → migrate_member key fs ≡ ok out
    → truthy (obj fs) ≡ true
    → truthy (obj out) ≡ true
unfolding migrate_member
migrate_member-truthy key fs out h t = elim (Bool-cases (is_null old)) [
  | inl e ↦ ground arith
  | inr e ↦
      let (m, p, q) = >>=-eq-ok (migrate_policy old) (λ v. ok (Json.put fs key v)) (rw e at h) in
      ground (arith, put-truthy fs key m)
]
  where
    old : Json
    old = value_or (Json.get fs key) null

migrate_pending-truthy : (o v : Json) → migrate_pending o ≡ ok v → truthy o ≡ true → truthy v ≡ true
unfolding migrate_pending
migrate_pending-truthy (obj fs) v h t =
    let (a, p, h₁) = >>=-eq-ok (migrate_member "previous" fs) _ h in
    let (b, q, h₂) = >>=-eq-ok (migrate_member "candidate" a) _ h₁ in
    ground
      (arith, migrate_member-truthy "candidate" a b q (migrate_member-truthy "previous" fs a p t))
migrate_pending-truthy null v h t = cc
migrate_pending-truthy _ v h t = cc

-- A journal that is there reads as one that is there.
read_record-truthy :
    (o : Option Json) (v : Json)
    → read_record pending o ≡ ok v
    → is_journal o ≡ true
    → is_some o ≡ truthy v
unfolding read_record migrate_record
read_record-truthy none v e t = ground arith
read_record-truthy (some null) v e t = cc
read_record-truthy (some o) v e t = sym (migrate_pending-truthy o v e t)

module _ (H : Host) where
  -- A journal that `get` returns is on disk.
  get_pending-IsOpen :
      (w : World H) (v : Json)
      → read_record pending w.pending_file ≡ ok v
      → truthy v ≡ true
      → IsSafe H w
      → IsOpen H w
  unfolding read_record
  get_pending-IsOpen w v e t h = ground arith

  get_pending-idle :
      (w : World H) (v : Json)
      → read_record pending w.pending_file ≡ ok v
      → truthy v ≡ false
      → IsSafe H w
      → InStage H idle w
  unfolding read_record
  get_pending-idle w v e t h = ground (arith, read_record-truthy w.pending_file v e h.readable)

  -- What `get('pending')` tells.
  pub record Found (v : Json) (w : World H) : Type 0 where
    pub safe : IsSafe H w
    pub there : truthy v ≡ true → IsOpen H w
    pub missing : truthy v ≡ false → InStage H idle w

  pub get_pending-Found : Ensures (IsSafe H) (get H pending) Found (IsSafe H)
  unfolding get
  get_pending-Found =
      Ensures-asks _ (λ w h. h)
        (λ w v e h. record {
          safe = h;
          there = λ t. get_pending-IsOpen w v e t h;
          missing = λ t. get_pending-idle w v e t h;
        })

-- a safe directory at rest has no journal
pub idle-no_journal : (H : Host) (w : World H) → InStage H idle w → w.pending_file ≡ none
idle-no_journal H w h = ground (arith, h.safe.journal, h.at_stage)
