-- ===== src/Boot/Barrier/Ready.antt =====
-- What the readiness check of core/boot.py has seen when it returns.
use l4d2_iptable_suite.Base.{◌≡◌, refl, ap, Bool, true, false, String, [], and-true, arith}
use l4d2_iptable_suite.Base.Result.{ok}
use l4d2_iptable_suite.Base.Json.{Json, null, str, truthy, item, item_or, is_str}
use l4d2_iptable_suite.Schema.{current, pending, installed}
use l4d2_iptable_suite.Exec.{◌>>=◌, lift, asks, pure}
use l4d2_iptable_suite.Exec.Returned.{
  asks-inv, lift-inv, reads-inv, bind-inv, passed-inv, bind-same, require-inv, lift-last,
}
use l4d2_iptable_suite.Exec.Ensures.{Ensures, Outcome-either}
use l4d2_iptable_suite.Store.Reading.{keeps, inspect_for_keeps}
use l4d2_iptable_suite.Boot.Guard.{guard_present}
use l4d2_iptable_suite.World.{Host, World}
use l4d2_iptable_suite.Store.Files.{Action, get, read_record}
use l4d2_iptable_suite.Boot.Installed.{inspect_for}
use l4d2_iptable_suite.Boot.Barrier.{verify, verify_installed, require_settled, is_released}

module _ (H : Host) where
  -- The kernel was inspected for the backend and the frontend of the policy, and this was found.
  pub record IsInspected (policy live : Json) (w : World H) : Type 0 where
    pub backend : Json
    pub of_backend : item policy "backend" ≡ ok backend
    pub config : Json
    pub of_config : item policy "config" ≡ ok config
    pub frontend : Json
    pub of_frontend : item_or config "IPTABLES_FRONTEND" (str "auto") ≡ ok frontend
    pub found : H.inspect backend frontend w.kernel ≡ ok live

  -- The installation record is of this boot, and its digests are those of the policy and of the rules
  -- that an inspection finds in the kernel, which passed the preflight.
  pub record IsInstalled (policy installation : Json) (w : World H) : Type 0 where
    pub of_boot :
        (v : Json) × (item_or installation "boot_id" null ≡ ok v) × (is_str v w.boot_id ≡ true)
    pub of_policy :
        (v : Json) × (item_or installation "policy_digest" null ≡ ok v)
        × (is_str v (H.digest policy) ≡ true)
    pub live : Json
    pub inspected : IsInspected policy live w
    pub accepted : (u : Unit {0}) × (H.preflight policy policy live false [] w.kernel ≡ ok u)
    pub objects : String
    pub in_kernel : H.fingerprint policy live w.kernel ≡ ok objects
    pub of_objects :
        (v : Json) × (item_or installation "objects_digest" null ≡ ok v) × (is_str v objects ≡ true)

  inspect_for-same : (policy : Json) (w : World H) → (inspect_for H policy w).1 ≡ w
  inspect_for-same policy w =
      Outcome-either (λ v. v ≡ w) (inspect_for H policy w).0 _
        ((inspect_for_keeps H {P = λ v. v ≡ w} policy (λ v h. h)).at w refl)

  inspect_for-IsInspected :
      (policy : Json) {live : Json} {w : World H}
      → (inspect_for H policy w).0 ≡ ok live
      → IsInspected policy live w
  unfolding inspect_for asks
  inspect_for-IsInspected policy {live} {w} e =
      let (backend, hb, e₁) = lift-inv _ _ (ap (λ r. (r, (inspect_for H policy w).1)) e) in
      let (config, hc, e₂) = lift-inv _ _ e₁ in
      let (frontend, hf, e₃) = lift-inv _ _ e₂ in
      record {
        backend = backend;
        of_backend = hb;
        config = config;
        of_config = hc;
        frontend = frontend;
        of_frontend = hf;
        found = ap (λ p. p.0) e₃;
      }

  verify_installed-IsInstalled :
      (policy installation : Json) {w v : World H}
      → verify_installed H policy installation w ≡ (ok tt, v)
      → IsInstalled policy installation w
  unfolding verify_installed
  verify_installed-IsInstalled policy installation {w} e =
      let e₁ = reads-inv _ _ e in
      let (b, hb, e₂) = lift-inv _ _ e₁ in
      let (pb, e₃) = passed-inv _ _ _ e₂ in
      let (p, hp, e₄) = lift-inv _ _ e₃ in
      let (pp, e₅) = passed-inv _ _ _ e₄ in
      let (live, hl, e₆) = bind-inv (inspect_for H policy) _ e₅ in
      let (u, hu, e₇) = asks-inv _ _ (rw (inspect_for-same policy w) at e₆) in
      let (o, ho, e₈) = lift-inv _ _ e₇ in
      let (k, hk, e₉) = asks-inv _ _ e₈ in
      let (q, same) = lift-last _ e₉ in
      record {
        of_boot = (b, hb, pb);
        of_policy = (p, hp, pp);
        live = live;
        inspected = inspect_for-IsInspected policy hl;
        accepted = (u, hu);
        objects = k;
        in_kernel = hk;
        of_objects = (o, ho, require-inv _ _ q);
      }

  -- the state that a readiness check accepts
  pub record IsReadyWorld (allow_guard : Bool) (w : World H) : Type 0 where
    pub journal : Json
    pub no_journal : (read_record pending w.pending_file ≡ ok journal) × (truthy journal ≡ false)
    pub policy : Json
    pub confirmed : (read_record current w.current_file ≡ ok policy) × (truthy policy ≡ true)
    pub installation : Json
    pub recorded :
        (read_record installed w.installed_file ≡ ok installation) × (truthy installation ≡ true)
    pub intact : IsInstalled policy installation w
    pub released : (allow_guard ≡ false) → (guard_present H w).0 ≡ ok false

  -- The parts of the check leave the state alone.
  unchanged :
      {A : Type 0} (m : Action H A) (w : World H)
      → Ensures (λ v. v ≡ w) m (λ _ v. v ≡ w) (λ v. v ≡ w)
      → (m w).1 ≡ w
  unchanged m w k = Outcome-either (λ v. v ≡ w) (m w).0 _ (k.at w refl)

  require_settled_keeps :
      (w : World H) (message : String)
      → Ensures (λ v. v ≡ w) (require_settled H message) (λ _ v. v ≡ w) (λ v. v ≡ w)
  unfolding require_settled get
  require_settled_keeps w message = search keeps

  verify_installed_keeps :
      (w : World H) (policy installation : Json)
      → Ensures (λ v. v ≡ w) (verify_installed H policy installation) (λ _ v. v ≡ w) (λ v. v ≡ w)
  unfolding verify_installed
  verify_installed_keeps w policy installation = search (keeps, inspect_for_keeps) depth 16

  is_released_keeps :
      (w : World H) (allow : Bool)
      → Ensures (λ v. v ≡ w) (is_released H allow) (λ _ v. v ≡ w) (λ v. v ≡ w)
  unfolding is_released guard_present
  is_released_keeps w true = search keeps
  is_released_keeps w false = search keeps

  released-guard :
      (w : World H) → (is_released H false w).0 ≡ ok true → (guard_present H w).0 ≡ ok false
  unfolding is_released guard_present pure asks ◌>>=◌
  released-guard w e = ground arith

  require_settled-inv :
      (message : String) (w v : World H) (u : Unit {0})
      → require_settled H message w ≡ (ok u, v)
      → (journal : Json) × (read_record pending w.pending_file ≡ ok journal)
        × (truthy journal ≡ false)
  unfolding require_settled get
  require_settled-inv message w v u e =
      let (journal, h, e₁) = asks-inv _ _ e in
      let (q, p) = lift-last _ e₁ in (journal, h, ground (arith, require-inv _ _ q))

  released-inv :
      (allow free : Bool) (w v : World H)
      → free ≡ true
      → is_released H allow w ≡ (ok free, v)
      → allow ≡ false
      → (guard_present H w).0 ≡ ok false
  released-inv true free w v f e t = cc
  released-inv false true w v f e t = released-guard w (ap (λ p. p.0) e)
  released-inv false false w v f e t = cc

  -- If the readiness check returns then it changed nothing, and it found: no journal; a confirmed
  -- policy; an installation record of this boot whose digests are those of that policy and of the rules
  -- that an inspection of the kernel for that policy finds, which pass the preflight; and, unless a guard is allowed, no early barrier.
  pub verify-IsReadyWorld :
      (allow_guard : Bool) {w v : World H} {answer : Json}
      → verify H allow_guard w ≡ (ok answer, v)
      → IsReadyWorld allow_guard w × (w ≡ v)
  unfolding verify get pure lift
  verify-IsReadyWorld allow_guard {w} e =
      let (u, settled, e₁) = bind-same _ _ (unchanged _ w (require_settled_keeps w _)) e in
      let (journal, as_none, empty) = require_settled-inv _ w w u settled in
      let (policy, hp, e₂) = asks-inv _ _ e₁ in
      let (installation, hi, e₃) = asks-inv _ _ e₂ in
      let (both, e₄) = passed-inv _ _ _ e₃ in
      let (u₂, checked, e₅) =
        bind-same _ _ (unchanged _ w (verify_installed_keeps w policy installation)) e₄ in
      let (free, freed, e₆) = bind-same _ _ (unchanged _ w (is_released_keeps w allow_guard)) e₅ in
      let (open_gate, e₇) = passed-inv free _ _ e₆ in
      let (backend, hb, e₈) = lift-inv _ _ (reads-inv _ _ e₇) in
      (
        record {
          journal = journal;
          no_journal = (as_none, empty);
          policy = policy;
          confirmed = (hp, (and-true both).0);
          installation = installation;
          recorded = (hi, (and-true both).1);
          intact = verify_installed-IsInstalled policy installation checked;
          released = released-inv allow_guard free w w open_gate freed;
        },
        (lift-last (ok _) e₈).1,
      )
