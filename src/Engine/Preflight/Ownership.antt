-- ===== src/Engine/Preflight/Ownership.antt =====
-- What `preflight` of core/engine.py allows `nft_transaction` to delete.
use l4d2_iptable_suite.Base.{
  Bool-cases, inl, inr, eq_iff, ◌≡◌, Bool, true, false, not, ◌||◌, ◌===◌, String, Option, none,
  some, List, [], ◌∷◌, ◌++◌, map, All, arith, if◌then◌else◌,
}
use l4d2_iptable_suite.Base.Result.{Error, Result-cases, ok, err, require_met}
use l4d2_iptable_suite.Base.Json.{Items}
use l4d2_iptable_suite.Engine.Nft.{
  same_key, TableKey, NftPolicy, Line, has_key, key_of, keys_of, nft_transaction,
}
use mathlib.Core.List.{append-nil}
use l4d2_iptable_suite.Base.Yields.{Yields, bind-Yields}
use l4d2_iptable_suite.Engine.Checks.{
  Bundle, Live, registered_keys, nft_of, check_keys, check_backend, check_versions,
}
use l4d2_iptable_suite.Engine.Preflight.{check_docker, check_objects, preflight}
use l4d2_iptable_suite.Engine.Deletes.{
  IsOwnedIn, SparesForeign, has_key-append, All-weaken, All-owned, keys_of-All, keys_of-some,
  nft_transaction-Spares,
}

check_keys-All :
    (keys live owned : List TableKey)
    → check_keys keys live owned ≡ ok tt
    → All (IsOwnedIn live owned) keys
unfolding check_keys
check_keys-All [] live owned h = tt
check_keys-All (key ∷ keys) live owned h =
    let (met, rest) =
      require_met (not (has_key key live) || has_key key owned)
        "Object not owned; explicit legacy migration required" (check_keys keys live owned) h in
    ((λ there. ground (arith, met, there)), check_keys-All keys live owned rest)

-- a key among those that are owned where they are there
owned_at :
    (key : TableKey) (keys live owned : List TableKey)
    → All (IsOwnedIn live owned) keys
    → has_key key keys ≡ true
    → has_key key live ≡ true
    → has_key key owned ≡ true
owned_at key [] live owned all among there = cc
owned_at key (k ∷ keys) live owned all among there = elim (Bool-cases (same_key key k)) [
  | inl same ↦
      let family : key.0 ≡ k.0 = (eq_iff key.0 k.0).0 (ground (arith, same)) in
      let name : key.1 ≡ k.1 = (eq_iff key.1 k.1).0 (ground (arith, same)) in
      let path : key ≡ k = λ i. (family i, name i) in rw path (all.0 (rw path at there))
  | inr other ↦ owned_at key keys live owned all.1 (ground (arith, among, other)) there
]

-- what is deleted when the candidate is disabled, or is put in place of the previous policy
abbrev pub target_of : Bundle → Option NftPolicy
target_of policy = if policy.disabled then none else some policy.nft

registered-All :
    (previous : Option Bundle) (live : List TableKey)
    → All (IsOwnedIn live (registered_keys previous)) (keys_of (nft_of previous))
unfolding keys_of
registered-All none live = tt
registered-All (some p) live = rw append-nil (All-owned (map key_of p.nft.objects) live)

target-All :
    (P : TableKey → Type 0) (policy : Bundle)
    → All P (map key_of policy.nft.objects)
    → All P (keys_of (target_of policy ∷ []))
unfolding keys_of
target-All P policy all =
    elim policy.disabled as (λ b. All P (keys_of ((if b then none else some policy.nft) ∷ []))) [
      | true ↦ tt
      | false ↦ rw append-nil all
    ]

module _ (isdecimal : String → Bool) (network : String → Option (Bool × String))
    (list_chain : String → String → String → Option (List String))
    (list_forward : String → Option Items) (policy : Bundle) (previous : Option Bundle)
    (live : Live) (accept_version_change : Bool) (reviewed : List TableKey) where
  abbrev owned : List TableKey
  owned = registered_keys previous ++ reviewed

  abbrev Owned : TableKey → Type 0
  Owned = IsOwnedIn live.tables owned

  abbrev KeysOwned : Unit {0} → Type 0
  KeysOwned done = All (IsOwnedIn live.tables owned) (map key_of policy.nft.objects)

  check_objects-KeysOwned :
      (policy.backend === "nftables") ≡ true
      → Yields KeysOwned
          (check_objects isdecimal network list_chain list_forward policy previous live reviewed)
  unfolding check_objects
  check_objects-KeysOwned is_nft = rw is_nft (
      bind-Yields KeysOwned (check_keys (map key_of policy.nft.objects) live.tables owned) _
        (λ done keys_ok _ _.
          check_keys-All (map key_of policy.nft.objects) live.tables owned keys_ok))

  preflight-KeysOwned :
      (policy.backend === "nftables") ≡ true
      → Yields KeysOwned (
          preflight isdecimal network list_chain list_forward policy previous live
            accept_version_change reviewed)
  unfolding preflight
  preflight-KeysOwned is_nft = bind-Yields KeysOwned (check_backend policy previous) _ (λ _ _.
      bind-Yields KeysOwned (check_versions policy previous live accept_version_change) _ (λ _ _.
        bind-Yields KeysOwned (check_docker isdecimal policy previous live) _ (λ _ _.
          bind-Yields KeysOwned
            (check_objects isdecimal network list_chain list_forward policy previous live reviewed)
            _ (λ done checked last _. check_objects-KeysOwned is_nft done checked))))

  -- When the preflight of an nftables policy passes, and the tables of the handover's snapshot are owned,
  -- the transaction that is prepared for it deletes no table but those that are there and that the previous
  -- policy has registered or that were reviewed, whether the policy is put in place or disabled.
  pub preflight-SparesForeign :
      (snapshot : List (Option NftPolicy)) (lines : List Line)
      → (policy.backend === "nftables") ≡ true
      → preflight isdecimal network list_chain list_forward policy previous live
          accept_version_change reviewed
        ≡ ok tt
      → All (IsOwnedIn live.tables (registered_keys previous ++ reviewed)) (keys_of snapshot)
      → nft_transaction network list_chain
          (target_of policy)
          (nft_of previous ++ (some policy.nft ∷ snapshot))
          live.tables
          false
        ≡ ok lines
      → All (SparesForeign live.tables (registered_keys previous ++ reviewed)) lines
  preflight-SparesForeign snapshot lines is_nft passed reviewed_all prepared =
      let candidate = preflight-KeysOwned is_nft tt passed in
      let old =
        All-weaken (keys_of (nft_of previous)) live.tables (registered_keys previous) owned
          (λ k h. ground (arith, h, has_key-append k (registered_keys previous) reviewed))
          (registered-All previous live.tables) in
      nft_transaction-Spares network list_chain live.tables owned (target_of policy)
        (nft_of previous ++ (some policy.nft ∷ snapshot)) false
        (keys_of-All Owned (nft_of previous ++ (some policy.nft ∷ snapshot)) (target_of policy ∷ [])
          (keys_of-All Owned (nft_of previous) (some policy.nft ∷ snapshot) old
            (keys_of-some Owned policy.nft snapshot candidate reviewed_all))
          (target-All Owned policy candidate))
        lines prepared

  -- When a table of an nftables policy is there and is neither registered by the previous policy nor
  -- reviewed, the preflight raises.
  pub preflight-refuses :
      (key : TableKey)
      → (policy.backend === "nftables") ≡ true
      → has_key key (map key_of policy.nft.objects) ≡ true
      → has_key key live.tables ≡ true
      → has_key key (registered_keys previous ++ reviewed) ≡ false
      → (e : Error) × (preflight isdecimal network list_chain list_forward policy previous live
            accept_version_change reviewed
          ≡ err e)
  preflight-refuses key is_nft wanted there foreign =
      elim (Result-cases (
        preflight isdecimal network list_chain list_forward policy previous live
          accept_version_change reviewed)) [
            | inl raised ↦ raised
            | inr (done, passed) ↦
                let kept =
                  owned_at key (map key_of policy.nft.objects) live.tables owned
                    (preflight-KeysOwned is_nft done passed) wanted there in
                cc
          ]
