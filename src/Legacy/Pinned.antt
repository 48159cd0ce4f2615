-- ===== src/Legacy/Pinned.antt =====
-- What `pin_transaction` of core/legacy.py leaves of the transaction that the engine prepared.
use l4d2_iptable_suite.Base.{
  refl, ap, Bool-cases, inl, inr, ◌≡◌, Bool, true, false, ◌&&◌, ◌===◌, ◌==◌, eq_refl, String,
  Option, none, some, List, [], ◌∷◌, map, All, All-append, all, any, arith,
}
use l4d2_iptable_suite.Base.Result.{Result, ok}
use l4d2_iptable_suite.Base.Yields.{bind-Yields, Yields, ok-Yields, require-Yields}
use l4d2_iptable_suite.Base.Json.{Items}
use l4d2_iptable_suite.Engine.Nft.{
  Object, key_of as object_key, TableKey, NftPolicy, Line, delete_table, table_text, delete_rule,
  insert_rule, delete_handle, destroy_table, has_key, keys_of, nft_transaction,
}
use l4d2_iptable_suite.Engine.Checks.{Bundle, Live}
use l4d2_iptable_suite.Engine.Deletes.{IsOwnedIn, SparesForeign, All-owned}
use l4d2_iptable_suite.Engine.Preflight.{preflight}
use l4d2_iptable_suite.Engine.Preflight.Ownership.{target_of, preflight-SparesForeign}
use mathlib.Core.List.{append-nil}
use l4d2_iptable_suite.Engine.Snapshot.{live_objects, live_rules, nft_snapshot}
use l4d2_iptable_suite.Legacy.{Entry, Manifest, key_of, tables, owned_keys}
use l4d2_iptable_suite.Legacy.Transaction.{
  prior_objects, prior_of, without_reviewed, pinned_lines, pin_transaction,
}

-- A line deletes a table by its name never, and by its handle only if it is that of a reviewed one.
abbrev pub IsPinnedTo : List Entry → Line → Type 0
IsPinnedTo entries (delete_table key) = ⊥
IsPinnedTo entries (delete_handle family handle) =
    any (λ e. (e.family === family) && (e.handle == handle)) entries ≡ true
IsPinnedTo entries (destroy_table key) = has_key key (map key_of entries) ≡ true
IsPinnedTo entries _ = Unit

pinned-weaken :
    (e : Entry) (entries : List Entry) (lines : List Line)
    → All (IsPinnedTo entries) lines
    → All (IsPinnedTo (e ∷ entries)) lines
pinned-weaken e entries [] all = tt
pinned-weaken e entries (delete_table key ∷ lines) all = absurd all.0
pinned-weaken e entries (delete_handle family handle ∷ lines) all =
    (ground (arith, all.0), pinned-weaken e entries lines all.1)
pinned-weaken e entries (destroy_table key ∷ lines) all =
    (ground (arith, all.0), pinned-weaken e entries lines all.1)
pinned-weaken e entries (table_text text ∷ lines) all = (tt, pinned-weaken e entries lines all.1)
pinned-weaken e entries (delete_rule family table chain handle ∷ lines) all =
    (tt, pinned-weaken e entries lines all.1)
pinned-weaken e entries (insert_rule family table chain text ∷ lines) all =
    (tt, pinned-weaken e entries lines all.1)

pinned_lines-IsPinnedTo : (entries : List Entry) → All (IsPinnedTo entries) (pinned_lines entries)
unfolding pinned_lines
pinned_lines-IsPinnedTo [] = tt
pinned_lines-IsPinnedTo (e ∷ entries) = (
  ground (arith, eq_refl e.family),
  (
    ground (arith, eq_refl e.family, eq_refl e.name),
    pinned-weaken e entries (pinned_lines entries) (pinned_lines-IsPinnedTo entries),
  ),
)

without_reviewed-IsPinnedTo :
    (entries : List Entry) (live : List TableKey) (lines : List Line)
    → All (SparesForeign live (map key_of entries)) lines
    → All (IsPinnedTo entries) (without_reviewed (map key_of entries) lines)
unfolding without_reviewed
without_reviewed-IsPinnedTo entries live [] all = tt
without_reviewed-IsPinnedTo entries live (delete_table key ∷ lines) all =
    rw (all.0.1) (without_reviewed-IsPinnedTo entries live lines all.1)
without_reviewed-IsPinnedTo entries live (delete_handle family handle ∷ lines) all = absurd all.0
without_reviewed-IsPinnedTo entries live (destroy_table key ∷ lines) all = absurd all.0
without_reviewed-IsPinnedTo entries live (table_text text ∷ lines) all =
    (tt, without_reviewed-IsPinnedTo entries live lines all.1)
without_reviewed-IsPinnedTo entries live (delete_rule family table chain handle ∷ lines) all =
    (tt, without_reviewed-IsPinnedTo entries live lines all.1)
without_reviewed-IsPinnedTo entries live (insert_rule family table chain text ∷ lines) all =
    (tt, without_reviewed-IsPinnedTo entries live lines all.1)

pin_transaction-pins :
    (manifest : Manifest) (live : List TableKey) (lines : List Line)
    → All (SparesForeign live (owned_keys manifest)) lines
    → Yields (λ out. All (IsPinnedTo (tables manifest)) out) (pin_transaction manifest lines)
unfolding pin_transaction
pin_transaction-pins manifest live lines spared =
    require-Yields (λ out. All (IsPinnedTo (tables manifest)) out) _
      "Missing reviewed legacy deletion" _
      (λ _.
        ok-Yields (λ out. All (IsPinnedTo (tables manifest)) out) _
          (All-append (IsPinnedTo (tables manifest)) (pinned_lines (tables manifest)) _
            (pinned_lines-IsPinnedTo (tables manifest))
            (without_reviewed-IsPinnedTo (tables manifest) live lines spared)))

live_objects-All :
    (P : TableKey → Type 0) (list_table : String → String → Result String)
    (network : String → Option (Bool × String))
    (list_chain : String → String → String → Option (List String)) (live : List TableKey)
    (objects : List Object)
    → All P (map object_key objects)
    → Yields
        (λ kept. All P (map object_key kept))
        (live_objects network list_table list_chain objects live)
unfolding live_objects
live_objects-All P list_table network list_chain live [] all =
    ok-Yields (λ kept. All P (map object_key kept)) [] tt
live_objects-All P list_table network list_chain live (o ∷ objects) all =
    let rest = live_objects-All P list_table network list_chain live objects all.1 in
    elim (Bool-cases (has_key (object_key o) live)) [
      | inl there ↦ rw there (
          bind-Yields (λ kept. All P (map object_key kept)) (list_table o.family o.name) _
            (λ text _.
              bind-Yields (λ kept. All P (map object_key kept))
                (live_objects network list_table list_chain objects live) _
                (λ kept found.
                  ok-Yields (λ kept. All P (map object_key kept))
                    (record { family = o.family; name = o.name; text = text } ∷ kept)
                    (all.0, rest kept found))))
      | inr gone ↦ rw gone rest
    ]

prior-keys : (entries : List Entry) → map object_key (prior_objects entries) ≡ map key_of entries
unfolding prior_objects
prior-keys [] = refl
prior-keys (e ∷ entries) = ap (◌∷◌ (key_of e)) (prior-keys entries)

-- the snapshot of a handover has reviewed tables only
snapshot-IsOwnedIn :
    (list_table : String → String → Result String) (network : String → Option (Bool × String))
    (list_chain : String → String → String → Option (List String)) (live : List TableKey)
    (manifest : Manifest)
    → Yields
        (λ snapshot. All (IsOwnedIn live (owned_keys manifest)) (keys_of (some snapshot ∷ [])))
        (nft_snapshot network list_table list_chain (prior_of manifest) live)
unfolding nft_snapshot keys_of
snapshot-IsOwnedIn list_table network list_chain live manifest =
    let Owned = λ (key : TableKey). IsOwnedIn live (owned_keys manifest) key in
    let Snap = λ (snapshot : NftPolicy). All Owned (keys_of (some snapshot ∷ [])) in
    let prior = prior_objects (tables manifest) in
    bind-Yields Snap (live_objects network list_table list_chain prior live) _ (λ objects found.
      bind-Yields Snap (live_rules network list_table list_chain []) _ (λ rules _.
        ok-Yields Snap (record { objects = objects; shared_rules = rules })
          (rw append-nil (
            live_objects-All Owned list_table network list_chain live prior
              (rw (prior-keys (tables manifest)) (All-owned (owned_keys manifest) live)) objects
              found))))

module _ (isdecimal : String → Bool) (network : String → Option (Bool × String))
    (list_chain : String → String → String → Option (List String))
    (list_forward : String → Option Items) (policy : Bundle) (live : Live)
    (accept_version_change : Bool) (manifest : Manifest) where
  -- When there is no previous policy, the preflight of an nftables policy passes with the tables of an
  -- accepted manifest as reviewed, and the snapshot of these is taken, the transaction that is prepared with
  -- both and pinned deletes no table by its name, and by handle or with `destroy` only tables that the
  -- manifest lists.
  pub pin_transaction-IsPinnedTo :
      (list_table : String → String → Result String) (snapshot : NftPolicy) (lines out : List Line)
      → (policy.backend === "nftables") ≡ true
      → preflight isdecimal network list_chain list_forward policy none live accept_version_change
          (owned_keys manifest)
        ≡ ok tt
      → nft_snapshot network list_table list_chain (prior_of manifest) live.tables ≡ ok snapshot
      → nft_transaction network list_chain
          (target_of policy)
          (none ∷ some policy.nft ∷ some snapshot ∷ [])
          live.tables
          false
        ≡ ok lines
      → pin_transaction manifest lines ≡ ok out
      → All (IsPinnedTo (tables manifest)) out
  pin_transaction-IsPinnedTo list_table snapshot lines out is_nft passed taken prepared pinned =
      pin_transaction-pins manifest live.tables lines
        (preflight-SparesForeign isdecimal network list_chain list_forward policy none live
          accept_version_change (owned_keys manifest) (some snapshot ∷ []) lines is_nft passed
          (snapshot-IsOwnedIn list_table network list_chain live.tables manifest snapshot taken)
          prepared)
        out pinned
