-- ===== src/Schema/Legacy.antt =====
-- What `_legacy_dimensions` of core/schema.py does with the schema 1 field TYPECHAIN.
use l4d2_iptable_suite.Base.{
  ◌≡◌, ◌≢◌, refl, ◌⊎◌, inl, inr, String, ◌===◌, Bool, true, false, ◌&&◌, ◌||◌, none, some, is_some,
  arith, eq_iff, if◌then◌else◌,
}
use l4d2_iptable_suite.Base.Result.{ok}
use l4d2_iptable_suite.Base.Json.{
  Json, null, str, Fields, get, remove, value_or, is_str, get-put, get-remove,
}
use l4d2_iptable_suite.Schema.{legacy_dimensions, set_dimensions, is_legacy_value}

abbrev has : Fields → String → Bool
has fs k = is_some (get fs k)

-- both dimensions are set
abbrev pub has_dimensions : Fields → Bool
has_dimensions fs = has fs "HOST_SERVICES" && has fs "CONTAINER_POLICY"

abbrev lacks_dimensions : Fields → Bool
lacks_dimensions fs = has fs "HOST_SERVICES" || has fs "CONTAINER_POLICY"

pub get-set_dimensions :
    (legacy : Json) (fs : Fields) (k : String)
    → get (set_dimensions legacy fs) k ≡ (
        if "CONTAINER_POLICY" === k
        then some (str (if is_str legacy "0" then "off" else "restrict"))
        else if "HOST_SERVICES" === k
        then some (str (if is_str legacy "1" then "false" else "true"))
        else get fs k)
unfolding set_dimensions
get-set_dimensions legacy fs k = simp get-put

module _ (config : Fields) where
  abbrev rest : Fields
  rest = remove config "TYPECHAIN"

  -- The keys other than TYPECHAIN stay as they were when both dimensions are there; otherwise all
  -- but the two dimensions do.
  legacy_dimensions-eq-ok :
      (out : Fields)
      → legacy_dimensions config ≡ ok out
      → ((has_dimensions rest ≡ true) × (out ≡ rest))
        ⊎ ((is_legacy_value (value_or (get config "TYPECHAIN") null) ≡ true)
            × (lacks_dimensions rest ≡ false)
            × (out ≡ set_dimensions (value_or (get config "TYPECHAIN") null) rest))
  unfolding legacy_dimensions
  legacy_dimensions-eq-ok out h = ground arith

  -- What `legacy_dimensions` returns has no TYPECHAIN and both dimensions, and every key other than
  -- these three has its old value.
  pub get-legacy_dimensions :
      (out : Fields)
      → legacy_dimensions config ≡ ok out
      → (get out "TYPECHAIN" ≡ none)
        × (has_dimensions out ≡ true)
        × ((k : String)
            → k ≢ "TYPECHAIN"
            → k ≢ "HOST_SERVICES"
            → k ≢ "CONTAINER_POLICY"
            → get out k ≡ get config k)
  get-legacy_dimensions out h = elim (legacy_dimensions-eq-ok out h) [
    | inl (both, e) ↦ (
      rw (e, get-remove) refl,
      rw e both,
      λ k typechain _ _.
          rw e (ground (arith, get-remove config "TYPECHAIN" k, eq_iff "TYPECHAIN" k)),
    )
    | inr (legal, unset, e) ↦ (
      rw (e, get-set_dimensions, get-remove) refl,
      rw e (simp get-set_dimensions),
      λ k typechain host container.
          rw (e, get-set_dimensions, get-remove)
            (ground
              (arith, eq_iff "TYPECHAIN" k, eq_iff "HOST_SERVICES" k, eq_iff "CONTAINER_POLICY" k)),
    )
  ]
