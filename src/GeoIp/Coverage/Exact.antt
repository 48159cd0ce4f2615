-- ===== src/GeoIp/Coverage/Exact.antt =====
-- `coverage_for` is exact: it says what holds of the addresses one by one.
use l4d2_iptable_suite.Base.{
  zero, suc, ◌≡◌, refl, ap, true, false, not, ◌&&◌, List, [], ◌∷◌, arith, all, and-true, Bool-cases,
  inl, inr,
}
use l4d2_iptable_suite.GeoIp.Networks.{Network, Address, contains, subnet_of, overlaps}
use l4d2_iptable_suite.GeoIp.Coverage.{
  NetworkEntry, Status, no_part, partial, full, matches_of, remaining_after, status_of, coverage_of,
  coverage_for,
}
use l4d2_iptable_suite.GeoIp.Coverage.Addresses.{
  in_any, in_entries, contains-overlaps, subnet_of-contains, in_any-remaining_after,
}

in_entries-matches_of :
    (target : Network) (es : List NetworkEntry) (a : Address)
    → contains target a ≡ true
    → in_entries (matches_of target es) a ≡ in_entries es a
unfolding matches_of
in_entries-matches_of target [] a h = refl
in_entries-matches_of target (e ∷ es) a h =
    ground (arith, contains-overlaps target e.network a h, in_entries-matches_of target es a h)

-- an address of a network
sample : Network → Address
sample [] k = false
sample (b ∷ bs) zero = b
sample (b ∷ bs) (suc k) = sample bs k

contains-sample : (n : Network) → contains n (sample n) ≡ true
unfolding contains sample
contains-sample [] = refl
contains-sample (b ∷ bs) = ground (arith, contains-sample bs)

-- an address that two overlapping networks share
overlaps-shared :
    (n m : Network)
    → overlaps n m ≡ true
    → (a : Address) × (contains n a ≡ true) × (contains m a ≡ true)
overlaps-shared n m h = elim (Bool-cases (subnet_of n m)) [
  | inl e ↦ (sample n, contains-sample n, subnet_of-contains n m (sample n) e (contains-sample n))
  | inr e ↦ (
    sample m,
    subnet_of-contains m n (sample m) (ground arith) (contains-sample m),
    contains-sample m,
  )
]

-- What each status says of the target's addresses.
abbrev pub Says : Status → Network → List NetworkEntry → Type 0
Says no_part target entries =
    (a : Address) → contains target a ≡ true → in_entries entries a ≡ false
Says full target entries = (a : Address) → contains target a ≡ true → in_entries entries a ≡ true
Says partial target entries =
    ((a : Address) × (contains target a ≡ true) × (in_entries entries a ≡ true))
    × ((a : Address) × (contains target a ≡ true) × (in_entries entries a ≡ false))

all-matches_of :
    (target : Network) (es : List NetworkEntry)
    → all (λ e. overlaps target e.network) (matches_of target es) ≡ true
unfolding matches_of
all-matches_of target [] = refl
all-matches_of target (e ∷ es) = ground (arith, all-matches_of target es)

module _ (target : Network) (entries : List NetworkEntry) where
  -- the addresses of the target, by the entries that overlap it
  left_of :
      (ms : List NetworkEntry) (left : List Network)
      → matches_of target entries ≡ ms
      → remaining_after ms (target ∷ []) ≡ left
      → (a : Address) → in_any left a ≡ (contains target a && not (in_entries entries a))
  left_of ms left m r a = ground (
    arith,
    ap (λ l. in_any l a) r,
    in_any-remaining_after ms (target ∷ []) a,
    in_entries-matches_of target entries a,
    ap (λ l. in_entries l a) m,
  )

  none-Says : matches_of target entries ≡ [] → Says no_part target entries
  none-Says m a h =
      ground (arith, in_entries-matches_of target entries a h, ap (λ l. in_entries l a) m)

  some-Says :
      (e : NetworkEntry) (ms : List NetworkEntry) (left : List Network)
      → matches_of target entries ≡ e ∷ ms
      → remaining_after (e ∷ ms) (target ∷ []) ≡ left
      → Says (status_of left) target entries
  some-Says e ms [] m r = λ a h. ground (arith, left_of (e ∷ ms) [] m r a)
  some-Says e ms (n ∷ ns) m r =
      let (b, t, u) =
        overlaps-shared target e.network (and-true (rw m at (all-matches_of target entries))).0 in
      let c = sample n in
      (
        (
          b,
          t,
          ground (arith, in_entries-matches_of target entries b t, ap (λ l. in_entries l b) m),
        ),
        (
          c,
          ground (arith, left_of (e ∷ ms) (n ∷ ns) m r c, contains-sample n),
          ground (arith, left_of (e ∷ ms) (n ∷ ns) m r c, contains-sample n),
        ),
      )

  coverage_of-Says :
      (ms : List NetworkEntry)
      → matches_of target entries ≡ ms
      → Says (coverage_of target ms).status target entries
  coverage_of-Says [] m = none-Says m
  coverage_of-Says (e ∷ ms) m = some-Says e ms (remaining_after (e ∷ ms) (target ∷ [])) m refl

-- The status of a coverage is exact: `none` says that no address of the target is in an entry, `full`
-- that every one is, and `partial` that one is and one is not.
pub coverage_for-Says :
    (target : Network) (entries : List NetworkEntry)
    → Says (coverage_for target entries).status target entries
unfolding coverage_for
coverage_for-Says target entries = coverage_of-Says target entries (matches_of target entries) refl
