-- ===== src/GeoIp/Coverage/Addresses.antt =====
-- The addresses of the networks that `coverage_for` computes with, one by one.
use l4d2_iptable_suite.Base.{
  ◌≡◌, refl, ◌∙◌, Bool, true, false, not, ◌&&◌, ◌||◌, List, [], ◌∷◌, ◌++◌, map, arith,
  if◌then◌else◌,
}
use l4d2_iptable_suite.GeoIp.Networks.{
  Network, Address, same_bit, shift, contains, subnet_of, overlaps, halves, address_exclude, Halves,
  none_of, all_of, split, join, add, networks_of, add_all, collapse_addresses,
}
use l4d2_iptable_suite.GeoIp.Coverage.{NetworkEntry, next_remaining, remaining_after}

-- an address is in one of the networks
abbrev pub in_any : List Network → Address → Bool
in_any [] a = false
in_any (n ∷ ns) a = contains n a || in_any ns a

abbrev pub in_entries : List NetworkEntry → Address → Bool
in_entries [] a = false
in_entries (e ∷ es) a = contains e.network a || in_entries es a

in_any-append :
    (ns ms : List Network) (a : Address) → in_any (ns ++ ms) a ≡ (in_any ns a || in_any ms a)
in_any-append [] ms a = refl
in_any-append (n ∷ ns) ms a = ground (arith, in_any-append ns ms a)

in_any-map :
    (b : Bool) (ns : List Network) (a : Address)
    → in_any (map (λ n. b ∷ n) ns) a ≡ (same_bit b (a 0) && in_any ns (shift a))
unfolding contains
in_any-map b [] a = ground arith
in_any-map b (n ∷ ns) a = ground (arith, in_any-map b ns a)

-- An address of two networks: they overlap.
pub contains-overlaps :
    (n m : Network) (a : Address) → contains n a ≡ true → contains m a ≡ true → overlaps n m ≡ true
unfolding contains subnet_of
contains-overlaps [] [] a h k = refl
contains-overlaps [] (c ∷ cs) a h k = refl
contains-overlaps (b ∷ bs) [] a h k = refl
contains-overlaps (b ∷ bs) (c ∷ cs) a h k = ground (arith, contains-overlaps bs cs (shift a))

pub subnet_of-contains :
    (n m : Network) (a : Address) → subnet_of n m ≡ true → contains n a ≡ true → contains m a ≡ true
unfolding contains subnet_of
subnet_of-contains n [] a h k = refl
subnet_of-contains [] (c ∷ cs) a h k = cc
subnet_of-contains (b ∷ bs) (c ∷ cs) a h k = ground (arith, subnet_of-contains bs cs (shift a))

in_any-halves : (bs : Network) (a : Address) → in_any (halves bs) a ≡ not (contains bs a)
unfolding halves contains
in_any-halves [] a = refl
in_any-halves (b ∷ bs) a = ground (arith, in_any-map b (halves bs) a, in_any-halves bs (shift a))

in_any-address_exclude :
    (n m : Network) (a : Address)
    → subnet_of m n ≡ true
    → in_any (address_exclude n m) a ≡ (contains n a && not (contains m a))
unfolding address_exclude contains subnet_of
in_any-address_exclude [] m a h = in_any-halves m a
in_any-address_exclude (b ∷ bs) [] a h = cc
in_any-address_exclude (b ∷ bs) (c ∷ cs) a h =
    ground (arith, in_any-map b (address_exclude bs cs) a, in_any-address_exclude bs cs (shift a))

in_any-next_remaining :
    (m : Network) (ns : List Network) (a : Address)
    → in_any (next_remaining m ns) a ≡ (in_any ns a && not (contains m a))
unfolding next_remaining
in_any-next_remaining m [] a = refl
in_any-next_remaining m (n ∷ ns) a = ground (
  arith,
  in_any-next_remaining m ns a,
  contains-overlaps n m a,
  subnet_of-contains n m a,
  in_any-address_exclude n m a,
  in_any-append (address_exclude n m) (next_remaining m ns) a,
)

-- the addresses of a set of halves
member_of : Halves → Address → Bool
member_of none_of a = false
member_of all_of a = true
member_of (split l r) a = if a 0 then member_of r (shift a) else member_of l (shift a)

member_of-join :
    (l r : Halves) (a : Address)
    → member_of (join l r) a ≡ (if a 0 then member_of r (shift a) else member_of l (shift a))
unfolding member_of
member_of-join l r a = ground arith

member_of-add :
    (n : Network) (t : Halves) (a : Address)
    → member_of (add n t) a ≡ (contains n a || member_of t a)
unfolding add contains member_of
member_of-add n all_of a = ground arith
member_of-add [] none_of a = refl
member_of-add [] (split l r) a = refl
member_of-add (true ∷ bs) none_of a =
    ground (arith, member_of-join none_of (add bs none_of) a, member_of-add bs none_of (shift a))
member_of-add (false ∷ bs) none_of a =
    ground (arith, member_of-join (add bs none_of) none_of a, member_of-add bs none_of (shift a))
member_of-add (true ∷ bs) (split l r) a =
    ground (arith, member_of-join l (add bs r) a, member_of-add bs r (shift a))
member_of-add (false ∷ bs) (split l r) a =
    ground (arith, member_of-join (add bs l) r a, member_of-add bs l (shift a))

in_any-networks_of : (t : Halves) (a : Address) → in_any (networks_of t) a ≡ member_of t a
unfolding networks_of member_of contains
in_any-networks_of none_of a = refl
in_any-networks_of all_of a = refl
in_any-networks_of (split l r) a = ground (
  arith,
  in_any-append (map (λ n. false ∷ n) (networks_of l)) (map (λ n. true ∷ n) (networks_of r)) a,
  in_any-map false (networks_of l) a,
  in_any-map true (networks_of r) a,
  in_any-networks_of l (shift a),
  in_any-networks_of r (shift a),
)

member_of-add_all : (ns : List Network) (a : Address) → member_of (add_all ns) a ≡ in_any ns a
unfolding member_of
member_of-add_all [] a = refl
member_of-add_all (n ∷ ns) a =
    ground (arith, member_of-add n (add_all ns) a, member_of-add_all ns a)

in_any-collapse_addresses :
    (ns : List Network) (a : Address) → in_any (collapse_addresses ns) a ≡ in_any ns a
unfolding collapse_addresses
in_any-collapse_addresses ns a = in_any-networks_of (add_all ns) a ∙ member_of-add_all ns a

-- what the loop leaves: the addresses that are in no entry
pub in_any-remaining_after :
    (es : List NetworkEntry) (ns : List Network) (a : Address)
    → in_any (remaining_after es ns) a ≡ (in_any ns a && not (in_entries es a))
unfolding remaining_after
in_any-remaining_after [] ns a = ground arith
in_any-remaining_after (e ∷ es) ns a = ground (
  arith,
  in_any-remaining_after es (collapse_addresses (next_remaining e.network ns)) a,
  in_any-collapse_addresses (next_remaining e.network ns) a,
  in_any-next_remaining e.network ns a,
)
