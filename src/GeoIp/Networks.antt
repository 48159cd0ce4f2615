-- ===== src/GeoIp/Networks.antt =====
-- Python's `ipaddress` for IPv4, as the script uses it. A network is the list of its prefix bits, from
-- the highest; an address is its bits, of which the script's networks fix at most the first 32.
use l4d2_iptable_suite.Base.{ℕ, suc, Bool, true, false, not, ◌&&◌, ◌||◌, List, [], ◌∷◌, ◌++◌, map}

abbrev pub Network : Type 0
Network = List Bool

abbrev pub Address : Type 0
Address = ℕ → Bool

abbrev pub same_bit : Bool → Bool → Bool
same_bit true b = b
same_bit false b = not b

abbrev pub shift : Address → Address
shift a = λ n. a (suc n)

-- `address in network`
unfoldable pub contains : Network → Address → Bool
contains [] a = true
contains (b ∷ bs) a = same_bit b (a 0) && contains bs (shift a)

-- `network.subnet_of(other)`
unfoldable pub subnet_of : Network → Network → Bool
subnet_of n [] = true
subnet_of [] (c ∷ cs) = false
subnet_of (b ∷ bs) (c ∷ cs) = same_bit c b && subnet_of bs cs

-- `network.overlaps(other)`
abbrev pub overlaps : Network → Network → Bool
overlaps n m = subnet_of n m || subnet_of m n

-- the other halves on the way down to a network
unfoldable pub halves : Network → List Network
halves [] = []
halves (b ∷ bs) = (not b ∷ []) ∷ map (λ n. b ∷ n) (halves bs)

-- `network.address_exclude(other)`, for a part of the network
unfoldable pub address_exclude : Network → Network → List Network
unfolding halves
address_exclude [] other = halves other
address_exclude (b ∷ bs) [] = []
address_exclude (b ∷ bs) (c ∷ cs) = map (λ n. b ∷ n) (address_exclude bs cs)

-- The sets of addresses that `collapse_addresses` builds: none, all, or two halves.
pub data Halves : Type 0 where
  none_of all_of : Halves
  split : Halves → Halves → Halves

-- two halves that are full are one network
abbrev pub join : Halves → Halves → Halves
join all_of all_of = all_of
join l r = split l r

unfoldable pub add : Network → Halves → Halves
add bs all_of = all_of
add [] none_of = all_of
add [] (split l r) = all_of
add (true ∷ bs) none_of = join none_of (add bs none_of)
add (false ∷ bs) none_of = join (add bs none_of) none_of
add (true ∷ bs) (split l r) = join l (add bs r)
add (false ∷ bs) (split l r) = join (add bs l) r

unfoldable pub networks_of : Halves → List Network
networks_of none_of = []
networks_of all_of = [] ∷ []
networks_of (split l r) =
    map (λ n. false ∷ n) (networks_of l) ++ map (λ n. true ∷ n) (networks_of r)

abbrev pub add_all : List Network → Halves
add_all [] = none_of
add_all (n ∷ ns) = add n (add_all ns)

-- `list(ipaddress.collapse_addresses(networks))`: the fewest networks of the same addresses, in order
unfoldable pub collapse_addresses : List Network → List Network
unfolding add networks_of
collapse_addresses ns = networks_of (add_all ns)
