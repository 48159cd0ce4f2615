-- ===== src/Config/Access/Accepted.antt =====
-- What an accepted container grant promises.
use l4d2_iptable_suite.Base.{
  ℕ, ◌-◌, ◌≡◌, refl, Bool, true, false, not, ◌&&◌, ◌||◌, ◌===◌, ◌==◌, String, List, [], ◌∷◌, ==_iff,
  and-true,
}
use l4d2_iptable_suite.Base.Result.{Result, ok, require, >>=-eq-ok, require_met}
use l4d2_iptable_suite.Base.Sets.{member}
use l4d2_iptable_suite.Config.Ports.{ports}
use l4d2_iptable_suite.Config.Access.{Grant, NetworkFacts, member_of, aligned, check_container}

-- ranges that pair up, each with the width of its partner
pub data Paired : List (ℕ × ℕ) → List (ℕ × ℕ) → Type 0 where
  none_left : Paired [] []
  pair :
      {xs ys : List (ℕ × ℕ)} (a b c d : ℕ)
      → b - a ≡ d - c
      → Paired xs ys
      → Paired ((a, b) ∷ xs) ((c, d) ∷ ys)

aligned-Paired : (xs ys : List (ℕ × ℕ)) → aligned xs ys ≡ true → Paired xs ys
unfolding aligned
aligned-Paired [] [] h = none_left
aligned-Paired ((a, b) ∷ xs) ((c, d) ∷ ys) h =
    let (w, rest) = and-true h in
    pair a b c d ((==_iff (b - a) (d - c)).0 w) (aligned-Paired xs ys rest)
aligned-Paired [] (y ∷ ys) h = cc
aligned-Paired (x ∷ xs) [] h = cc

or-true : (b : Bool) {c : Bool} → (not b || c) ≡ true → b ≡ true → c ≡ true
or-true true h e = h
or-true false h e = cc

require-ok : (b : Bool) (message : String) → require b message ≡ ok tt → b ≡ true
require-ok true message h = refl
require-ok false message h = cc

-- the public ports lead to the private ones, range by range, over a protocol that suits the service
pub record Forwards (network : String → Result NetworkFacts) (g : Grant) (source : NetworkFacts)
    : Type 0 where
  pub public_destination : String
  pub of_destination : member_of g "public_destination" ≡ ok public_destination
  pub one_address :
      (n : NetworkFacts) × (network public_destination ≡ ok n)
      × ((n.version == source.version) ≡ true)
      × (n.is_single ≡ true)
  pub private : List (ℕ × ℕ)
  pub of_private : (text : String) × (member_of g "ports" ≡ ok text) × (ports text ≡ ok private)
  pub public : List (ℕ × ℕ)
  pub of_public :
      (text : String) × (member_of g "public_ports" ≡ ok text) × (ports text ≡ ok public)
  pub paired : Paired private public
  pub service : String
  pub protocol : String
  pub of_grant : (member_of g "service" ≡ ok service) × (member_of g "protocol" ≡ ok protocol)
  pub game_over_udp : (service === "l4d2_udp_base") ≡ true → (protocol === "udp") ≡ true
  pub web_over_tcp :
      ((service === "tcp_ssh") || (service === "http_https_protect")) ≡ true
      → (protocol === "tcp") ≡ true

-- If a container grant is accepted then its public destination is one address of the source's version,
-- the ranges of its ports and those of its public ports pair up in their order with equal widths, a
-- game service is over UDP, and SSH and web services are over TCP.
pub check_container-Forwards :
    (network : String → Result NetworkFacts) (g : Grant) (source : NetworkFacts)
    → check_container network g source ≡ ok tt
    → Forwards network g source
unfolding check_container
check_container-Forwards network g source h =
    let (to, e₁, h₁) = >>=-eq-ok (member_of g "public_destination") _ h in
    let (n, e₂, h₂) = >>=-eq-ok (network to) _ h₁ in
    let (one, h₃) = require_met ((n.version == source.version) && n.is_single) _ _ h₂ in
    let (private_text, e₃, h₄) = >>=-eq-ok (member_of g "ports") _ h₃ in
    let (public_text, e₄, h₅) = >>=-eq-ok (member_of g "public_ports") _ h₄ in
    let (private, e₅, h₆) = >>=-eq-ok (ports private_text) _ h₅ in
    let (public, e₆, h₇) = >>=-eq-ok (ports public_text) _ h₆ in
    let (same, h₈) = require_met (aligned private public) _ _ h₇ in
    let (service, e₇, h₉) = >>=-eq-ok (member_of g "service") _ h₈ in
    let (known, h₁₀) =
      require_met
        (member service (
          "tcp_ssh" ∷ "http_https_protect" ∷ "l4d2_udp_base" ∷ "allowlist_ports" ∷ "openvpn_server"
          ∷ []))
        _ _ h₉ in
    let (protocol, e₈, h₁₁) = >>=-eq-ok (member_of g "protocol") _ h₁₀ in
    let (game, h₁₂) =
      require_met (not (service === "l4d2_udp_base") || (protocol === "udp")) _ _ h₁₁ in
    record {
      public_destination = to;
      of_destination = e₁;
      one_address = (n, e₂, (and-true one).0, (and-true one).1);
      private = private;
      of_private = (private_text, e₃, e₅);
      public = public;
      of_public = (public_text, e₄, e₆);
      paired = aligned-Paired private public same;
      service = service;
      protocol = protocol;
      of_grant = (e₇, e₈);
      game_over_udp = or-true (service === "l4d2_udp_base") game;
      web_over_tcp = or-true ((service === "tcp_ssh") || (service === "http_https_protect")) (
          require-ok
            (not ((service === "tcp_ssh") || (service === "http_https_protect"))
              || (protocol === "tcp"))
            _ h₁₂);
    }
