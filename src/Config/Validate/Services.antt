-- ===== src/Config/Validate/Services.antt =====
-- The TCP services of an accepted configuration have ports of their own.
use mathlib.Core.Path.{subst}
use l4d2_iptable_suite.Base.{
  sym, ◌∙◌, ℕ, ◌≡◌, refl, Bool, true, false, not, ◌&&◌, ◌||◌, String, List, [], ◌∷◌, ◌++◌, arith,
}
use l4d2_iptable_suite.Base.Result.{ok, require, ◌>>◌, >>=-eq-ok}
use l4d2_iptable_suite.Base.Sets.{member}
use l4d2_iptable_suite.Config.Ports.{ports, overlap}
use l4d2_iptable_suite.Config.Ports.Bounds.{lists, overlap-lists, ok-injective}
use l4d2_iptable_suite.Config.Validate.{
  Options, has_value, value_or_default, add_service, check_services,
}

-- the service has ports: its module is selected and its option is set
abbrev pub is_active : Options → String → String → Bool
is_active o module_name key = member module_name o.names && has_value o key

lists-append : (xs ys : List (ℕ × ℕ)) (p : ℕ) → lists (xs ++ ys) p ≡ (lists xs p || lists ys p)
lists-append [] ys p = refl
lists-append ((a, b) ∷ xs) ys p = ground (arith, lists-append xs ys p)

-- what one turn does
record Added (o : Options) (key : String) (controlled out : List (ℕ × ℕ)) : Type 0 where
  own : List (ℕ × ℕ)
  read : ports (value_or_default o key "") ≡ ok own
  apart : overlap own controlled ≡ false
  together : controlled ++ own ≡ out

checked-Added :
    (o : Options) (key : String) (controlled out own : List (ℕ × ℕ)) (b : Bool)
    → ports (value_or_default o key "") ≡ ok own
    → overlap own controlled ≡ b
    → (require (not b) "TCP service controls overlap; assign distinct ports"
        >> ok (controlled ++ own))
      ≡ ok out
    → Added o key controlled out
checked-Added o key controlled out own true r e h = cc
checked-Added o key controlled out own false r e h = record {
  own = own;
  read = r;
  apart = e;
  together = ok-injective (controlled ++ own) out h;
}

add_service-Added :
    (o : Options) (module_name key : String) (controlled out : List (ℕ × ℕ))
    → is_active o module_name key ≡ true
    → add_service o module_name key controlled ≡ ok out
    → Added o key controlled out
unfolding add_service
add_service-Added o module_name key controlled out active h =
    let (own, r, h₁) = >>=-eq-ok (ports (value_or_default o key "")) _ (rw active at h) in
    checked-Added o key controlled out own (overlap own controlled) r refl h₁

-- If the services are accepted, and SSH and the web service both have ports, then no port is in both.
pub check_services-apart :
    (o : Options) (out ssh web : List (ℕ × ℕ)) (p : ℕ)
    → check_services o ≡ ok out
    → is_active o "tcp_ssh" "SSH_PORT" ≡ true
    → is_active o "http_https_protect" "HTTP_HTTPS_PORTS" ≡ true
    → ports (value_or_default o "SSH_PORT" "") ≡ ok ssh
    → ports (value_or_default o "HTTP_HTTPS_PORTS" "") ≡ ok web
    → lists web p ≡ true
    → lists ssh p ≡ false
unfolding check_services
check_services-apart o out ssh web p h s w ps pw l =
    let (c₁, h₁, k₁) = >>=-eq-ok (add_service o "tcp_ssh" "SSH_PORT" []) _ h in
    let (c₂, h₂, k₂) = >>=-eq-ok (add_service o "http_https_protect" "HTTP_HTTPS_PORTS" c₁) _ k₁ in
    let a = add_service-Added o "tcp_ssh" "SSH_PORT" [] c₁ s h₁ in
    let b = add_service-Added o "http_https_protect" "HTTP_HTTPS_PORTS" c₁ c₂ w h₂ in
    let to_ssh = sym a.together ∙ ok-injective a.own ssh (sym a.read ∙ ps) in
    let in_web = subst (λ rs. lists rs p ≡ true) (ok-injective web b.own (sym pw ∙ b.read)) l in
    subst (λ rs. lists rs p ≡ false) to_ssh (overlap-lists b.own c₁ p b.apart in_web)
