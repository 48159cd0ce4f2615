-- ===== src/Compiler/Nat.antt =====
-- The order of the lines that `vpn` of core/compiler.py adds.
use mathlib.Core.Path.{subst}
use l4d2_iptable_suite.Base.{
  ◌≡◌, refl, Bool, true, false, String, Option, some, List, [], ◌∷◌, ◌++◌, if◌then◌else◌,
}
use l4d2_iptable_suite.Base.Result.{Result, err, ok, ◌>>=◌}
use l4d2_iptable_suite.Engine.Save.{Rule}
use l4d2_iptable_suite.Compiler.{
  Family, Compiler, filter_for, nat_of, nat_for, nft_chain, ip_chain, add,
}
use l4d2_iptable_suite.Compiler.Vpn.{for_each, nat_rule}
use l4d2_iptable_suite.Compiler.Hooked.{AllHooked, nat_rule-AllHooked, add-AllHooked}
use l4d2_iptable_suite.Compiler.HookedIp.{AllEntered, nat_rule-AllEntered, add-AllEntered}
use l4d2_iptable_suite.Compiler.Declared.{
  AllReadable, nft_chain-AllReadable, ip_chain-AllReadable, add-AllReadable,
}

-- Each nftables object can be read from the top, and each NAT chain is declared on its hook, or has a
-- hook of iptables that jumps to it.
abbrev pub AllLoadable : Compiler → Type 0
AllLoadable c = AllReadable c × AllHooked c × AllEntered c

-- what a step that returned leaves
abbrev pub Keeps : Result Compiler → Type 0
Keeps r = (d : Compiler) → r ≡ ok d → AllLoadable d

pub ok-Keeps : (c : Compiler) → AllLoadable c → Keeps (ok c)
ok-Keeps c all d h = let same : c ≡ d = cc in subst AllLoadable same all

pub bind-Keeps {ℓ} :
    {A : Type ℓ} (m : Result A) (continue : A → Result Compiler)
    → ((x : A) → Keeps (continue x))
    → Keeps (m >>= continue)
bind-Keeps (err e) continue keeps d h = cc
bind-Keeps (ok x) continue keeps d h = keeps x d h

pub then-Keeps :
    (m : Result Compiler) (continue : Compiler → Result Compiler)
    → Keeps m
    → ((c : Compiler) → AllLoadable c → Keeps (continue c))
    → Keeps (m >>= continue)
then-Keeps (err e) continue first keeps d h = cc
then-Keeps (ok c) continue first keeps d h = keeps c (first c refl) d h

pub if-Keeps : (b : Bool) (m n : Result Compiler) → Keeps m → Keeps n → Keeps (if b then m else n)
if-Keeps true m n first second = first
if-Keeps false m n first second = second

pub for_each-Keeps {ℓ} :
    {A : Type ℓ} (xs : List A) (body : A → Compiler → Result Compiler)
    → ((x : A) (c : Compiler) → AllLoadable c → Keeps (body x c))
    → (c : Compiler) → AllLoadable c
    → Keeps (for_each xs body c)
for_each-Keeps [] body keeps c all = ok-Keeps c all
for_each-Keeps (x ∷ xs) body keeps c all =
    then-Keeps (body x c) (for_each xs body) (keeps x c all) (for_each-Keeps xs body keeps)

if-AllReadable :
    (b : Bool) (c d : Compiler) → AllReadable c → AllReadable d → AllReadable (if b then c else d)
if-AllReadable true c d first second = first
if-AllReadable false c d first second = second

nat_rule-AllReadable :
    (short : String → String) (f : Family) (logical parent nf : String) (ip : Rule) (c : Compiler)
    → AllReadable c
    → AllReadable (nat_rule short f logical parent nf ip c)
unfolding nat_rule
nat_rule-AllReadable short f logical parent nf ip c all =
    let in_nft = nft_chain (nat_of f) logical (some logical) c in
    let in_ip = ip_chain f "nat" (short logical) c in
    let d = if c.is_nft then in_nft else in_ip in
    let e = add short (nat_for f) logical nf ip d in
    let d_all =
      if-AllReadable c.is_nft in_nft in_ip
        (nft_chain-AllReadable (nat_of f) logical (some logical) c all)
        (ip_chain-AllReadable f "nat" (short logical) c all) in
    let e_all = add-AllReadable short (nat_for f) logical nf ip d d_all in
    if-AllReadable c.is_nft e
      (record e {
        hooks = e.hooks ++ (record { table = "nat"; parent = parent; target = short logical } ∷ []);
      })
      e_all e_all

pub nat_rule-AllLoadable :
    (short : String → String) (f : Family) (logical parent nf : String) (ip : Rule) (c : Compiler)
    → AllLoadable c
    → AllLoadable (nat_rule short f logical parent nf ip c)
nat_rule-AllLoadable short f logical parent nf ip c all =
    let (readable, hooked, entered) = all in
    (
      nat_rule-AllReadable short f logical parent nf ip c readable,
      nat_rule-AllHooked short f logical parent nf ip c hooked,
      nat_rule-AllEntered short f logical parent nf ip c entered,
    )

pub add-AllLoadable :
    (short : String → String) (family : Option Family) (logical nf : String) (ip : Rule)
    (c : Compiler)
    → AllLoadable c
    → AllLoadable (add short (filter_for family) logical nf ip c)
add-AllLoadable short family logical nf ip c all =
    let (readable, hooked, entered) = all in
    (
      add-AllReadable short (filter_for family) logical nf ip c readable,
      add-AllHooked short family logical nf ip c hooked,
      add-AllEntered short family logical nf ip c entered,
    )
