-- ===== src/Compiler/Policy.antt =====
-- The policy that `core` and `grants` of core/compiler.py make.
use mathlib.Core.Path.{subst}
use l4d2_iptable_suite.Base.{
  ◌≡◌, refl, Bool, true, false, String, List, [], ◌∷◌, ◌++◌, if◌then◌else◌,
}
use l4d2_iptable_suite.Base.Result.{Result, err, ok, ◌>>=◌}
use l4d2_iptable_suite.Config.Access.{Grant}
use l4d2_iptable_suite.Compiler.{Family, Compiler, filter_for, start}
use l4d2_iptable_suite.Compiler.Rules.{Call, chain_call, add_call, make, make_all}
use l4d2_iptable_suite.Compiler.Core.{core_calls, core, section_calls, bypass_calls, grants}
use l4d2_iptable_suite.Compiler.Declared.{
  AllReadable, read_lines, chain-AllReadable, add-AllReadable,
}

make-AllReadable :
    (short : String → String) (call : Call) (c : Compiler)
    → AllReadable c
    → AllReadable (make short call c)
make-AllReadable short (chain_call logical base) c all = chain-AllReadable short logical base c all
make-AllReadable short (add_call family logical nf ip) c all =
    add-AllReadable short (filter_for family) logical nf ip c all

make_all-AllReadable :
    (short : String → String) (calls : List Call) (c : Compiler)
    → AllReadable c
    → AllReadable (make_all short calls c)
unfolding make_all
make_all-AllReadable short [] c all = all
make_all-AllReadable short (call ∷ calls) c all =
    make_all-AllReadable short calls (make short call c) (make-AllReadable short call c all)

core-AllReadable :
    (short : String → String) (family_policy : String) (c : Compiler)
    → AllReadable c
    → AllReadable (core short family_policy c)
unfolding core
core-AllReadable short family_policy c all =
    let made = make_all-AllReadable short (core_calls c.is_nft family_policy) c all in
    elim c.is_nft
      as (λ b. AllReadable (
        if b
        then make_all short (core_calls c.is_nft family_policy) c
        else record (make_all short (core_calls c.is_nft family_policy) c) {
          hooks =
              record { table = "filter"; parent = "INPUT"; target = short "input" }
              ∷ record { table = "filter"; parent = "FORWARD"; target = short "forward" }
              ∷ [];
        })) [ true ↦ made | false ↦ made ]

start-AllReadable : (is_nft : Bool) → AllReadable (start is_nft)
unfolding read_lines
start-AllReadable is_nft key = refl

run_calls-AllReadable :
    (short : String → String) (host forward bypass : Result (List Call)) (c d : Compiler)
    → AllReadable c
    → (host >>= λ for_host. forward >>= λ for_forward.
        bypass >>= λ for_bypass. ok (make_all short (for_host ++ for_forward ++ for_bypass) c))
      ≡ ok d
    → AllReadable d
run_calls-AllReadable short (err e) forward bypass c d all h = cc
run_calls-AllReadable short (ok a) (err e) bypass c d all h = cc
run_calls-AllReadable short (ok a) (ok b) (err e) c d all h = cc
run_calls-AllReadable short (ok a) (ok b) (ok e) c d all h =
    let same : make_all short (a ++ b ++ e) c ≡ d = cc in
    subst AllReadable same (make_all-AllReadable short (a ++ b ++ e) c all)

-- When the grants are compiled after the rules of every policy, each nftables object can be read from
-- the top: a chain is declared once, each rule stands in a chain that a line above it declares, and the
-- chains that the compiler has noted are the declared ones.
pub grants-AllReadable :
    (short : String → String) (version : String → Result Family) (is_nft : Bool)
    (family_policy : String) (host forward : List Grant) (bypass : List String) (d : Compiler)
    → grants short version family_policy host forward bypass
        (core short family_policy (start is_nft))
      ≡ ok d
    → AllReadable d
unfolding grants
grants-AllReadable short version is_nft family_policy host forward bypass d h =
    run_calls-AllReadable short (section_calls version family_policy true host)
      (section_calls version family_policy false forward) (bypass_calls version bypass)
      (core short family_policy (start is_nft)) d
      (core-AllReadable short family_policy (start is_nft) (start-AllReadable is_nft)) h
