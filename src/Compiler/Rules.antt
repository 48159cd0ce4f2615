-- ===== src/Compiler/Rules.antt =====
-- `guard`, `core` and `grants` of core/compiler.py. The version that `ipaddress` finds of a network is
-- an argument.
use Prim.Native.String.{[] as empty, ◌∷◌ as ◌followed_by◌}
use Prim.Native.Char.{code}
use l4d2_iptable_suite.Base.{
  Bool, true, false, ◌==◌, String, ◌<>◌, Option, none, some, List, [], ◌∷◌, ◌++◌, if◌then◌else◌,
}
use l4d2_iptable_suite.Base.Result.{Result, ok, ◌>>=◌}
use l4d2_iptable_suite.Base.Sets.{lookup}
use l4d2_iptable_suite.Config.Access.{Grant, member_of}
use l4d2_iptable_suite.Engine.Save.{Rule}
use l4d2_iptable_suite.Compiler.{Family, ipv4, ipv6, filter_for, Compiler, chain, add}

-- `nfports`: `{ … }` around the ports, with `-` for `:`
unfoldable pub with_dashes : String → String
with_dashes empty = empty
with_dashes (c followed_by s) =
    let rest = with_dashes s in if code c == 58 then "-" <> rest else (c followed_by rest)

unfoldable pub nfports : String → String
unfolding with_dashes
nfports value = "{ " <> with_dashes value <> " }"

-- `text.split('/')[0]`
unfoldable pub before_slash : String → String
before_slash empty = empty
before_slash (c followed_by s) =
    let rest = before_slash s in if code c == 47 then empty else (c followed_by rest)

abbrev pub address_word : Family → String
address_word ipv4 = "ip"
address_word ipv6 = "ip6"

-- a family, the nftables text and the iptables words
abbrev pub Guard : Type 0
Guard = Family × String × Rule

-- the part of a guard for the interface that a packet leaves by
abbrev pub out_words : Grant → Bool → Result (String × Rule)
out_words g reply = elim (lookup g "output") [
  | none ↦ ok ("", [])
  | some output ↦ member_of g "input" >>= λ input.
      let out = if reply then input else output in
      ok (" oifname \"" <> out <> "\"", "-o" ∷ out ∷ [])
]

abbrev pub port_words : Bool → String → String → String × Rule
port_words true proto ports = (
  " " <> proto <> " sport " <> nfports ports <> " ct direction reply ct state established,related",
  "-m" ∷ "multiport" ∷ "--sports" ∷ ports ∷ "-m" ∷ "conntrack" ∷ "--ctdir" ∷ "REPLY" ∷ "--ctstate"
      ∷ "ESTABLISHED,RELATED" ∷ [],
)
port_words false proto ports =
    (" " <> proto <> " dport " <> nfports ports, "-m" ∷ "multiport" ∷ "--dports" ∷ ports ∷ [])

abbrev pub original_words : Family → Grant → Bool → Result (String × Rule)
original_words family g false = ok ("", [])
original_words family g true = member_of g "public_destination" >>= λ public. ok (
  " ct status dnat ct original " <> address_word family <> " daddr " <> before_slash public,
  "-m" ∷ "conntrack" ∷ "--ctstate" ∷ "DNAT" ∷ "--ctorigdst" ∷ before_slash public ∷ [],
)

unfoldable pub guard : (String → Result Family) → Grant → Bool → Bool → Result Guard
unfolding nfports before_slash
guard version g reply original = member_of g "source" >>= λ source. version source >>= λ family.
    member_of g "destination" >>= λ destination.
    member_of g (if reply then "output" else "input") >>= λ i. out_words g reply >>= λ out.
    member_of g "protocol" >>= λ proto. member_of g "ports" >>= λ ports.
    original_words family g original >>= λ last.
    let addr = address_word family in
    let src = if reply then destination else source in
    let dst = if reply then source else destination in
    let words = port_words reply proto ports in
    ok (
      family,
      "iifname \"" <> i <> "\" " <> addr <> " saddr " <> src <> " " <> addr <> " daddr " <> dst
          <> out.0 <> " meta l4proto " <> proto <> words.0 <> last.0,
      ("-i" ∷ i ∷ "-s" ∷ src ∷ "-d" ∷ dst ∷ [])
          ++ out.1
          ++ ("-p" ∷ proto ∷ [])
          ++ words.1
          ++ last.1,
    )

-- the calls of `chain` and of `add` that a method makes, in the filter table
pub data Call : Type 0 where
  chain_call : (logical : String) (base : Option String) → Call
  add_call : (family : Option Family) (logical nf : String) (ip : Rule) → Call

abbrev pub make : (String → String) → Call → Compiler → Compiler
make short (chain_call logical base) c = chain short logical base c
make short (add_call family logical nf ip) c = add short (filter_for family) logical nf ip c

unfoldable pub make_all : (String → String) → List Call → Compiler → Compiler
make_all short [] c = c
make_all short (call ∷ calls) c = make_all short calls (make short call c)
