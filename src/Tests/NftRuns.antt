-- ===== src/Tests/NftRuns.antt =====
-- The nftables transaction at a policy that replaces its table, beside a foreign one.
use l4d2_iptable_suite.Base.{
  ◌≡◌, refl, true, false, String, Bool, Option, none, some, List, [], ◌∷◌, ◌++◌, All,
}
use l4d2_iptable_suite.Base.Result.{Error, ok, err}
use l4d2_iptable_suite.Base.Json.{Items, null, str, arr, obj, nil, cons, end, field}
use l4d2_iptable_suite.Engine.SharedRule.{canonical_shared_text}
use l4d2_iptable_suite.Engine.Shared.{Descriptor}
use l4d2_iptable_suite.Engine.Inventory.{inventory_chain}
use l4d2_iptable_suite.Engine.Version.{Versions, version_identity}
use l4d2_iptable_suite.Engine.Nft.{
  NftPolicy, Line, delete_table, table_text, delete_rule, insert_rule, keys_of, nft_transaction,
}
use l4d2_iptable_suite.Engine.Checks.{Bundle, Live, registered_keys, nft_of}
use l4d2_iptable_suite.Engine.Deletes.{SparesForeign}
use l4d2_iptable_suite.Engine.Preflight.{preflight}
use l4d2_iptable_suite.Engine.Preflight.Ownership.{
  target_of, preflight-SparesForeign, preflight-refuses,
}

abbrev versions : Versions
versions = record { v4 = "iptables v1.8.10 (nf_tables)"; v6 = "ip6tables v1.8.10 (nf_tables)" }

identity : version_identity versions ≡ ok ("1.8.10", "nft")
unfolding version_identity
identity = refl

abbrev reply_text : String
reply_text =
    "iifname \"eth0\" oifname \"tun0\" ip saddr 10.0.0.0/8 ip daddr 10.9.0.0/16 ct direction reply ct state established,related counter packets 3 bytes 4 accept comment \"l4d2-suite:s2s:0123456789abcdef\""

abbrev same_network : String → Option (Bool × String)
same_network text = some (true, text)

canonical :
    canonical_shared_text same_network reply_text
    ≡ ok
        "iifname \"eth0\" oifname \"tun0\" ip saddr 10.0.0.0/8 ip daddr 10.9.0.0/16 ct direction reply ct state { established, related } counter accept comment \"l4d2-suite:s2s:0123456789abcdef\""
unfolding canonical_shared_text
canonical = refl

abbrev marked : Descriptor
marked = record {
  family = "ip";
  table = "filter";
  chain = "DOCKER-USER";
  comment = "l4d2-suite:s2s:0123456789abcdef";
  text = reply_text;
}

abbrev chain_lines : String → String → String → Option (List String)
chain_lines family table chain = some (
    "table ip filter {" ∷ "counter # handle 4"
    ∷ "  iifname \"eth0\" oifname \"tun0\" ip saddr 10.0.0.0/8 ip daddr 10.9.0.0/16 ct direction reply ct state established,related counter packets 9 bytes 9 accept comment \"l4d2-suite:s2s:0123456789abcdef\" # handle 7"
    ∷ [])

inventory :
    inventory_chain (chain_lines "ip" "filter" "DOCKER-USER")
    ≡ ok (
        record {
          comment = "l4d2-suite:s2s:0123456789abcdef";
          handle = 7;
          text =
              "iifname \"eth0\" oifname \"tun0\" ip saddr 10.0.0.0/8 ip daddr 10.9.0.0/16 ct direction reply ct state established,related counter packets 9 bytes 9 accept comment \"l4d2-suite:s2s:0123456789abcdef\"";
          position = 1;
        }
        ∷ [])
unfolding inventory_chain
inventory = refl

abbrev suite_table : NftPolicy
suite_table = record {
  objects = record { family = "inet"; name = "l4d2"; text = "add table inet l4d2\n" } ∷ [];
  shared_rules = marked ∷ [];
}

abbrev suite : Bundle
suite = record {
  backend = "nftables";
  disabled = false;
  nft = suite_table;
  families = [];
  hooks = [];
  has_containers = false;
  has_forward = false;
  docker_backend = some "auto";
  registered = record { versions = none; pinned_frontend = none; acceptance = none };
}

abbrev kernel : Live
kernel = record {
  tables = ("inet", "l4d2") ∷ ("ip", "foreign") ∷ [];
  versions = versions;
  frontend = "nft";
  iprules = [];
  save_texts = [];
  docker = "iptables";
}

-- FORWARD, whose one rule jumps to Docker's chain
abbrev forward_chain : String → Option Items
forward_chain family = some (
    cons
      (obj (
        field "chain"
          (obj (
            field "family" (str "ip")
              (field "table" (str "filter") (field "name" (str "FORWARD") end))))
          end))
      (cons
        (obj (
          field "rule"
            (obj (
              field "family" (str "ip") (
                field "table" (str "filter") (
                  field "chain" (str "FORWARD") (
                    field "expr"
                      (arr (
                        cons (obj (field "counter" null end)) (
                          cons
                            (obj (field "jump" (obj (field "target" (str "DOCKER-USER") end)) end))
                            nil)))
                      end)))))
            end))
        nil))

abbrev no_decimal : String → Bool
no_decimal text = false

abbrev suite_lines : List Line
suite_lines =
    delete_table ("inet", "l4d2")
    ∷ table_text "add table inet l4d2\n"
    ∷ delete_rule "ip" "filter" "DOCKER-USER" 7
    ∷ insert_rule "ip" "filter" "DOCKER-USER"
        "iifname \"eth0\" oifname \"tun0\" ip saddr 10.0.0.0/8 ip daddr 10.9.0.0/16 ct direction reply ct state { established, related } counter accept comment \"l4d2-suite:s2s:0123456789abcdef\""
    ∷ []

passed :
    preflight no_decimal same_network chain_lines forward_chain suite (some suite) kernel false []
    ≡ ok tt
unfolding preflight
passed = refl

prepared :
    nft_transaction same_network chain_lines
      (target_of suite)
      (nft_of (some suite) ++ (some suite_table ∷ []))
      kernel.tables
      false
    ≡ ok suite_lines
unfolding nft_transaction
prepared = refl

preflight-SparesForeign_example :
    All (SparesForeign kernel.tables (registered_keys (some suite) ++ [])) suite_lines
unfolding keys_of
preflight-SparesForeign_example =
    preflight-SparesForeign no_decimal same_network chain_lines forward_chain suite (some suite)
      kernel false [] [] suite_lines refl passed tt prepared

-- without the previous policy, the table is foreign
preflight-refuses_example :
    (e : Error) × (preflight no_decimal same_network chain_lines forward_chain suite none kernel
        false []
      ≡ err e)
preflight-refuses_example =
    preflight-refuses no_decimal same_network chain_lines forward_chain suite none kernel false []
      ("inet", "l4d2") refl refl refl refl
