-- ===== src/Tests/ModuleRuns.antt =====
-- A hashlimit rule of a module that names no bounds, and one that names its own.
use l4d2_iptable_suite.Base.{◌≡◌, refl, String, [], ◌∷◌}
use l4d2_iptable_suite.Base.Result.{ok}
use l4d2_iptable_suite.Base.Sets.{lookup}
use l4d2_iptable_suite.Compiler.{short_name}
use l4d2_iptable_suite.Compiler.Vpn.{Values}
use l4d2_iptable_suite.Compiler.Modules.{limit_rule}
use l4d2_iptable_suite.Compiler.Modules.Options.{apart, is_limit}
use l4d2_iptable_suite.Compiler.Modules.Limits.{IsBounded, limit_rule-IsBounded}
use l4d2_iptable_suite.Engine.Save.{Rule}

abbrev values : Values
values = ("STATE_CAPACITY", "65536") ∷ ("SSH_METER_TIMEOUT", "2m") ∷ []

abbrev hash : String → String
hash name = "0123456789abcdef0123456789abcdef"

abbrev ssh_rule : Rule
ssh_rule =
    "-p" ∷ "tcp" ∷ "-m" ∷ "hashlimit" ∷ "--hashlimit-name" ∷ "SSH_NEW" ∷ "--hashlimit-htable-max"
    ∷ "1000" ∷ "-j" ∷ "ACCEPT" ∷ []

abbrev bounded_rule : Rule
bounded_rule =
    "-p" ∷ "tcp" ∷ "-m" ∷ "hashlimit" ∷ "--hashlimit-name" ∷ "L4S_0123456789abcdef"
    ∷ "--hashlimit-htable-max" ∷ "65536" ∷ "-j" ∷ "ACCEPT" ∷ "--hashlimit-htable-expire" ∷ "120000"
    ∷ "--hashlimit-htable-size" ∷ "65536" ∷ []

limited : limit_rule (short_name hash) values "host" ssh_rule ≡ ok bounded_rule
unfolding limit_rule lookup
limited = refl

limit_rule-IsBounded_example : IsBounded "65536" bounded_rule
unfolding is_limit apart lookup
limit_rule-IsBounded_example =
    limit_rule-IsBounded hash "65536" refl values "host" ssh_rule bounded_rule refl refl refl
      limited
