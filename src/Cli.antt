-- ===== src/Cli.antt =====
-- The command line of core/fw.py: the arguments, and the rules that they obey.
pub mod Locked
pub mod Safe
use l4d2_iptable_suite.Base.{
  ℕ, Bool, true, false, not, ◌&&◌, ◌||◌, ◌===◌, String, Option, none, some, List, [], ◌∷◌, leb,
  if◌then◌else◌, is_some, length,
}
use l4d2_iptable_suite.Base.Result.{Result, ok, require, ◌>>=◌, ◌>>◌}
use l4d2_iptable_suite.Base.Json.{Json, is_str}

pub data Operation : Type 0 where
  validate generate plan check apply confirm rollback disable save load status doctor diagnose
        legacy_inventory boot_prepare boot_guard boot_restore boot_disarm ready _watch _detach :
      Operation

-- What `parse_args` returns. `compose` is the policy that `generate(configuration(args, ...))` makes on
-- top of the confirmed one, and `token_drawn` is the token that `secrets` draws.
pub record Arguments : Type 0 where
  pub chosen : Operation
  pub backend : Json
  pub dry_run : Bool
  pub timeout : ℕ
  pub systemd : Bool
  pub is_local : Bool
  pub verify_with : Option String
  pub token : Option String
  pub admin_verified : Bool
  pub partial : Bool
  pub removed : Option String
  pub accept_version_change : Bool
  pub recovery_file : Option String
  pub legacy_table : Option String
  pub legacy_nat_table : List String
  pub legacy_manifest : Option String
  pub acknowledge_legacy_ownership : Bool
  pub env_file : Option String
  pub set : List String
  pub only : Option (List String)
  pub skip : Option (List String)
  pub profile : Option (List String)
  pub compose : Json → Result Json
  pub token_drawn : String
  -- `os.geteuid() == 0`
  pub is_root : Bool

-- `bool(text)` of an optional text
abbrev pub given : Option String → Bool
given none = false
given (some s) = not (s === "")

abbrev pub is_given : List String → Bool
is_given [] = false
is_given (s ∷ ss) = true

abbrev pub is_maintenance : Operation → Bool
is_maintenance check = true
is_maintenance apply = true
is_maintenance load = true
is_maintenance _ = false

abbrev pub is_handover : Operation → Bool
is_handover check = true
is_handover apply = true
is_handover _ = false

abbrev pub is_boot_prepare : Operation → Bool
is_boot_prepare boot_prepare = true
is_boot_prepare _ = false

abbrev pub is_inventory : Operation → Bool
is_inventory legacy_inventory = true
is_inventory _ = false

-- `if args.dry_run: args.operation = 'plan'`
abbrev pub operation : Arguments → Operation
operation a = if a.dry_run then plan else a.chosen

-- `args.operation in ('check', 'apply') and ... and not args.local`
abbrev pub may_hand_over : Arguments → Bool
may_hand_over a =
    is_handover (operation a)
    && a.acknowledge_legacy_ownership
    && not a.partial
    && not (given a.removed)
    && not a.is_local

-- What is required before anything else is done.
unfoldable pub check_arguments : Arguments → Result (Unit {0})
check_arguments a = do
  require (leb 2 a.timeout && leb a.timeout 3600) "Timeout must be 2..3600 seconds"
  require (not a.accept_version_change || is_maintenance (operation a))
      "Version acceptance is only available during check/apply/load maintenance"
  require (not (given a.recovery_file) || is_boot_prepare (operation a))
      "--recovery-file is only accepted by boot-prepare"
  require (not (given a.legacy_table) || is_inventory (operation a))
      "--legacy-table requires legacy-inventory"
  require (not (is_given a.legacy_nat_table) || is_inventory (operation a))
      "--legacy-nat-table requires legacy-inventory"
  require (not (given a.legacy_manifest) || may_hand_over a)
      "Legacy manifest requires check/apply, explicit ownership acknowledgement and timed rollback"
  require (not a.acknowledge_legacy_ownership || given a.legacy_manifest)
      "Ownership acknowledgement requires a legacy manifest"

-- `args.env_file or args.set or ... or args.profile is not None`
abbrev pub has_overrides : Arguments → Bool
has_overrides a =
    given a.env_file
    || is_given a.set
    || a.partial
    || given a.removed
    || is_some a.only
    || is_some a.skip
    || is_some a.profile

-- The operations that end before the writer lock is taken.
abbrev pub is_outside : Operation → Bool
is_outside validate = true
is_outside generate = true
is_outside plan = true
is_outside diagnose = true
is_outside legacy_inventory = true
is_outside _watch = true
is_outside _detach = true
is_outside _ = false

-- What those operations require of the arguments.
unfoldable pub check_outside : Arguments → Operation → Result (Unit {0})
check_outside a legacy_inventory = do
  require (a.is_root && is_str a.backend "nftables" && given a.legacy_table)
      "legacy-inventory requires root, nftables and an explicit --legacy-table"
  require (not (has_overrides a)) "legacy-inventory does not load policy configuration or state"
  require (leb (length a.legacy_nat_table) 7) "Legacy inventory supports at most eight tables"
check_outside a diagnose = do
  require a.is_root "Passive kernel diagnosis requires root"
  require
      (not (
        given a.env_file
        || a.partial
        || given a.removed
        || is_some a.only
        || is_some a.skip
        || is_some a.profile))
      "diagnose does not load policy configuration or state"
check_outside a _watch = require (given a.token) "Watchdog needs token"
check_outside a _detach = require (given a.token) "Watchdog needs token"
check_outside a _ =
    require (not a.partial && not (given a.removed))
      "Use apply --partial/--remove with confirmed state"
