-- ===== src/Tests/Demo.antt =====
-- A small host: the kernel is one text, and a batch is the text that it sets.
use l4d2_iptable_suite.Base.{true, false, String, none, some, [], ◌∷◌}
use l4d2_iptable_suite.Base.Int.{pos}
use l4d2_iptable_suite.Base.Result.{ok}
use l4d2_iptable_suite.Base.Json.{Json, nil, arr, null, int, str, obj, end, field}
use l4d2_iptable_suite.World.{Host, World, Disk, started}
use l4d2_iptable_suite.Cli.{Arguments, apply, confirm}
use l4d2_iptable_suite.Store.Apply.{Request}

abbrev text_of : Json → String
text_of (obj (field k (str s) fs)) = s
text_of _ = ""

abbrev pub demo : Host
demo = record {
  Kernel = String;
  Batch = String;
  inspect = λ backend frontend k. ok (obj (field "frontend" (str "nft") end));
  preflight = λ policy previous live accept owned k. ok tt;
  actual_hooks = λ policy live. ok null;
  compatibility = λ previous live accept. ok null;
  snapshot = λ policy live k. ok (obj (field "text" (str k) end));
  prepare = λ target union live rollback k. ok (text_of target);
  check = λ b k. ok tt;
  execute = λ b deadline now k. (ok tt, b, 1);
  digest = λ v. "digest";
  fingerprint = λ policy live k. ok k;
  guard_text = λ policy rows owner. ok "guard";
  recovery_in_scope = λ policy rows. ok true;
  legacy_prepare = λ candidate previous manifest live k. ok null;
  owned_keys = λ manifest. ok [];
  pin = λ b manifest. ok b;
  legacy_verify = λ manifest k. ok tt;
  start_timer = λ token timeout. ok tt;
  start_process = λ token. ok tt;
  isolated_network = true;
  list_tables = λ k. ok (obj (field "nftables" (arr nil) end));
  list_guard = λ k. ok (obj (field "nftables" (arr nil) end));
  nft_check = λ text k. ok tt;
  nft_run = λ text k. (ok tt, k);
  recovery_rows = λ path policy. ok (arr nil);
  load_manifest = λ path. ok null;
  require_owned_present = λ policy live k. ok tt;
}

abbrev pub policy : Json
policy = obj (
    field "name" (str "new rules") (
      field "schema" (int (pos 2))
        (field "backend" (str "nftables") (field "config" (obj end) end))))

abbrev pub request : Request
request = record {
  token = "t1";
  timeout = 120;
  systemd = true;
  is_local = false;
  verifier = none;
  accept_version_change = false;
  legacy_manifest = none;
}

abbrev pub empty_disk : Disk
empty_disk = record {
  current_file = none;
  persisted_file = none;
  pending_file = none;
  installed_file = none;
  boot_policy_file = none;
  last_rollback_file = none;
}

abbrev pub first : World demo
first = record {
  disk = empty_disk;
  kernel = "old rules";
  clock = 10;
  boot_time = 1000;
  delays = [];
  boot_id = "b1";
  trace = started false false ∷ [];
}

abbrev pub apply_arguments : Arguments
apply_arguments = record {
  chosen = apply;
  backend = str "nftables";
  dry_run = false;
  timeout = 120;
  systemd = true;
  is_local = false;
  verify_with = none;
  token = none;
  admin_verified = false;
  partial = false;
  removed = none;
  accept_version_change = false;
  recovery_file = none;
  legacy_table = none;
  legacy_nat_table = [];
  legacy_manifest = none;
  acknowledge_legacy_ownership = false;
  env_file = none;
  set = [];
  only = none;
  skip = none;
  profile = none;
  compose = λ previous. ok policy;
  token_drawn = "t1";
  is_root = true;
}

abbrev pub confirm_arguments : Arguments
confirm_arguments = record apply_arguments {
  chosen = confirm;
  token = some "t1";
  admin_verified = true;
}
