-- ===== src/Tests/Vaults.antt =====
-- The vaults file, and a call in one of its vaults.
use brain_mcp.Base.{
  ℕ, suc, ◌≡◌, refl, true, false, ◌&&◌, Option, none, some, [], ◌∷◌, All, ◌==◌, nat_eq, Result, ok,
  if◌then◌else◌,
}
use native.Mathlib.Decide.{ℕ_discrete}
use brain_mcp.Base.Text.{
  Text, text, text_eq, Text-discrete, starts_with, ends_with, rstrip, replace_char, split, join,
}
use brain_mcp.Base.Dict.{Dict, lookup, insert}
use brain_mcp.Errors.{Error}
use brain_mcp.Paths.{
  norm_comps, norm_step, leading_slashes, normalise_relative, has_drive, is_rooted, normpath,
  confined,
}
use brain_mcp.Rules.{
  matches_path_rule, rule_covers_rule, merge_allowlist, merge_denylist, merge_readonly,
  check_covered, add_rules, normalise_path_rules, normalise_rules_onto,
}
use brain_mcp.Json.{
  Json, string, array, object, item, no_items, field, no_fields, fields, items, strings,
}
use brain_mcp.Identity.{is_empty}
use brain_mcp.Policy.{is_relative_to, merged_with}
use brain_mcp.Config.{
  Loader, VaultEntry, default_excludes, default_deny_read, default_deny_write, overlap,
  check_disjoint, parse_policy_override, load_vaults, load_overrides, validate_overrides,
  load_identities, load_vaults_file,
}
use brain_mcp.Config.Vaults.{load_vaults_file-disjoint}
use brain_mcp.Config.Identities.{IsValid, load_vaults_file-IsValid}
use brain_mcp.Settings.{
  Host, Settings, pos, stdio, check_authentication, check_outside, settings_from,
}
use brain_mcp.Settings.Safety.{IsAuthenticated, IsOutside, settings_from-safe}
use brain_mcp.Session.{AccessToken, Context, on_call_tool}
use brain_mcp.Session.Resolution.{IsGuarded, on_call_tool-IsGuarded}
use brain_mcp.Tests.Policies.{letters, identity}

abbrev document : Json
document = object (
    field (text "vaults")
      (object (
        field (text "main") (object (field (text "path") (string (text "vault")) no_fields))
          no_fields))
      (field (text "identities")
        (array (
          item
            (object (
              field (text "type") (string (text "api_key")) (
                field (text "value") (string (text "key")) (
                  field (text "vaults")
                    (object (
                      field (text "main")
                        (object (
                          field (text "write_paths")
                            (array (item (string (text "notes/")) no_items))
                            (field (text "read_paths")
                              (array (item (string (text "notes/")) no_items)) no_fields)))
                        no_fields))
                    no_fields))))
            no_items))
        no_fields))

abbrev loader : Loader
loader = record {
  case_folding = letters;
  lower = λ s. s;
  load = λ path. some document;
  resolve_dir = λ path. some (path ∷ []);
  str_of = λ v. [];
}

abbrev main_vault : VaultEntry
main_vault = record {
  name = text "main";
  path = text "vault" ∷ [];
  write_paths = [];
  read_paths = [];
  exclude_paths = default_excludes;
  deny_read_paths = default_deny_read;
  deny_write_paths = default_deny_write;
  read_only = none;
  description = [];
}

abbrev vaults : Dict Text VaultEntry
vaults = (text "main", main_vault) ∷ []

loads : load_vaults_file loader false (text "vaults.json") ≡ ok (vaults, identity ∷ [])
unfolding load_vaults_file load_vaults check_disjoint load_identities load_overrides
    parse_policy_override validate_overrides is_empty fields items strings lookup insert overlap
    is_relative_to merged_with merge_allowlist merge_denylist merge_readonly check_covered add_rules
    rule_covers_rule matches_path_rule normalise_path_rules normalise_rules_onto normalise_relative
    ◌==◌ nat_eq text_eq rstrip ends_with Text-discrete replace_char split join starts_with confined
    ℕ_discrete normpath norm_comps norm_step leading_slashes is_rooted has_drive
loads = refl

load_vaults_file-IsValid_example : All (IsValid loader false vaults) (identity ∷ [])
load_vaults_file-IsValid_example =
    load_vaults_file-IsValid loader false (text "vaults.json") vaults (identity ∷ []) loads

is_main : lookup (text "main") vaults ≡ some main_vault
unfolding lookup ◌==◌ nat_eq text_eq Text-discrete ℕ_discrete
is_main = refl

inside : is_relative_to (text "vault" ∷ text "a" ∷ []) (text "vault" ∷ []) ≡ true
unfolding is_relative_to ◌==◌ nat_eq text_eq Text-discrete ℕ_discrete
inside = refl

load_vaults_file-disjoint_example : text "main" ≡ text "main"
load_vaults_file-disjoint_example =
    load_vaults_file-disjoint loader false (text "vaults.json") vaults (identity ∷ []) loads
      (text "main") (text "main") main_vault main_vault (text "vault" ∷ text "a" ∷ []) is_main
      is_main inside inside

abbrev access_token : AccessToken
access_token = record { login = []; client_id = text "key" }

abbrev outside : Context
outside = record { vault = none; identity = none }

-- A tool that answers with its context, and counts its calls.
abbrev tool : Context → ℕ → Result Error Context × Context × ℕ
tool context calls = (ok context, context, suc calls)

not_discovery : (text "read_note_tool" == text "list_vaults_tool") ≡ false
unfolding ◌==◌ nat_eq text_eq Text-discrete ℕ_discrete
not_discovery = refl

on_call_tool-IsGuarded_example :
    IsGuarded
      (λ s. s)
      vaults
      (identity ∷ [])
      access_token
      tool
      outside
      0
      (on_call_tool true
        (λ s. s)
        (identity ∷ [])
        tool
        (some access_token)
        (text "read_note_tool")
        none
        outside
        0)
on_call_tool-IsGuarded_example =
    on_call_tool-IsGuarded loader false (text "vaults.json") vaults (identity ∷ []) loads (λ s. s)
      tool access_token outside 0 (text "read_note_tool") none not_discovery

-- A server for the vaults file, over HTTP.
abbrev environment : Text → Option Text
environment name =
    if name == text "VAULTS_CONFIG"
    then some (text "vaults.json")
    else if name == text "TRANSPORT"
    then some (text "http")
    else none

abbrev process : Host
process = record {
  getenv = environment;
  is_space = λ c. false;
  int_of = λ raw. some (pos 100);
  is_interval = λ raw. true;
  resolve_path = λ raw. [];
  abspath = λ raw. [];
  resolve_parent = λ path. text "tmp" ∷ [];
  temp_locks = text "tmp" ∷ [];
}

abbrev served : Settings
served = record {
  multi_vault = true;
  global_read_only = false;
  vaults = vaults;
  identities = identity ∷ [];
  default_vault_name = text "main";
  api_key = [];
  allowed_logins = [];
  lock_path = text "tmp" ∷ [];
  audit_log_path = text "tmp" ∷ text "audit.jsonl" ∷ [];
  allow_permanent_delete = false;
  max_attachment_bytes = 100;
  require_write_preconditions = false;
  index_reconcile_interval = text "900";
  watcher_debounce_ms = 100;
  enabled = [];
  transport = text "http";
  host = text "0.0.0.0";
  port = pos 100;
  public_base_url = [];
  github_client_id = [];
  github_client_secret = [];
}

starts : settings_from process loader ≡ ok served
unfolding settings_from check_authentication check_outside is_relative_to rstrip ◌==◌ nat_eq text_eq
    Text-discrete ℕ_discrete
starts = rw loads refl

settings_from-safe_example :
    ((served.multi_vault && served.transport == stdio) ≡ false)
    × IsAuthenticated served
    × IsOutside served.lock_path served.vaults
    × IsOutside served.audit_log_path served.vaults
    × IsOutside (process.resolve_parent served.audit_log_path) served.vaults
settings_from-safe_example = settings_from-safe process loader served starts
