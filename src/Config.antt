-- ===== src/Config.antt =====
-- The vaults file of src/obsidian_mcp/config.py: `load_vaults_file`, what it calls, and how a
-- request selects its vault. `Loader` is what the functions ask of the file system, of
-- `json.loads` and of Python's `str`.
pub mod Identities
pub mod Vaults
use brain_mcp.Base.{
  ℕ, Bool, true, false, not, ◌&&◌, ◌||◌, Option, none, some, List, [], ◌∷◌, ◌++◌, map, any, all,
  contains, ◌==◌, Result, ok, err, raise_if, ◌>>=◌, ◌>>◌, if◌then◌else◌,
}
use brain_mcp.Base.Text.{Text, text, text_eq}
use brain_mcp.Base.Dict.{Dict, lookup, insert}
use brain_mcp.Errors.{Error, config_error, policy_merge, vault_path}
use brain_mcp.Paths.{is_nil}
use brain_mcp.Rules.{normalise_path_rules}
use brain_mcp.Json.{
  Json, null, bool, string, array, object, Items, Fields, no_fields, field, items, fields, strings,
}
use brain_mcp.Identity.{
  PolicyOverride, is_none, is_empty, IdentityType, api_key, github_login, Identity,
}
use brain_mcp.Policy.{EffectiveAccessPolicy, Parts, is_relative_to, merged_with}

pub record VaultEntry : Type 0 where
  pub name : Text
  pub path : Parts
  pub write_paths : List Text
  pub read_paths : List Text
  pub exclude_paths : List Text
  pub deny_read_paths : List Text
  pub deny_write_paths : List Text
  pub read_only : Option Bool
  pub description : Text

-- `load` is the text of the file, parsed: none where there is no file, or no JSON.
-- `resolve_dir` is `Path(raw).resolve()` where that is a directory. `str_of` is `str` of a
-- value that is no string.
pub record Loader : Type 0 where
  pub case_folding : ℕ → Text
  pub lower : Text → Text
  pub load : Text → Option Json
  pub resolve_dir : Text → Option Parts
  pub str_of : Json → Text

-- `except VaultPathError as exc: raise ConfigError`
abbrev pub as_config_error {ℓ} : {A : Type ℓ} → Result Error A → Result Error A
as_config_error (ok a) = ok a
as_config_error (err vault_path) = err config_error
as_config_error (err e) = err e

-- `except PolicyMergeError as exc: raise ConfigError`
abbrev pub merge_as_config_error {ℓ} : {A : Type ℓ} → Result Error A → Result Error A
merge_as_config_error (ok a) = ok a
merge_as_config_error (err policy_merge) = err config_error
merge_as_config_error (err e) = err e

-- A value that is absent, or present and `None`.
abbrev pub present : Option Json → Option Json
present none = none
present (some null) = none
present (some v) = some v

abbrev pub rules_of : Option (List Text) → Result Error (List Text)
rules_of none = err config_error
rules_of (some values) = as_config_error (normalise_path_rules values)

-- `_path_rules`, its value after `present`.
abbrev pub path_rules : Option Json → List Text → Result Error (List Text)
path_rules none default = as_config_error (normalise_path_rules default)
path_rules (some (array xs)) default = rules_of (strings xs)
path_rules (some _) default = err config_error

abbrev pub some_rules : Option (List Text) → Result Error (Option (List Text))
some_rules none = err config_error
some_rules (some []) = err config_error
some_rules (some (value ∷ values)) = do
  rules ← as_config_error (normalise_path_rules (value ∷ values))
  ok (some rules)

-- `_override_path_rules`
abbrev pub override_path_rules : Option Json → Result Error (Option (List Text))
override_path_rules none = ok none
override_path_rules (some (array xs)) = some_rules (strings xs)
override_path_rules (some _) = err config_error

abbrev pub optional_bool : Option Json → Result Error (Option Bool)
optional_bool none = ok none
optional_bool (some (bool b)) = ok (some b)
optional_bool (some _) = err config_error

abbrev pub override_fields : List Text
override_fields =
    text "write_paths"
    ∷ text "read_paths"
    ∷ text "deny_read_paths"
    ∷ text "deny_write_paths"
    ∷ text "read_only"
    ∷ []

abbrev pub get : Text → Dict Text Json → Option Json
get key raw = present (lookup key raw)

abbrev pub override_of : Dict Text Json → Result Error PolicyOverride
override_of raw = do
  raise_if (not (all (λ (entry : Text × Json). contains override_fields (entry.0)) raw))
      config_error
  read_only ← optional_bool (get (text "read_only") raw)
  write_paths ← override_path_rules (get (text "write_paths") raw)
  read_paths ← override_path_rules (get (text "read_paths") raw)
  deny_read_paths ← override_path_rules (get (text "deny_read_paths") raw)
  deny_write_paths ← override_path_rules (get (text "deny_write_paths") raw)
  ok (record {
    write_paths = write_paths;
    read_paths = read_paths;
    deny_read_paths = deny_read_paths;
    deny_write_paths = deny_write_paths;
    read_only = read_only;
  })

-- `_parse_policy_override`
unfoldable pub parse_policy_override : Json → Result Error PolicyOverride
parse_policy_override (object fs) = override_of (fields fs)
parse_policy_override _ = err config_error

abbrev pub or_global : Bool → Option Bool → Bool
or_global global_read_only none = global_read_only
or_global global_read_only (some b) = b

-- The policy that a vault's entry stands for.
abbrev pub entry_policy : Bool → VaultEntry → EffectiveAccessPolicy
entry_policy global_read_only vault = record {
  read_only = or_global global_read_only vault.read_only;
  read_paths = vault.read_paths;
  write_paths = vault.write_paths;
  deny_read_paths = vault.deny_read_paths;
  deny_write_paths = vault.deny_write_paths;
}

abbrev pub default_excludes : List Text
default_excludes = text "private/" ∷ text ".obsidian/" ∷ text ".trash/" ∷ []

abbrev pub default_deny_read : List Text
default_deny_read = text ".obsidian/" ∷ text ".trash/" ∷ []

abbrev pub default_deny_write : List Text
default_deny_write = text ".obsidian/" ∷ text ".trash/" ∷ text "_AI_INSTRUCTIONS.md" ∷ []

abbrev pub string_path : Option Json → Result Error Text
string_path (some (string (c ∷ s))) = ok (c ∷ s)
string_path _ = err config_error

abbrev pub directory_of : Option Parts → Result Error Parts
directory_of none = err config_error
directory_of (some path) = ok path

-- Do two vault directories coincide, or does one contain the other?
unfoldable pub overlap : VaultEntry → VaultEntry → Bool
overlap vault other = is_relative_to other.path vault.path || is_relative_to vault.path other.path

unfoldable pub check_disjoint : List (Text × VaultEntry) → Result Error (Unit {0})
unfolding overlap
check_disjoint [] = ok tt
check_disjoint ((name, vault) ∷ rest) = do
  raise_if (any (λ (other : Text × VaultEntry). overlap vault (other.1)) rest) config_error
  check_disjoint rest

module _ (loader : Loader) where
  abbrev pub str : Option Json → Text
  str none = []
  str (some (string s)) = s
  str (some v) = loader.str_of v

  abbrev pub entry_of : Text → Dict Text Json → Result Error VaultEntry
  entry_of name raw = do
    raw_path ← string_path (lookup (text "path") raw)
    path ← directory_of (loader.resolve_dir raw_path)
    read_only ← optional_bool (get (text "read_only") raw)
    write_paths ← path_rules (get (text "write_paths") raw) []
    read_paths ← path_rules (get (text "read_paths") raw) []
    exclude_paths ← path_rules (get (text "exclude_paths") raw) default_excludes
    deny_read_paths ← path_rules (get (text "deny_read_paths") raw) default_deny_read
    deny_write_paths ← path_rules (get (text "deny_write_paths") raw) default_deny_write
    ok (record {
      name = name;
      path = path;
      write_paths = write_paths;
      read_paths = read_paths;
      exclude_paths = exclude_paths;
      deny_read_paths = deny_read_paths;
      deny_write_paths = deny_write_paths;
      read_only = read_only;
      description = str (lookup (text "description") raw);
    })

  abbrev pub vault_entry : Text → Json → Result Error VaultEntry
  vault_entry (c ∷ name) (object fs) = entry_of (c ∷ name) (fields fs)
  vault_entry _ _ = err config_error

  -- The loop over the vaults.
  unfoldable pub load_vaults :
      Dict Text Json → Dict Text VaultEntry → Result Error (Dict Text VaultEntry)
  load_vaults [] vaults = ok vaults
  load_vaults ((name, raw_entry) ∷ rest) vaults = do
    entry ← vault_entry name raw_entry
    load_vaults rest (insert name entry vaults)

  module _ (global_read_only : Bool) (vaults : Dict Text VaultEntry) where
    abbrev pub validate_entry : Option VaultEntry → PolicyOverride → Result Error (Unit {0})
    validate_entry none override = err config_error
    validate_entry (some vault) override =
        merge_as_config_error
          (merged_with loader.case_folding (entry_policy global_read_only vault) (some override))
        >>= λ _. ok tt

    -- `_validate_override`, for each override.
    unfoldable pub validate_overrides : List (Text × PolicyOverride) → Result Error (Unit {0})
    validate_overrides [] = ok tt
    validate_overrides ((name, override) ∷ overrides) = do
      validate_entry (lookup name vaults) override
      validate_overrides overrides

    -- The loop over the object form of `vaults`.
    unfoldable pub load_overrides : Dict Text Json → Result Error (List (Text × PolicyOverride))
    load_overrides [] = ok []
    load_overrides ((name, raw) ∷ rest) = do
      override ← parse_policy_override raw
      overrides ← load_overrides rest
      ok (if is_empty override then overrides else (name, override) ∷ overrides)

    abbrev pub array_vaults :
        Option (List Text) → Result Error (List Text × List (Text × PolicyOverride))
    array_vaults none = err config_error
    array_vaults (some names) = ok (names, [])

    abbrev pub identity_vaults :
        Option Json → Result Error (List Text × List (Text × PolicyOverride))
    identity_vaults (some (object fs)) = do
      overrides ← load_overrides (fields fs)
      ok (map (λ (entry : Text × Json). entry.0) (fields fs), overrides)
    identity_vaults (some (array xs)) = array_vaults (strings xs)
    identity_vaults none = ok ([], [])
    identity_vaults (some _) = err config_error

    -- The default, once the only vault has stood in for a missing one.
    abbrev pub default_vault : Option Json → List Text → Result Error (Option Text)
    default_vault none (name ∷ []) = ok (some name)
    default_vault none names = ok none
    default_vault (some (string name)) names =
        if contains names name then ok (some name) else err config_error
    default_vault (some _) names = err config_error

    abbrev pub identity_type : Option Json → Result Error IdentityType
    identity_type (some (string s)) =
        if s == text "api_key"
        then ok api_key
        else if s == text "github_login"
        then ok github_login
        else err config_error
    identity_type _ = err config_error

    abbrev pub fold_login : IdentityType → Text → Text
    fold_login api_key value = value
    fold_login github_login value = loader.lower value

    abbrev pub identity_of : Dict Text Json → Result Error Identity
    identity_of raw = do
      kind ← identity_type (lookup (text "type") raw)
      let value = str (lookup (text "value") raw)
      raise_if (is_nil value) config_error
      found ← identity_vaults (lookup (text "vaults") raw)
      raise_if (is_nil (found.0)) config_error
      raise_if (any (λ name. is_none (lookup name vaults)) (found.0)) config_error
      default ← default_vault (get (text "default") raw) (found.0)
      validate_overrides (found.1)
      ok (record {
        kind = kind;
        value = fold_login kind value;
        vaults = found.0;
        default = default;
        overrides = found.1;
      })

    abbrev pub load_identity : Json → Result Error Identity
    load_identity (object fs) = identity_of (fields fs)
    load_identity _ = err config_error

    unfoldable pub load_identities : List Json → Result Error (List Identity)
    load_identities [] = ok []
    load_identities (raw ∷ rest) = do
      identity ← load_identity raw
      identities ← load_identities rest
      ok (identity ∷ identities)

  abbrev pub vaults_section : Option Json → Result Error (Dict Text Json)
  vaults_section (some (object (field k v fs))) = ok (fields (field k v fs))
  vaults_section _ = err config_error

  abbrev pub identities_section : Option Json → Result Error (List Json)
  identities_section (some (array xs)) =
      if is_nil (items xs) then err config_error else ok (items xs)
  identities_section _ = err config_error

  abbrev pub load_sections :
      Bool → Dict Text Json → Result Error (Dict Text VaultEntry × List Identity)
  load_sections global_read_only data_fields = do
    vaults_raw ← vaults_section (lookup (text "vaults") data_fields)
    vaults ← load_vaults vaults_raw []
    check_disjoint vaults
    identities_raw ← identities_section (lookup (text "identities") data_fields)
    identities ← load_identities global_read_only vaults identities_raw
    ok (vaults, identities)

  abbrev pub load_document :
      Bool → Option Json → Result Error (Dict Text VaultEntry × List Identity)
  load_document global_read_only (some (object fs)) = load_sections global_read_only (fields fs)
  load_document global_read_only _ = err config_error

  unfoldable pub load_vaults_file :
      Bool → Text → Result Error (Dict Text VaultEntry × List Identity)
  load_vaults_file global_read_only path = load_document global_read_only (loader.load path)
