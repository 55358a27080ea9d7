-- ===== src/Settings.antt =====
-- `Config.__init__` of src/obsidian_mcp/config.py: the settings of the server, from its
-- environment. `Host` is what the constructor asks of the process and of Python's number parsing.
pub mod Safety
use brain_mcp.Base.{
  ℕ, Bool, true, false, not, ◌&&◌, ◌||◌, Option, none, some, List, [], ◌∷◌, ◌++◌, map, keep, any,
  contains, ltb, ◌==◌, nat_eq, Result, ok, err, raise_if, ◌>>=◌, ◌>>◌, if◌then◌else◌,
}
use brain_mcp.Base.Text.{Text, text, text_eq, slash, strip, split, rstrip}
use brain_mcp.Base.Dict.{Dict}
use brain_mcp.Errors.{Error, config_error, value_error}
use brain_mcp.Paths.{is_nil}
use brain_mcp.Rules.{path_rules_from_env}
use brain_mcp.Identity.{IdentityType, api_key, github_login, Identity}
use brain_mcp.Policy.{Parts, is_relative_to}
use brain_mcp.Config.{Loader, VaultEntry, as_config_error, load_vaults_file}

pub data ℤ : Type 0 where
  pos : ℕ → ℤ
  negsuc : ℕ → ℤ

-- `resolve_path` is `Path(raw).expanduser().resolve()`, `abspath` is `os.path.abspath` of the
-- expanded path, `resolve_parent` is `path.parent.resolve()`, `temp_locks` the directory of locks
-- below the temporary one. `is_interval` is whether `float(raw)` is a finite positive number.
pub record Host : Type 0 where
  pub getenv : Text → Option Text
  pub is_space : ℕ → Bool
  pub int_of : Text → Option ℤ
  pub is_interval : Text → Bool
  pub resolve_path : Text → Parts
  pub abspath : Text → Parts
  pub resolve_parent : Parts → Parts
  pub temp_locks : Parts

pub record Settings : Type 0 where
  pub multi_vault : Bool
  pub global_read_only : Bool
  pub vaults : Dict Text VaultEntry
  pub identities : List Identity
  pub default_vault_name : Text
  pub api_key : Text
  pub allowed_logins : List Text
  pub lock_path : Parts
  pub audit_log_path : Parts
  pub allow_permanent_delete : Bool
  pub max_attachment_bytes : ℕ
  pub require_write_preconditions : Bool
  pub index_reconcile_interval : Text
  pub watcher_debounce_ms : ℕ
  -- the groups of tools that are switched on, by attribute
  pub enabled : List Text
  pub transport : Text
  pub host : Text
  pub port : ℤ
  pub public_base_url : Text
  pub github_client_id : Text
  pub github_client_secret : Text

-- What the two ways of configuring vaults give.
pub record VaultSource : Type 0 where
  pub vaults : Dict Text VaultEntry
  pub identities : List Identity
  pub default_vault_name : Text
  pub api_key : Text
  pub allowed_logins : List Text

abbrev pub or_default : Text → Option Text → Text
or_default default none = default
or_default default (some value) = value

-- `next(iter(vaults))`; a file that was accepted has a vault.
abbrev pub first_name : Dict Text VaultEntry → Result Error Text
first_name [] = err config_error
first_name ((name, vault) ∷ vaults) = ok name

abbrev pub is_github : IdentityType → Bool
is_github github_login = true
is_github api_key = false

-- A path that is the vault's directory, or lies below it.
abbrev pub in_vault : Parts → Text × VaultEntry → Bool
in_vault path (name, vault) = is_relative_to path vault.path

abbrev pub positive : Option ℤ → Result Error ℕ
positive (some (pos n)) = if n == 0 then err config_error else ok n
positive _ = err config_error

abbrev pub non_negative : Option ℤ → Result Error ℕ
non_negative (some (pos n)) = ok n
non_negative _ = err config_error

-- `int(...)` of the port: its `ValueError` is not caught.
abbrev pub port_of : Option ℤ → Result Error ℤ
port_of none = err value_error
port_of (some n) = ok n

abbrev pub vault_directory : Option Parts → Result Error Parts
vault_directory none = err config_error
vault_directory (some path) = ok path

abbrev pub stdio : Text
stdio = text "stdio"

abbrev pub has_api_keys : Settings → Bool
has_api_keys s =
    not (is_nil s.api_key)
    || any (λ (identity : Identity). not (is_github identity.kind)) s.identities

abbrev pub oauth_configured : Settings → Bool
oauth_configured s = not (is_nil s.github_client_id) || not (is_nil s.github_client_secret)

-- The checks at the end of the constructor.
unfoldable pub check_authentication : Settings → Result Error (Unit {0})
check_authentication s = do
  raise_if (oauth_configured s && (is_nil s.github_client_id || is_nil s.github_client_secret))
      config_error
  raise_if (oauth_configured s && is_nil s.allowed_logins) config_error
  raise_if (oauth_configured s && is_nil s.public_base_url) config_error
  raise_if (not (s.transport == stdio) && not (has_api_keys s) && not (oauth_configured s))
      config_error

module _ (h : Host) (loader : Loader) where
  abbrev pub env : Text → Text → Text
  env name default = or_default default (h.getenv name)

  abbrev pub enabled_by : Text → Bool
  enabled_by name =
      contains (text "1" ∷ text "true" ∷ text "yes" ∷ []) (loader.lower (env name (text "false")))

  abbrev pub env_rules : Text → Text → Result Error (List Text)
  env_rules name default = as_config_error (path_rules_from_env h.is_space (env name default))

  abbrev pub many_vaults : Bool → Text → Result Error VaultSource
  many_vaults global_read_only file = do
    loaded ← load_vaults_file loader global_read_only file
    name ← first_name (loaded.0)
    ok (record {
      vaults = loaded.0;
      identities = loaded.1;
      default_vault_name = name;
      api_key = [];
      allowed_logins =
          map (λ (identity : Identity). identity.value)
            (keep (λ (identity : Identity). is_github identity.kind) (loaded.1));
    })

  -- The key from the two variables: an empty one does not count.
  abbrev pub key_of : Text
  key_of =
      let key = env (text "API_KEY") [] in
      if is_nil key then env (text "OBSIDIAN_MCP_API_KEY") [] else key

  abbrev pub logins_of : Text → List Text
  logins_of raw =
      map (λ login. loader.lower (strip h.is_space login))
        (keep (λ login. not (is_nil (strip h.is_space login))) (split b',' raw))

  abbrev pub one_vault : Text → Result Error VaultSource
  one_vault raw_vault = do
    raise_if (is_nil raw_vault) config_error
    path ← vault_directory (loader.resolve_dir raw_vault)
    write_paths ← env_rules (text "WRITE_PATHS") []
    read_paths ← env_rules (text "READ_PATHS") []
    exclude_paths ← env_rules (text "EXCLUDE_PATHS") (text "private/,.obsidian/,.trash/")
    deny_read_paths ← env_rules (text "DENY_READ_PATHS") (text ".obsidian/,.trash/")
    deny_write_paths ←
        env_rules (text "DENY_WRITE_PATHS") (text ".obsidian/,.trash/,_AI_INSTRUCTIONS.md")
    let entry : VaultEntry = record {
      name = text "default";
      path = path;
      write_paths = write_paths;
      read_paths = read_paths;
      exclude_paths = exclude_paths;
      deny_read_paths = deny_read_paths;
      deny_write_paths = deny_write_paths;
      read_only = none;
      description = [];
    }
    ok (record {
      vaults = (text "default", entry) ∷ [];
      identities = [];
      default_vault_name = text "default";
      api_key = key_of;
      allowed_logins = logins_of (env (text "OAUTH_GITHUB_ALLOWED_LOGINS") []);
    })

  abbrev pub vault_source : Bool → Text → Result Error VaultSource
  vault_source global_read_only vaults_config =
      if is_nil vaults_config
      then one_vault (env (text "VAULT_PATH") [])
      else many_vaults global_read_only vaults_config

  abbrev pub lock_path_of : Parts
  lock_path_of =
      if not (is_nil (env (text "LOCK_PATH") []))
      then h.resolve_path (env (text "LOCK_PATH") [])
      else if not (is_nil (env (text "FASTMCP_HOME") []))
      then h.resolve_path (env (text "FASTMCP_HOME") [] ++ text "/locks")
      else h.temp_locks

  abbrev pub audit_path_of : Parts → Parts
  audit_path_of lock_path =
      if is_nil (env (text "AUDIT_LOG_PATH") [])
      then lock_path ++ (text "audit.jsonl" ∷ [])
      else h.abspath (env (text "AUDIT_LOG_PATH") [])

  -- The groups that are opt-in: the attribute and the environment variable.
  abbrev pub groups : List (Text × Text)
  groups =
      (text "enable_canvas", text "ENABLE_CANVAS")
      ∷ (text "enable_excalidraw", text "ENABLE_EXCALIDRAW")
      ∷ (text "enable_kanban", text "ENABLE_KANBAN")
      ∷ (text "enable_bases", text "ENABLE_BASES")
      ∷ (text "enable_move", text "ENABLE_MOVE")
      ∷ (text "enable_folder_rename", text "ENABLE_FOLDER_RENAME")
      ∷ (text "enable_bulk_replace", text "ENABLE_BULK_REPLACE")
      ∷ (text "enable_delete", text "ENABLE_DELETE")
      ∷ []

  abbrev pub enabled_groups : List Text
  enabled_groups =
      map (λ (group : Text × Text). group.0)
        (keep (λ (group : Text × Text). enabled_by (group.1)) groups)

  unfoldable pub check_outside : Parts → Parts → Dict Text VaultEntry → Result Error (Unit {0})
  check_outside lock_path audit_log_path vaults = do
    raise_if (any (in_vault lock_path) vaults) config_error
    raise_if
        (any
          (λ vault.
            in_vault audit_log_path vault || in_vault (h.resolve_parent audit_log_path) vault)
          vaults)
        config_error

  unfoldable pub settings_from : Result Error Settings
  settings_from = do
    let vaults_config = env (text "VAULTS_CONFIG") []
    let global_read_only = enabled_by (text "READ_ONLY")
    source ← vault_source global_read_only vaults_config
    check_outside lock_path_of (audit_path_of lock_path_of) source.vaults
    max_attachment_bytes ← positive (h.int_of (env (text "MAX_ATTACHMENT_BYTES") (text "26214400")))
    raise_if (not (h.is_interval (env (text "INDEX_RECONCILE_INTERVAL") (text "900")))) config_error
    watcher_debounce_ms ← non_negative (h.int_of (env (text "WATCHER_DEBOUNCE_MS") (text "100")))
    raise_if (not (is_nil vaults_config) && env (text "TRANSPORT") stdio == stdio) config_error
    port ← port_of (h.int_of (env (text "PORT") (text "8000")))
    let settings : Settings = record {
      multi_vault = not (is_nil vaults_config);
      global_read_only = global_read_only;
      vaults = source.vaults;
      identities = source.identities;
      default_vault_name = source.default_vault_name;
      api_key = source.api_key;
      allowed_logins = source.allowed_logins;
      lock_path = lock_path_of;
      audit_log_path = audit_path_of lock_path_of;
      allow_permanent_delete = enabled_by (text "ALLOW_PERMANENT_DELETE");
      max_attachment_bytes = max_attachment_bytes;
      require_write_preconditions = enabled_by (text "REQUIRE_WRITE_PRECONDITIONS");
      index_reconcile_interval = env (text "INDEX_RECONCILE_INTERVAL") (text "900");
      watcher_debounce_ms = watcher_debounce_ms;
      enabled = enabled_groups;
      transport = env (text "TRANSPORT") stdio;
      host = env (text "HOST") (text "0.0.0.0");
      port = port;
      public_base_url = rstrip (λ c. c == slash) (env (text "PUBLIC_BASE_URL") []);
      github_client_id = env (text "OAUTH_GITHUB_CLIENT_ID") [];
      github_client_secret = env (text "OAUTH_GITHUB_CLIENT_SECRET") [];
    }
    check_authentication settings
    ok settings
