-- ===== src/Session.antt =====
-- From a request's token to the vault it works on: `_identity_for_token`, `_select_vault` and
-- `VaultResolutionMiddleware` of src/obsidian_mcp/server.py, and `resolve_vault_name` of
-- src/obsidian_mcp/config.py. The two context variables are the state, and `W` that of
-- the rest of the server, which `call_next` is: it may change both as it likes.
pub mod Resolution
use brain_mcp.Base.{
  ℕ, Bool, true, false, not, ◌&&◌, ◌||◌, Option, none, some, List, [], ◌∷◌, contains, ◌==◌, Result,
  ok, err, raise_if, ◌>>=◌, ◌>>◌, if◌then◌else◌,
}
use brain_mcp.Base.Text.{Text, text, text_eq}
use brain_mcp.Base.Dict.{Dict, lookup}
use brain_mcp.Errors.{Error, permission_error, config_error}
use brain_mcp.Paths.{is_nil}
use brain_mcp.Identity.{IdentityType, api_key, github_login, Identity, is_none}
use brain_mcp.Config.{VaultEntry, or_global}

-- `login` is `str((claims or {}).get("login", ""))`.
pub record AccessToken : Type 0 where
  pub login : Text
  pub client_id : Text

-- `_current_vault_var` and `_current_identity_var`
pub record Context : Type 0 where
  pub vault : Option Text
  pub identity : Option Identity

abbrev pub same_type : IdentityType → IdentityType → Bool
same_type api_key api_key = true
same_type github_login github_login = true
same_type _ _ = false

abbrev pub is_identity : IdentityType → Text → Identity → Bool
is_identity kind value identity = same_type identity.kind kind && identity.value == value

unfoldable pub find_identity : IdentityType → Text → List Identity → Option Identity
find_identity kind value [] = none
find_identity kind value (identity ∷ identities) =
    if is_identity kind value identity then some identity else find_identity kind value identities

-- The loop over the candidates: an empty value is passed over.
unfoldable pub find_candidate : List (IdentityType × Text) → List Identity → Result Error Identity
unfolding find_identity
find_candidate [] identities = err permission_error
find_candidate ((kind, value) ∷ candidates) identities =
    let rest = find_candidate candidates identities in
    if is_nil value
    then rest
    else elim (find_identity kind value identities) [ some identity ↦ ok identity | none ↦ rest ]

unfoldable pub identity_for_token :
    (Text → Text) → List Identity → Option AccessToken → Result Error Identity
unfolding find_candidate
identity_for_token lower identities none = err permission_error
identity_for_token lower identities (some token) =
    let login = lower token.login in
    let by_key = (api_key, token.client_id) ∷ [] in
    find_candidate (if is_nil login then by_key else (github_login, login) ∷ by_key) identities

abbrev pub default_of : Option Text → Result Error Text
default_of none = err permission_error
default_of (some name) = ok name

unfoldable pub select_vault : Identity → Option Text → Result Error Text
select_vault identity none = default_of identity.default
select_vault identity (some requested) =
    if contains identity.vaults requested then ok requested else err permission_error

-- `resolve_vault_name`, given the name of the default vault.
unfoldable pub resolve_vault_name : Dict Text VaultEntry → Text → Context → Result Error Text
resolve_vault_name vaults default_vault_name context = elim context.vault [
  | none ↦ ok default_vault_name
  | some name ↦ if is_none (lookup name vaults) then err config_error else ok name
]

module _ {ℓ} {A W : Type ℓ} (multi_vault : Bool) (lower : Text → Text) (identities : List Identity)
    (call_next : Context → W → Result Error A × Context × W) (token : Option AccessToken) where
  -- The variables are reset when the call has returned or raised.
  abbrev pub reset : Context → Result Error A × Context × W → Result Error A × Context × W
  reset context outcome = (outcome.0, context, outcome.2)

  -- The call with both variables set.
  abbrev pub call_with : Identity → Result Error Text → Context → W → Result Error A × Context × W
  call_with identity (err e) context world = (err e, context, world)
  call_with identity (ok vault_name) context world =
      reset context (call_next (record { vault = some vault_name; identity = some identity }) world)

  abbrev pub dispatch :
      Bool → Option Text → Result Error Identity → Context → W → Result Error A × Context × W
  dispatch discovery requested (err e) context world = (err e, context, world)
  dispatch discovery requested (ok identity) context world =
      if discovery
      then call_next context world
      else call_with identity (select_vault identity requested) context world

  -- `tool` is the name of the tool, `requested` the argument `vault` of the call.
  unfoldable pub on_call_tool : Text → Option Text → Context → W → Result Error A × Context × W
  on_call_tool tool requested context world =
      if not multi_vault
      then call_next context world
      else dispatch (tool == text "list_vaults_tool") requested
          (identity_for_token lower identities token) context world

  unfoldable pub on_read_resource : Context → W → Result Error A × Context × W
  on_read_resource context world =
      if not multi_vault
      then call_next context world
      else dispatch false none (identity_for_token lower identities token) context world
