-- ===== src/Identity.antt =====
-- Identities and their policy overrides: `PolicyOverride` and `Identity` of
-- src/obsidian_mcp/config.py.
use brain_mcp.Base.{
  Bool, true, false, ◌&&◌, Option, none, some, List, [], ◌∷◌, Eq, ◌==◌, if◌then◌else◌,
}
use brain_mcp.Base.Text.{Text, Text-discrete, text_eq}

-- `none` inherits the vault's value.
pub record PolicyOverride : Type 0 where
  pub write_paths : Option (List Text)
  pub read_paths : Option (List Text)
  pub deny_read_paths : Option (List Text)
  pub deny_write_paths : Option (List Text)
  pub read_only : Option Bool

PolicyOverride-discrete : Discrete PolicyOverride
PolicyOverride-discrete = hlevel Text-discrete

-- Overrides are dictionary keys, compared by their fields.
instance unfoldable pub override_eq : Eq PolicyOverride
unfolding PolicyOverride-discrete
override_eq = record { dec = PolicyOverride-discrete }

abbrev pub is_none {ℓ} : {A : Type ℓ} → Option A → Bool
is_none none = true
is_none (some a) = false

unfoldable pub is_empty : PolicyOverride → Bool
is_empty o =
    is_none o.write_paths
    && is_none o.read_paths
    && is_none o.deny_read_paths
    && is_none o.deny_write_paths
    && is_none o.read_only

pub data IdentityType : Type 0 where
  api_key github_login : IdentityType

pub record Identity : Type 0 where
  pub kind : IdentityType
  pub value : Text
  pub vaults : List Text
  pub default : Option Text
  pub overrides : List (Text × PolicyOverride)

unfoldable pub find_override : List (Text × PolicyOverride) → Text → Option PolicyOverride
find_override [] vault_name = none
find_override ((name, override) ∷ overrides) vault_name =
    if name == vault_name then some override else find_override overrides vault_name

unfoldable pub override_for : Identity → Text → Option PolicyOverride
unfolding find_override
override_for identity vault_name = find_override identity.overrides vault_name
