-- ===== src/Policy/Access.antt =====
-- The methods of `VaultAccessPolicy` in src/obsidian_mcp/storage/policy.py. The merges that
-- `effective` keeps in its cache are state; the checks below use its result alone.
use brain_mcp.Base.{
  Bool, true, false, not, ◌&&◌, ◌||◌, Option, none, some, List, [], ◌∷◌, ◌++◌, any, keep, ◌==◌,
  nat_eq, Result, ok, err, raise_if, ◌>>=◌, ◌>>◌, if◌then◌else◌,
}
use brain_mcp.Base.Text.{Text, text_eq, slash, starts_with, strip, replace_char}
use brain_mcp.Errors.{
  Error, vault_path, read_permission, write_permission, protected_path, permanent_delete_disabled,
  is_vault_path, is_read_permission, is_write_permission,
}
use brain_mcp.Paths.{backslash, normalise_relative, is_nil}
use brain_mcp.Rules.{rule_path, matches_path_rule}
use brain_mcp.Identity.{PolicyOverride, override_eq, Identity, override_for, is_none}
use brain_mcp.Policy.{
  EffectiveAccessPolicy, Parts, Kind, StatResult, directory, VaultPath, World, VaultAccessPolicy,
  IdentityArgument, inherit, given, merged_with, path_parts, is_relative_to, lookup_merged, longest,
  resolved,
}

abbrev pub is_directory : Kind → Bool
is_directory directory = true
is_directory _ = false

-- The result of a check whose listed errors mean no.
abbrev caught {ℓ} : {A : Type ℓ} → (Error → Bool) → Result Error A → Result Error Bool
caught listed (ok a) = ok true
caught listed (err e) = if listed e then ok false else err e

module _ (current : Option Identity) where
  abbrev identity_override : VaultAccessPolicy → Option Identity → Option PolicyOverride
  identity_override policy none = none
  identity_override policy (some identity) = elim policy.vault_name [
    | none ↦ none
    | some name ↦ override_for identity name
  ]

  -- `_override_for`
  unfoldable pub policy_override : VaultAccessPolicy → IdentityArgument → Option PolicyOverride
  policy_override policy inherit =
      if not policy.apply_identity_overrides || is_none policy.vault_name
      then none
      else identity_override policy current
  policy_override policy (given identity) = identity_override policy identity

module _ (world : World) where
  abbrev pub store_merge :
      VaultAccessPolicy
      → PolicyOverride
      → Result Error EffectiveAccessPolicy
      → Result Error EffectiveAccessPolicy × VaultAccessPolicy
  store_merge policy override (err e) = (err e, policy)
  store_merge policy override (ok e) =
      (ok e, record policy { merged = (override, e) ∷ policy.merged })

  abbrev pub use_cache :
      VaultAccessPolicy
      → PolicyOverride
      → Option EffectiveAccessPolicy
      → Result Error EffectiveAccessPolicy × VaultAccessPolicy
  use_cache policy override (some cached) = (ok cached, policy)
  use_cache policy override none =
      store_merge policy override (merged_with world.case_folding policy.base (some override))

  abbrev pub effective_of :
      VaultAccessPolicy
      → Option PolicyOverride
      → Result Error EffectiveAccessPolicy × VaultAccessPolicy
  effective_of policy none = (ok policy.base, policy)
  effective_of policy (some override) =
      use_cache policy override (lookup_merged override policy.merged)

  -- Returns the policy object with its cache too.
  unfoldable pub effective :
      Option Identity
      → VaultAccessPolicy
      → IdentityArgument
      → Result Error EffectiveAccessPolicy × VaultAccessPolicy
  effective current policy identity = effective_of policy (policy_override current policy identity)

  -- Is the directory, or one of the components below it, a symbolic link?
  unfoldable pub any_symlink : Parts → Parts → Bool
  any_symlink dir [] = false
  any_symlink dir (component ∷ components) =
      let rest = any_symlink (dir ++ (component ∷ [])) components in
      world.is_symlink (dir ++ (component ∷ [])) || rest

  unfoldable pub canonicalize : VaultAccessPolicy → Text → Bool → Result Error VaultPath
  canonicalize policy path allow_empty = do
    relative ← normalise_relative path allow_empty
    raise_if (any_symlink policy.root (path_parts relative)) vault_path
    absolute ← resolved (world.resolve (policy.root ++ path_parts relative))
    raise_if (not (is_relative_to absolute policy.root)) vault_path
    ok (record { relative = relative; absolute = absolute; stat_result = none })

  -- `_denied`, the longest deny rule that matches, whatever the case of the letters.
  unfoldable pub denied : Text → List Text → Option Text
  denied path rules =
      longest (keep (λ rule. matches_path_rule world.case_folding path rule true) rules)

  abbrev pub in_scope : Text → Bool → Text → Bool
  in_scope path allow_ancestor rule =
      matches_path_rule world.case_folding path rule false
      || (allow_ancestor && (is_nil path || starts_with (rule_path rule) (path ++ (slash ∷ []))))

  -- `_read_scope_allows`
  abbrev pub read_scope_allows : Text → List Text → Bool → Bool
  read_scope_allows path read_paths allow_ancestor = any (in_scope path allow_ancestor) read_paths

  -- The two read checks, which four methods make in this order.
  unfoldable pub may_read : EffectiveAccessPolicy → Text → Bool → Bool
  may_read policy path allow_ancestor =
      (is_nil policy.read_paths || read_scope_allows path policy.read_paths allow_ancestor)
      && is_none (denied path policy.deny_read_paths)

  -- The three tests of `resolve_write`, in its order.
  unfoldable pub check_write : EffectiveAccessPolicy → Text → Result Error (Unit {0})
  check_write effective_policy relative = do
    raise_if effective_policy.read_only write_permission
    raise_if
        (not (is_nil effective_policy.write_paths)
          && not (
              any (λ rule. matches_path_rule world.case_folding relative rule false)
                effective_policy.write_paths))
        write_permission
    raise_if (not (is_none (denied relative effective_policy.deny_write_paths))) protected_path

  module _ (current : Option Identity) (policy : VaultAccessPolicy) where
    unfoldable pub authorize_discovered_read :
        Text → StatResult → IdentityArgument → Result Error VaultPath
    authorize_discovered_read path info identity = do
      relative ← normalise_relative path false
      raise_if (not (relative == path)) vault_path
      effective_policy ← (effective current policy identity).0
      raise_if (not (may_read effective_policy relative (is_directory info.kind))) read_permission
      ok (record {
        relative = relative;
        absolute = policy.root ++ path_parts relative;
        stat_result = some info;
      })

    unfoldable pub permits_read : Text → Bool → IdentityArgument → Result Error Bool
    permits_read relative allow_ancestor identity = do
      let path = strip (λ c. c == slash) (replace_char backslash slash relative)
      effective_policy ← (effective current policy identity).0
      ok (may_read effective_policy path allow_ancestor)

    unfoldable pub resolve_read : Text → Bool → IdentityArgument → Result Error VaultPath
    resolve_read path allow_empty identity = do
      result ← canonicalize policy path allow_empty
      effective_policy ← (effective current policy identity).0
      raise_if (not (may_read effective_policy result.relative allow_empty)) read_permission
      ok result

    unfoldable pub resolve_write : Text → Bool → IdentityArgument → Result Error VaultPath
    resolve_write path allow_empty identity = do
      result ← canonicalize policy path allow_empty
      effective_policy ← (effective current policy identity).0
      check_write effective_policy result.relative
      ok result

    unfoldable pub resolve_delete : Text → Bool → IdentityArgument → Result Error VaultPath
    resolve_delete path permanent identity = do
      result ← resolve_write path true identity
      raise_if (result.relative == []) protected_path
      raise_if (permanent && not policy.allow_permanent_delete) permanent_delete_disabled
      ok result

    -- `except (VaultPathError, ReadPermissionError): return False`; another error goes on.
    unfoldable pub can_read : Text → IdentityArgument → Result Error Bool
    can_read path identity =
        caught (λ e. is_vault_path e || is_read_permission e) (resolve_read path false identity)

    unfoldable pub can_write : Text → IdentityArgument → Result Error Bool
    can_write path identity =
        caught (λ e. is_vault_path e || is_write_permission e) (resolve_write path false identity)
