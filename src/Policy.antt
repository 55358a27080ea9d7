-- ===== src/Policy.antt =====
-- `EffectiveAccessPolicy` and `VaultAccessPolicy` of src/obsidian_mcp/storage/policy.py.
-- `World` is what the class asks of the operating system and of Unicode's tables; `current`
-- is the identity in the request's context variable. Absolute paths are lists of their
-- parts.
pub mod Access
pub mod Scope
pub mod Narrowing
pub mod Resolve
pub mod Confined
use brain_mcp.Base.{
  ℕ, Bool, true, false, not, ◌&&◌, ◌||◌, Option, none, some, List, [], ◌∷◌, ◌++◌, length, any, keep,
  ◌==◌, ltb, Result, ok, err, raise_if, ◌>>=◌, ◌>>◌, if◌then◌else◌,
}
use brain_mcp.Base.Text.{Text, text_eq, slash, starts_with, strip, replace_char, split}
use brain_mcp.Errors.{
  Error, vault_path, read_permission, write_permission, protected_path, permanent_delete_disabled,
  is_vault_path, is_read_permission, is_write_permission,
}
use brain_mcp.Paths.{backslash, dot_name, normalise_relative, is_nil}
use brain_mcp.Rules.{
  rule_path, matches_path_rule, merge_allowlist, merge_denylist, merge_readonly,
  normalise_path_rules,
}
use brain_mcp.Identity.{PolicyOverride, override_eq, Identity, override_for}

pub record EffectiveAccessPolicy : Type 0 where
  pub read_only : Bool
  pub read_paths : List Text
  pub write_paths : List Text
  pub deny_read_paths : List Text
  pub deny_write_paths : List Text

abbrev pub Parts : Type 0
Parts = List Text

-- The kinds of directory entries that the program tells apart by `st_mode`.
pub data Kind : Type 0 where
  regular directory symlink other : Kind

pub record StatResult : Type 0 where
  pub kind : Kind
  pub size : ℕ
  pub mtime : ℕ

pub record VaultPath : Type 0 where
  pub relative : Text
  pub absolute : Parts
  pub stat_result : Option StatResult

-- `Path.is_dir`, `Path.is_symlink` and `Path.resolve` of an absolute path, and the Unicode table
-- of `str.casefold`. `resolve` has no result where the system call fails.
pub record World : Type 0 where
  pub case_folding : ℕ → Text
  pub is_dir : Parts → Bool
  pub is_symlink : Parts → Bool
  pub resolve : Parts → Option Parts

pub record VaultAccessPolicy : Type 0 where
  pub root : Parts
  pub allow_permanent_delete : Bool
  pub vault_name : Option Text
  pub apply_identity_overrides : Bool
  pub base : EffectiveAccessPolicy
  pub merged : List (PolicyOverride × EffectiveAccessPolicy)

-- The argument `identity`: the sentinel `INHERIT_IDENTITY`, or a value.
pub data IdentityArgument : Type 0 where
  inherit : IdentityArgument
  given : Option Identity → IdentityArgument

unfoldable pub merged_with :
    (ℕ → Text) → EffectiveAccessPolicy → Option PolicyOverride → Result Error EffectiveAccessPolicy
merged_with case_folding base none = ok base
merged_with case_folding base (some override) = do
  let read_only = merge_readonly base.read_only override.read_only
  read_paths ← merge_allowlist case_folding base.read_paths override.read_paths
  write_paths ← merge_allowlist case_folding base.write_paths override.write_paths
  ok (record {
    read_only = read_only;
    read_paths = read_paths;
    write_paths = write_paths;
    deny_read_paths = merge_denylist base.deny_read_paths override.deny_read_paths;
    deny_write_paths = merge_denylist base.deny_write_paths override.deny_write_paths;
  })

-- `Path(relative).parts`
abbrev pub path_parts : Text → Parts
path_parts relative = keep (λ part. not (part == [] || part == dot_name)) (split slash relative)

-- `absolute.is_relative_to(root)`
unfoldable pub is_relative_to : Parts → Parts → Bool
is_relative_to path [] = true
is_relative_to [] (r ∷ root) = false
is_relative_to (p ∷ path) (r ∷ root) = p == r && is_relative_to path root

unfoldable pub lookup_merged :
    PolicyOverride → List (PolicyOverride × EffectiveAccessPolicy) → Option EffectiveAccessPolicy
lookup_merged override [] = none
lookup_merged override ((key, value) ∷ merged) =
    if key == override then some value else lookup_merged override merged

-- `max(matches, key=len)`: the first of the longest.
unfoldable pub longest_from : Text → List Text → Text
longest_from best [] = best
longest_from best (rule ∷ rules) =
    longest_from (if ltb (length best) (length rule) then rule else best) rules

unfoldable pub longest : List Text → Option Text
longest [] = none
longest (rule ∷ rules) = some (longest_from rule rules)

-- `Path.resolve`, its failure turned into a `VaultPathError` (in the constructor it is an
-- `OSError` that nobody tells apart).
abbrev pub resolved : Option Parts → Result Error Parts
resolved none = err vault_path
resolved (some path) = ok path

module _ (world : World) where
  unfoldable pub new_policy :
      Parts → EffectiveAccessPolicy → Bool → Option Text → Bool → Result Error VaultAccessPolicy
  new_policy vault_root settings allow_permanent_delete vault_name apply_identity_overrides = do
    raise_if (not (world.is_dir vault_root)) vault_path
    root ← resolved (world.resolve vault_root)
    read_paths ← normalise_path_rules settings.read_paths
    write_paths ← normalise_path_rules settings.write_paths
    deny_read_paths ← normalise_path_rules settings.deny_read_paths
    deny_write_paths ← normalise_path_rules settings.deny_write_paths
    ok (record {
      root = root;
      allow_permanent_delete = allow_permanent_delete;
      vault_name = vault_name;
      apply_identity_overrides = apply_identity_overrides;
      base = record {
        read_only = settings.read_only;
        read_paths = read_paths;
        write_paths = write_paths;
        deny_read_paths = deny_read_paths;
        deny_write_paths = deny_write_paths;
      };
      merged = [];
    })
