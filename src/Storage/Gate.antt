-- ===== src/Storage/Gate.antt =====
-- What the storage gateway asks of the access policy: the methods of `VaultAccessPolicy` that
-- src/obsidian_mcp/storage/filesystem.py calls, as an interface, and the policy that fills it.
use brain_mcp.Base.{Bool, false, Option, List, Result, ok, err, ◌>>=◌}
use brain_mcp.Base.Text.{Text}
use brain_mcp.Errors.{Error}
use brain_mcp.Identity.{Identity}
use brain_mcp.Rules.{matches_path_rule}
use brain_mcp.Policy.{World, VaultAccessPolicy, VaultPath, StatResult, inherit}
use brain_mcp.Policy.Access.{
  effective, authorize_discovered_read, resolve_read, resolve_write, resolve_delete,
}

-- The paths are relative ones: of a `VaultPath` the gateway uses `relative`.
pub record Gate : Type 0 where
  pub resolve_read : Text → Bool → Result Error Text
  pub resolve_write : Text → Result Error Text
  pub resolve_delete : Text → Bool → Result Error Text
  pub authorize : Text → StatResult → Result Error Text
  pub write_paths : Result Error (List Text)
  pub deny_write_paths : Result Error (List Text)
  pub matches : Text → Text → Bool

abbrev pub relative_of : Result Error VaultPath → Result Error Text
relative_of (err e) = err e
relative_of (ok path) = ok path.relative

-- `resolve_read(path, allow_empty=…)`, `resolve_write(path)`, `resolve_delete(path,
-- permanent=…)` and the properties `write_paths` and `deny_write_paths`, which are read
-- from `effective()`.
unfoldable pub policy_gate : World → Option Identity → VaultAccessPolicy → Gate
policy_gate world current policy = record {
  resolve_read =
      λ path allow_empty. relative_of (resolve_read world current policy path allow_empty inherit);
  resolve_write = λ path. relative_of (resolve_write world current policy path false inherit);
  resolve_delete =
      λ path permanent. relative_of (resolve_delete world current policy path permanent inherit);
  authorize =
      λ path info. relative_of (authorize_discovered_read world current policy path info inherit);
  write_paths = (effective world current policy inherit).0 >>= λ e. ok e.write_paths;
  deny_write_paths = (effective world current policy inherit).0 >>= λ e. ok e.deny_write_paths;
  matches = λ path rule. matches_path_rule world.case_folding path rule false;
}
