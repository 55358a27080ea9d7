-- ===== src/Errors.antt =====
-- The exceptions that the modelled code raises (src/obsidian_mcp/storage/policy.py,
-- domain/models.py, config.py and Python's own), one constructor for each class. Messages are
-- not modelled, and a payload is kept where a caller reads it.
use brain_mcp.Base.{Bool, true, false, Option}
use brain_mcp.Base.Text.{Text}

pub data Error : Type 0 where
  vault_path read_permission write_permission protected_path permanent_delete_disabled : Error
  invalid_file_type policy_merge config_error value_error precondition_required : Error
  file_not_found file_exists is_a_directory not_a_directory os_error index_building : Error
  secure_storage lock_timeout permission_error recursion_error : Error
  -- path, expected token, actual token
  revision_conflict : Text → Option Text → Option Text → Error

-- `except WritePermissionError`, with its subclasses.
abbrev pub is_write_permission : Error → Bool
is_write_permission write_permission = true
is_write_permission protected_path = true
is_write_permission permanent_delete_disabled = true
is_write_permission _ = false

-- `except VaultPathError`
abbrev pub is_vault_path : Error → Bool
is_vault_path vault_path = true
is_vault_path _ = false

-- `except ReadPermissionError`
abbrev pub is_read_permission : Error → Bool
is_read_permission read_permission = true
is_read_permission _ = false

-- `except (FileNotFoundError, PermissionError)`, with the subclasses of `PermissionError`.
abbrev pub is_gone : Error → Bool
is_gone file_not_found = true
is_gone permission_error = true
is_gone read_permission = true
is_gone write_permission = true
is_gone protected_path = true
is_gone permanent_delete_disabled = true
is_gone precondition_required = true
is_gone _ = false
