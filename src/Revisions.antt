-- ===== src/Revisions.antt =====
-- Revision tokens of src/obsidian_mcp/domain/models.py, and the preconditions of a write in
-- src/obsidian_mcp/storage/revisions.py. `Strings` is what the code asks of Python:
-- `str.isspace`, `str.lower`, and whether `int(s, 16)` accepts a string. `hash` is SHA-256
-- in hexadecimal.
use brain_mcp.Base.{
  ℕ, Bool, true, false, not, Option, none, some, [], ◌∷◌, ◌++◌, length, ◌==◌, nat_eq, Result, ok,
  err, raise_if, ◌>>=◌, ◌>>◌, if◌then◌else◌,
}
use brain_mcp.Base.Text.{Text, text, text_eq, strip}
use brain_mcp.Errors.{Error, value_error, revision_conflict, precondition_required, file_not_found}
use brain_mcp.Models.{FileRevision}

pub record Strings : Type 0 where
  pub is_space : ℕ → Bool
  pub lower : Text → Text
  pub is_base16 : Text → Bool

abbrev pub sha_prefix : Text
sha_prefix = text "sha256:"

-- `FileRevision.token`
abbrev pub token : FileRevision → Text
token revision = sha_prefix ++ revision.sha256

-- `FileRevision.from_bytes`
abbrev pub from_bytes : (Text → Text) → Text → ℕ → FileRevision
from_bytes hash content mtime_ns = record {
  sha256 = hash content;
  size = length content;
  mtime_ns = mtime_ns;
}

-- `s.removeprefix(p)`
unfoldable pub after_prefix : Text → Text → Option Text
after_prefix s [] = some s
after_prefix [] (c ∷ p) = none
after_prefix (d ∷ s) (c ∷ p) = if d == c then after_prefix s p else none

abbrev pub or_whole : Text → Option Text → Text
or_whole s none = s
or_whole s (some rest) = rest

abbrev pub token_of : Option FileRevision → Option Text
token_of none = none
token_of (some revision) = some (token revision)

module _ (strings : Strings) where
  abbrev pub digest_of : Text → Text
  digest_of value =
      let s = strip strings.is_space value in strings.lower (or_whole s (after_prefix s sha_prefix))

  unfoldable pub normalize_revision_token : Text → Result Error Text
  unfolding after_prefix
  normalize_revision_token value = do
    raise_if (not (length (digest_of value) == 64)) value_error
    raise_if (not (strings.is_base16 (digest_of value))) value_error
    ok (sha_prefix ++ digest_of value)

  abbrev pub conflict_with : Text → Option FileRevision → Result Error Text → Error
  conflict_with path actual (ok expected) = revision_conflict path (some expected) (token_of actual)
  conflict_with path actual (err e) = e

  -- What `raise RevisionConflictError(path, expected, actual)` raises: the constructor normalises
  -- the expected token, and may itself raise.
  abbrev pub conflict : Text → Option Text → Option FileRevision → Error
  conflict path none actual = revision_conflict path none (token_of actual)
  conflict path (some expected) actual =
      conflict_with path actual (normalize_revision_token expected)

  -- `normalize_revision_token(expected) if expected is not None else None`
  abbrev pub normalize_optional : Option Text → Result Error (Option Text)
  normalize_optional none = ok none
  normalize_optional (some value) = do expected ← normalize_revision_token value; ok (some expected)

  abbrev pub check_expected : Text → Option Text → FileRevision → Result Error (Unit {0})
  check_expected path none current = ok tt
  check_expected path (some value) current = do
    expected ← normalize_revision_token value
    raise_if (not (token current == expected)) (conflict path (some expected) (some current))

  -- `read` is the result of `read_text_with_revision`.
  unfoldable pub read_text_for_update :
      Result Error (Text × FileRevision) → Text → Option Text → Result Error (Text × Text)
  read_text_for_update read path expected_revision = do
    found ← read
    check_expected path expected_revision (found.1)
    ok (found.0, token (found.1))

  module _ (require_write_preconditions : Bool) (path : Text) where
    abbrev pub prepare_new : Option Text → Result Error (Option Text × Bool)
    prepare_new none = ok (none, true)
    prepare_new (some value) = err (conflict path (some value) none)

    abbrev pub prepare_existing : FileRevision → Option Text → Result Error (Option Text × Bool)
    prepare_existing current none =
        if require_write_preconditions
        then err precondition_required
        else ok (some (token current), false)
    prepare_existing current (some value) = do
      expected ← normalize_revision_token value
      raise_if (not (token current == expected)) (conflict path (some expected) (some current))
      ok (some expected, false)

    -- `current` is the result of `storage.revision(path, read=False)`.
    unfoldable pub prepare_full_write :
        Result Error FileRevision → Option Text → Bool → Result Error (Option Text × Bool)
    prepare_full_write (ok current) expected_revision create_only =
        if create_only
        then err (conflict path expected_revision (some current))
        else prepare_existing current expected_revision
    prepare_full_write (err file_not_found) expected_revision create_only =
        prepare_new expected_revision
    prepare_full_write (err e) expected_revision create_only = err e
