-- ===== src/Storage.antt =====
-- `_write_atomic` of src/obsidian_mcp/storage/filesystem.py in the target's parent
-- directory, which is the state: its entries by name. Before each system call other
-- processes may change the directory; `env` says how, by the number of the call. The flags of
-- `Os` say which system calls succeed: `written` those that fill the temporary file,
-- `link_supported` and `linked` `os.link`, which fails in two ways, `renamed` `os.rename`,
-- `unlinked` the removal of the temporary file after the link, `synced` the `fsync` of the
-- directory and the reading of the file after it, `cleaned` the removal of the temporary file
-- where nothing was committed.
pub mod Atomic
pub mod Success
pub mod Files
pub mod Gate
use brain_mcp.Base.{
  ℕ, Bool, true, false, not, ◌&&◌, ◌||◌, Option, none, some, List, [], ◌∷◌, ◌==◌, nat_eq, Result,
  ok, err, raise_if, ◌>>=◌, ◌>>◌, if◌then◌else◌,
}
use brain_mcp.Base.Text.{Text, text_eq}
use brain_mcp.Base.Dict.{Dict, lookup, insert, erase}
use brain_mcp.Errors.{Error, is_a_directory, os_error, vault_path, file_not_found, secure_storage}
use brain_mcp.Models.{FileRevision}
use brain_mcp.Policy.{Kind, regular, directory, symlink, other}
use brain_mcp.Revisions.{Strings, token, from_bytes, conflict, normalize_optional}

pub record Entry : Type 0 where
  pub kind : Kind
  pub content : Text
  pub mtime_ns : ℕ
  pub mode : ℕ

abbrev pub Directory : Type 0
Directory = Dict Text Entry

pub record Os : Type 0 where
  pub hash : Text → Text
  pub tmp_name : Text
  pub now : ℕ
  pub default_mode : ℕ
  pub env : ℕ → Directory → Directory
  pub written : Bool
  pub link_supported : Bool
  pub linked : Bool
  pub renamed : Bool
  pub unlinked : Bool
  pub synced : Bool
  pub cleaned : Bool

abbrev pub mismatch : Option Text → Option FileRevision → Bool
mismatch none current = false
mismatch (some expected) none = true
mismatch (some expected) (some current) = not (token current == expected)

abbrev pub exists : Option FileRevision → Bool
exists none = false
exists (some current) = true

module _ (os : Os) where
  -- `_revision_at`, of the entry that `open` finds: a symbolic link is not opened.
  abbrev pub revision_of_kind : Kind → Entry → Result Error (Option FileRevision)
  revision_of_kind regular entry = ok (some (from_bytes os.hash entry.content entry.mtime_ns))
  revision_of_kind symlink entry = err os_error
  revision_of_kind _ entry = err is_a_directory

  abbrev pub revision_of : Option Entry → Result Error (Option FileRevision)
  revision_of none = ok none
  revision_of (some entry) = revision_of_kind entry.kind entry

  abbrev pub revision_at : Directory → Text → Result Error (Option FileRevision)
  revision_at dir leaf = revision_of (lookup leaf dir)

  -- `_ensure_not_symlink`, for the permissions of the file that is replaced.
  abbrev pub mode_of_kind : Kind → Entry → Result Error ℕ
  mode_of_kind symlink entry = err vault_path
  mode_of_kind _ entry = ok entry.mode

  abbrev pub mode_of : Option Entry → Result Error ℕ
  mode_of none = err file_not_found
  mode_of (some entry) = mode_of_kind entry.kind entry

  -- The `finally` block before the commit, whose own exception takes the other's place.
  abbrev pub cleanup_if : Bool → Directory → Directory
  cleanup_if true dir = erase os.tmp_name dir
  cleanup_if false dir = dir

  abbrev pub cleanup : Directory → Directory
  cleanup dir = cleanup_if os.cleaned (os.env 6 dir)

  abbrev pub abort : Error → Directory → Result Error FileRevision × Directory
  abort e dir = (err (if os.cleaned then e else os_error), cleanup dir)

  module _ (strings : Strings) (relative leaf : Text) (data_bytes : Text)
      (expected : Option Text) where
    abbrev pub committed : Result Error (Option FileRevision) → Result Error FileRevision
    committed (ok none) = err os_error
    committed (ok (some final)) = ok final
    committed (err e) = err e

    abbrev pub finish_if : Bool → Directory → Result Error FileRevision × Directory
    finish_if true dir = (committed (revision_at dir leaf), dir)
    finish_if false dir = (err os_error, dir)

    abbrev pub finish : Directory → Result Error FileRevision × Directory
    finish dir = finish_if os.synced dir

    -- The removal of the temporary file, which is committed by now.
    abbrev pub unlink_tmp : Bool → Directory → Result Error FileRevision × Directory
    unlink_tmp true dir = finish (os.env 7 (erase os.tmp_name dir))
    unlink_tmp false dir = (err os_error, dir)

    -- `os.link` of the temporary file, and its removal.
    abbrev pub link_done : Bool → Entry → Directory → Result Error FileRevision × Directory
    link_done true entry dir = unlink_tmp os.unlinked (os.env 6 (insert leaf entry dir))
    link_done false entry dir = abort os_error dir

    abbrev pub link_entry : Option Entry → Directory → Result Error FileRevision × Directory
    link_entry none dir = abort file_not_found dir
    link_entry (some entry) dir = link_done os.linked entry dir

    abbrev pub raise_conflict : Result Error (Option FileRevision) → Error
    raise_conflict (ok actual) = conflict strings relative expected actual
    raise_conflict (err e) = e

    -- A file system without hard links refuses.
    abbrev pub link_if : Bool → Option Entry → Directory → Result Error FileRevision × Directory
    link_if true entry dir = link_entry entry dir
    link_if false entry dir = abort secure_storage dir

    abbrev pub link : Option Entry → Directory → Result Error FileRevision × Directory
    link (some found) dir = abort (raise_conflict (revision_at (os.env 8 dir) leaf)) (os.env 8 dir)
    link none dir = link_if os.link_supported (lookup os.tmp_name dir) dir

    abbrev pub commit_new : Option FileRevision → Directory → Result Error FileRevision × Directory
    commit_new (some latest) dir = abort (conflict strings relative expected (some latest)) dir
    commit_new none dir = link (lookup leaf (os.env 5 dir)) (os.env 5 dir)

    abbrev pub rename_done : Bool → Entry → Directory → Result Error FileRevision × Directory
    rename_done true entry dir = finish (os.env 7 (insert leaf entry (erase os.tmp_name dir)))
    rename_done false entry dir = abort os_error dir

    abbrev pub rename : Option Entry → Directory → Result Error FileRevision × Directory
    rename none dir = abort file_not_found dir
    rename (some entry) dir = rename_done os.renamed entry dir

    abbrev pub commit_replace :
        Option FileRevision → Directory → Result Error FileRevision × Directory
    commit_replace latest dir =
        if mismatch expected latest
        then abort (conflict strings relative expected latest) dir
        else rename (lookup os.tmp_name (os.env 5 dir)) (os.env 5 dir)

    abbrev pub commit :
        Bool
        → Result Error (Option FileRevision)
        → Directory
        → Result Error FileRevision × Directory
    commit create_only (err e) dir = abort e dir
    commit create_only (ok latest) dir =
        if create_only then commit_new latest dir else commit_replace latest dir

    abbrev pub commit_if : Bool → Bool → Directory → Result Error FileRevision × Directory
    commit_if true create_only dir =
        commit create_only (revision_at (os.env 4 dir) leaf) (os.env 4 dir)
    commit_if false create_only dir = abort os_error dir

    -- The temporary file is created, which fails on a name that is taken, and filled.
    abbrev pub write_tmp :
        Bool → ℕ → Option Entry → Directory → Result Error FileRevision × Directory
    write_tmp create_only mode (some taken) dir = (err os_error, dir)
    write_tmp create_only mode none dir =
        let entry : Entry = record {
          kind = regular;
          content = data_bytes;
          mtime_ns = os.now;
          mode = mode;
        } in
        commit_if os.written create_only (insert os.tmp_name entry dir)

    abbrev pub create_tmp :
        Bool → Result Error ℕ → Directory → Result Error FileRevision × Directory
    create_tmp create_only (err e) dir = (err e, dir)
    create_tmp create_only (ok mode) dir =
        write_tmp create_only mode (lookup os.tmp_name (os.env 3 dir)) (os.env 3 dir)

    abbrev pub replacing : Option FileRevision → Directory → Result Error ℕ
    replacing none dir = ok os.default_mode
    replacing (some current) dir = mode_of (lookup leaf dir)

    -- The tests on the revision that is there at first.
    abbrev pub check_current :
        Bool
        → Result Error (Option FileRevision)
        → Directory
        → Result Error FileRevision × Directory
    check_current create_only (err e) dir = (err e, dir)
    check_current create_only (ok current) dir =
        if (create_only && exists current) || mismatch expected current
        then (err (conflict strings relative expected current), dir)
        else create_tmp (create_only || not (exists current)) (replacing current (os.env 2 dir))
            (os.env 2 dir)

    unfoldable pub write_at : Bool → Directory → Result Error FileRevision × Directory
    write_at create_only dir =
        check_current create_only (revision_at (os.env 1 dir) leaf) (os.env 1 dir)

  module _ (strings : Strings) (relative leaf : Text) (data_bytes : Text) where
    abbrev pub with_expected :
        Result Error (Option Text) → Bool → Directory → Result Error FileRevision × Directory
    with_expected (err e) create_only dir = (err e, dir)
    with_expected (ok expected) create_only dir =
        write_at strings relative leaf data_bytes expected create_only dir

    unfoldable pub write_atomic :
        Option Text → Bool → Directory → Result Error FileRevision × Directory
    write_atomic expected_revision create_only dir =
        with_expected (normalize_optional strings expected_revision) create_only dir
