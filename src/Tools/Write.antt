-- ===== src/Tools/Write.antt =====
-- Writing, patching, appending and deleting notes: the tools of
-- src/obsidian_mcp/tools/write.py, over a storage. A tool returns its result and the vault
-- that it leaves, also when it raises; then, when it has written, the index follows.
pub mod Safe
pub mod Notes
pub mod Edits
pub mod Failures
use brain_mcp.Base.{
  ℕ, Eq, Bool, true, false, not, ◌&&◌, ◌||◌, Option, none, some, List, [], ◌∷◌, ◌++◌, map, ◌==◌,
  nat_eq, Result, ok, err, raise_if, ◌>>=◌, ◌>>◌, if◌then◌else◌,
}
use brain_mcp.Base.Text.{Text, text, text_eq, ends_with, strip, rstrip}
use brain_mcp.Base.Dict.{Dict}
use brain_mcp.Errors.{Error, value_error, read_permission, precondition_required, file_not_found}
use brain_mcp.Identity.{is_none}
use brain_mcp.Index.{VaultIndex, remove}
use brain_mcp.Models.{FileRevision}
use brain_mcp.Paths.{is_nil}
use brain_mcp.Revisions.{Strings, token, conflict, read_text_for_update, check_expected}
use brain_mcp.Tools.Store.{Store, Remover, attempt, followed}
use brain_mcp.Tools.Frontmatter.{
  Yaml, Frontmatter, preserve, apply_frontmatter_updates, apply_tag_changes,
}

-- What the tools ask of Python and of the configuration: `str.lower`,
-- `difflib.unified_diff`, `REQUIRE_WRITE_PRECONDITIONS` and the tokens' `Strings`.
pub record Setting : Type 0 where
  pub strings : Strings
  pub unified_diff : Text → Text → Text → Text
  pub require_write_preconditions : Bool

pub data Status : Type 0 where
  dry_run written patched appended frontmatter_patched tags_updated deleted : Status

pub record NoteResult : Type 0 where
  pub path : Text
  pub status : Status
  pub frontmatter_preserved : Bool
  pub preview : Option Text
  pub diff : Text
  pub revision : Option Text

abbrev pub with_preserved : Bool → NoteResult → NoteResult
with_preserved preserved result = record result { frontmatter_preserved = preserved }

abbrev pub preserving :
    {S : Type 0} → Bool → Result Error NoteResult × S → Result Error NoteResult × S
preserving preserved (ok result, s) = (ok (with_preserved preserved result), s)
preserving preserved (err e, s) = (err e, s)

module _ {S : Type 0} (store : Store S) (setting : Setting) where
  -- `_require_note_path`
  abbrev pub require_note_path : Text → Result Error (Unit {0})
  require_note_path path =
      raise_if (not (ends_with (setting.strings.lower path) (text ".md"))) value_error

  abbrev pub opened_path : Text → Result Error Text
  opened_path path = require_note_path path >> store.resolve_write path

  -- The note before, and its revision if it is there.
  abbrev pub read_before : Text → Option Text → S → Bool → Result Error (Text × Option Text)
  read_before path expected s true =
      read_text_for_update setting.strings (store.read_text_with_revision path s) path expected
      >>= λ found. ok (found.0, some found.1)
  read_before path none s false = ok ([], none)
  read_before path (some value) s false = err (conflict setting.strings path (some value) none)

  -- `storage.write_text_atomic`, and the revision of the result.
  abbrev pub commit :
      Text → Status → Text → Text → Option Text → Bool → S → Result Error NoteResult × S
  commit path status before content current create_only s =
      followed (store.write_text_atomic path content current create_only s) (λ revision after. (
        ok (record {
          path = path;
          status = status;
          frontmatter_preserved = false;
          preview = none;
          diff = setting.unified_diff before content path;
          revision = some (token revision);
        }),
        after,
      ))

  abbrev pub previewed : Text → Text → Text → Option Text → NoteResult
  previewed path before content current = record {
    path = path;
    status = dry_run;
    frontmatter_preserved = false;
    preview = some content;
    diff = setting.unified_diff before content path;
    revision = current;
  }

  -- `write_note` up to the point where it has read the note.
  unfoldable pub prepare_note :
      Text → Option Text → S → Result Error (Text × Bool × Text × Option Text)
  prepare_note path expected s = do
    target ← opened_path path
    readable ← store.can_read target
    raise_if (not readable) read_permission
    store.acquire_lock target s
    exists ← store.exists target s
    before ← read_before target expected s exists
    ok (target, exists, before.0, before.1)

  module _ {V : Type 0} (yaml : Yaml V) where
    -- `write_note` up to the update of the index.
    unfoldable pub store_note :
        Text → Text → Bool → Option Text → Bool → S → Result Error NoteResult × S
    unfolding prepare_note
    store_note path content preview_only expected create_only s =
        attempt (prepare_note path expected s) s (λ (found : Text × Bool × Text × Option Text).
          let (target, exists, before, current) = found in
          let (full, preserved) = preserve yaml content before in
          if preview_only
          then (ok (with_preserved preserved (previewed target before full current)), s)
          else attempt
              (raise_if
                (exists
                  && not create_only
                  && setting.require_write_preconditions
                  && is_none expected)
                precondition_required)
              s
              (λ _.
                preserving preserved
                  (commit target written before full current (create_only || not exists) s)))

  -- The tools that change a note that is there: the checks, the change, and the write on
  -- the revision that was read.
  abbrev pub prepare_edit :
      Text → Option Text → (Text → Result Error Text) → S → Result Error (Text × Text × Text × Text)
  prepare_edit target expected patch s = do
    store.acquire_lock target s
    found ←
        read_text_for_update setting.strings (store.read_text_with_revision target s) target
          expected
    content ← patch found.0
    ok (target, found.0, content, found.1)

  unfoldable pub edit_note :
      Status
      → Bool
      → Result Error Text
      → Option Text
      → (Text → Result Error Text)
      → S
      → Result Error NoteResult × S
  edit_note status preview_only path expected patch s =
      attempt (path >>= λ target. prepare_edit target expected patch s) s
        (λ (found : Text × Text × Text × Text).
          let (target, before, content, current) = found in
          if preview_only
          then (ok (previewed target before content (some current)), s)
          else commit target status before content (some current) false s)

  abbrev pub existing_path : Text → S → Result Error Text
  existing_path path s = do
    target ← opened_path path
    there ← store.exists target s
    raise_if (not there) file_not_found
    ok target

  -- `patch_section` is `_patch_section` or `_patch_block_ref` of the arguments.
  unfoldable pub patch_note :
      Text → (Text → Result Error Text) → Bool → Option Text → S → Result Error NoteResult × S
  unfolding edit_note
  patch_note path patch_section preview_only expected s =
      edit_note patched preview_only (opened_path path) expected patch_section s

  module _ {V : Type 0} (yaml : Yaml V) ⦃e : Eq V⦄ where
    unfoldable pub patch_frontmatter :
        Text → Frontmatter V → Bool → Bool → Option Text → S → Result Error NoteResult × S
    unfolding edit_note
    patch_frontmatter path updates merge_arrays preview_only expected s =
        edit_note frontmatter_patched preview_only (existing_path path s) expected
          (λ raw. ok (apply_frontmatter_updates yaml raw updates merge_arrays)) s

    unfoldable pub manage_tags :
        (List Text → Text → Text)
        → Text
        → List Text
        → List Text
        → Option Text
        → S
        → Result Error NoteResult × S
    unfolding edit_note
    manage_tags strip_inline path add remove_list expected s =
        edit_note tags_updated false (existing_path path s) expected
          (λ raw. ok (apply_tag_changes yaml strip_inline raw add remove_list)) s

  -- `raw.rstrip("\n") + "\n\n" + content.strip() + "\n"`
  abbrev pub joined : Text → Text → Text
  joined raw content =
      rstrip (λ c. c == b'\n') raw
      ++ text "\n\n"
      ++ strip setting.strings.is_space content
      ++ text "\n"

  -- `append_section` is `_patch_section` of the arguments, if there is a section.
  abbrev pub append_patch : Option (Text → Result Error Text) → Text → Text → Result Error Text
  append_patch none content raw = ok (joined raw content)
  append_patch (some append_section) content raw = append_section raw

  abbrev pub append_new :
      Text → Text → Bool → Option Text → Result Error (Text × Text × Option Text)
  append_new target content true none = ok ([], content, none)
  append_new target content true (some value) =
      err (conflict setting.strings target (some value) none)
  append_new target content false expected = err file_not_found

  abbrev pub append_before :
      Text
      → Option (Text → Result Error Text)
      → Text
      → Bool
      → Option Text
      → S
      → Bool
      → Result Error (Text × Text × Option Text)
  append_before target section content create expected s true = do
    found ←
        read_text_for_update setting.strings (store.read_text_with_revision target s) target
          expected
    full ← append_patch section content found.0
    ok (found.0, full, some found.1)
  append_before target section content create expected s false =
      append_new target content create expected

  unfoldable pub prepare_append :
      Text
      → Text
      → Option (Text → Result Error Text)
      → Bool
      → Option Text
      → S
      → Result Error (Text × Text × Text × Option Text)
  prepare_append path content section create expected s = do
    target ← opened_path path
    store.acquire_lock target s
    exists ← store.exists target s
    found ← append_before target section content create expected s exists
    ok (target, found.0, found.1, found.2)

  unfoldable pub append_to_note :
      Text
      → Text
      → Option (Text → Result Error Text)
      → Bool
      → Option Text
      → S
      → Result Error NoteResult × S
  unfolding prepare_append
  append_to_note path content section create expected s =
      attempt (prepare_append path content section create expected s) s
        (λ (found : Text × Text × Text × Option Text).
          let (target, before, full, current) = found in
          commit target appended before full current (is_none current) s)

  module _ (remover : Remover S) where
    unfoldable pub prepare_delete : Text → Bool → Option Text → S → Result Error Text
    prepare_delete path into_trash expected s = do
      require_note_path path
      target ← remover.resolve_delete path (not into_trash)
      store.acquire_lock target s
      current ← store.revision target s
      check_expected setting.strings target expected current
      raise_if (setting.require_write_preconditions && is_none expected) precondition_required
      ok target

    unfoldable pub delete_note : Text → Bool → Option Text → S → Result Error NoteResult × S
    unfolding prepare_delete
    delete_note path into_trash expected s =
        attempt (prepare_delete path into_trash expected s) s (λ target.
          followed (if into_trash then remover.trash target s else remover.delete target s)
            (λ _ after. (
              ok (record {
                path = target;
                status = deleted;
                frontmatter_preserved = false;
                preview = none;
                diff = [];
                revision = none;
              }),
              after,
            )))

  -- `if index is not None: index.update(path)`, or `index.remove(path)` after a deletion.
  module _ (refresh : Text → S → VaultIndex → Result Error (Unit {0}) × VaultIndex) where
    abbrev pub refreshed :
        NoteResult
        → S
        → Result Error (Unit {0}) × VaultIndex
        → Result Error NoteResult × S × Option VaultIndex
    refreshed result s (ok u, index) = (ok result, s, some index)
    refreshed result s (err e, index) = (err e, s, some index)

    abbrev pub by_status :
        Status → NoteResult → S → VaultIndex → Result Error NoteResult × S × Option VaultIndex
    by_status dry_run result s index = (ok result, s, some index)
    by_status deleted result s index = (ok result, s, some (remove result.path index))
    by_status _ result s index = refreshed result s (refresh result.path s index)

    unfoldable pub indexed :
        Result Error NoteResult × S
        → Option VaultIndex
        → Result Error NoteResult × S × Option VaultIndex
    indexed (err e, s) index = (err e, s, index)
    indexed (ok result, s) none = (ok result, s, none)
    indexed (ok result, s) (some index) = by_status result.status result s index

    module _ {V : Type 0} (yaml : Yaml V) where
      unfoldable pub write_note :
          Text
          → Text
          → Bool
          → Option Text
          → Bool
          → Option VaultIndex
          → S
          → Result Error NoteResult × S × Option VaultIndex
      unfolding store_note indexed
      write_note path content preview_only expected create_only index s =
          indexed (store_note yaml path content preview_only expected create_only s) index
