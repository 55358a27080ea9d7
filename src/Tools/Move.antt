-- ===== src/Tools/Move.antt =====
-- `move_note` and `restore_note` of src/obsidian_mcp/tools/write.py, over a storage. The
-- pattern of the links to a note is a parameter; the updates of the index that follow are
-- not modelled.
pub mod Checked
use brain_mcp.Base.{
  ℕ, Bool, true, false, not, ◌&&◌, ◌||◌, none, List, [], ◌∷◌, ◌++◌, contains, ◌==◌, nat_eq, Result,
  ok, err, raise_if, ◌>>=◌, ◌>>◌, if◌then◌else◌,
}
use brain_mcp.Base.Text.{Text, text, text_eq, ends_with, slash}
use brain_mcp.Errors.{Error, value_error, file_not_found, file_exists}
use brain_mcp.Models.{FileRevision}
use brain_mcp.Paths.{backslash}
use brain_mcp.Revisions.{token}
use brain_mcp.Tools.Store.{Store, Remover, attempt, followed}
use brain_mcp.Tools.Sweep.{Listing}

-- The methods of the storage that move notes: `move`, `trash_info(name).is_dir` and
-- `restore`, which returns the path of the destination.
pub record Mover (S : Type 0) : Type 0 where
  pub move : Text → Text → S → Result Error (Unit {0}) × S
  pub trashed_is_dir : Text → S → Result Error Bool
  pub restore : Text → Text → S → Result Error Text × S

-- `link_re` of the note at the first path: whether a text has such a link, and the text with
-- each of them leading to the note at the second path.
pub record Links : Type 0 where
  pub found_in : Text → Text → Bool
  pub relinked : Text → Text → Text → Text

module _ {S : Type 0} (store : Store S) (remover : Remover S) (mover : Mover S)
    (listing : Listing S) where
  abbrev pub is_note_path : Text → Bool
  is_note_path path = ends_with (listing.lower path) (text ".md")

  module _ (links : Links) where
    -- One file, where `rest` is what the loop makes of the files after it.
    abbrev pub with_links :
        Text
        → Text
        → Result Error Text
        → Result Error (List (Text × Text))
        → Result Error (List (Text × Text))
    with_links from_path rel (err e) rest = rest
    with_links from_path rel (ok raw) rest =
        if links.found_in from_path raw
        then (store.resolve_write rel >>= λ _. rest >>= λ found. ok ((rel, raw) ∷ found))
        else rest

    -- `files_to_rewrite`, each of which may be written.
    unfoldable pub files_to_rewrite : Text → S → List Text → Result Error (List (Text × Text))
    files_to_rewrite from_path s [] = ok []
    files_to_rewrite from_path s (rel ∷ files) =
        let rest = files_to_rewrite from_path s files in
        if is_note_path rel && not (rel == from_path)
        then with_links from_path rel (listing.read_text rel s) rest
        else rest

    unfoldable pub lock_files : List (Text × Text) → S → Result Error (Unit {0})
    lock_files [] s = ok tt
    lock_files ((rel, raw) ∷ files) s = store.acquire_lock rel s >> lock_files files s

    unfoldable pub prepare_move : Text → Text → S → Result Error (Text × Text × List (Text × Text))
    unfolding lock_files files_to_rewrite
    prepare_move from_path to_path s = do
      raise_if (not (is_note_path from_path) || not (is_note_path to_path)) value_error
      source ← remover.resolve_delete from_path false
      destination ← store.resolve_write to_path
      there ← store.exists source s
      raise_if (not there) file_not_found
      taken ← store.exists destination s
      raise_if taken file_exists
      all_files ← listing.list_files [] s
      files ← files_to_rewrite source s all_files
      lock_files files s
      store.acquire_lock source s
      ok (source, destination, files)

    -- `updated_files`; a write that raises keeps those before it.
    unfoldable pub rewrite_links :
        Text → Text → List (Text × Text) → S → Result Error (List Text) × S
    rewrite_links from_path to_path [] s = (ok [], s)
    rewrite_links from_path to_path ((rel, raw) ∷ files) s =
        followed (store.write_text_atomic rel (links.relinked from_path to_path raw) none false s)
          (λ _ after.
            followed (rewrite_links from_path to_path files after)
              (λ updated last. (ok (rel ∷ updated), last)))

    unfoldable pub move_note : Text → Text → S → Result Error (Text × Text × List Text) × S
    unfolding prepare_move rewrite_links
    move_note from_path to_path s =
        attempt (prepare_move from_path to_path s) s (λ (found : Text × Text × List (Text × Text)).
          let (source, destination, files) = found in
          followed (rewrite_links source destination files s) (λ updated after.
            followed (mover.move source destination after)
              (λ _ last. (ok (source, destination, updated), last))))

  abbrev pub is_bare_name : Text → Bool
  is_bare_name name =
      not (contains name slash || contains name backslash || name == text "." || name == text "..")

  unfoldable pub prepare_restore : Text → Text → S → Result Error (Unit {0})
  prepare_restore trashed_name to_path s = do
    raise_if (not (is_bare_name trashed_name)) value_error
    raise_if (not (is_note_path to_path)) value_error
    target ← store.resolve_write to_path
    is_dir ← mover.trashed_is_dir trashed_name s
    raise_if is_dir value_error
    store.acquire_lock (text ".trash/" ++ trashed_name) s

  -- The path and the revision of the restored note.
  unfoldable pub restore_note : Text → Text → S → Result Error (Text × Text) × S
  unfolding prepare_restore
  restore_note trashed_name to_path s = attempt (prepare_restore trashed_name to_path s) s (λ _.
      followed (mover.restore trashed_name to_path s) (λ target after.
        attempt (store.revision target after) after
          (λ (revision : FileRevision). (ok (target, token revision), after))))
