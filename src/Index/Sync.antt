-- ===== src/Index/Sync.antt =====
-- How the index follows the vault: `build`, `update` and `reconcile` of
-- src/obsidian_mcp/domain/index.py. `Gateway` is what they ask of the storage and the parser. The
-- clock readings of `_reconcile` are not modelled.
use brain_mcp.Base.{
  ℕ, zero, suc, ◌+◌, Bool, true, false, not, ◌&&◌, Option, none, some, List, [], ◌∷◌, ◌++◌, keep,
  contains, ◌==◌, nat_eq, Result, ok, err, ◌>>=◌, if◌then◌else◌,
}
use brain_mcp.Base.Text.{Text, text, text_eq, slash, starts_with, ends_with, rstrip}
use brain_mcp.Base.Dict.{lookup}
use brain_mcp.Base.Sets.{to_set}
use brain_mcp.Base.Sorting.{sorted}
use brain_mcp.Errors.{Error, recursion_error, is_gone}
use brain_mcp.Models.{FileRevision, Note}
use brain_mcp.Index.{
  VaultIndex, ReconcileError, failed_notes, failed_sweep, empty_index, remove, index_note,
  is_excluded,
}

-- `read` is `read_text_with_revision`, `is_directory` the test on `stat`, `parse` is
-- `parse_note`.
pub record Gateway : Type 0 where
  pub lower : Text → Text
  pub parse : Text → Text → Note
  pub canonicalize : Text → Result Error Text
  pub can_read : Text → Result Error Bool
  pub exists : Text → Result Error Bool
  pub is_directory : Text → Result Error Bool
  pub list_files : Text → Result Error (List Text)
  pub read : Text → Result Error (Text × FileRevision)

unfoldable pub remove_all : List Text → VaultIndex → VaultIndex
remove_all [] index = index
remove_all (path ∷ paths) index = remove_all paths (remove path index)

unfoldable pub remove_descendants : Text → VaultIndex → VaultIndex
unfolding remove_all
remove_descendants path index =
    let prefix = rstrip (λ c. c == slash) path ++ (slash ∷ []) in
    remove_all (keep (λ note. starts_with note prefix) index.all_notes) index

abbrev pub known_as : Option FileRevision → FileRevision → Bool
known_as none revision = false
known_as (some known) revision = known.sha256 == revision.sha256

abbrev pub stale : List Text → VaultIndex → List Text
stale candidates index = keep (λ note. not (contains candidates note)) index.all_notes

module _ (g : Gateway) (exclude_paths : List Text) where
  abbrev pub is_note : Text → Bool
  is_note path = ends_with (g.lower path) (text ".md") && not (is_excluded exclude_paths path)

  -- `self.remove(rel); self._index_note(rel, note, revision)`
  abbrev pub reindex : Text → Text → FileRevision → VaultIndex → VaultIndex
  reindex rel raw revision index =
      index_note g.lower rel (g.parse raw rel) revision (remove rel index)

  abbrev pub build_note : Text → Result Error (Text × FileRevision) → VaultIndex → VaultIndex
  build_note rel (ok (raw, revision)) index =
      index_note g.lower rel (g.parse raw rel) revision index
  build_note rel (err e) index = index

  unfoldable pub build_notes : List Text → VaultIndex → VaultIndex
  build_notes [] index = index
  build_notes (rel ∷ rels) index = build_notes rels (build_note rel (g.read rel) index)

  abbrev pub cleared : VaultIndex → VaultIndex
  cleared index = record empty_index { last_reconcile_error = index.last_reconcile_error }

  unfoldable pub build : Bool → VaultIndex → Result Error (Unit {0}) × VaultIndex
  unfolding build_notes
  build publish_ready index = elim (g.list_files []) [
    | err e ↦ (err e, index)
    | ok files ↦
        let built = build_notes (keep is_note files) (cleared index) in
        (ok tt, if publish_ready then record built { ready = true } else built)
  ]

  -- `not can_read(rel) or _is_excluded(rel) or not exists(rel)`, turned round.
  unfoldable pub visible : Text → Result Error Bool
  visible rel = do
    readable ← g.can_read rel
    if not readable
        then ok false
        else if is_excluded exclude_paths rel
        then ok false
        else g.exists rel

  -- The loop over a directory's notes. It ends at the first exception, which the caller swallows.
  unfoldable pub update_each :
      (Text → VaultIndex → Result Error (Unit {0}) × VaultIndex)
      → List Text
      → VaultIndex
      → VaultIndex
  update_each step [] index = index
  update_each step (rel ∷ rels) index =
      let (result, next) = step rel index in
      elim result [ ok _ ↦ update_each step rels next | err _ ↦ next ]

  -- What the `try` block does with a file, and with a directory's notes.
  abbrev pub refresh_file : Text → Result Error (Text × FileRevision) → VaultIndex → VaultIndex
  refresh_file rel (ok (raw, revision)) index = reindex rel raw revision index
  refresh_file rel (err e) index = index

  abbrev pub refresh_notes :
      (Text → VaultIndex → Result Error (Unit {0}) × VaultIndex)
      → Result Error (List Text)
      → VaultIndex
      → VaultIndex
  refresh_notes step (ok files) index = update_each step (keep is_note files) index
  refresh_notes step (err e) index = index

  abbrev pub refresh :
      (Text → VaultIndex → Result Error (Unit {0}) × VaultIndex)
      → Text
      → Result Error Bool
      → VaultIndex
      → VaultIndex
  refresh step rel (ok true) index = refresh_notes step (g.list_files rel) index
  refresh step rel (ok false) index = refresh_file rel (g.read rel) index
  refresh step rel (err e) index = index

  abbrev pub after_visible :
      (Text → VaultIndex → Result Error (Unit {0}) × VaultIndex)
      → Text
      → Result Error Bool
      → VaultIndex
      → Result Error (Unit {0}) × VaultIndex
  after_visible step rel (ok true) index = (ok tt, refresh step rel (g.is_directory rel) index)
  after_visible step rel (ok false) index = (ok tt, remove_descendants rel index)
  after_visible step rel (err e) index = (err e, index)

  abbrev pub after_canonical :
      (Text → VaultIndex → Result Error (Unit {0}) × VaultIndex)
      → Text
      → Result Error Text
      → VaultIndex
      → Result Error (Unit {0}) × VaultIndex
  after_canonical step path (ok rel) index = after_visible step rel (visible rel) (remove rel index)
  after_canonical step path (err e) index = (ok tt, remove path index)

  -- `update`. The number is the depth of calls that Python's stack has room for: a directory's
  -- notes are updated by calls of `update`, and past the depth there is a `RecursionError`.
  unfoldable pub update : ℕ → Text → VaultIndex → Result Error (Unit {0}) × VaultIndex
  update zero path index = (err recursion_error, index)
  update (suc depth) path index = after_canonical (update depth) path (g.canonicalize path) index

  -- One round of `_reconcile`'s loop: the index, and the number of failures.
  abbrev pub reconcile_note :
      Text → Result Error (Text × FileRevision) → VaultIndex × ℕ → VaultIndex × ℕ
  reconcile_note rel (ok (raw, revision)) (index, failures) =
      if known_as (lookup rel index.revisions) revision
      then (index, failures)
      else (reindex rel raw revision index, failures)
  reconcile_note rel (err e) (index, failures) =
      if is_gone e then (remove rel index, failures) else (index, failures + 1)

  unfoldable pub reconcile_notes : List Text → VaultIndex × ℕ → VaultIndex × ℕ
  reconcile_notes [] state = state
  reconcile_notes (rel ∷ rels) state = reconcile_notes rels (reconcile_note rel (g.read rel) state)

  abbrev pub failures_of : ℕ → Option ReconcileError
  failures_of zero = none
  failures_of (suc n) = some (failed_notes (suc n))

  abbrev pub candidates : List Text → List Text
  candidates files = to_set (keep is_note files)

  -- The sweep over the files that were listed.
  unfoldable pub sweep : List Text → VaultIndex → VaultIndex
  unfolding reconcile_notes remove_all
  sweep files index =
      let (swept, failures) =
        reconcile_notes (sorted (candidates files))
          (remove_all (stale (candidates files) index) index, 0) in
      record swept { last_reconcile_error = failures_of failures }

  abbrev pub after_listing :
      Result Error (List Text) → VaultIndex → Result Error (Unit {0}) × VaultIndex
  after_listing (ok files) index = (ok tt, sweep files index)
  after_listing (err e) index =
      (err e, record index { last_reconcile_error = some (failed_sweep e) })

  unfoldable pub reconcile : VaultIndex → Result Error (Unit {0}) × VaultIndex
  reconcile index = after_listing (g.list_files []) index
