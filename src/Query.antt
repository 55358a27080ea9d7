-- ===== src/Query.antt =====
-- The queries of src/obsidian_mcp/tools/query.py that go by the index, in the read scope of the
-- calling identity. `load` is `_load_note`.
pub mod Visible
pub mod Graph
use brain_mcp.Base.{
  ℕ, Bool, true, false, not, ◌&&◌, ◌||◌, Option, none, some, List, [], ◌∷◌, ◌++◌, map, keep, any,
  all, contains, ◌==◌, nat_eq, Result, ok, err, ◌>>=◌, if◌then◌else◌,
}
use brain_mcp.Base.Text.{Text, text, text_eq, slash, starts_with, rstrip}
use brain_mcp.Base.Sorting.{sorted, text_leb}
use brain_mcp.Errors.{Error}
use brain_mcp.Identity.{is_none}
use brain_mcp.Models.{Task, Note}
use brain_mcp.Paths.{is_nil}
use brain_mcp.Policy.{path_parts}
use brain_mcp.Index.{VaultIndex}
use brain_mcp.Index.Queries.{get_all_notes}
use brain_mcp.Scoping.{ReadScope, allows, filter}
use brain_mcp.Index.Queries as Queries

module _ (lower : Text → Text) (scope : ReadScope) where
  -- `_readable_notes`
  unfoldable pub readable_notes : VaultIndex → Result Error (List Text)
  readable_notes index = do
    notes ← get_all_notes index
    visible ← filter scope notes
    ok (sorted visible)

  unfoldable pub get_backlinks : Text → VaultIndex → Result Error (List Text)
  get_backlinks path index = do found ← Queries.get_backlinks lower index path; filter scope found

  abbrev pub in_excluded : List Text → Text → Bool
  in_excluded exclude_folders note_path =
      any (λ part. contains exclude_folders part) (path_parts note_path)

  -- The loop of `get_orphans`.
  unfoldable pub orphans_among : VaultIndex → List Text → List Text → Result Error (List Text)
  orphans_among index exclude_folders [] = ok []
  orphans_among index exclude_folders (note_path ∷ notes) =
      let rest = orphans_among index exclude_folders notes in
      if in_excluded exclude_folders note_path
      then rest
      else (get_backlinks note_path index >>= λ linking.
          rest >>= λ others. ok (if is_nil linking then note_path ∷ others else others))

  unfoldable pub get_orphans : VaultIndex → List Text → Result Error (List Text)
  get_orphans index exclude_folders = do
    notes ← readable_notes index
    orphans_among index exclude_folders notes

  abbrev pub if_allowed : Text → Bool → Option Text
  if_allowed path true = some path
  if_allowed path false = none

  abbrev pub allowed_alias : Option Text → Result Error (Option Text)
  allowed_alias none = ok none
  allowed_alias (some path) = do allowed ← allows scope path; ok (if_allowed path allowed)

  unfoldable pub resolve_alias : Text → VaultIndex → Result Error (Option Text)
  resolve_alias name index = allowed_alias (Queries.resolve_alias lower index name)
