-- ===== src/Index/Queries.antt =====
-- The queries of `VaultIndex` in src/obsidian_mcp/domain/index.py. Each raises
-- `IndexBuildingError` before the index is ready, but for `resolve_alias` and `is_ready`.
use brain_mcp.Base.{
  ℕ, Bool, not, ◌&&◌, ◌||◌, Option, none, some, List, [], ◌∷◌, ◌++◌, keep, any, length, ◌==◌,
  nat_eq, Result, ok, raise_if, ◌>>◌, if◌then◌else◌,
}
use brain_mcp.Base.Text.{Text, text, text_eq, ends_with}
use brain_mcp.Base.Dict.{Dict, lookup}
use brain_mcp.Base.Sets.{members, to_set}
use brain_mcp.Base.Sorting.{sorted}
use brain_mcp.Errors.{Error, index_building}
use brain_mcp.Identity.{is_none}
use brain_mcp.Index.{VaultIndex, stem}

-- `_assert_ready`
abbrev pub assert_ready : VaultIndex → Result Error (Unit {0})
assert_ready index = raise_if (not index.ready) index_building

-- `s[:-3] if s.endswith(".md") else s`
unfoldable pub without_md : Text → Text
without_md [] = []
without_md (c ∷ s) = let rest = without_md s in if (c ∷ s) == text ".md" then [] else c ∷ rest

-- The aliases that stand for the note.
unfoldable pub aliases_of : Text → Dict Text Text → List Text
aliases_of path [] = []
aliases_of path ((alias, real) ∷ aliases) =
    let rest = aliases_of path aliases in if real == path then alias ∷ rest else rest

-- `results.update` for every key.
unfoldable pub gather : List Text → Dict Text (List Text) → List Text
gather [] backlinks = []
gather (key ∷ keys) backlinks = members key backlinks ++ gather keys backlinks

-- `sum(1 for note in notes if include(note))`
abbrev pub count_of : (Text → Bool) → List Text → ℕ
count_of include notes = length (keep include notes)

unfoldable pub tag_counts : Option (Text → Bool) → Dict Text (List Text) → Dict Text ℕ
tag_counts none [] = []
tag_counts none ((tag, notes) ∷ tags) = (tag, length notes) ∷ tag_counts none tags
tag_counts (some include) [] = []
tag_counts (some include) ((tag, notes) ∷ tags) =
    let rest = tag_counts (some include) tags in
    if count_of include notes == 0 then rest else (tag, count_of include notes) ∷ rest

abbrev block_of : Text → Option (Dict Text ℕ) → Option ℕ
block_of block_id none = none
block_of block_id (some blocks) = lookup block_id blocks

unfoldable pub get_notes_by_tag : VaultIndex → Text → Result Error (List Text)
get_notes_by_tag index tag = do assert_ready index; ok (sorted (members tag index.tags_index))

unfoldable pub get_all_tags_with_counts :
    VaultIndex → Option (Text → Bool) → Result Error (Dict Text ℕ)
unfolding tag_counts
get_all_tags_with_counts index include = do
  assert_ready index
  ok (tag_counts include index.tags_index)

unfoldable pub get_all_notes : VaultIndex → Result Error (List Text)
get_all_notes index = do assert_ready index; ok index.all_notes

unfoldable pub get_block : VaultIndex → Text → Text → Result Error (Option ℕ)
get_block index path block_id = do
  assert_ready index
  ok (block_of block_id (lookup path index.block_index))

unfoldable pub get_outlinks : VaultIndex → Text → Result Error (List Text)
get_outlinks index path = do assert_ready index; ok (members path index.outlinks)

module _ (lower : Text → Text) where
  -- The keys under which a link to the note may stand.
  abbrev pub link_keys : VaultIndex → Text → List Text
  link_keys index note_path =
      lower note_path
      ∷ without_md (lower note_path)
      ∷ lower (stem note_path)
      ∷ aliases_of note_path index.alias_index

  unfoldable pub get_backlinks : VaultIndex → Text → Result Error (List Text)
  unfolding aliases_of gather
  get_backlinks index note_path = do
    assert_ready index
    ok (sorted (to_set (gather (link_keys index note_path) index.backlinks)))

  -- `_resolve`, which `resolve_alias` calls.
  unfoldable pub resolve_alias : VaultIndex → Text → Option Text
  resolve_alias index name = lookup (lower (stem name)) index.alias_index

  unfoldable pub has_note : VaultIndex → Text → Result Error Bool
  unfolding without_md
  has_note index target = do
    assert_ready index
    ok (
        not (is_none (lookup (lower target) index.alias_index))
        || any
            (λ p.
              lower p == lower target
              || (ends_with (lower p) (text ".md") && without_md (lower p) == lower target))
            index.all_notes)
