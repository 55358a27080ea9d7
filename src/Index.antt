-- ===== src/Index.antt =====
-- `VaultIndex` of src/obsidian_mcp/domain/index.py: the state, and the operations on it. Every
-- method runs under the object's locks, so each is one step on the state. `lower` is `str.lower`.
pub mod Consistent
pub mod Sync
pub mod Update
pub mod Reconcile
pub mod Queries
pub mod Backlinks
use brain_mcp.Base.{
  ℕ, Bool, true, false, not, ◌&&◌, ◌||◌, Option, none, some, List, [], ◌∷◌, ◌++◌, map, keep, any,
  contains, ◌==◌, nat_eq, if◌then◌else◌,
}
use brain_mcp.Base.Text.{Text, text, text_eq, dot, ends_with, strip, replace_char, slash, rstrip}
use brain_mcp.Base.Dict.{Dict, lookup, insert, erase, erase_values, map_values}
use brain_mcp.Base.Sets.{get_or_empty, add, discard, to_set, members, add_at, discard_at}
use brain_mcp.Errors.{Error}
use brain_mcp.Models.{FileRevision, WikiLink, BlockRef, Note}
use brain_mcp.Paths.{backslash, is_nil}
use brain_mcp.Policy.{path_parts}
use brain_mcp.Rules.{matches_path_rule}

-- The text of `_last_reconcile_error`: so many notes failed, or the sweep itself did.
pub data ReconcileError : Type 0 where
  failed_notes : ℕ → ReconcileError
  failed_sweep : Error → ReconcileError

pub record VaultIndex : Type 0 where
  pub ready : Bool
  pub backlinks : Dict Text (List Text)
  pub tags_index : Dict Text (List Text)
  pub outlinks : Dict Text (List Text)
  pub alias_index : Dict Text Text
  pub block_index : Dict Text (Dict Text ℕ)
  pub all_notes : List Text
  pub revisions : Dict Text FileRevision
  pub last_reconcile_error : Option ReconcileError

-- `__init__`, and what `_build` leaves when it has cleared everything.
abbrev pub empty_index : VaultIndex
empty_index = record {
  ready = false;
  backlinks = [];
  tags_index = [];
  outlinks = [];
  alias_index = [];
  block_index = [];
  all_notes = [];
  revisions = [];
  last_reconcile_error = none;
}

abbrev last_part : Text → List Text → Text
last_part found [] = found
last_part found (part ∷ parts) = last_part part parts

-- `Path(path).name`
unfoldable pub path_name : Text → Text
path_name path = last_part [] (path_parts path)

-- The text before the last dot and the text after it.
abbrev dot_step : ℕ → Text → Option (Text × Text) → Option (Text × Text)
dot_step c s (some (before, after)) = some (c ∷ before, after)
dot_step c s none = if c == dot then some ([], s) else none

unfoldable pub last_dot : Text → Option (Text × Text)
last_dot [] = none
last_dot (c ∷ s) = dot_step c s (last_dot s)

-- `Path(path).stem`: a dot at either end of the name begins no suffix.
abbrev stem_of : Text → Option (Text × Text) → Text
stem_of name none = name
stem_of name (some (before, after)) = if is_nil before || is_nil after then name else before

unfoldable pub stem : Text → Text
unfolding path_name last_dot
stem path = stem_of (path_name path) (last_dot (path_name path))

-- The aliases that a note registers, the stem first: `self._alias_index[name.lower()] = path`.
unfoldable pub register : Text → List Text → Dict Text Text → Dict Text Text
register path [] aliases = aliases
register path (name ∷ names) aliases = register path names (insert name path aliases)

unfoldable pub block_lines : List BlockRef → Dict Text ℕ → Dict Text ℕ
block_lines [] blocks = blocks
block_lines (r ∷ refs) blocks = block_lines refs (insert r.block_id r.line blocks)

unfoldable pub remove : Text → VaultIndex → VaultIndex
remove path index = record index {
  outlinks = erase path index.outlinks;
  backlinks = discard_at path (members path index.outlinks) index.backlinks;
  tags_index = map_values (discard path) index.tags_index;
  alias_index = erase_values (λ v. v == path) index.alias_index;
  block_index = erase path index.block_index;
  all_notes = discard path index.all_notes;
  revisions = erase path index.revisions;
}

module _ (lower : Text → Text) where
  abbrev pub link_targets : Note → List Text
  link_targets note = to_set (map (λ (link : WikiLink). lower link.target) note.wikilinks)

  abbrev pub alias_names : Text → Note → List Text
  alias_names path note = lower (stem path) ∷ map lower note.aliases

  unfoldable pub index_note : Text → Note → FileRevision → VaultIndex → VaultIndex
  index_note path note revision index = record index {
    all_notes = add path index.all_notes;
    revisions = insert path revision index.revisions;
    outlinks = insert path (link_targets note) index.outlinks;
    backlinks = add_at path (link_targets note) index.backlinks;
    tags_index = add_at path note.tags index.tags_index;
    alias_index = register path (alias_names path note) index.alias_index;
    block_index =
        if is_nil note.block_refs
        then index.block_index
        else insert path (block_lines note.block_refs []) index.block_index;
  }

-- `_is_excluded` for a relative path.
unfoldable pub is_excluded : List Text → Text → Bool
unfolding path_name
is_excluded exclude_paths path =
    let rel = strip (λ c. c == slash) (replace_char backslash slash path) in
    any (λ rule. matches_path_rule (λ c. c ∷ []) rel rule false) exclude_paths
    || ends_with (path_name rel) (text ".excalidraw.md")
