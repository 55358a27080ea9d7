-- ===== src/Storage/Files/Listing.antt =====
-- Discovery: `tree_paths`, `list_dir` and `list_files` of src/obsidian_mcp/storage/filesystem.py.
use brain_mcp.Base.{
  ℕ, Bool, true, false, ◌||◌, Option, none, some, List, [], ◌∷◌, ◌++◌, length, ◌==◌, Result, ok,
  err, ◌>>=◌, if◌then◌else◌,
}
use brain_mcp.Base.Text.{Text, text_eq}
use brain_mcp.Base.Sorting.{text_leb}
use brain_mcp.Errors.{
  Error, is_gone, is_vault_path, is_read_permission, not_a_directory, is_a_directory, os_error,
  file_exists,
}
use brain_mcp.Storage.Gate.{Gate}
use brain_mcp.Storage.Files.{
  Node, Nodes, leaf, folder, nothing, entry, info_of, is_symlink_kind, is_symlink_node, is_folder,
  child_of, opened_dir, tree_paths_of,
}

-- `except (VaultPathError, ReadPermissionError, OSError)`, with the subclasses of `OSError`.
abbrev pub is_skipped : Error → Bool
is_skipped not_a_directory = true
is_skipped is_a_directory = true
is_skipped os_error = true
is_skipped file_exists = true
is_skipped e = is_vault_path e || is_gone e

pub record VaultEntry : Type 0 where
  pub name : Text
  pub relative : Text
  pub is_dir : Bool
  pub size_bytes : Option ℕ
  pub mtime : ℕ

abbrev pub size_of : Node → Option ℕ
size_of (folder nodes) = none
size_of (leaf e) = some (length e.content)

unfoldable pub insert_entry : Text → Node → List (Text × Node) → List (Text × Node)
insert_entry name node [] = (name, node) ∷ []
insert_entry name node ((n, m) ∷ rest) =
    if text_leb name n then (name, node) ∷ (n, m) ∷ rest else (n, m) ∷ insert_entry name node rest

-- `sorted(items, key=lambda entry: entry.name)`
unfoldable pub sorted_entries : Nodes → List (Text × Node)
unfolding insert_entry
sorted_entries nothing = []
sorted_entries (entry name node rest) = insert_entry name node (sorted_entries rest)

-- One path of `tree_paths`' loop, its result before the others.
abbrev pub readable_path : Result Error Text → Result Error (List Text) → Result Error (List Text)
readable_path (ok relative) rest = rest >>= λ others. ok (relative ∷ others)
readable_path (err e) rest = if is_vault_path e || is_read_permission e then rest else err e

-- A directory entry of `list_files`' walk once it is authorized, or skipped. What lies below is
-- used where it is.
abbrev pub walked : Result Error Text → (Text → Result Error (List Text)) → Result Error (List Text)
walked (ok path) continue = continue path
walked (err e) continue = if is_skipped e then ok [] else err e

-- One entry of `list_dir`'s loop, its result before the others.
abbrev pub listed :
    Text
    → Node
    → Result Error Text
    → Result Error (List VaultEntry)
    → Result Error (List VaultEntry)
listed name node (ok relative) rest = rest >>= λ others. ok (
    record {
      name = name;
      relative = relative;
      is_dir = is_folder node;
      size_bytes = size_of node;
      mtime = (info_of node).mtime;
    }
    ∷ others)
listed name node (err e) rest = if is_skipped e then rest else err e

module _ (gate : Gate) where
  unfoldable pub readable_paths : List Text → Result Error (List Text)
  readable_paths [] = ok []
  readable_paths (rel ∷ rels) = readable_path (gate.resolve_read rel false) (readable_paths rels)

  unfoldable pub tree_paths : Text → Nodes → Result Error (List Text)
  unfolding readable_paths
  tree_paths path root = do
    target ← gate.resolve_read path (path == [])
    found ← tree_paths_of target root
    readable_paths found

  -- The walk of `list_files`. A directory that is not authorized is not entered, nor one that
  -- cannot be opened; `opens` says which can.
  module _ (opens : Text → Bool) where
    abbrev pub entered : Bool → Result Error (List Text) → Result Error (List Text)
    entered true below = below
    entered false below = ok []

    unfoldable mutual
      pub walk_node : Text → Node → Result Error (List Text)
      walk_node rel (leaf e) =
          if is_symlink_kind e.kind
          then ok []
          else walked (gate.authorize rel (info_of (leaf e))) (λ path. ok (path ∷ []))
      walk_node rel (folder nodes) =
          let below = walk_nodes rel nodes in
          walked (gate.authorize rel (info_of (folder nodes))) (λ _. entered (opens rel) below)

      pub walk_nodes : Text → Nodes → Result Error (List Text)
      walk_nodes prefix nothing = ok []
      walk_nodes prefix (entry name node rest) = walk_node (child_of prefix name) node >>= λ found.
          walk_nodes prefix rest >>= λ others. ok (found ++ others)

    unfoldable pub list_files : Text → Nodes → Result Error (List Text)
    unfolding walk_node
    list_files path root = do
      target ← gate.resolve_read path true
      nodes ← opened_dir target root
      walk_nodes target nodes

  unfoldable pub list_entries : Text → List (Text × Node) → Result Error (List VaultEntry)
  list_entries prefix [] = ok []
  list_entries prefix ((name, node) ∷ items) =
      let rest = list_entries prefix items in
      if is_symlink_node node
      then rest
      else listed name node (gate.authorize (child_of prefix name) (info_of node)) rest

  unfoldable pub list_dir : Text → Nodes → Result Error (List VaultEntry)
  unfolding list_entries
  list_dir path root = do
    target ← gate.resolve_read path true
    nodes ← opened_dir target root
    list_entries target (sorted_entries nodes)
