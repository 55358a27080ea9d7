-- ===== src/Storage/Files.antt =====
-- The vault's directory tree, and how src/obsidian_mcp/storage/filesystem.py goes down it
-- with directory descriptors that follow no symbolic link: `_opened_parent`, `_opened_dir`,
-- `_ensure_not_symlink`, `_scandir_tree` and `VaultStorage._tree_paths`. An operation sees
-- the tree as it stands when it begins, and what it has done to it itself.
pub mod Authorize
pub mod Listing
pub mod Readable
pub mod Denied
pub mod Mutate
pub mod Trash
pub mod Laws
pub mod Inside
pub mod Removal
pub mod Granted
pub mod Trashed
use brain_mcp.Base.{
  ℕ, Bool, true, false, Option, none, some, List, [], ◌∷◌, ◌++◌, length, keep, ◌==◌, not, Result,
  ok, err, ◌>>=◌, ◌>>◌, if◌then◌else◌,
}
use brain_mcp.Base.Text.{Text, text, text_eq, slash, split}
use brain_mcp.Errors.{Error, vault_path, file_not_found, not_a_directory}
use brain_mcp.Paths.{is_nil}
use brain_mcp.Policy.{Kind, regular, directory, symlink, other, StatResult}
use brain_mcp.Storage.{Entry}

-- A leaf is a regular file, a symbolic link, or something else that is no directory.
mutual
  pub data Node : Type 0 where
    leaf : Entry → Node
    folder : Nodes → Node

  pub data Nodes : Type 0 where
    nothing : Nodes
    entry : Text → Node → Nodes → Nodes

unfoldable pub find : Text → Nodes → Option Node
find name nothing = none
find name (entry other_name node rest) = if other_name == name then some node else find name rest

-- A directory entry of the name, in place of one that is there.
unfoldable pub put : Text → Node → Nodes → Nodes
put name node nothing = entry name node nothing
put name node (entry other_name other_node rest) =
    if other_name == name
    then entry name node rest
    else entry other_name other_node (put name node rest)

unfoldable pub drop : Text → Nodes → Nodes
drop name nothing = nothing
drop name (entry other_name node rest) =
    let others = drop name rest in
    if other_name == name then others else entry other_name node others

-- `[part for part in relative.split("/") if part]`
unfoldable pub components : Text → List Text
components relative = keep (λ part. not (part == [])) (split slash relative)

-- `os.open` of a directory entry with `O_DIRECTORY` and `O_NOFOLLOW`.
abbrev pub open_dir : Option Node → Result Error Nodes
open_dir none = err file_not_found
open_dir (some (folder nodes)) = ok nodes
open_dir (some (leaf e)) = err not_a_directory

-- `_opened_parent` that creates nothing: the parent directory, and the name in it.
unfoldable pub opened_parent : List Text → Nodes → Result Error (Nodes × Text)
opened_parent [] nodes = err vault_path
opened_parent (name ∷ []) nodes = ok (nodes, name)
opened_parent (name ∷ next ∷ names) nodes =
    open_dir (find name nodes) >>= λ child. opened_parent (next ∷ names) child

-- The tree with another content of that parent directory.
abbrev pub in_child : (Nodes → Nodes) → Text → Option Node → Nodes → Nodes
in_child change name (some (folder child)) nodes = put name (folder (change child)) nodes
in_child change name _ nodes = nodes

unfoldable pub change_parent : List Text → (Text → Nodes → Nodes) → Nodes → Nodes
change_parent [] change nodes = nodes
change_parent (name ∷ []) change nodes = change name nodes
change_parent (name ∷ next ∷ names) change nodes =
    in_child (change_parent (next ∷ names) change) name (find name nodes) nodes

-- `_opened_dir`
unfoldable pub opened_dir : Text → Nodes → Result Error Nodes
opened_dir relative nodes =
    if relative == []
    then ok nodes
    else (opened_parent (components relative) nodes >>= λ parent.
        open_dir (find (parent.1) (parent.0)))

abbrev pub info_of : Node → StatResult
info_of (folder nodes) = record { kind = directory; size = 0; mtime = 0 }
info_of (leaf e) = record { kind = e.kind; size = length e.content; mtime = e.mtime_ns }

abbrev pub is_symlink_kind : Kind → Bool
is_symlink_kind symlink = true
is_symlink_kind _ = false

abbrev pub is_symlink_node : Node → Bool
is_symlink_node (leaf e) = is_symlink_kind e.kind
is_symlink_node (folder nodes) = false

abbrev pub is_folder : Node → Bool
is_folder (folder nodes) = true
is_folder (leaf e) = false

-- `_ensure_not_symlink`
abbrev pub ensure_not_symlink : Option Node → Result Error Node
ensure_not_symlink none = err file_not_found
ensure_not_symlink (some node) = if is_symlink_node node then err vault_path else ok node

-- `VaultStorage.stat`, once the path is resolved.
unfoldable pub node_at : Text → Nodes → Result Error Node
node_at relative nodes = opened_parent (components relative) nodes >>= λ parent.
    ensure_not_symlink (find (parent.1) (parent.0))

-- `f"{prefix}/{name}" if prefix else name`
abbrev pub child_of : Text → Text → Text
child_of prefix name = if is_nil prefix then name else prefix ++ (slash ∷ name)

-- `_scandir_tree` of what lies below a path: all descendants, unless one is a symbolic link.
unfoldable mutual
  pub scan_node : Text → Node → Result Error (List Text)
  scan_node rel (leaf e) = if is_symlink_kind e.kind then err vault_path else ok []
  scan_node rel (folder nodes) = scan_nodes rel nodes

  pub scan_nodes : Text → Nodes → Result Error (List Text)
  scan_nodes prefix nothing = ok []
  scan_nodes prefix (entry name node rest) = scan_node (child_of prefix name) node >>= λ below.
      scan_nodes prefix rest >>= λ others. ok (child_of prefix name ∷ below ++ others)

-- `_tree_paths`
unfoldable pub tree_paths_of : Text → Nodes → Result Error (List Text)
tree_paths_of relative root =
    if relative == []
    then scan_nodes [] root
    else (node_at relative root >>= λ node.
        scan_node relative node >>= λ below. ok (relative ∷ below))
