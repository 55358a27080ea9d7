-- ===== src/Storage/Files/Trash.antt =====
-- The trash directory: `TrashEntry`, `trash`, `list_trash`, `trash_info` and `restore` of
-- src/obsidian_mcp/storage/filesystem.py. `fresh` is the part of a name that `uuid4` gives.
-- A name `..` in the trash, which the operating system takes for the vault itself, is not
-- modelled.
use brain_mcp.Base.{
  ℕ, Bool, false, not, ◌||◌, Option, none, some, List, [], ◌∷◌, ◌++◌, contains, ◌==◌, nat_eq,
  Result, ok, err, raise_if, ◌>>=◌, ◌>>◌, if◌then◌else◌,
}
use brain_mcp.Base.Text.{Text, text, text_eq, slash, split}
use brain_mcp.Errors.{Error, vault_path, file_not_found, not_a_directory}
use brain_mcp.Index.{last_dot}
use brain_mcp.Storage.Gate.{Gate}
use brain_mcp.Storage.Files.{
  Node, Nodes, leaf, folder, nothing, find, put, drop, components, change_parent, is_symlink_node,
  is_folder, info_of, ensure_not_symlink, node_at, open_dir, scan_node,
}
use brain_mcp.Storage.Files.Listing.{size_of, sorted_entries}
use brain_mcp.Storage.Files.Authorize.{AuthorizedTree, authorize_all, check_crossing, preauthorize}
use brain_mcp.Storage.Files.Mutate.{guarded, destination_free, opened_write_parent}

pub record TrashEntry : Type 0 where
  pub name : Text
  pub is_dir : Bool
  pub size_bytes : Option ℕ
  pub mtime : ℕ

abbrev pub trash_dir : Text
trash_dir = text ".trash"

abbrev pub trash_entry : Text → Node → TrashEntry
trash_entry name node = record {
  name = name;
  is_dir = is_folder node;
  size_bytes = size_of node;
  mtime = (info_of node).mtime;
}

unfoldable pub trash_entries : List (Text × Node) → List TrashEntry
trash_entries [] = []
trash_entries ((name, node) ∷ items) =
    let rest = trash_entries items in
    if is_symlink_node node then rest else trash_entry name node ∷ rest

-- No trash directory is an empty one.
abbrev pub entries_of : Result Error Nodes → Result Error (List TrashEntry)
entries_of (ok items) = ok (trash_entries (sorted_entries items))
entries_of (err file_not_found) = ok []
entries_of (err e) = err e

unfoldable pub list_trash : Nodes → Result Error (List TrashEntry)
unfolding trash_entries
list_trash root = entries_of (open_dir (find trash_dir root))

-- `trashed_name and Path(trashed_name).name == trashed_name`
unfoldable pub is_bare : Text → Bool
is_bare name = not (name == [] || contains name slash || name == text ".")

abbrev pub trash_node : Text → Nodes → Result Error Node
trash_node name root =
    raise_if (not (is_bare name)) vault_path
    >> (open_dir (find trash_dir root) >>= λ items. ensure_not_symlink (find name items))

unfoldable pub trash_info : Text → Nodes → Result Error TrashEntry
unfolding is_bare
trash_info name root = trash_node name root >>= λ node. ok (trash_entry name node)

-- `relative.rsplit("/", 1)[-1]`
abbrev pub last_of : List Text → Text
last_of [] = []
last_of (part ∷ []) = part
last_of (part ∷ next ∷ parts) = last_of (next ∷ parts)

abbrev pub last_part : Text → Text
last_part relative = last_of (split slash relative)

-- `f"{stem}-{fresh}{('.' + suffix) if suffix else ''}"`, with no suffix where there is no dot.
abbrev pub suffixed : Text → Text → Option (Text × Text) → Text
suffixed fresh name none = name ++ text "-" ++ fresh
suffixed fresh name (some (stem, [])) = stem ++ text "-" ++ fresh
suffixed fresh name (some (stem, c ∷ suffix)) =
    stem ++ text "-" ++ fresh ++ text "." ++ (c ∷ suffix)

-- The name in the trash: its own, or a fresh one if something there has it.
abbrev pub destination_name : Text → Text → Option Node → Text
destination_name fresh name none = name
destination_name fresh name (some node) = suffixed fresh name (last_dot name)

-- `os.open` of the trash directory, which is made where there is none.
abbrev pub opened_trash : Option Node → Result Error Nodes
opened_trash none = ok nothing
opened_trash (some (folder items)) = ok items
opened_trash (some (leaf e)) = err not_a_directory

abbrev pub with_trash : Option Node → Nodes → Nodes
with_trash none root = put trash_dir (folder nothing) root
with_trash (some node) root = root

-- `os.rename` into the trash.
abbrev pub into_trash : Text → Text → Node → Nodes → Nodes
into_trash source name node root =
    change_parent (trash_dir ∷ name ∷ []) (λ leaf. put leaf node)
      (change_parent (components source) drop root)

-- The paths that a restored entry gets.
abbrev pub restored_paths : Text → Node → Result Error (List Text)
restored_paths destination node = scan_node destination node >>= λ below. ok (destination ∷ below)

module _ (gate : Gate) where
  unfoldable pub check_trash : ℕ → Option AuthorizedTree → Text → Nodes → Result Error Text
  check_trash storage authorization path root = do
    source ← gate.resolve_delete path false
    preauthorize gate storage authorization source none false root
    ok source

  unfoldable pub trash :
      ℕ → Option AuthorizedTree → Text → Text → Nodes → Result Error (Text × Text) × Nodes
  unfolding check_trash
  trash storage authorization fresh path root =
      guarded (check_trash storage authorization path root) root (λ source.
        guarded (opened_trash (find trash_dir root)) root (λ items.
          let opened = with_trash (find trash_dir root) root in
          guarded (node_at source opened) opened (λ node.
            let name = destination_name fresh (last_part source) (find (last_part source) items) in
            (ok (source, name), into_trash source name node opened))))

  unfoldable pub check_restore : Text → Text → Nodes → Result Error (Text × Node)
  check_restore name to_path root = do
    node ← trash_node name root
    destination ← gate.resolve_write to_path
    check_crossing gate (is_folder node) destination
    paths ← restored_paths destination node
    authorize_all gate.resolve_write paths
    ok (destination, node)

  unfoldable pub restore : Text → Text → Nodes → Result Error Text × Nodes
  unfolding check_restore
  restore name to_path root =
      guarded (check_restore name to_path root) root (λ (found : Text × Node).
        let made = opened_write_parent gate found.0 root in
        guarded (made.0 >> destination_free found.0 made.1) made.1 (λ _. (
          ok (found.0),
          change_parent (components found.0) (λ leaf. put leaf (found.1))
              (change_parent (trash_dir ∷ name ∷ []) drop made.1),
        )))
