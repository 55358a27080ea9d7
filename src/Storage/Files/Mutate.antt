-- ===== src/Storage/Files/Mutate.antt =====
-- The operations of src/obsidian_mcp/storage/filesystem.py that move or delete files and
-- directories, and those that make directories: `_remove_tree_fd`, `_write_create_from`,
-- `_opened_write_parent`, `_rename_relative`, `make_dir`, `move` and `delete`. Each returns
-- its result and the tree that it leaves, also when it raises.
use brain_mcp.Base.{
  ℕ, suc, ◌-◌, Bool, true, false, Option, none, some, List, [], ◌∷◌, ◌++◌, length, keep, map, ltb,
  ◌==◌, nat_eq, Result, ok, err, raise_if, ◌>>=◌, ◌>>◌, if◌then◌else◌,
}
use brain_mcp.Base.Text.{Text, text_eq, slash, split, starts_with}
use brain_mcp.Errors.{
  Error, vault_path, file_not_found, not_a_directory, file_exists, write_permission, value_error,
  os_error,
}
use brain_mcp.Paths.{is_nil}
use brain_mcp.Rules.{rule_path}
use brain_mcp.Storage.Gate.{Gate}
use brain_mcp.Storage.Files.{
  Node, Nodes, leaf, folder, nothing, entry, find, put, drop, components, opened_parent,
  change_parent, child_of, is_symlink_kind, node_at,
}
use brain_mcp.Storage.{Entry}
use brain_mcp.Storage.Files.Authorize.{AuthorizedTree, preauthorize}

-- What an operation does once the checks before it have passed.
abbrev pub guarded {ℓ κ} :
    {A : Type ℓ} {B : Type κ}
    → Result Error A
    → Nodes
    → (A → Result Error B × Nodes)
    → Result Error B × Nodes
guarded (err e) root next = (err e, root)
guarded (ok a) root next = next a

-- The paths at which `os.unlink`, `os.open` and `os.rmdir` fail.
pub record Faults : Type 0 where
  pub unlink : Text → Bool
  pub open_child : Text → Bool
  pub rmdir : Text → Bool

abbrev pub unlinked : Bool → Bool → Entry → Result Error (Unit {0}) × Option Node
unlinked true fails e = (err vault_path, some (leaf e))
unlinked false true e = (err os_error, some (leaf e))
unlinked false false e = (ok tt, none)

-- `os.rmdir` of what is left of a directory.
abbrev pub removed_dir : Bool → Nodes → Result Error (Unit {0}) × Option Node
removed_dir true nodes = (err os_error, some (folder nodes))
removed_dir false nothing = (ok tt, none)
removed_dir false (entry name node rest) = (err os_error, some (folder (entry name node rest)))

abbrev pub emptied : Bool → Result Error (Unit {0}) × Nodes → Result Error (Unit {0}) × Option Node
emptied fails (ok u, rest) = removed_dir fails rest
emptied fails (err e, rest) = (err e, some (folder rest))

abbrev pub opened_child :
    Bool → Nodes → Result Error (Unit {0}) × Option Node → Result Error (Unit {0}) × Option Node
opened_child true nodes removal = (err os_error, some (folder nodes))
opened_child false nodes removal = removal

abbrev pub remaining : Text → Option Node → Nodes → Nodes
remaining name none rest = rest
remaining name (some node) rest = entry name node rest

-- The loop goes on to the other entries when one is removed.
abbrev pub then_others :
    Text
    → Result Error (Unit {0}) × Option Node
    → Nodes
    → Result Error (Unit {0}) × Nodes
    → Result Error (Unit {0}) × Nodes
then_others name (ok u, left) rest others = (others.0, remaining name left others.1)
then_others name (err e, left) rest others = (err e, remaining name left rest)

module _ (faults : Faults) where
  -- `_remove_tree_fd`: the result, and what is left of the entry.
  unfoldable mutual
    pub remove_node : Text → Node → Result Error (Unit {0}) × Option Node
    remove_node rel (leaf e) = unlinked (is_symlink_kind e.kind) (faults.unlink rel) e
    remove_node rel (folder nodes) =
        let below = remove_nodes rel nodes in
        opened_child (faults.open_child rel) nodes (emptied (faults.rmdir rel) below)

    pub remove_nodes : Text → Nodes → Result Error (Unit {0}) × Nodes
    remove_nodes prefix nothing = (ok tt, nothing)
    remove_nodes prefix (entry name node rest) =
        then_others name (remove_node (child_of prefix name) node) rest (remove_nodes prefix rest)

  abbrev pub remove_found : Text → Option Node → Result Error (Unit {0}) × Option Node
  remove_found rel none = (err file_not_found, none)
  remove_found rel (some node) = remove_node rel node

abbrev pub replaced : Option Node → Text → Nodes → Nodes
replaced none name nodes = drop name nodes
replaced (some node) name nodes = put name node nodes

-- The last statements of `delete`.
unfoldable pub remove_at : Faults → Text → Nodes → Result Error (Unit {0}) × Nodes
unfolding remove_node
remove_at faults relative root = guarded (opened_parent (components relative) root) root (λ parent.
    let removal = remove_found faults relative (find (parent.1) (parent.0)) in
    (removal.0, change_parent (components relative) (replaced removal.1) root))

-- The directories above a path, made from a depth on.
abbrev pub into_child :
    Text
    → Option Node
    → Bool
    → Nodes
    → (Nodes → Result Error (Unit {0}) × Nodes)
    → Result Error (Unit {0}) × Nodes
into_child name (some (folder child)) fixed nodes continue =
    let below = continue child in (below.0, put name (folder below.1) nodes)
into_child name (some (leaf e)) fixed nodes continue = (err not_a_directory, nodes)
into_child name none true nodes continue = (err file_not_found, nodes)
into_child name none false nodes continue =
    let below = continue nothing in (below.0, put name (folder below.1) nodes)

-- `_opened_parent` with `create_from`
unfoldable pub make_parents : ℕ → ℕ → List Text → Nodes → Result Error (Unit {0}) × Nodes
make_parents create_from depth [] nodes = (err vault_path, nodes)
make_parents create_from depth (name ∷ []) nodes = (ok tt, nodes)
make_parents create_from depth (name ∷ next ∷ names) nodes =
    into_child name (find name nodes) (ltb depth create_from) nodes
      (make_parents create_from (suc depth) (next ∷ names))

-- `min` of the depths of the scopes.
unfoldable pub least_depth : List Text → Result Error ℕ
least_depth [] = err value_error
least_depth (scope ∷ []) = ok (length (split slash scope) - 1)
least_depth (scope ∷ other ∷ scopes) =
    let depth = length (split slash scope) - 1 in
    least_depth (other ∷ scopes) >>= λ least. ok (if ltb least depth then least else depth)

abbrev pub outside_scope : List Text → Result Error (Unit {0}) → Result Error (Unit {0})
outside_scope [] result = result
outside_scope (scope ∷ scopes) (err file_not_found) = err write_permission
outside_scope (scope ∷ scopes) result = result

abbrev pub rename_node : Text → Text → Option Node → Nodes → Result Error (Unit {0}) × Nodes
rename_node source destination none root = (err file_not_found, root)
rename_node source destination (some node) root = (
  ok tt,
  change_parent (components destination) (λ name. put name node)
      (change_parent (components source) drop root),
)

-- `os.rename` of an entry that is there to a name that is not.
unfoldable pub rename : Text → Text → Nodes → Result Error (Unit {0}) × Nodes
rename source destination root =
    guarded (opened_parent (components source) root) root
      (λ parent. rename_node source destination (find (parent.1) (parent.0)) root)

-- Nothing may be at the destination.
abbrev pub must_be_absent : Option Node → Result Error (Unit {0})
must_be_absent none = ok tt
must_be_absent (some node) = err file_exists

unfoldable pub destination_free : Text → Nodes → Result Error (Unit {0})
destination_free destination root = opened_parent (components destination) root >>= λ parent.
    must_be_absent (find (parent.1) (parent.0))

abbrev pub returning {ℓ} :
    {A : Type ℓ} → A → Result Error (Unit {0}) × Nodes → Result Error A × Nodes
returning a (ok u, root) = (ok a, root)
returning a (err e, root) = (err e, root)

-- A directory that is there is as good as a new one.
abbrev pub made_dir : Text → Option Node → Result Error (Unit {0}) × (Nodes → Nodes)
made_dir name none = (ok tt, put name (folder nothing))
made_dir name (some (folder nodes)) = (ok tt, λ parent. parent)
made_dir name (some (leaf e)) =
    (err (if is_symlink_kind e.kind then vault_path else file_exists), λ parent. parent)

module _ (gate : Gate) where
  -- `_write_create_from`
  unfoldable pub write_create_from : Text → List Text → Result Error ℕ
  write_create_from relative write_paths =
      if is_nil write_paths
      then ok 0
      else least_depth (map rule_path (keep (gate.matches relative) write_paths))

  -- `_opened_write_parent`, the parents that it makes.
  unfoldable pub opened_write_parent : Text → Nodes → Result Error (Unit {0}) × Nodes
  unfolding make_parents write_create_from
  opened_write_parent relative root = guarded gate.write_paths root (λ write_paths.
      guarded (write_create_from relative write_paths) root (λ create_from.
        let made = make_parents create_from 0 (components relative) root in
        (outside_scope write_paths made.0, made.1)))

  unfoldable pub rename_relative : Text → Text → Nodes → Result Error (Unit {0}) × Nodes
  unfolding opened_write_parent rename
  rename_relative source destination root = guarded (node_at source root) root (λ _.
      let made = opened_write_parent destination root in
      guarded (made.0 >> destination_free destination made.1) made.1
        (λ _. rename source destination made.1))

  unfoldable pub check_move :
      ℕ → Option AuthorizedTree → Text → Text → Nodes → Result Error (Text × Text)
  check_move storage authorization from_path to_path root = do
    source ← gate.resolve_delete from_path false
    destination ← gate.resolve_write to_path
    raise_if (source == destination) vault_path
    raise_if (starts_with destination (source ++ (slash ∷ []))) vault_path
    preauthorize gate storage authorization source (some destination) false root
    ok (source, destination)

  unfoldable pub move :
      ℕ → Option AuthorizedTree → Text → Text → Nodes → Result Error (Text × Text) × Nodes
  unfolding check_move rename_relative
  move storage authorization from_path to_path root =
      guarded (check_move storage authorization from_path to_path root) root
        (λ paths. returning paths (rename_relative paths.0 paths.1 root))

  unfoldable pub check_delete : ℕ → Option AuthorizedTree → Text → Nodes → Result Error Text
  check_delete storage authorization path root = do
    target ← gate.resolve_delete path true
    preauthorize gate storage authorization target none true root
    ok target

  unfoldable pub delete :
      Faults → ℕ → Option AuthorizedTree → Text → Nodes → Result Error Text × Nodes
  unfolding check_delete remove_at
  delete faults storage authorization path root =
      guarded (check_delete storage authorization path root) root
        (λ target. returning target (remove_at faults target root))

  unfoldable pub make_dir : Text → Nodes → Result Error Text × Nodes
  unfolding opened_write_parent
  make_dir path root = guarded (gate.resolve_write path) root (λ target.
      let made = opened_write_parent target root in
      guarded (made.0 >> opened_parent (components target) made.1) made.1 (λ parent.
        let result = made_dir (parent.1) (find (parent.1) (parent.0)) in
        returning target
          (result.0, change_parent (components target) (λ name nodes. result.1 nodes) made.1)))
