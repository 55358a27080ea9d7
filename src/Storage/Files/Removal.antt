-- ===== src/Storage/Files/Removal.antt =====
-- `_remove_tree_fd` of src/obsidian_mcp/storage/filesystem.py removes what `_scandir_tree`
-- went through.
use brain_mcp.Base.{
  ◌≡◌, Bool, ◌||◌, arith, Result, refl, ap, sym, ◌∙◌, ◌⊎◌, inl, inr, true, false, Option, none,
  some, List, [], Bool-cases, ◌==◌, ==_iff, ok, err, >>=-eq-ok, ok-injective,
}
use brain_mcp.Base.Text.{Text, text_eq, split}
use brain_mcp.Errors.{Error, vault_path, os_error}
use brain_mcp.Storage.{Entry}
use brain_mcp.Storage.Files.{
  Node, Nodes, leaf, folder, nothing, entry, find, components, opened_parent, is_symlink_kind,
  is_symlink_node, ensure_not_symlink, node_at, child_of, scan_node, scan_nodes, tree_paths_of,
}
use brain_mcp.Storage.Files.Mutate.{
  Faults, unlinked, removed_dir, emptied, opened_child, remaining, then_others, remove_node,
  remove_nodes,
}
use brain_mcp.Storage.Files.Inside.{HasFile, HasFileBelow}

-- Something that is left is a part of what was there.
abbrev pub HasLeft : Text → Option Node → Text → Entry → Type 0
HasLeft rel none path file = ⊥
HasLeft rel (some node) path file = HasFile rel node path file

module _ (faults : Faults) where
  -- A system call has failed.
  abbrev pub IsFaulty : Type 0
  IsFaulty =
      (path : Text) × ((faults.unlink path || faults.open_child path || faults.rmdir path) ≡ true)

  unlinked-HasLeft :
      (link fails : Bool) (rel : Text) (e : Entry) (path : Text) (file : Entry)
      → HasLeft rel (unlinked link fails e).1 path file
      → HasFile rel (leaf e) path file
  unlinked-HasLeft true fails rel e path file h = h
  unlinked-HasLeft false true rel e path file h = h
  unlinked-HasLeft false false rel e path file h = elim h [ ]

  removed_dir-HasLeft :
      (fails : Bool) (rel : Text) (left : Nodes) (path : Text) (file : Entry)
      → HasLeft rel (removed_dir fails left).1 path file
      → HasFileBelow rel left path file
  unfolding HasFile
  removed_dir-HasLeft true rel left path file h = h
  removed_dir-HasLeft false rel nothing path file h = elim h [ ]
  removed_dir-HasLeft false rel (entry name node rest) path file h = h

  emptied-HasLeft :
      (fails : Bool) (rel : Text) (removal : Result Error (Unit {0}) × Nodes) (path : Text)
      (file : Entry)
      → HasLeft rel (emptied fails removal).1 path file
      → HasFileBelow rel removal.1 path file
  unfolding HasFile
  emptied-HasLeft fails rel (ok u, left) path file h =
      removed_dir-HasLeft fails rel left path file h
  emptied-HasLeft fails rel (err e, left) path file h = h

  opened_child-HasLeft :
      (fails : Bool) (rel : Text) (nodes : Nodes) (removal : Result Error (Unit {0}) × Option Node)
      (path : Text) (file : Entry)
      → (HasLeft rel removal.1 path file → HasFileBelow rel nodes path file)
      → HasLeft rel (opened_child fails nodes removal).1 path file
      → HasFileBelow rel nodes path file
  unfolding HasFile
  opened_child-HasLeft true rel nodes removal path file below h = h
  opened_child-HasLeft false rel nodes removal path file below h = below h

  remaining-HasLeft :
      (prefix name : Text) (left : Option Node) (others : Nodes) (path : Text) (file : Entry)
      → HasFileBelow prefix (remaining name left others) path file
      → HasLeft (child_of prefix name) left path file ⊎ HasFileBelow prefix others path file
  unfolding HasFile
  remaining-HasLeft prefix name none others path file h = inr h
  remaining-HasLeft prefix name (some node) others path file h = h

  then_others-HasLeft :
      (prefix name : Text) (node : Node) (rest : Nodes)
      (removal : Result Error (Unit {0}) × Option Node) (others : Result Error (Unit {0}) × Nodes)
      (path : Text) (file : Entry)
      → (HasLeft (child_of prefix name) removal.1 path file
          → HasFile (child_of prefix name) node path file)
      → (HasFileBelow prefix others.1 path file → HasFileBelow prefix rest path file)
      → HasFileBelow prefix (then_others name removal rest others).1 path file
      → HasFile (child_of prefix name) node path file ⊎ HasFileBelow prefix rest path file
  then_others-HasLeft prefix name node rest (ok u, left) others path file here below h =
      elim (remaining-HasLeft prefix name left others.1 path file h) [
        | inl k ↦ inl (here k)
        | inr k ↦ inr (below k)
      ]
  then_others-HasLeft prefix name node rest (err e, left) others path file here below h =
      elim (remaining-HasLeft prefix name left rest path file h) [
        | inl k ↦ inl (here k)
        | inr k ↦ inr k
      ]

  -- What `_remove_tree_fd` leaves was there, whatever fails.
  mutual
    unfolding remove_node HasFile

    pub remove_node-HasLeft :
        (rel : Text) (node : Node) (path : Text) (file : Entry)
        → HasLeft rel (remove_node faults rel node).1 path file
        → HasFile rel node path file
    remove_node-HasLeft rel (leaf e) path file h =
        unlinked-HasLeft (is_symlink_kind e.kind) (faults.unlink rel) rel e path file h
    remove_node-HasLeft rel (folder nodes) path file h =
        opened_child-HasLeft (faults.open_child rel) rel nodes
          (emptied (faults.rmdir rel) (remove_nodes faults rel nodes)) path file
          (λ k.
            remove_nodes-HasLeft rel nodes path file
              (emptied-HasLeft (faults.rmdir rel) rel (remove_nodes faults rel nodes) path file k))
          h

    remove_nodes-HasLeft :
        (prefix : Text) (nodes : Nodes) (path : Text) (file : Entry)
        → HasFileBelow prefix (remove_nodes faults prefix nodes).1 path file
        → HasFileBelow prefix nodes path file
    remove_nodes-HasLeft prefix nothing path file h = h
    remove_nodes-HasLeft prefix (entry name node rest) path file h =
        then_others-HasLeft prefix name node rest (remove_node faults (child_of prefix name) node)
          (remove_nodes faults prefix rest) path file
          (λ k. remove_node-HasLeft (child_of prefix name) node path file k)
          (λ k. remove_nodes-HasLeft prefix rest path file k) h

  -- All is removed, or a system call has failed and something is left.
  abbrev pub IsRemoval : Result Error (Unit {0}) × Option Node → Type 0
  IsRemoval removal =
      (removal ≡ (ok tt, none))
      ⊎ (IsFaulty × ((e : Error) × (left : Node) × (removal ≡ (err e, some left))))

  abbrev IsEmptying : Result Error (Unit {0}) × Nodes → Type 0
  IsEmptying removal =
      (removal ≡ (ok tt, nothing))
      ⊎ (IsFaulty × ((e : Error) × (left : Nodes) × (removal ≡ (err e, left))))

  unlinked-IsRemoval :
      (link fails : Bool) (rel : Text) (e : Entry)
      → link ≡ false
      → faults.unlink rel ≡ fails
      → IsRemoval (unlinked link fails e)
  unlinked-IsRemoval true fails rel e l f = cc
  unlinked-IsRemoval false true rel e l f = inr ((rel, ground (arith, f)), (os_error, leaf e, refl))
  unlinked-IsRemoval false false rel e l f = inl refl

  emptied-IsRemoval :
      (fails : Bool) (rel : Text) (removal : Result Error (Unit {0}) × Nodes)
      → faults.rmdir rel ≡ fails
      → IsEmptying removal
      → IsRemoval (emptied fails removal)
  emptied-IsRemoval true rel removal f (inl h) =
      rw h (inr ((rel, ground (arith, f)), (os_error, folder nothing, refl)))
  emptied-IsRemoval false rel removal f (inl h) = rw h (inl refl)
  emptied-IsRemoval fails rel removal f (inr (faulty, (e, left, h))) =
      rw h (inr (faulty, (e, folder left, refl)))

  opened_child-IsRemoval :
      (fails : Bool) (rel : Text) (nodes : Nodes) (removal : Result Error (Unit {0}) × Option Node)
      → faults.open_child rel ≡ fails
      → IsRemoval removal
      → IsRemoval (opened_child fails nodes removal)
  opened_child-IsRemoval true rel nodes removal f h =
      inr ((rel, ground (arith, f)), (os_error, folder nodes, refl))
  opened_child-IsRemoval false rel nodes removal f h = h

  then_others-IsEmptying :
      (name : Text) (rest : Nodes) (removal : Result Error (Unit {0}) × Option Node)
      (others : Result Error (Unit {0}) × Nodes)
      → IsRemoval removal
      → IsEmptying others
      → IsEmptying (then_others name removal rest others)
  then_others-IsEmptying name rest removal others (inl h) (inl k) = rw (h, k) (inl refl)
  then_others-IsEmptying name rest removal others (inl h) (inr (faulty, (e, left, k))) =
      rw (h, k) (inr (faulty, (e, left, refl)))
  then_others-IsEmptying name rest removal others (inr (faulty, (e, left, h))) k =
      rw h (inr (faulty, (e, entry name left rest, refl)))

  not_link :
      (rel : Text) (e : Entry) (below : List Text)
      → scan_node rel (leaf e) ≡ ok below
      → is_symlink_kind e.kind ≡ false
  unfolding scan_node
  not_link rel e below h = elim (Bool-cases (is_symlink_kind e.kind)) [
    | inl s ↦ cc (rw s at h)
    | inr s ↦ s
  ]

  -- What `_scandir_tree` went through without a symbolic link.
  mutual
    unfolding scan_node remove_node

    pub scan_node-IsRemoval :
        (rel : Text) (node : Node) (below : List Text)
        → scan_node rel node ≡ ok below
        → IsRemoval (remove_node faults rel node)
    scan_node-IsRemoval rel (leaf e) below h =
        unlinked-IsRemoval (is_symlink_kind e.kind) (faults.unlink rel) rel e
          (not_link rel e below h) refl
    scan_node-IsRemoval rel (folder nodes) below h =
        opened_child-IsRemoval (faults.open_child rel) rel nodes
          (emptied (faults.rmdir rel) (remove_nodes faults rel nodes)) refl
          (emptied-IsRemoval (faults.rmdir rel) rel (remove_nodes faults rel nodes) refl
            (scan_nodes-IsEmptying rel nodes below h))

    scan_nodes-IsEmptying :
        (prefix : Text) (nodes : Nodes) (below : List Text)
        → scan_nodes prefix nodes ≡ ok below
        → IsEmptying (remove_nodes faults prefix nodes)
    scan_nodes-IsEmptying prefix nothing below h = inl refl
    scan_nodes-IsEmptying prefix (entry name node rest) below h =
        let (here, a, h₁) = >>=-eq-ok (scan_node (child_of prefix name) node) _ h in
        let (others, b, h₂) = >>=-eq-ok (scan_nodes prefix rest) _ h₁ in
        then_others-IsEmptying name rest (remove_node faults (child_of prefix name) node)
          (remove_nodes faults prefix rest) (scan_node-IsRemoval (child_of prefix name) node here a)
          (scan_nodes-IsEmptying prefix rest others b)

-- Where a node is, its parent directory can be opened.
pub node_at-found :
    (relative : Text) (root : Nodes) (node : Node)
    → node_at relative root ≡ ok node
    → (parent : Nodes) × (name : Text) × (opened_parent (components relative) root
        ≡ ok (parent, name))
      × (find name parent ≡ some node)
unfolding node_at
node_at-found relative root node h =
    let ((parent, name), a, h₁) = >>=-eq-ok (opened_parent (components relative) root) _ h in
    (parent, name, a, there (find name parent) h₁)
  where
    by_link :
        (other : Node)
        → ((is_symlink_node other ≡ true) ⊎ (is_symlink_node other ≡ false))
        → ensure_not_symlink (some other) ≡ ok node
        → some other ≡ some node
    by_link other (inl s) k = cc (rw s at k)
    by_link other (inr s) k = ap some (ok-injective other node (rw s at k))

    there : (found : Option Node) → ensure_not_symlink found ≡ ok node → found ≡ some node
    there none k = cc
    there (some other) k = by_link other (Bool-cases (is_symlink_node other)) k

pub node_at-root : (root : Nodes) → node_at [] root ≡ err vault_path
unfolding node_at components split opened_parent ◌==◌ text_eq
node_at-root root = refl

pub scanned :
    (relative : Text) (root : Nodes) (paths : List Text) (node : Node)
    → tree_paths_of relative root ≡ ok paths
    → node_at relative root ≡ ok node
    → (below : List Text) × (scan_node relative node ≡ ok below)
unfolding tree_paths_of
scanned relative root paths node h k = elim (Bool-cases (relative == [])) [
  | inl s ↦
      let at_root = ap (λ path. node_at path root) ((==_iff relative []).0 s) in
      cc (sym k ∙ (at_root ∙ node_at-root root))
  | inr s ↦
      let (top, a, h₁) = >>=-eq-ok (node_at relative root) _ (rw s at h) in
      let (below, b, h₂) = >>=-eq-ok (scan_node relative top) _ h₁ in
      (below, ap (scan_node relative) (ok-injective node top (sym k ∙ a)) ∙ b)
]
