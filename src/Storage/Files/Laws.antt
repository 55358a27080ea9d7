-- ===== src/Storage/Files/Laws.antt =====
-- A directory tree by the names of its entries: what is found after a change of one entry,
-- for the tree of src/obsidian_mcp/storage/filesystem.py.
use brain_mcp.Base.{
  ◌≡◌, refl, Option, none, some, List, [], ◌∷◌, ◌==◌, ==_iff, ==_refl, ok, ok-injective, ◌>>=◌,
  if◌then◌else◌, arith,
}
use brain_mcp.Base.Text.{Text, text_eq}
use brain_mcp.Storage.Files.{
  Node, Nodes, leaf, folder, nothing, entry, find, put, drop, open_dir, opened_parent,
  change_parent, in_child,
}

pub find-put :
    (name other : Text) (node : Node) (nodes : Nodes)
    → find other (put name node nodes) ≡ (if name == other then some node else find other nodes)
unfolding find put
find-put name other node nothing = refl
find-put name other node (entry x n rest) =
    ground (arith, ==_iff x name, ==_iff x other, ==_iff name other, find-put name other node rest)

pub find-drop :
    (name other : Text) (nodes : Nodes)
    → find other (drop name nodes) ≡ (if name == other then none else find other nodes)
unfolding find drop
find-drop name other nothing = ground arith
find-drop name other (entry x n rest) =
    ground (arith, ==_iff x name, ==_iff x other, ==_iff name other, find-drop name other rest)

-- The parent directory of the changed tree is the changed parent directory.
pub opened_parent-change_parent :
    (names : List Text) (change : Text → Nodes → Nodes) (root parent : Nodes) (name : Text)
    → opened_parent names root ≡ ok (parent, name)
    → opened_parent names (change_parent names change root) ≡ ok (change name parent, name)
unfolding opened_parent change_parent
opened_parent-change_parent [] change root parent name h = cc
opened_parent-change_parent (n ∷ []) change root parent name h =
    cc (ok-injective (root, n) (parent, name) h)
opened_parent-change_parent (n ∷ next ∷ names) change root parent name h =
    below (find n root)
      (λ child k. opened_parent-change_parent (next ∷ names) change child parent name k) h
  where
    below :
        (found : Option Node)
        → ((child : Nodes)
            → opened_parent (next ∷ names) child ≡ ok (parent, name)
            → opened_parent (next ∷ names) (change_parent (next ∷ names) change child)
              ≡ ok (change name parent, name))
        → (open_dir found >>= λ child. opened_parent (next ∷ names) child) ≡ ok (parent, name)
        → opened_parent
            (n ∷ next ∷ names)
            (in_child (change_parent (next ∷ names) change) n found root)
          ≡ ok (change name parent, name)
    below none later k = cc
    below (some (leaf e)) later k = cc
    below (some (folder child)) later k =
        rw (find-put n n (folder (change_parent (next ∷ names) change child)) root, ==_refl n)
          (later child k)
