-- ===== src/Storage/Files/Inside.antt =====
-- What lies in a tree of src/obsidian_mcp/storage/filesystem.py, by its paths, and that
-- `_scandir_tree` goes through all of it.
use brain_mcp.Base.{
  ◌≡◌, sym, subst, ◌⊎◌, inl, inr, List, [], ◌∷◌, ◌++◌, All, ok, >>=-eq-ok, ok-injective,
}
use brain_mcp.Base.Text.{Text}
use brain_mcp.Errors.{Error}
use brain_mcp.Storage.{Entry}
use brain_mcp.Storage.Files.{
  Node, Nodes, leaf, folder, nothing, entry, child_of, scan_node, scan_nodes,
}

-- A path is that of the node, or of something below it.
unfoldable mutual
  pub IsIn : Text → Node → Text → Type 0
  IsIn rel (leaf e) path = path ≡ rel
  IsIn rel (folder nodes) path = (path ≡ rel) ⊎ IsBelow rel nodes path

  pub IsBelow : Text → Nodes → Text → Type 0
  IsBelow prefix nothing path = ⊥
  IsBelow prefix (entry name node rest) path =
      IsIn (child_of prefix name) node path ⊎ IsBelow prefix rest path

-- A file with its path.
unfoldable mutual
  pub HasFile : Text → Node → Text → Entry → Type 0
  HasFile rel (leaf e) path file = (path ≡ rel) × (e ≡ file)
  HasFile rel (folder nodes) path file = HasFileBelow rel nodes path file

  pub HasFileBelow : Text → Nodes → Text → Entry → Type 0
  HasFileBelow prefix nothing path file = ⊥
  HasFileBelow prefix (entry name node rest) path file =
      HasFile (child_of prefix name) node path file ⊎ HasFileBelow prefix rest path file

All-split : (P : Text → Type 0) (xs ys : List Text) → All P (xs ++ ys) → All P xs × All P ys
All-split P [] ys a = (tt, a)
All-split P (x ∷ xs) ys a = let (b, c) = All-split P xs ys a.1 in ((a.0, b), c)

-- What holds of each path that `_scandir_tree` finds holds of each path in the tree.
mutual
  unfolding scan_node IsIn

  pub scan_node-IsIn :
      (P : Text → Type 0) (rel : Text) (node : Node) (below : List Text) (path : Text)
      → scan_node rel node ≡ ok below
      → P rel
      → All P below
      → IsIn rel node path
      → P path
  scan_node-IsIn P rel (leaf e) below path h p a i = subst P (sym i) p
  scan_node-IsIn P rel (folder nodes) below path h p a (inl i) = subst P (sym i) p
  scan_node-IsIn P rel (folder nodes) below path h p a (inr i) =
      scan_nodes-IsBelow P rel nodes below path h a i

  scan_nodes-IsBelow :
      (P : Text → Type 0) (prefix : Text) (nodes : Nodes) (below : List Text) (path : Text)
      → scan_nodes prefix nodes ≡ ok below
      → All P below
      → IsBelow prefix nodes path
      → P path
  scan_nodes-IsBelow P prefix nothing below path h a i = elim i [ ]
  scan_nodes-IsBelow P prefix (entry name node rest) below path h a (inl i) =
      let (here, k, h₁) = >>=-eq-ok (scan_node (child_of prefix name) node) _ h in
      let (others, l, h₂) = >>=-eq-ok (scan_nodes prefix rest) _ h₁ in
      let all_of =
        subst (All P)
          (sym (ok-injective {E = Error} (child_of prefix name ∷ here ++ others) below h₂)) a in
      scan_node-IsIn P (child_of prefix name) node here path k all_of.0
        (All-split P here others all_of.1).0 i
  scan_nodes-IsBelow P prefix (entry name node rest) below path h a (inr i) =
      let (here, k, h₁) = >>=-eq-ok (scan_node (child_of prefix name) node) _ h in
      let (others, l, h₂) = >>=-eq-ok (scan_nodes prefix rest) _ h₁ in
      let all_of =
        subst (All P)
          (sym (ok-injective {E = Error} (child_of prefix name ∷ here ++ others) below h₂)) a in
      scan_nodes-IsBelow P prefix rest others path l (All-split P here others all_of.1).1 i
