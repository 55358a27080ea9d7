-- ===== src/Storage/Files/Readable.antt =====
-- What `list_files` of src/obsidian_mcp/storage/filesystem.py finds.
use brain_mcp.Base.{
  ◌≡◌, refl, ap, sym, subst, ◌∙◌, ◌↔◌, ◌⊎◌, inl, inr, Bool, true, false, ◌||◌, List, [], ◌∷◌, ◌++◌,
  contains, ==_iff, ==_refl, Bool-cases, Result, ok, err, ok-injective, >>=-eq-ok, arith,
}
use brain_mcp.Base.Text.{Text, text_eq}
use brain_mcp.Errors.{Error}
use brain_mcp.Storage.{Entry}
use brain_mcp.Storage.Gate.{Gate}
use brain_mcp.Storage.Files.{
  Node, Nodes, leaf, folder, nothing, entry, info_of, is_symlink_kind, child_of, opened_dir,
}
use brain_mcp.Storage.Files.Listing.{entered, walk_node, walk_nodes, walked, is_skipped, list_files}

contains-append :
    (xs ys : List Text) (x : Text) → contains (xs ++ ys) x ≡ (contains xs x || contains ys x)
contains-append [] ys x = refl
contains-append (y ∷ xs) ys x = ground (arith, contains-append xs ys x)

module _ (gate : Gate) (opens : Text → Bool) where
  -- A file that a caller may discover: no symbolic link, authorized, as is every directory that
  -- leads to it, each of which can be opened.
  unfoldable mutual
    pub IsListed : Text → Node → Text → Type 0
    IsListed rel (leaf e) path =
        (is_symlink_kind e.kind ≡ false) × (gate.authorize rel (info_of (leaf e)) ≡ ok path)
    IsListed rel (folder nodes) path =
        ((p : Text) × (gate.authorize rel (info_of (folder nodes)) ≡ ok p))
        × (opens rel ≡ true)
        × IsListedBelow rel nodes path

    pub IsListedBelow : Text → Nodes → Text → Type 0
    IsListedBelow prefix nothing path = ⊥
    IsListedBelow prefix (entry name node rest) path =
        IsListed (child_of prefix name) node path ⊎ IsListedBelow prefix rest path

  -- What the walk found in one entry is what was authorized.
  walked-found :
      (answer : Result Error Text) (continue : Text → Result Error (List Text)) (found : List Text)
      (path : Text)
      → walked answer continue ≡ ok found
      → contains found path ≡ true
      → (p : Text) × (answer ≡ ok p) × (continue p ≡ ok found)
  walked-found (ok p) continue found path h k = (p, refl, h)
  walked-found (err e) continue found path h k = elim (Bool-cases (is_skipped e)) [
    | inl s ↦ cc (ok-injective [] found (rw s at h), k)
    | inr s ↦ cc (rw s at h)
  ]

  entered-ok :
      (opened : Bool) (below : Result Error (List Text)) (found : List Text) (path : Text)
      → entered gate opens opened below ≡ ok found
      → contains found path ≡ true
      → (opened ≡ true) × (below ≡ ok found)
  entered-ok true below found path h k = (refl, h)
  entered-ok false below found path h k = cc (ok-injective [] found h, k)

  one-found :
      (p path : Text) (found : List Text)
      → ◌≡◌ {A = Result Error (List Text)} (ok (p ∷ [])) (ok found)
      → contains found path ≡ true
      → p ≡ path
  one-found p path found h k = ground (
    arith,
    ==_iff path p,
    subst (λ xs. contains xs path ≡ true) (sym (ok-injective (p ∷ []) found h)) k,
  )

  in_rest :
      (here others found : List Text) (path : Text)
      → ◌≡◌ {A = Result Error (List Text)} (ok (here ++ others)) (ok found)
      → contains here path ≡ false
      → contains found path ≡ true
      → contains others path ≡ true
  in_rest here others found path h m k =
      ground (arith, contains-append here others path, ok-injective (here ++ others) found h)

  joined :
      (here others found : List Text) (path : Text)
      → ◌≡◌ {A = Result Error (List Text)} (ok (here ++ others)) (ok found)
      → (contains here path ≡ true) ⊎ (contains others path ≡ true)
      → contains found path ≡ true
  joined here others found path h m =
      ground (arith, contains-append here others path, ok-injective (here ++ others) found h, m)

  leaf_sound :
      (rel : Text) (e : Entry) (found : List Text) (path : Text)
      → walk_node gate opens rel (leaf e) ≡ ok found
      → contains found path ≡ true
      → IsListed rel (leaf e) path
  unfolding walk_node IsListed
  leaf_sound rel e found path h k = elim (Bool-cases (is_symlink_kind e.kind)) [
    | inl s ↦ cc (ok-injective [] found (rw s at h), k)
    | inr s ↦
        let (p, a, b) = walked-found _ _ found path (rw s at h) k in
        (s, a ∙ ap ok (one-found p path found b k))
  ]

  leaf_complete :
      (rel : Text) (e : Entry) (found : List Text) (path : Text)
      → is_symlink_kind e.kind ≡ false
      → gate.authorize rel (info_of (leaf e)) ≡ ok path
      → walk_node gate opens rel (leaf e) ≡ ok found
      → contains found path ≡ true
  unfolding walk_node
  leaf_complete rel e found path s a h =
      subst (λ xs. contains xs path ≡ true) (ok-injective (path ∷ []) found (rw (s, a) at h))
        (ground (arith, ==_refl path))

  mutual
    unfolding walk_node IsListed

    walk_node_sound :
        (rel : Text) (node : Node) (found : List Text) (path : Text)
        → walk_node gate opens rel node ≡ ok found
        → contains found path ≡ true
        → IsListed rel node path
    walk_node_sound rel (leaf e) found path h k = leaf_sound rel e found path h k
    walk_node_sound rel (folder nodes) found path h k =
        let (p, a, b) = walked-found _ _ found path h k in
        let (o, below) = entered-ok (opens rel) _ found path b k in
        ((p, a), o, walk_nodes_sound rel nodes found path below k)

    walk_nodes_sound :
        (prefix : Text) (nodes : Nodes) (found : List Text) (path : Text)
        → walk_nodes gate opens prefix nodes ≡ ok found
        → contains found path ≡ true
        → IsListedBelow prefix nodes path
    walk_nodes_sound prefix nothing found path h k = cc (ok-injective _ _ h)
    walk_nodes_sound prefix (entry name node rest) found path h k =
        let (here, a, h₁) = >>=-eq-ok (walk_node gate opens (child_of prefix name) node) _ h in
        let (others, b, h₂) = >>=-eq-ok (walk_nodes gate opens prefix rest) _ h₁ in
        elim (Bool-cases (contains here path)) [
          | inl m ↦ inl (walk_node_sound (child_of prefix name) node here path a m)
          | inr m ↦
              inr
                (walk_nodes_sound prefix rest others path b (in_rest here others found path h₂ m k))
        ]

    walk_node_complete :
        (rel : Text) (node : Node) (found : List Text) (path : Text)
        → walk_node gate opens rel node ≡ ok found
        → IsListed rel node path
        → contains found path ≡ true
    walk_node_complete rel (leaf e) found path h (k, a) = leaf_complete rel e found path k a h
    walk_node_complete rel (folder nodes) found path h ((p, a), o, below) =
        walk_nodes_complete rel nodes found path (rw (a, o) at h) below

    walk_nodes_complete :
        (prefix : Text) (nodes : Nodes) (found : List Text) (path : Text)
        → walk_nodes gate opens prefix nodes ≡ ok found
        → IsListedBelow prefix nodes path
        → contains found path ≡ true
    walk_nodes_complete prefix nothing found path h k = elim k [ ]
    walk_nodes_complete prefix (entry name node rest) found path h (inl k) =
        let (here, a, h₁) = >>=-eq-ok (walk_node gate opens (child_of prefix name) node) _ h in
        let (others, b, h₂) = >>=-eq-ok (walk_nodes gate opens prefix rest) _ h₁ in
        joined here others found path h₂
          (inl (walk_node_complete (child_of prefix name) node here path a k))
    walk_nodes_complete prefix (entry name node rest) found path h (inr k) =
        let (here, a, h₁) = >>=-eq-ok (walk_node gate opens (child_of prefix name) node) _ h in
        let (others, b, h₂) = >>=-eq-ok (walk_nodes gate opens prefix rest) _ h₁ in
        joined here others found path h₂ (inr (walk_nodes_complete prefix rest others path b k))

  pub list_files-IsListedBelow :
      (path : Text) (root : Nodes) (found : List Text)
      → list_files gate opens path root ≡ ok found
      → (target : Text) × (nodes : Nodes) × (gate.resolve_read path true ≡ ok target)
        × (opened_dir target root ≡ ok nodes)
        × ((file : Text) → (contains found file ≡ true) ↔ IsListedBelow target nodes file)
  unfolding list_files
  list_files-IsListedBelow path root found h =
      let (target, a, h₁) = >>=-eq-ok (gate.resolve_read path true) _ h in
      let (nodes, b, h₂) = >>=-eq-ok (opened_dir target root) _ h₁ in
      (
        target,
        nodes,
        a,
        b,
        λ file. (
          walk_nodes_sound target nodes found file h₂,
          walk_nodes_complete target nodes found file h₂,
        ),
      )
