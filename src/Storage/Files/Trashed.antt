-- ===== src/Storage/Files/Trashed.antt =====
-- What `trash` and `restore` of src/obsidian_mcp/storage/filesystem.py have checked, and
-- that they overwrite nothing.
use brain_mcp.Base.{
  ℕ, ◌≡◌, ◌≢◌, refl, ==_iff, ==_refl, ◌==◌, Bool-cases, Option, some, ap, subst, sym, ◌∙◌, false,
  none, Option-cases, List, All, [], ◌∷◌, inl, inr, >>=-eq-ok, ok-injective, ◌>>◌, ◌>>=◌, ok,
}
use brain_mcp.Base.Text.{Text, text_eq}
use brain_mcp.Index.{last_dot}
use brain_mcp.Errors.{Error}
use brain_mcp.Storage.Gate.{Gate}
use brain_mcp.Storage.Files.{
  Node, Nodes, leaf, folder, nothing, opened_parent, in_child, ensure_not_symlink, scan_node, find,
  put, drop, components, change_parent, node_at, is_folder,
}
use brain_mcp.Storage.Files.Laws.{find-put, find-drop, opened_parent-change_parent}
use brain_mcp.Storage.Files.Removal.{node_at-found}
use brain_mcp.Storage.Files.Inside.{IsIn, scan_node-IsIn}
use brain_mcp.Storage.Files.Authorize.{preauthorize, authorize_all, check_crossing}
use brain_mcp.Storage.Files.Mutate.{opened_write_parent, destination_free}
use brain_mcp.Storage.Files.Granted.{
  guarded-ok, state-ok, Granted, authorize_all-Granted, IsAuthorized, preauthorize-IsAuthorized,
  IsChangedAt, IsDeletable, IsAuthorized-IsDeletable,
}
use brain_mcp.Storage.Files.Trash.{
  trash, check_trash, trash_dir, trash_node, opened_trash, with_trash, into_trash, last_part,
  suffixed, destination_name, restore, check_restore, restored_paths,
}

check_trash-IsAuthorized :
    (gate : Gate) (storage : ℕ) (path source : Text) (root : Nodes)
    → check_trash gate storage none path root ≡ ok source
    → IsAuthorized gate source none false root
unfolding check_trash
check_trash-IsAuthorized gate storage path source root h =
    let (found, _, h₁) = >>=-eq-ok (gate.resolve_delete path false) _ h in
    let (u, b, h₂) = >>=-eq-ok (preauthorize gate storage none found none false root) _ h₁ in
    subst (λ x. IsAuthorized gate x none false root) (ok-injective found source h₂)
      (preauthorize-IsAuthorized gate storage found none false root u b)

destination_name-free :
    (fresh name : Text) (items : Nodes)
    → find (suffixed fresh name (last_dot name)) items ≡ none
    → find (destination_name fresh name (find name items)) items ≡ none
destination_name-free fresh name items h = elim (Option-cases (find name items)) [
  | inl absent ↦ rw absent absent
  | inr (node, there) ↦ rw there h
]

-- The trash directory is there when another entry is dropped.
trash-kept :
    (names : List Text) (root items : Nodes)
    → names ≢ (trash_dir ∷ [])
    → find trash_dir root ≡ some (folder items)
    → (kept : Nodes) × (find trash_dir (change_parent names drop root) ≡ some (folder kept))
unfolding change_parent
trash-kept [] root items d h = (items, h)
trash-kept (name ∷ []) root items d h =
    (items, find-drop name trash_dir root ∙ rw (==_of_ne_text name (λ e. d (ap (λ x. x ∷ []) e))) h)
  where
    ==_of_ne_text : (name : Text) → name ≢ trash_dir → (name == trash_dir) ≡ false
    ==_of_ne_text name e = elim (Bool-cases (name == trash_dir)) [
      | inl same ↦ elim (e ((==_iff name trash_dir).0 same)) [ ]
      | inr other ↦ other
    ]
trash-kept (name ∷ next ∷ names) root items d h = below (find name root)
  where
    below :
        (found : Option Node)
        → (kept : Nodes) × (find trash_dir
              (in_child (change_parent (next ∷ names) drop) name found root)
            ≡ some (folder kept))
    below none = (items, h)
    below (some (leaf e)) = (items, h)
    below (some (folder child)) =
        let changed = change_parent (next ∷ names) drop child in
        elim (Bool-cases (name == trash_dir)) [
          | inl e ↦ (changed, find-put name trash_dir (folder changed) root ∙ rw e refl)
          | inr e ↦ (items, find-put name trash_dir (folder changed) root ∙ rw e h)
        ]

with_trash-there :
    (found : Option Node) (root items : Nodes)
    → find trash_dir root ≡ found
    → opened_trash found ≡ ok items
    → find trash_dir (with_trash found root) ≡ some (folder items)
with_trash-there none root items f h =
    find-put trash_dir trash_dir (folder nothing) root
    ∙ rw (==_refl trash_dir) (ap (λ x. some (folder x)) (ok-injective {E = Error} nothing items h))
with_trash-there (some (folder nodes)) root items f h =
    f ∙ ap (λ x. some (folder x)) (ok-injective {E = Error} nodes items h)
with_trash-there (some (leaf e)) root items f h = cc

-- Both ends of the move into the trash: the source goes, and the node is there.
unfoldable pub IsTrashed : Text → Text → Node → Nodes → Nodes → Type 0
IsTrashed source name node opened after =
    (middle : Nodes) × IsChangedAt (components source) none opened middle
    × IsChangedAt (trash_dir ∷ name ∷ []) (some node) middle after

into_trash-IsTrashed :
    (source name : Text) (node : Node) (opened items : Nodes)
    → components source ≢ (trash_dir ∷ [])
    → find trash_dir opened ≡ some (folder items)
    → node_at source opened ≡ ok node
    → IsTrashed source name node opened (into_trash source name node opened)
unfolding IsTrashed opened_parent
into_trash-IsTrashed source name node opened items d t n =
    let (parent, leaf_name, p, f) = node_at-found source opened node n in
    let middle = change_parent (components source) drop opened in
    let (kept, k) = trash-kept (components source) opened items d t in
    let at_trash : opened_parent (trash_dir ∷ name ∷ []) middle ≡ ok (kept, name) = rw k refl in
    (
      middle,
      record {
        parent = parent;
        changed = drop leaf_name parent;
        name = leaf_name;
        before_there = p;
        there = opened_parent-change_parent (components source) drop opened parent leaf_name p;
        at_path = find-drop leaf_name leaf_name parent ∙ rw (==_refl leaf_name) refl;
        others = λ other e. find-drop leaf_name other parent ∙ rw e refl;
      },
      record {
        parent = kept;
        changed = put name node kept;
        name = name;
        before_there = at_trash;
        there =
            opened_parent-change_parent (trash_dir ∷ name ∷ []) (λ leaf. put leaf node) middle kept
              name at_trash;
        at_path = find-put name name node kept ∙ rw (==_refl name) refl;
        others = λ other e. find-put name other node kept ∙ rw e refl;
      },
    )

-- A new trash directory hides nothing.
find-new_trash :
    (name : Text) (root : Nodes) (node : Node)
    → find trash_dir root ≡ none
    → find name root ≡ some node
    → find name (put trash_dir (folder nothing) root) ≡ some node
find-new_trash name root node t h = elim (Bool-cases (trash_dir == name)) [
  | inl e ↦ let same = (==_iff trash_dir name).0 e in cc (sym t ∙ (ap (λ x. find x root) same ∙ h))
  | inr e ↦ find-put trash_dir name (folder nothing) root ∙ rw e h
]

node_at-new_trash :
    (source : Text) (root : Nodes) (node : Node)
    → find trash_dir root ≡ none
    → node_at source root ≡ ok node
    → node_at source (put trash_dir (folder nothing) root) ≡ ok node
unfolding node_at opened_parent
node_at-new_trash source root node t h = at_names (components source) h
  where
    at_names :
        (names : List Text)
        → (opened_parent names root >>= λ parent. ensure_not_symlink (find (parent.1) (parent.0)))
          ≡ ok node
        → (opened_parent names (put trash_dir (folder nothing) root) >>= λ parent.
            ensure_not_symlink (find (parent.1) (parent.0)))
          ≡ ok node
    at_names [] k = cc
    at_names (name ∷ []) k = elim (Option-cases (find name root)) [
      | inl none_there ↦ cc (rw none_there at k)
      | inr (found, there) ↦ rw (find-new_trash name root found t there) (rw there at k)
    ]
    at_names (name ∷ next ∷ names) k = elim (Option-cases (find name root)) [
      | inl none_there ↦ cc (rw none_there at k)
      | inr (found, there) ↦ rw (find-new_trash name root found t there) (rw there at k)
    ]

node_at-with_trash :
    (source : Text) (root : Nodes) (found : Option Node) (node : Node)
    → find trash_dir root ≡ found
    → node_at source root ≡ ok node
    → node_at source (with_trash found root) ≡ ok node
node_at-with_trash source root none node t h = node_at-new_trash source root node t h
node_at-with_trash source root (some trash_node) node t h = h

pub trash-IsTrashed :
    (gate : Gate) (storage : ℕ) (fresh path source name : Text) (root after items : Nodes)
    → trash gate storage none fresh path root ≡ (ok (source, name), after)
    → components source ≢ (trash_dir ∷ [])
    → opened_trash (find trash_dir root) ≡ ok items
    → find (suffixed fresh (last_part source) (last_dot (last_part source))) items ≡ none
    → (node : Node) × (node_at source root ≡ ok node)
      × IsDeletable gate source node false
      × (find name items ≡ none)
      × IsTrashed source name node (with_trash (find trash_dir root) root) after
unfolding trash
trash-IsTrashed gate storage fresh path source name root after items h d o f =
    let (s, a, h₁) = guarded-ok (check_trash gate storage none path root) root _ h in
    let (found, b, h₂) = guarded-ok (opened_trash (find trash_dir root)) root _ h₁ in
    let opened = with_trash (find trash_dir root) root in
    let (node, c, h₃) = guarded-ok (node_at s opened) opened _ h₂ in
    let name_of : Text → Text =
      λ x. destination_name fresh (last_part x) (find (last_part x) found) in
    let (same, left) =
      state-ok (s, name_of s) (source, name) (into_trash s (name_of s) node opened) after h₃ in
    let at_source : source ≡ s = sym (ap (λ (x : Text × Text). x.0) same) in
    let at_name : name_of s ≡ name = ap (λ (x : Text × Text). x.1) same in
    let in_found : found ≡ items = ok-injective {E = Error} found items (sym b ∙ o) in
    let free = destination_name-free fresh (last_part s) found (
      subst
        (λ (x : Text × Nodes).
          find (suffixed fresh (last_part x.0) (last_dot (last_part x.0))) x.1 ≡ none)
        (ap (λ x. (x, items)) at_source ∙ ap (λ i. (s, i)) (sym in_found)) f) in
    let authorized =
      subst (λ x. IsAuthorized gate x none false root) (sym at_source)
        (check_trash-IsAuthorized gate storage path s root a) in
    let there =
      node_at-with_trash source root (find trash_dir root) authorized.node refl authorized.there in
    let moved : node ≡ authorized.node =
      ok-injective {E = Error} node authorized.node
        (sym c ∙ (ap (λ x. node_at x opened) (sym at_source) ∙ there)) in
    (
      authorized.node,
      authorized.there,
      IsAuthorized-IsDeletable gate source none false root authorized,
      subst (λ (x : Text × Nodes). find x.0 x.1 ≡ none)
          (ap (λ n. (n, found)) at_name ∙ ap (λ i. (name, i)) in_found) free,
      subst (IsTrashed source name authorized.node opened)
          (sym (
              ap (λ (x : Text × Text). into_trash x.0 x.1 node opened) same
              ∙ ap (λ x. into_trash source name x opened) moved)
            ∙ left)
          (into_trash-IsTrashed source name authorized.node opened items d
            (with_trash-there (find trash_dir root) root items refl o) there),
    )

-- Of a path, the first name is not that of the trash.
abbrev pub IsElsewhere : List Text → Type 0
IsElsewhere [] = Unit
IsElsewhere (name ∷ names) = (trash_dir == name) ≡ false

-- An entry of the trash that is dropped leaves the other directories where they were.
opened_parent-elsewhere :
    (names : List Text) (name : Text) (made parent : Nodes) (leaf_name : Text)
    → IsElsewhere names
    → opened_parent names made ≡ ok (parent, leaf_name)
    → (kept : Nodes) × (opened_parent names (change_parent (trash_dir ∷ name ∷ []) drop made)
        ≡ ok (kept, leaf_name))
unfolding opened_parent change_parent
opened_parent-elsewhere [] name made parent leaf_name d h = cc
opened_parent-elsewhere (n ∷ []) name made parent leaf_name d h = (
  change_parent (trash_dir ∷ name ∷ []) drop made,
  ap (λ (x : Nodes × Text). ok (change_parent (trash_dir ∷ name ∷ []) drop made, x.1))
      (ok-injective {E = Error} (made, n) (parent, leaf_name) h),
)
opened_parent-elsewhere (n ∷ next ∷ names) name made parent leaf_name d h =
    (parent, below (find trash_dir made))
  where
    below :
        (found : Option Node)
        → opened_parent
            (n ∷ next ∷ names)
            (in_child (change_parent (name ∷ []) drop) trash_dir found made)
          ≡ ok (parent, leaf_name)
    below none = h
    below (some (leaf e)) = h
    below (some (folder child)) = rw (find-put trash_dir n (folder (drop name child)) made, d) h

-- Every path that the entry and what is below it get may be written, nothing was at the
-- destination, the entry is dropped from the trash, the node is at the destination, and no other
-- entry of the directory there changes.
pub record IsRestored (gate : Gate) (name destination : Text) (root after : Nodes) : Type 0 where
  pub node : Node
  pub made : Nodes
  pub trashed : trash_node name root ≡ ok node
  pub writable : (path : Text) → IsIn destination node path → Granted (gate.resolve_write path)
  pub parents : opened_write_parent gate destination root ≡ (ok tt, made)
  pub free : destination_free destination made ≡ ok tt
  pub placed :
      IsChangedAt
        (components destination)
        (some node)
        (change_parent (trash_dir ∷ name ∷ []) drop made)
        after

check_restore-ok :
    (gate : Gate) (name to_path destination : Text) (node : Node) (root : Nodes)
    → check_restore gate name to_path root ≡ ok (destination, node)
    → (trash_node name root ≡ ok node)
      × ((paths : List Text) × (restored_paths destination node ≡ ok paths)
          × All (λ rel. Granted (gate.resolve_write rel)) paths)
unfolding check_restore
check_restore-ok gate name to_path destination node root h =
    let (n, c, h₁) = >>=-eq-ok (trash_node name root) _ h in
    let (d, _, h₂) = >>=-eq-ok (gate.resolve_write to_path) _ h₁ in
    let (u, _, h₃) = >>=-eq-ok (check_crossing gate (is_folder n) d) _ h₂ in
    let (paths, p, h₄) = >>=-eq-ok (restored_paths d n) _ h₃ in
    let (v, q, h₅) = >>=-eq-ok (authorize_all gate.resolve_write paths) _ h₄ in
    let granted = authorize_all-Granted gate.resolve_write paths v q in
    let Done : Text × Node → Type 0 = λ (x : Text × Node).
      (trash_node name root ≡ ok x.1)
      × ((all : List Text) × (restored_paths x.0 x.1 ≡ ok all)
          × All (λ rel. Granted (gate.resolve_write rel)) all) in
    subst Done (ok-injective (d, n) (destination, node) h₅) (c, (paths, p, granted))

pub restore-IsRestored :
    (gate : Gate) (name to_path destination : Text) (root after : Nodes)
    → restore gate name to_path root ≡ (ok destination, after)
    → IsElsewhere (components destination)
    → IsRestored gate name destination root after
unfolding restore destination_free
restore-IsRestored gate name to_path destination root after h d =
    let ((target, node), a, h₁) = guarded-ok (check_restore gate name to_path root) root _ h in
    let made = opened_write_parent gate target root in
    let (u, b, h₂) = guarded-ok (made.0 >> destination_free target made.1) made.1 _ h₁ in
    let (v, made_ok, free) = >>=-eq-ok made.0 _ b in
    let (trashed, (paths, complete, writable)) =
      check_restore-ok gate name to_path target node root a in
    let (at_destination, left) = state-ok target destination _ after h₂ in
    let ((parent, leaf_name), p, f) =
      >>=-eq-ok (opened_parent (components destination) made.1) _
        (subst (λ x. destination_free x made.1 ≡ ok u) at_destination free) in
    let middle = change_parent (trash_dir ∷ name ∷ []) drop made.1 in
    let (kept, k) =
      opened_parent-elsewhere (components destination) name made.1 parent leaf_name d p in
    let (below, c, l) = >>=-eq-ok (scan_node target node) _ complete in
    let same = ok-injective {E = Error} (target ∷ below) paths l in
    record {
      node = node;
      made = made.1;
      trashed = trashed;
      writable =
          subst (λ x. (path : Text) → IsIn x node path → Granted (gate.resolve_write path))
            at_destination
            (λ path i.
              let all_of =
                subst (All (λ rel. Granted (gate.resolve_write rel))) (sym same) writable in
              scan_node-IsIn (λ rel. Granted (gate.resolve_write rel)) target node below path c
                all_of.0 all_of.1 i);
      parents =
          subst (λ x. opened_write_parent gate x root ≡ (ok tt, made.1)) at_destination
            (ap (λ result. (result, made.1)) made_ok);
      free = subst (λ x. destination_free x made.1 ≡ ok u) at_destination free;
      placed =
          subst (IsChangedAt (components destination) (some node) middle)
            (ap (λ x. change_parent (components x) (λ leaf. put leaf node) middle)
                (sym at_destination)
              ∙ left)
            (record {
              parent = kept;
              changed = put leaf_name node kept;
              name = leaf_name;
              before_there = k;
              there =
                  opened_parent-change_parent (components destination) (λ leaf. put leaf node)
                    middle kept leaf_name k;
              at_path = find-put leaf_name leaf_name node kept ∙ rw (==_refl leaf_name) refl;
              others = λ other e. find-put leaf_name other node kept ∙ rw e refl;
            });
    }
