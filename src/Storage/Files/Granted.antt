-- ===== src/Storage/Files/Granted.antt =====
-- What `delete` of src/obsidian_mcp/storage/filesystem.py has checked before
-- it touches the tree, and what it then does to it.
use brain_mcp.Base.{
  ℕ, ◌≡◌, refl, ap, sym, Bool-cases, ==_iff, if◌then◌else◌, subst, ◌∙◌, ==_refl, ◌⊎◌, inl, inr,
  Bool, true, false, Option, none, some, List, All, [], ◌∷◌, ◌==◌, Result, ok, err, >>=-eq-ok,
  ok-injective,
}
use brain_mcp.Base.Text.{Text, text_eq}
use brain_mcp.Errors.{Error}
use brain_mcp.Storage.Gate.{Gate}
use brain_mcp.Storage.Files.{
  Node, Nodes, find, opened_parent, scan_node, components, change_parent, node_at, is_folder,
  tree_paths_of,
}
use brain_mcp.Storage.Files.Authorize.{
  authorize_all, preauthorize, authorize_resolved_tree, check_destination, check_crossing, mapped,
}
use brain_mcp.Storage.Files.Mutate.{
  Faults, replaced, remove_node, returning, remove_at, delete, check_delete, guarded,
}
use brain_mcp.Storage.Files.Laws.{find-put, find-drop, opened_parent-change_parent}
use brain_mcp.Storage.Files.Removal.{
  HasLeft, IsFaulty, IsRemoval, node_at-found, node_at-root, scanned, scan_node-IsRemoval,
  remove_node-HasLeft,
}
use brain_mcp.Storage.Files.Inside.{IsIn, HasFile, scan_node-IsIn}
use brain_mcp.Storage.{Entry}

pub guarded-ok {ℓ κ} :
    {A : Type ℓ} {B : Type κ} {b : B} {after : Nodes} (answer : Result Error A) (root : Nodes)
    (next : A → Result Error B × Nodes)
    → guarded answer root next ≡ (ok b, after)
    → (a : A) × (answer ≡ ok a) × (next a ≡ (ok b, after))
guarded-ok (err e) root next h = cc
guarded-ok (ok a) root next h = (a, refl, h)

pub returning-ok {ℓ} :
    {A : Type ℓ} {b : A} {after : Nodes} (a : A) (step : Result Error (Unit {0}) × Nodes)
    → returning a step ≡ (ok b, after)
    → (a ≡ b) × (step ≡ (ok tt, after))
returning-ok a (err e, root) h = cc
returning-ok a (ok u, root) h = (
  ok-injective {E = Error} a _ (ap (λ x. x.0) h),
  ap (λ (x : Result Error _ × Nodes). (ok tt, x.1)) h,
)

pub state-ok {ℓ} :
    {A : Type ℓ} (a b : A) (root after : Nodes)
    → ◌≡◌ {A = Result Error A × Nodes} (ok a, root) (ok b, after)
    → (a ≡ b) × (root ≡ after)
state-ok a b root after h = (ok-injective {E = Error} a b (ap (λ x. x.0) h), ap (λ x. x.1) h)

abbrev pub Granted : Result Error Text → Type 0
Granted answer = (target : Text) × (answer ≡ ok target)

pub authorize_all-Granted :
    (resolve : Text → Result Error Text) (paths : List Text) (u : Unit {0})
    → authorize_all resolve paths ≡ ok u
    → All (λ rel. Granted (resolve rel)) paths
unfolding authorize_all
authorize_all-Granted resolve [] u h = tt
authorize_all-Granted resolve (rel ∷ rels) u h =
    let (target, a, h₁) = >>=-eq-ok (resolve rel) _ h in
    ((target, a), authorize_all-Granted resolve rels u h₁)

-- Each path below the source may be written where it goes.
abbrev pub DestinationGranted : Gate → Text → Option Text → List Text → Type 0
DestinationGranted gate source none paths = Unit
DestinationGranted gate source (some destination) paths =
    All (λ rel. Granted (gate.resolve_write (mapped source destination rel))) paths

-- A source with all that is below it, each path of which may be deleted, and moved.
pub record IsAuthorized (gate : Gate) (source : Text) (destination : Option Text) (permanent : Bool)
    (root : Nodes) : Type 0 where
  pub paths : List Text
  pub node : Node
  pub complete : tree_paths_of source root ≡ ok paths
  pub there : node_at source root ≡ ok node
  pub deletable : All (λ rel. Granted (gate.resolve_delete rel permanent)) paths
  pub writable : DestinationGranted gate source destination paths

check_destination-Granted :
    (gate : Gate) (is_dir : Bool) (source : Text) (destination : Option Text) (paths : List Text)
    (u : Unit {0})
    → check_destination gate is_dir source destination paths ≡ ok u
    → DestinationGranted gate source destination paths
unfolding check_destination
check_destination-Granted gate is_dir source none paths u h = tt
check_destination-Granted gate is_dir source (some destination) paths u h =
    let (v, a, h₁) = >>=-eq-ok (check_crossing gate is_dir destination) _ h in
    authorize_all-Granted (λ rel. gate.resolve_write (mapped source destination rel)) paths u h₁

pub preauthorize-IsAuthorized :
    (gate : Gate) (storage : ℕ) (source : Text) (destination : Option Text) (permanent : Bool)
    (root : Nodes) (u : Unit {0})
    → preauthorize gate storage none source destination permanent root ≡ ok u
    → IsAuthorized gate source destination permanent root
unfolding preauthorize authorize_resolved_tree
preauthorize-IsAuthorized gate storage source destination permanent root u h =
    let (tree, t, _) =
      >>=-eq-ok (authorize_resolved_tree gate storage source destination permanent root) _ h in
    let (paths, a, h₁) = >>=-eq-ok (tree_paths_of source root) _ t in
    let (node, b, h₂) = >>=-eq-ok (node_at source root) _ h₁ in
    let (v, c, h₃) = >>=-eq-ok (check_crossing gate (is_folder node) source) _ h₂ in
    let (w, d, h₄) =
      >>=-eq-ok (authorize_all (λ rel. gate.resolve_delete rel permanent) paths) _ h₃ in
    let (x, e, h₅) =
      >>=-eq-ok (check_destination gate (is_folder node) source destination paths) _ h₄ in
    record {
      paths = paths;
      node = node;
      complete = a;
      there = b;
      deletable = authorize_all-Granted (λ rel. gate.resolve_delete rel permanent) paths w d;
      writable = check_destination-Granted gate (is_folder node) source destination paths x e;
    }

-- Each path in the tree, which is that of its top or lies below it, may be deleted.
abbrev pub IsDeletable : Gate → Text → Node → Bool → Type 0
IsDeletable gate source node permanent =
    (path : Text) → IsIn source node path → Granted (gate.resolve_delete path permanent)

pub IsAuthorized-IsDeletable :
    (gate : Gate) (source : Text) (destination : Option Text) (permanent : Bool) (root : Nodes)
    (a : IsAuthorized gate source destination permanent root)
    → IsDeletable gate source a.node permanent
unfolding tree_paths_of
IsAuthorized-IsDeletable gate source destination permanent root a path i =
    let P : Text → Type 0 = λ rel. Granted (gate.resolve_delete rel permanent) in
    elim (Bool-cases (source == [])) [
      | inl e ↦
          let at_root = ap (λ x. node_at x root) ((==_iff source []).0 e) in
          cc (sym a.there ∙ (at_root ∙ node_at-root root))
      | inr e ↦
          let (top, t, h₁) = >>=-eq-ok (node_at source root) _ (rw e at a.complete) in
          let (below, b, h₂) = >>=-eq-ok (scan_node source top) _ h₁ in
          let all_of =
            subst (All P) (sym (ok-injective {E = Error} (source ∷ below) a.paths h₂))
              a.deletable in
          let same = ok-injective {E = Error} top a.node (sym t ∙ a.there) in
          scan_node-IsIn P source a.node below path (ap (scan_node source) (sym same) ∙ b) all_of.0
            all_of.1 i
    ]

-- The parent directory of a path before and after a change, with the same entries but for one.
pub record IsChangedAt (path : List Text) (found : Option Node) (root after : Nodes) : Type 0 where
  pub parent : Nodes
  pub changed : Nodes
  pub name : Text
  pub before_there : opened_parent path root ≡ ok (parent, name)
  pub there : opened_parent path after ≡ ok (changed, name)
  pub at_path : find name changed ≡ found
  pub others : (other : Text) → (name == other) ≡ false → find other changed ≡ find other parent

-- What a deletion of an authorized tree may come to.
pub record IsDeletion (gate : Gate) (faults : Faults) (root : Nodes) (target : Text)
    (outcome : Result Error Text × Nodes) : Type 0 where
  pub node : Node
  pub there : node_at target root ≡ ok node
  pub deletable : IsDeletable gate target node true
  pub left : Option Node
  pub changed : IsChangedAt (components target) left root outcome.1
  pub whole : outcome.1 ≡ change_parent (components target) (replaced left) root
  pub kept :
      (path : Text) (file : Entry) → HasLeft target left path file → HasFile target node path file
  pub answer :
      ((outcome.0 ≡ ok target) × (left ≡ none))
      ⊎ (IsFaulty faults × ((e : Error) × (outcome.0 ≡ err e)))

replaced-find :
    (left : Option Node) (name other : Text) (parent : Nodes)
    → find other (replaced left name parent) ≡ (if name == other then left else find other parent)
replaced-find none name other parent = find-drop name other parent
replaced-find (some node) name other parent = find-put name other node parent

remove_at-IsDeletion :
    (gate : Gate) (faults : Faults) (target : Text) (root : Nodes)
    → IsAuthorized gate target none true root
    → IsDeletion gate faults root target (returning target (remove_at faults target root))
unfolding remove_at
remove_at-IsDeletion gate faults target root a =
    let (parent, name, p, f) = node_at-found target root a.node a.there in
    let (below, s) = scanned target root a.paths a.node a.complete a.there in
    rw (p, f)
      (by_removal parent name p (remove_node faults target a.node)
        (λ path file h. remove_node-HasLeft faults target a.node path file h)
        (scan_node-IsRemoval faults target a.node below s))
  where
    changed_at :
        (parent : Nodes) (name : Text)
        → opened_parent (components target) root ≡ ok (parent, name)
        → (left : Option Node)
        → IsChangedAt
            (components target)
            left
            root
            (change_parent (components target) (replaced left) root)
    changed_at parent name p left = record {
      parent = parent;
      changed = replaced left name parent;
      name = name;
      before_there = p;
      there = opened_parent-change_parent (components target) (replaced left) root parent name p;
      at_path = replaced-find left name name parent ∙ rw (==_refl name) refl;
      others = λ other d. replaced-find left name other parent ∙ rw d refl;
    }

    by_removal :
        (parent : Nodes) (name : Text)
        → opened_parent (components target) root ≡ ok (parent, name)
        → (removal : Result Error (Unit {0}) × Option Node)
        → ((path : Text) (file : Entry)
            → HasLeft target removal.1 path file
            → HasFile target a.node path file)
        → IsRemoval faults removal
        → IsDeletion gate faults root target (
            returning target
              (removal.0, change_parent (components target) (replaced removal.1) root))
    by_removal parent name p (ok u, left) kept (inl h) =
        let gone : left ≡ none = ap (λ x. x.1) h in
        record {
          node = a.node;
          there = a.there;
          deletable = IsAuthorized-IsDeletable gate target none true root a;
          left = left;
          changed = changed_at parent name p left;
          whole = refl;
          kept = kept;
          answer = inl (refl, gone);
        }
    by_removal parent name p (err e, left) kept (inl h) = cc
    by_removal parent name p (ok u, left) kept (inr (faulty, (e, node, h))) = cc
    by_removal parent name p (err e, left) kept (inr (faulty, (e₁, node, h))) = record {
      node = a.node;
      there = a.there;
      deletable = IsAuthorized-IsDeletable gate target none true root a;
      left = left;
      changed = changed_at parent name p left;
      whole = refl;
      kept = kept;
      answer = inr (faulty, (e, refl));
    }

check_delete-IsAuthorized :
    (gate : Gate) (storage : ℕ) (path target : Text) (root : Nodes)
    → check_delete gate storage none path root ≡ ok target
    → IsAuthorized gate target none true root
unfolding check_delete
check_delete-IsAuthorized gate storage path target root h =
    let (found, _, h₁) = >>=-eq-ok (gate.resolve_delete path true) _ h in
    let (u, b, h₂) = >>=-eq-ok (preauthorize gate storage none found none true root) _ h₁ in
    subst (λ x. IsAuthorized gate x none true root) (ok-injective found target h₂)
      (preauthorize-IsAuthorized gate storage found none true root u b)

-- `delete` of a path that no authorization is passed for either raises and leaves the tree as
-- it was; or it acts on a target of which each path, its own and every one below it, is one
-- that `resolve_delete` accepts for good, and changes the tree there only. Then it returns
-- and nothing is left at the target; or a system call has failed, it raises, and every file
-- that is left there was there before, with the same content.
pub delete-IsDeletion :
    (gate : Gate) (faults : Faults) (storage : ℕ) (path : Text) (root : Nodes)
    → ((e : Error) × (delete gate faults storage none path root ≡ (err e, root)))
      ⊎ ((target : Text) × IsDeletion gate faults root target
            (delete gate faults storage none path root))
unfolding delete
delete-IsDeletion gate faults storage path root =
    by_check (check_delete gate storage none path root) refl
  where
    by_check :
        (answer : Result Error Text)
        → check_delete gate storage none path root ≡ answer
        → ((e : Error) × (guarded answer root
                (λ target. returning target (remove_at faults target root))
              ≡ (err e, root)))
          ⊎ ((target : Text) × IsDeletion gate faults root target
                (guarded answer root (λ x. returning x (remove_at faults x root))))
    by_check (err e) k = inl (e, refl)
    by_check (ok target) k = inr (
      target,
      remove_at-IsDeletion gate faults target root
          (check_delete-IsAuthorized gate storage path target root k),
    )
