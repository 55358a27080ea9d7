-- ===== src/Storage/Files/Denied.antt =====
-- `list_files` of src/obsidian_mcp/storage/filesystem.py under the access policy of
-- src/obsidian_mcp/storage/policy.py.
use brain_mcp.Base.{
  ◌≡◌, refl, inl, inr, Bool, true, sym, subst, ◌∙◌, ◌==◌, false, Option, List, contains, Result, ok,
  err, >>=-eq-ok, ok-injective, not, raise_if, raise_if-not, arith,
}
use brain_mcp.Base.Text.{Text, text_eq}
use brain_mcp.Errors.{Error, vault_path, read_permission}
use brain_mcp.Paths.{normalise_relative}
use brain_mcp.Identity.{Identity, is_none}
use brain_mcp.Policy.{
  EffectiveAccessPolicy, World, VaultAccessPolicy, StatResult, inherit, VaultPath,
}
use brain_mcp.Policy.Access.{is_directory, effective, authorize_discovered_read, may_read, denied}
use brain_mcp.Storage.Gate.{Gate, policy_gate, relative_of}
use brain_mcp.Storage.Files.{Node, Nodes, leaf, folder, nothing, entry, info_of, child_of}
use brain_mcp.Storage.Files.Listing.{list_files}
use brain_mcp.Storage.Files.Readable.{IsListed, IsListedBelow, list_files-IsListedBelow}

abbrev Authorized : Gate → Text → Type 0
Authorized gate path = (rel : Text) × (info : StatResult) × (gate.authorize rel info ≡ ok path)

mutual
  unfolding IsListed

  IsListed-Authorized :
      (gate : Gate) (opens : Text → Bool) (rel : Text) (node : Node) (path : Text)
      → IsListed gate opens rel node path
      → Authorized gate path
  IsListed-Authorized gate opens rel (leaf e) path h = (rel, info_of (leaf e), h.1)
  IsListed-Authorized gate opens rel (folder nodes) path h =
      IsListedBelow-Authorized gate opens rel nodes path h.2

  IsListedBelow-Authorized :
      (gate : Gate) (opens : Text → Bool) (prefix : Text) (nodes : Nodes) (path : Text)
      → IsListedBelow gate opens prefix nodes path
      → Authorized gate path
  IsListedBelow-Authorized gate opens prefix nothing path h = elim h [ ]
  IsListedBelow-Authorized gate opens prefix (entry name node rest) path (inl h) =
      IsListed-Authorized gate opens (child_of prefix name) node path h
  IsListedBelow-Authorized gate opens prefix (entry name node rest) path (inr h) =
      IsListedBelow-Authorized gate opens prefix rest path h

relative_of-ok :
    (answer : Result Error VaultPath) (path : Text)
    → relative_of answer ≡ ok path
    → (target : VaultPath) × (answer ≡ ok target) × (target.relative ≡ path)
relative_of-ok (err e) path h = cc
relative_of-ok (ok target) path h = (target, refl, ok-injective target.relative path h)

may_read-not_denied :
    (world : World) (e : EffectiveAccessPolicy) (path : Text) (allow : Bool)
    → may_read world e path allow ≡ true
    → is_none (denied world path e.deny_read_paths) ≡ true
unfolding may_read
may_read-not_denied world e path allow h = ground arith

authorize-not_denied :
    (world : World) (current : Option Identity) (policy : VaultAccessPolicy)
    (e : EffectiveAccessPolicy)
    → (effective world current policy inherit).0 ≡ ok e
    → (rel : Text) (info : StatResult) (target : VaultPath)
    → authorize_discovered_read world current policy rel info inherit ≡ ok target
    → is_none (denied world target.relative e.deny_read_paths) ≡ true
unfolding authorize_discovered_read
authorize-not_denied world current policy e h rel info target k =
    let (relative, a, k₁) = >>=-eq-ok (normalise_relative rel false) _ k in
    let (_, b, k₂) = >>=-eq-ok (raise_if (not (relative == rel)) vault_path) _ k₁ in
    let (e₁, c, k₃) = >>=-eq-ok ((effective world current policy inherit).0) _ k₂ in
    let (u, d, k₄) =
      >>=-eq-ok
        (raise_if (not (may_read world e₁ relative (is_directory info.kind))) read_permission) _
        k₃ in
    let readable = may_read-not_denied world e₁ relative _ (raise_if-not _ _ u d) in
    cc (ok-injective e₁ e (sym c ∙ h), ok-injective _ target k₄, readable)

-- No file that `list_files` returns is denied by the read deny list of the policy in force
-- for the identity of the request.
pub list_files-not_denied :
    (world : World) (current : Option Identity) (policy : VaultAccessPolicy)
    (e : EffectiveAccessPolicy)
    → (effective world current policy inherit).0 ≡ ok e
    → (opens : Text → Bool) (path : Text) (root : Nodes) (found : List Text)
    → list_files (policy_gate world current policy) opens path root ≡ ok found
    → (file : Text) → contains found file ≡ true
    → is_none (denied world file e.deny_read_paths) ≡ true
unfolding policy_gate
list_files-not_denied world current policy e h opens path root found k file m =
    let gate = policy_gate world current policy in
    let (top, nodes, a, b, exactly) = list_files-IsListedBelow gate opens path root found k in
    let (rel, info, c) = IsListedBelow-Authorized gate opens top nodes file ((exactly file).0 m) in
    let (target, d, same) = relative_of-ok _ file c in
    subst (λ x. is_none (denied world x e.deny_read_paths) ≡ true) same
      (authorize-not_denied world current policy e h rel info target d)
