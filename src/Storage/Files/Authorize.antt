-- ===== src/Storage/Files/Authorize.antt =====
-- The authorization of a whole tree before it is moved or deleted: `_AuthorizedTree`,
-- `authorize_tree`, `_authorize_resolved_tree` and `_validate_authorization` of
-- src/obsidian_mcp/storage/filesystem.py.
use brain_mcp.Base.{
  ℕ, Bool, true, false, not, ◌||◌, Option, none, some, List, [], ◌∷◌, ◌++◌, any, ◌==◌, nat_eq,
  Result, ok, raise_if, ◌>>=◌, ◌>>◌, if◌then◌else◌,
}
use brain_mcp.Base.Text.{Text, text_eq, slash, starts_with, rstrip}
use brain_mcp.Errors.{Error, vault_path, protected_path}
use brain_mcp.Paths.{is_nil}
use brain_mcp.Rules.{rule_path}
use brain_mcp.Revisions.{after_prefix}
use brain_mcp.Storage.Gate.{Gate}
use brain_mcp.Storage.Files.{Nodes, is_folder, node_at, tree_paths_of}

-- `storage` tells the storage objects apart, as `is` does.
pub record AuthorizedTree : Type 0 where
  pub storage : ℕ
  pub source : Text
  pub destination : Option Text
  pub paths : List Text
  pub permanent : Bool

-- A loop that resolves every path, for its exceptions.
unfoldable pub authorize_all : (Text → Result Error Text) → List Text → Result Error (Unit {0})
authorize_all resolve [] = ok tt
authorize_all resolve (rel ∷ rels) = resolve rel >>= λ _. authorize_all resolve rels

-- Does a rule lie below the directory?
abbrev pub crosses : List Text → Text → Bool
crosses rules relative =
    any (λ rule. starts_with (rule_path rule) (rstrip (λ c. c == slash) relative ++ (slash ∷ [])))
      rules

abbrev pub or_nothing : Option Text → Text
or_nothing none = []
or_nothing (some suffix) = suffix

-- Where a path below the source goes.
abbrev pub mapped : Text → Text → Text → Text
mapped source destination rel =
    let suffix = or_nothing (after_prefix rel (source ++ (slash ∷ []))) in
    if is_nil suffix then destination else destination ++ (slash ∷ suffix)

module _ (gate : Gate) where
  unfoldable pub check_crossing : Bool → Text → Result Error (Unit {0})
  check_crossing false relative = ok tt
  check_crossing true relative = do
    rules ← gate.deny_write_paths
    raise_if (crosses rules relative) protected_path

  unfoldable pub check_destination : Bool → Text → Option Text → List Text → Result Error (Unit {0})
  unfolding authorize_all
  check_destination source_is_dir source none paths = ok tt
  check_destination source_is_dir source (some destination) paths = do
    check_crossing source_is_dir destination
    authorize_all (λ rel. gate.resolve_write (mapped source destination rel)) paths

  unfoldable pub authorize_resolved_tree :
      ℕ → Text → Option Text → Bool → Nodes → Result Error AuthorizedTree
  authorize_resolved_tree storage source destination permanent root = do
    paths ← tree_paths_of source root
    node ← node_at source root
    check_crossing (is_folder node) source
    authorize_all (λ rel. gate.resolve_delete rel permanent) paths
    check_destination (is_folder node) source destination paths
    ok (record {
      storage = storage;
      source = source;
      destination = destination;
      paths = paths;
      permanent = permanent;
    })

  abbrev pub resolve_destination : Option Text → Result Error (Option Text)
  resolve_destination none = ok none
  resolve_destination (some path) = gate.resolve_write path >>= λ destination. ok (some destination)

  unfoldable pub authorize_tree :
      ℕ → Text → Option Text → Bool → Nodes → Result Error AuthorizedTree
  authorize_tree storage path destination permanent root = do
    source ← gate.resolve_delete path permanent
    resolved ← resolve_destination destination
    authorize_resolved_tree storage source resolved permanent root

  abbrev pub same_destination : Option Text → Option Text → Bool
  same_destination none none = true
  same_destination (some a) (some b) = a == b
  same_destination _ _ = false

  abbrev pub same_flag : Bool → Bool → Bool
  same_flag true true = true
  same_flag false false = true
  same_flag _ _ = false

  unfoldable pub validate_authorization :
      ℕ → AuthorizedTree → Text → Option Text → Bool → Result Error (Unit {0})
  validate_authorization storage authorization source destination permanent =
      raise_if
        (not (authorization.storage == storage)
          || not (authorization.source == source)
          || not (same_destination authorization.destination destination)
          || not (same_flag authorization.permanent permanent))
        vault_path

  -- What `move`, `delete` and `trash` do before they touch the tree.
  unfoldable pub preauthorize :
      ℕ → Option AuthorizedTree → Text → Option Text → Bool → Nodes → Result Error (Unit {0})
  preauthorize storage none source destination permanent root =
      authorize_resolved_tree storage source destination permanent root >>= λ _. ok tt
  preauthorize storage (some authorization) source destination permanent root =
      validate_authorization storage authorization source destination permanent
