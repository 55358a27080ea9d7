-- ===== src/Tests/Trees.antt =====
-- Trees: a vault of two notes, one of them in a folder, that are listed, deleted, moved,
-- trashed and restored.
use brain_mcp.Base.{
  ◌≡◌, ◌≢◌, refl, ◌⊎◌, ◌↔◌, Bool, true, false, none, List, [], ◌∷◌, contains, ◌==◌, nat_eq, ok, err,
}
use brain_mcp.Base.Text.{
  Text, Text-discrete, split, rstrip, ends_with, replace_char, join, text, text_eq, starts_with,
}
use brain_mcp.Errors.{Error, os_error}
use brain_mcp.Identity.{is_none}
use brain_mcp.Policy.{regular, inherit, is_relative_to, longest, longest_from}
use brain_mcp.Policy.Access.{
  effective, denied, policy_override, may_read, resolve_read, canonicalize, any_symlink,
  authorize_discovered_read,
}
use brain_mcp.Storage.Files.Authorize.{
  preauthorize, authorize_resolved_tree, check_crossing, authorize_all, check_destination,
}
use brain_mcp.Index.{last_dot}
use brain_mcp.Revisions.{after_prefix}
use brain_mcp.Rules.{matches_path_rule, casefold}
use brain_mcp.Paths.{
  norm_comps, norm_step, leading_slashes, normalise_relative, has_drive, is_rooted, normpath,
  confined,
}
use brain_mcp.Storage.Gate.{Gate, policy_gate}
use native.Mathlib.Decide.{ℕ_discrete}
use brain_mcp.Storage.Files.{
  tree_paths_of, scan_node, opened_parent, Node, Nodes, leaf, folder, nothing, entry, find, put,
  drop, components, change_parent, opened_dir, node_at,
}
use brain_mcp.Storage.Files.Listing.{list_files}
use brain_mcp.Storage.Files.Readable.{IsListedBelow, list_files-IsListedBelow}
use brain_mcp.Storage.Files.Denied.{list_files-not_denied}
use brain_mcp.Storage.Files.Mutate.{
  Faults, check_move, rename_relative, make_parents, write_create_from, delete, move,
  opened_write_parent, destination_free, rename,
}
use brain_mcp.Storage.Files.Granted.{IsDeletable, IsDeletion, delete-IsDeletion}
use brain_mcp.Storage.Files.Trash.{
  opened_trash, last_part, suffixed, check_trash, is_bare, trash, trash_dir, restore, with_trash,
}
use brain_mcp.Storage.Files.Trashed.{
  IsElsewhere, IsTrashed, IsRestored, trash-IsTrashed, restore-IsRestored,
}
use brain_mcp.Tests.Policies.{world, policy, base}

abbrev note : Node
note = leaf (record { kind = regular; content = text "hello"; mtime_ns = 1; mode = 420 })

abbrev notes : Nodes
notes = entry (text "b.md") note nothing

abbrev vault : Nodes
vault = entry (text "a.md") note (entry (text "notes") (folder notes) nothing)

-- A policy that permits everything.
abbrev open_gate : Gate
open_gate = record {
  resolve_read = λ path _. ok path;
  resolve_write = λ path. ok path;
  resolve_delete = λ path _. ok path;
  authorize = λ path _. ok path;
  write_paths = ok [];
  deny_write_paths = ok [];
  matches = λ _ _. true;
}

abbrev no_faults : Faults
no_faults = record { unlink = λ _. false; open_child = λ _. false; rmdir = λ _. false }

abbrev all_open : Text → Bool
all_open rel = true

abbrev all_files : List Text
all_files = text "a.md" ∷ text "notes/b.md" ∷ []

lists_all : list_files open_gate all_open [] vault ≡ ok all_files
unfolding list_files opened_dir ◌==◌ text_eq
lists_all = refl

lists_policy : list_files (policy_gate world none policy) all_open [] vault ≡ ok all_files
unfolding list_files policy_gate resolve_read authorize_discovered_read canonicalize any_symlink
    is_relative_to normalise_relative replace_char normpath norm_comps norm_step leading_slashes
    join has_drive is_rooted confined effective policy_override may_read denied longest longest_from
    matches_path_rule casefold ends_with opened_dir ◌==◌ text_eq Text-discrete nat_eq ℕ_discrete
    node_at opened_parent components split find scan_node tree_paths_of change_parent put drop
    starts_with rstrip
lists_policy = refl

deletes_folder :
    delete open_gate no_faults 0 none (text "notes") vault
    ≡ (ok (text "notes"), entry (text "a.md") note nothing)
unfolding delete preauthorize authorize_resolved_tree check_crossing authorize_all check_destination
    ◌==◌ text_eq Text-discrete nat_eq ℕ_discrete node_at opened_parent components split find
    scan_node tree_paths_of change_parent put drop starts_with rstrip
deletes_folder = refl

moves_folder : move open_gate 0 none (text "notes") (text "old/notes") vault ≡ (
  ok (text "notes", text "old/notes"),
  entry
      (text "a.md")
      note
      (entry (text "old") (folder (entry (text "notes") (folder notes) nothing)) nothing),
)
unfolding move check_move rename_relative opened_write_parent make_parents write_create_from
    destination_free rename after_prefix preauthorize authorize_resolved_tree check_crossing
    authorize_all check_destination ◌==◌ text_eq Text-discrete nat_eq ℕ_discrete node_at
    opened_parent components split find scan_node tree_paths_of change_parent put drop starts_with
    rstrip
moves_folder = refl

abbrev with_trashed : Nodes
with_trashed =
    entry (text "notes") (folder notes)
      (entry trash_dir (folder (entry (text "a.md") note nothing)) nothing)

trashes_note :
    trash open_gate 0 none (text "0f") (text "a.md") vault
    ≡ (ok (text "a.md", text "a.md"), with_trashed)
unfolding trash check_trash preauthorize authorize_resolved_tree check_crossing authorize_all
    check_destination ◌==◌ text_eq Text-discrete nat_eq ℕ_discrete node_at opened_parent components
    split find scan_node tree_paths_of change_parent put drop starts_with rstrip
trashes_note = refl

restores_note : restore open_gate (text "a.md") (text "c/a.md") with_trashed ≡ (
  ok (text "c/a.md"),
  entry (text "notes") (folder notes) (
      entry trash_dir
        (folder nothing)
        (entry (text "c") (folder (entry (text "a.md") note nothing)) nothing)),
)
unfolding restore is_bare opened_write_parent make_parents write_create_from destination_free
    check_crossing authorize_all ◌==◌ text_eq Text-discrete nat_eq ℕ_discrete node_at opened_parent
    components split find scan_node tree_paths_of change_parent put drop starts_with rstrip
restores_note = refl

in_force : (effective world none policy inherit).0 ≡ ok base
unfolding effective policy_override
in_force = refl

has_a : contains all_files (text "a.md") ≡ true
unfolding ◌==◌ text_eq Text-discrete ℕ_discrete
has_a = refl

list_files-IsListedBelow_example :
    (target : Text) × (nodes : Nodes) × (open_gate.resolve_read [] true ≡ ok target)
    × (opened_dir target vault ≡ ok nodes)
    × ((file : Text)
        → (contains all_files file ≡ true) ↔ IsListedBelow open_gate all_open target nodes file)
list_files-IsListedBelow_example =
    list_files-IsListedBelow open_gate all_open [] vault all_files lists_all

list_files-not_denied_example : is_none (denied world (text "a.md") base.deny_read_paths) ≡ true
list_files-not_denied_example =
    list_files-not_denied world none policy base in_force all_open [] vault all_files lists_policy
      (text "a.md") has_a

abbrev folder_name : Text
folder_name = text "notes"

delete-IsDeletion_example :
    ((e : Error) × (delete open_gate no_faults 0 none folder_name vault ≡ (err e, vault)))
    ⊎ ((target : Text) × IsDeletion open_gate no_faults vault target
          (delete open_gate no_faults 0 none folder_name vault))
delete-IsDeletion_example = delete-IsDeletion open_gate no_faults 0 folder_name vault

-- The note in the folder cannot be removed, and the folder stays.
abbrev stuck : Faults
stuck = record no_faults { unlink = λ path. path == text "notes/b.md" }

stops_halfway : delete open_gate stuck 0 none folder_name vault ≡ (err os_error, vault)
unfolding delete preauthorize authorize_resolved_tree check_crossing authorize_all check_destination
    ◌==◌ text_eq Text-discrete nat_eq ℕ_discrete node_at opened_parent components split find
    scan_node tree_paths_of change_parent put drop starts_with rstrip
stops_halfway = refl

no_trash : opened_trash (find trash_dir vault) ≡ ok nothing
unfolding find ◌==◌ text_eq Text-discrete ℕ_discrete
no_trash = refl

free_name :
    find
      (suffixed (text "0f") (last_part (text "a.md")) (last_dot (last_part (text "a.md"))))
      nothing
    ≡ none
unfolding find
free_name = refl

not_the_trash : components (text "a.md") ≢ (trash_dir ∷ [])
unfolding components split ◌==◌ text_eq Text-discrete nat_eq ℕ_discrete
not_the_trash = λ h. cc (h)

trash-IsTrashed_example :
    (node : Node) × (node_at (text "a.md") vault ≡ ok node)
    × IsDeletable open_gate (text "a.md") node false
    × (find (text "a.md") nothing ≡ none)
    × IsTrashed
        (text "a.md")
        (text "a.md")
        node
        (with_trash (find trash_dir vault) vault)
        with_trashed
trash-IsTrashed_example =
    trash-IsTrashed open_gate 0 (text "0f") (text "a.md") (text "a.md") (text "a.md") vault
      with_trashed nothing trashes_note not_the_trash no_trash free_name

abbrev with_restored : Nodes
with_restored = entry (text "notes") (folder notes) (
    entry trash_dir (folder nothing)
      (entry (text "c") (folder (entry (text "a.md") note nothing)) nothing))

elsewhere : IsElsewhere (components (text "c/a.md"))
unfolding components split ◌==◌ text_eq Text-discrete nat_eq ℕ_discrete
elsewhere = refl

restore-IsRestored_example :
    IsRestored open_gate (text "a.md") (text "c/a.md") with_trashed with_restored
restore-IsRestored_example =
    restore-IsRestored open_gate (text "a.md") (text "c/a.md") (text "c/a.md") with_trashed
      with_restored restores_note elsewhere
