-- ===== src/Tests/Notes.antt =====
-- The index and its queries, and an atomic write: a vault of one note that links to another.
use brain_mcp.Base.{
  ◌≡◌, refl, Bool, true, false, none, some, [], ◌∷◌, any, contains, ◌==◌, nat_eq, ok,
}
use native.Mathlib.Decide.{ℕ_discrete}
use brain_mcp.Base.Text.{
  Text, text, text_eq, Text-discrete, starts_with, ends_with, rstrip, lstrip, replace_char, split,
}
use brain_mcp.Base.Dict.{lookup, insert}
use brain_mcp.Base.Sets.{members, add_at, add, to_set}
use brain_mcp.Base.Sorting.{sorted, insert_sorted, text_leb}
use brain_mcp.Models.{FileRevision, Note}
use brain_mcp.Index.{VaultIndex, empty_index, path_name, last_dot, stem, register, index_note}
use brain_mcp.Index.Consistent.{IsConsistent, empty_index-IsConsistent, index_note-IsConsistent}
use brain_mcp.Index.Sync.{Gateway, update, reconcile, sweep, candidates}
use brain_mcp.Index.Update.{update-IsConsistent, reconcile-IsConsistent}
use brain_mcp.Index.Reconcile.{IsFresh, sweep-IsFresh}
use brain_mcp.Index.Queries.{link_keys, gather, aliases_of, without_md}
use brain_mcp.Index.Queries as Queries
use brain_mcp.Index.Backlinks.{get_backlinks-outlinks}
use brain_mcp.Policy.{inherit, longest, longest_from}
use brain_mcp.Rules.{matches_path_rule, casefold}
use brain_mcp.Policy.Access.{effective, policy_override, may_read, denied, permits_read}
use brain_mcp.Scoping.{ReadScope, current, allows, filter, filter_by}
use brain_mcp.Scoping.Agreement.{allows-permits_read}
use brain_mcp.Query.{get_backlinks}
use brain_mcp.Query.Visible.{get_backlinks-permits_read}
use brain_mcp.Revisions.{Strings, from_bytes}
use brain_mcp.Storage.Success.{IsWorking, write_at-ok}
use brain_mcp.Storage.{Directory, Os, write_at}
use brain_mcp.Storage.Atomic.{IsAtomic, quiet, write_at-IsAtomic}
use brain_mcp.Tests.Policies.{world, policy}

abbrev pub as_is : Text → Text
as_is s = s

abbrev pub a_note : Text
a_note = text "a.md"

abbrev note : Note
note = record {
  path = a_note;
  frontmatter = [];
  tags = text "t" ∷ [];
  aliases = [];
  wikilinks = record { target = text "b"; alias = none; heading = none } ∷ [];
  block_refs = [];
  block_links = [];
  callouts = [];
  tasks = [];
  inline_fields = [];
  content = [];
}

abbrev revision : FileRevision
revision = record { sha256 = text "r"; size = 1; mtime_ns = 0 }

-- The index after the note has been read.
abbrev pub index : VaultIndex
index = record (index_note as_is a_note note revision empty_index) { ready = true }

abbrev gateway : Gateway
gateway = record {
  lower = as_is;
  parse = λ content path. note;
  canonicalize = ok;
  can_read = λ path. ok true;
  exists = λ path. ok true;
  is_directory = λ path. ok false;
  list_files = λ path. ok (a_note ∷ []);
  read = λ path. ok ([], revision);
}

no_outlinks : lookup a_note empty_index.outlinks ≡ none
unfolding lookup
no_outlinks = refl

ready : IsConsistent index
unfolding index_note
ready =
    let c =
      index_note-IsConsistent as_is a_note note revision empty_index empty_index-IsConsistent
        no_outlinks in
    record {
      linked = c.linked;
      with_links = c.with_links;
      with_revision = c.with_revision;
      tagged = c.tagged;
      with_blocks = c.with_blocks;
      aliased = c.aliased;
    }

update-IsConsistent_example : IsConsistent (update gateway [] 3 a_note index).1
update-IsConsistent_example = update-IsConsistent gateway [] 3 a_note index ready

reconcile-IsConsistent_example : IsConsistent (reconcile gateway [] index).1
reconcile-IsConsistent_example = reconcile-IsConsistent gateway [] index ready

sweep-IsFresh_example :
    (contains (candidates gateway [] (a_note ∷ [])) a_note ≡ false
      → contains (sweep gateway [] (a_note ∷ []) empty_index).all_notes a_note ≡ false)
    × (contains (candidates gateway [] (a_note ∷ [])) a_note ≡ true
        → IsFresh (ok ([], revision)) a_note (sweep gateway [] (a_note ∷ []) empty_index))
sweep-IsFresh_example = sweep-IsFresh gateway [] (a_note ∷ []) empty_index a_note

abbrev b_note : Text
b_note = text "b.md"

backlinks : Queries.get_backlinks as_is index b_note ≡ ok (a_note ∷ [])
unfolding Queries.get_backlinks sorted to_set lookup index_note add_at insert ◌==◌ text_eq
    without_md stem split register add insert_sorted text_leb nat_eq Text-discrete ends_with
    aliases_of gather last_dot path_name ℕ_discrete
backlinks = refl

get_backlinks-outlinks_example :
    contains (a_note ∷ []) a_note
    ≡ any (λ key. contains (members a_note index.outlinks) key) (link_keys as_is index b_note)
get_backlinks-outlinks_example =
    get_backlinks-outlinks index ready as_is b_note (a_note ∷ []) backlinks a_note

resolves : Queries.resolve_alias as_is index (text "x/a.md") ≡ some a_note
unfolding Queries.resolve_alias lookup index_note register insert ◌==◌ text_eq stem split nat_eq
    Text-discrete ℕ_discrete last_dot path_name
resolves = refl

abbrev scope : ReadScope
scope = record { predicate = some (λ path. permits_read world none policy path false inherit) }

scope-current : current world none policy ≡ ok scope
unfolding current effective policy_override
scope-current = refl

allows-permits_read_example :
    (answer : Bool) × (allows scope a_note ≡ ok answer)
    × (permits_read world none policy a_note false inherit ≡ ok answer)
allows-permits_read_example = allows-permits_read world none policy scope scope-current a_note

visible_backlinks : get_backlinks as_is scope b_note index ≡ ok (a_note ∷ [])
unfolding get_backlinks filter filter_by permits_read effective policy_override may_read denied
    longest longest_from matches_path_rule casefold rstrip lstrip starts_with replace_char ends_with
    ◌==◌ nat_eq text_eq Text-discrete ℕ_discrete
visible_backlinks = rw backlinks refl

get_backlinks-permits_read_example : permits_read world none policy a_note false inherit ≡ ok true
unfolding ◌==◌ nat_eq text_eq Text-discrete ℕ_discrete
get_backlinks-permits_read_example =
    get_backlinks-permits_read world none policy scope scope-current as_is b_note index
      (a_note ∷ []) visible_backlinks a_note refl

abbrev os : Os
os = record {
  hash = as_is;
  tmp_name = text ".tmp";
  now = 7;
  default_mode = 420;
  env = λ n dir. dir;
  written = true;
  link_supported = true;
  linked = true;
  renamed = true;
  unlinked = true;
  synced = true;
  cleaned = true;
}

abbrev python_strings : Strings
python_strings = record { is_space = λ c. false; lower = as_is; is_base16 = λ s. true }

abbrev empty_directory : Directory
empty_directory = []

write_at-IsAtomic_example :
    IsAtomic os a_note
      (text "new")
      none
      true
      empty_directory
      (write_at (quiet os) python_strings a_note a_note (text "new") none true empty_directory)
unfolding lookup ◌==◌ nat_eq text_eq Text-discrete ℕ_discrete
write_at-IsAtomic_example =
    write_at-IsAtomic os python_strings a_note a_note (text "new") none empty_directory refl refl
      true

is_working : IsWorking os
is_working = record {
  written = refl;
  link_supported = refl;
  linked = refl;
  renamed = refl;
  unlinked = refl;
  synced = refl;
}

write_at-ok_example :
    (write_at (quiet os) python_strings a_note a_note (text "new") none true empty_directory).0
    ≡ ok (from_bytes as_is (text "new") 7)
unfolding lookup ◌==◌ nat_eq text_eq Text-discrete ℕ_discrete
write_at-ok_example =
    write_at-ok os python_strings a_note a_note (text "new") none empty_directory refl refl true
      none is_working refl refl refl
