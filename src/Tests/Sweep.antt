-- ===== src/Tests/Sweep.antt =====
-- `find_replace_in_vault` on a directory of two notes, one of which has a match.
use native.Mathlib.Decide.{ℕ_discrete}
use brain_mcp.Base.{
  ◌≡◌, refl, false, Option, none, some, List, [], ◌∷◌, All, ◌==◌, nat_eq, Result, ok, err,
  if◌then◌else◌,
}
use brain_mcp.Base.Text.{Text, text, text_eq, Text-discrete, ends_with, split}
use brain_mcp.Base.Dict.{lookup, insert, erase}
use brain_mcp.Errors.{Error, file_not_found}
use brain_mcp.Policy.{regular}
use brain_mcp.Storage.{Entry, Directory, write_at, write_atomic}
use brain_mcp.Tools.Replace.{Pattern, Regex, exact}
use brain_mcp.Tools.Directory.{directory_store, write_text_atomic}
use brain_mcp.Tools.Sweep.{
  Listing, Swept, replaced, collect, lock_all, write_all, prepare_sweep, find_replace_in_vault,
}
use brain_mcp.Tools.Sweep.Preview.{IsPredicted, IsResolved, find_replace_in_vault-IsPredicted}
use brain_mcp.Tests.Tools.{strings, resolve_same, store, note_text, note_revision, Ready, laws}

abbrev first_note : Text
first_note = text "a.md"

abbrev second_note : Text
second_note = text "b.md"

abbrev note_of : Text → Entry
note_of raw = record { kind = regular; content = raw; mtime_ns = 1; mode = 420 }

abbrev vault : Directory
vault = (first_note, note_of (text "old")) ∷ (second_note, note_of (text "other")) ∷ []

abbrev or_not_found : Option Entry → Result Error Text
or_not_found none = err file_not_found
or_not_found (some entry) = ok entry.content

abbrev names : List Text
names = first_note ∷ second_note ∷ []

abbrev listing : Listing Directory
listing = record {
  list_files = λ folder s. ok names;
  read_text = λ path s. or_not_found (lookup path s);
  lower = λ path. path;
  exclude_paths = [];
}

-- A pattern matches the text that is equal to it.
abbrev re : Regex
re = record {
  compile = λ find. none;
  literal = λ find. record {
    subn = λ replace raw count. ok (if raw == find then (replace, 1) else (raw, 0));
    findall = λ raw. if raw == find then 1 else 0;
    search = λ line. line == find;
  };
  splitlines = λ raw. raw ∷ [];
}

abbrev replaced_vault : Directory
replaced_vault =
    (first_note, record { kind = regular; content = text "new"; mtime_ns = 2; mode = 420 })
    ∷ (second_note, note_of (text "other"))
    ∷ []

abbrev outcome : Swept
outcome = replaced (first_note ∷ []) 1 []

replaces :
    find_replace_in_vault store listing re (text "old") (text "new") exact [] false vault
    ≡ (ok outcome, replaced_vault)
unfolding find_replace_in_vault prepare_sweep collect lock_all write_all ends_with split lookup
    insert erase ◌==◌ nat_eq text_eq Text-discrete ℕ_discrete directory_store write_text_atomic
    write_atomic write_at
replaces = refl

vault_is_ready : Ready vault
unfolding lookup ◌==◌ text_eq Text-discrete ℕ_discrete
vault_is_ready = refl

resolved : (rel : Text) → IsResolved store listing re rel
unfolding directory_store
resolved rel target h = resolve_same rel target h

all_resolved :
    (files : List Text)
    → listing.list_files [] vault ≡ ok files
    → All (IsResolved store listing re) files
all_resolved [] h = tt
all_resolved (rel ∷ files) h = (resolved rel, each files)
  where
    each : (rels : List Text) → All (IsResolved store listing re) rels
    each [] = tt
    each (r ∷ rels) = (resolved r, each rels)

find_replace_in_vault-IsPredicted_example :
    (pattern : Pattern) × IsPredicted store listing re strings note_text note_revision Ready laws
      pattern
      (text "new")
      (text "old")
      exact
      []
      vault
      outcome
      replaced_vault
find_replace_in_vault-IsPredicted_example =
    find_replace_in_vault-IsPredicted store listing re strings note_text note_revision Ready laws
      (text "old") (text "new") exact [] vault replaced_vault outcome vault_is_ready all_resolved
      replaces
