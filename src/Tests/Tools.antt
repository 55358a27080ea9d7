-- ===== src/Tests/Tools.antt =====
-- The tools that write notes, on a directory of one note.
use brain_mcp.Base.{
  ◌≡◌, refl, sym, true, false, Bool-cases, inl, inr, Option, none, some, [], ◌∷◌, ◌++◌, ◌==◌,
  nat_eq, Result, ok, err, ok-injective, if◌then◌else◌,
}
use native.Mathlib.Decide.{ℕ_discrete}
use brain_mcp.Base.Text.{Text, text, text_eq, Text-discrete, ends_with, rstrip, lstrip}
use brain_mcp.Base.Dict.{lookup, insert, erase}
use brain_mcp.Errors.{Error, vault_path, value_error}
use brain_mcp.Index.{VaultIndex, empty_index}
use brain_mcp.Models.{FileRevision}
use brain_mcp.Policy.{regular}
use brain_mcp.Revisions.{Strings, after_prefix, read_text_for_update, normalize_revision_token}
use brain_mcp.Storage.{Directory, Os, write_at, write_atomic}
use brain_mcp.Tools.Store.{Store, IsStore, Unchanged}
use brain_mcp.Tools.Directory.{
  Resolver, IsResolver, IsReady, directory_store, directory_store-IsStore, content, current, exists,
  read_text_with_revision, write_text_atomic,
}
use brain_mcp.Tools.Frontmatter.{
  Yaml, Frontmatter, single, closing, match_frontmatter, parse_frontmatter, serialize_frontmatter,
  preserve, apply_updates, apply_frontmatter_updates,
}
use brain_mcp.Tools.Frontmatter.RoundTrip.{HasNoFence, parse_frontmatter-serialize_frontmatter}
use brain_mcp.Tools.Write.{
  Setting, NoteResult, dry_run, written, patched, frontmatter_patched, prepare_note, store_note,
  indexed, write_note, edit_note, patch_note, patch_frontmatter,
}
use brain_mcp.Tools.Write.Notes.{IsNoteWritten, write_note-IsNoteWritten}
use brain_mcp.Tools.Write.Edits.{IsEdited, patch_note-IsEdited, write_note-write_note}
use brain_mcp.Tools.Write.Failures.{IsWhole, write_note-IsWhole}

abbrev pub digest : Text
digest = text "aaaaaaaaaaaaaaaaaaaaaaaaaaaaaaaaaaaaaaaaaaaaaaaaaaaaaaaaaaaaaaaa"

abbrev pub os : Os
os = record {
  hash = λ s. digest;
  tmp_name = text ".tmp";
  now = 2;
  default_mode = 420;
  env = λ _ dir. dir;
  written = true;
  link_supported = true;
  linked = true;
  renamed = true;
  unlinked = true;
  synced = true;
  cleaned = true;
}

abbrev pub strings : Strings
strings = record { is_space = λ c. c == b' '; lower = λ s. s; is_base16 = λ _. true }

abbrev setting : Setting
setting = record {
  strings = strings;
  unified_diff = λ before after path. after;
  require_write_preconditions = true;
}

-- Every name but that of the temporary file.
abbrev resolve : Text → Result Error Text
resolve path = if text ".tmp" == path then err vault_path else ok path

abbrev pub resolver : Resolver
resolver = record { resolve_read = resolve; resolve_write = resolve; can_read = λ _. ok true }

pub resolve_same : (path target : Text) → resolve path ≡ ok target → target ≡ path
resolve_same path target h = elim (Bool-cases (text ".tmp" == path)) [
  | inl e ↦ cc (rw e at h)
  | inr e ↦ sym (ok-injective path target (rw e at h))
]

resolve_apart : (raw path : Text) → resolve raw ≡ ok path → (text ".tmp" == path) ≡ false
resolve_apart raw path h = elim (Bool-cases (text ".tmp" == raw)) [
  | inl e ↦ cc (rw e at h)
  | inr e ↦ rw (ok-injective raw path (rw e at h)) at e
]

resolves : IsResolver os strings resolver
resolves = record {
  reads_same = λ raw path target a b. resolve_same path target b;
  writes_same = λ raw path target a b. resolve_same path target b;
  apart = resolve_apart;
}

abbrev pub store : Store Directory
store = directory_store os strings resolver

abbrev pub note_text : Text → Directory → Option Text
note_text = content os strings resolver

abbrev pub note_revision : Text → Directory → Option FileRevision
note_revision = current os strings resolver

abbrev pub Ready : Directory → Type 0
Ready = IsReady os strings resolver

directory_store-IsStore_example : IsStore strings note_text note_revision store Ready
directory_store-IsStore_example = directory_store-IsStore os strings resolver resolves

abbrev yaml : Yaml Text
yaml = record {
  load = λ s. if s == text "a: 1" then some ((text "a", single (text "1")) ∷ []) else none;
  dump = λ fm. text "a: 1";
  string = λ s. s;
  is_truthy = λ s. true;
}

abbrev fm : Frontmatter Text
fm = (text "a", single (text "1")) ∷ []

abbrev body : Text
body = text "hello"

abbrev raw_note : Text
raw_note = text "---\na: 1\n---\nhello"

abbrev dir : Directory
dir = (text "n.md", record { kind = regular; content = raw_note; mtime_ns = 1; mode = 420 }) ∷ []

loads : yaml.load (yaml.dump fm) ≡ some fm
unfolding ◌==◌ text_eq Text-discrete ℕ_discrete
loads = refl

no_fence : HasNoFence (yaml.dump fm)
unfolding after_prefix ◌==◌ nat_eq ℕ_discrete
no_fence = (refl, (refl, (refl, (refl, tt))))

parse_frontmatter-serialize_frontmatter_example :
    parse_frontmatter yaml (serialize_frontmatter yaml fm body) ≡ (fm, body)
parse_frontmatter-serialize_frontmatter_example =
    parse_frontmatter-serialize_frontmatter yaml fm body loads no_fence

-- The note, overwritten.
abbrev name : Text
name = text "n.md"

abbrev new_text : Text
new_text = text "new"

abbrev full_text : Text
full_text = text "---\na: 1\n---\nnew"

abbrev result : NoteResult
result = record {
  path = name;
  status = written;
  frontmatter_preserved = true;
  preview = none;
  diff = full_text;
  revision = some (text "sha256:" ++ digest);
}

abbrev preview : NoteResult
preview = record result { status = dry_run; preview = some full_text }

abbrev after : Directory
after = (name, record { kind = regular; content = full_text; mtime_ns = 2; mode = 420 }) ∷ []

-- An index whose update fails.
abbrev refresh : Text → Directory → VaultIndex → Result Error (Unit {0}) × VaultIndex
refresh path s index = (err value_error, index)

index_fails :
    write_note store setting refresh yaml name new_text false
      (some digest)
      false
      (some empty_index)
      dir
    ≡ (err value_error, after, some empty_index)
unfolding write_note store_note indexed prepare_note preserve match_frontmatter parse_frontmatter
    serialize_frontmatter closing after_prefix ends_with ◌==◌ nat_eq text_eq Text-discrete
    ℕ_discrete directory_store exists read_text_with_revision write_text_atomic write_atomic
    write_at lookup insert erase read_text_for_update normalize_revision_token rstrip lstrip
    edit_note patch_note patch_frontmatter apply_frontmatter_updates apply_updates
index_fails = refl

runs :
    write_note store setting refresh yaml name new_text false (some digest) false none dir
    ≡ (ok result, after, none)
unfolding write_note store_note indexed prepare_note preserve match_frontmatter parse_frontmatter
    serialize_frontmatter closing after_prefix ends_with ◌==◌ nat_eq text_eq Text-discrete
    ℕ_discrete directory_store exists read_text_with_revision write_text_atomic write_atomic
    write_at lookup insert erase read_text_for_update normalize_revision_token rstrip lstrip
    edit_note patch_note patch_frontmatter apply_frontmatter_updates apply_updates
runs = refl

previews :
    write_note store setting refresh yaml name new_text true (some digest) false none dir
    ≡ (ok preview, dir, none)
unfolding write_note store_note indexed prepare_note preserve match_frontmatter parse_frontmatter
    serialize_frontmatter closing after_prefix ends_with ◌==◌ nat_eq text_eq Text-discrete
    ℕ_discrete directory_store exists read_text_with_revision write_text_atomic write_atomic
    write_at lookup insert erase read_text_for_update normalize_revision_token rstrip lstrip
    edit_note patch_note patch_frontmatter apply_frontmatter_updates apply_updates
previews = refl

pub laws : IsStore strings note_text note_revision store Ready
laws = directory_store-IsStore os strings resolver resolves

is_ready : Ready dir
unfolding lookup ◌==◌ text_eq Text-discrete ℕ_discrete
is_ready = refl

write_note-IsNoteWritten_example :
    IsNoteWritten store setting note_text note_revision Ready laws yaml name new_text
      (some digest)
      false
      dir
      name
      after
write_note-IsNoteWritten_example =
    write_note-IsNoteWritten store setting note_text note_revision Ready laws yaml refresh name
      new_text (some digest) false none none dir after result is_ready runs

write_note-write_note_example :
    (dir ≡ dir) × (name ≡ name) × (note_text name after ≡ some full_text)
write_note-write_note_example =
    write_note-write_note store setting note_text note_revision Ready laws yaml refresh name
      new_text (some digest) false none none none dir dir after preview result is_ready previews
      runs

write_note-IsWhole_example :
    (false ≡ true → Unchanged strings note_text note_revision dir after)
    × IsWhole store setting note_text note_revision Ready laws yaml name new_text
        (some digest)
        false
        dir
        after
write_note-IsWhole_example =
    write_note-IsWhole store setting note_text note_revision Ready laws yaml name new_text
      (some digest) false dir refresh (some empty_index) (some empty_index) after false
      (err value_error) is_ready index_fails

-- A patch that replaces the whole note, and one of its frontmatter.
abbrev replace_all : Text → Result Error Text
replace_all raw = ok new_text

abbrev patch_result : NoteResult
patch_result = record result { status = patched; frontmatter_preserved = false; diff = new_text }

abbrev patched_dir : Directory
patched_dir = (name, record { kind = regular; content = new_text; mtime_ns = 2; mode = 420 }) ∷ []

patches :
    patch_note store setting name replace_all false (some digest) dir
    ≡ (ok patch_result, patched_dir)
unfolding write_note store_note indexed prepare_note preserve match_frontmatter parse_frontmatter
    serialize_frontmatter closing after_prefix ends_with ◌==◌ nat_eq text_eq Text-discrete
    ℕ_discrete directory_store exists read_text_with_revision write_text_atomic write_atomic
    write_at lookup insert erase read_text_for_update normalize_revision_token rstrip lstrip
    edit_note patch_note patch_frontmatter apply_frontmatter_updates apply_updates
patches = refl

patch_note-IsEdited_example :
    IsEdited store setting note_text note_revision Ready laws
      (some digest)
      replace_all
      dir
      name
      patched_dir
patch_note-IsEdited_example =
    patch_note-IsEdited store setting note_text note_revision Ready laws name replace_all
      (some digest) dir patched_dir patch_result is_ready patches

abbrev fm_result : NoteResult
fm_result = record result {
  status = frontmatter_patched;
  frontmatter_preserved = false;
  diff = raw_note;
}

abbrev fm_dir : Directory
fm_dir = (name, record { kind = regular; content = raw_note; mtime_ns = 2; mode = 420 }) ∷ []

patches_frontmatter :
    patch_frontmatter store setting yaml name fm true false (some digest) dir
    ≡ (ok fm_result, fm_dir)
unfolding write_note store_note indexed prepare_note preserve match_frontmatter parse_frontmatter
    serialize_frontmatter closing after_prefix ends_with ◌==◌ nat_eq text_eq Text-discrete
    ℕ_discrete directory_store exists read_text_with_revision write_text_atomic write_atomic
    write_at lookup insert erase read_text_for_update normalize_revision_token rstrip lstrip
    edit_note patch_note patch_frontmatter apply_frontmatter_updates apply_updates
patches_frontmatter = refl
