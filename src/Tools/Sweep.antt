-- ===== src/Tools/Sweep.antt =====
-- `find_replace_in_vault` of src/obsidian_mcp/tools/write.py, over a storage: the notes
-- that match, the preview, and the writes. The updates of the index that follow are not
-- modelled.
pub mod Preview
use brain_mcp.Base.{
  ℕ, ◌+◌, Bool, true, false, not, ◌&&◌, ◌||◌, none, List, [], ◌∷◌, map, any, ◌==◌, nat_eq, Result,
  ok, err, ◌>>=◌, ◌>>◌, if◌then◌else◌,
}
use brain_mcp.Base.Text.{Text, text, text_eq, ends_with, split, slash, strip, replace_char}
use brain_mcp.Errors.{Error, is_write_permission}
use brain_mcp.Paths.{backslash}
use brain_mcp.Rules.{matches_path_rule}
use brain_mcp.Models.{FileRevision}
use brain_mcp.Tools.Store.{Store, attempt, followed}
use brain_mcp.Tools.Replace.{Pattern, Regex, Mode, Snippet, compiled, match_snippets}

-- What the sweep asks of the storage beside `Store`, and of the configuration; a path of
-- `list_files` is the relative one.
pub record Listing (S : Type 0) : Type 0 where
  pub list_files : Text → S → Result Error (List Text)
  pub read_text : Text → S → Result Error Text
  pub lower : Text → Text
  pub exclude_paths : List Text

pub record Candidate : Type 0 where
  pub path : Text
  pub raw : Text
  pub count : ℕ

pub record Match : Type 0 where
  pub path : Text
  pub match_count : ℕ
  pub preview : List Snippet

pub data Swept : Type 0 where
  matches : List Match → ℕ → List Text → Swept
  replaced : List Text → ℕ → List Text → Swept

-- `_is_excluded` of src/obsidian_mcp/tools/read.py
abbrev pub is_rel_excluded : List Text → Text → Bool
is_rel_excluded exclude_paths rel =
    let normalized = strip (λ c. c == slash) (replace_char backslash slash rel) in
    any (λ rule. matches_path_rule (λ c. c ∷ []) normalized rule false) exclude_paths

abbrev pub total_matches : List Candidate → ℕ
total_matches [] = 0
total_matches (c ∷ candidates) = c.count + total_matches candidates

module _ {S : Type 0} (store : Store S) (listing : Listing S) (re : Regex) where
  -- `Path(rel).parts[0] == ".trash"`, for the canonical path of a file.
  abbrev pub first_is_trash : List Text → Bool
  first_is_trash [] = false
  first_is_trash (part ∷ parts) = part == text ".trash"

  abbrev pub is_swept : Text → Bool
  is_swept rel =
      ends_with (listing.lower rel) (text ".md")
      && not (is_rel_excluded listing.exclude_paths rel || first_is_trash (split slash rel))

  -- `_is_writable`
  abbrev pub writable_after : Result Error Text → Result Error Bool
  writable_after (ok target) = ok true
  writable_after (err e) = if is_write_permission e then ok false else err e

  abbrev pub is_writable : Text → Result Error Bool
  is_writable rel = writable_after (store.resolve_write rel)

  -- The candidates, and the notes that match but may not be written.
  abbrev pub sorted_in : Candidate → List Candidate × List Text → Bool → List Candidate × List Text
  sorted_in c (candidates, skipped) true = (c ∷ candidates, skipped)
  sorted_in c (candidates, skipped) false = (candidates, c.path ∷ skipped)

  -- One file, where `rest` is what the loop makes of the files after it.
  abbrev pub matched :
      Candidate
      → Result Error (List Candidate × List Text)
      → Result Error (List Candidate × List Text)
  matched c rest =
      if c.count == 0
      then rest
      else is_writable c.path >>= λ writable. rest >>= λ found. ok (sorted_in c found writable)

  abbrev pub read_candidate :
      Pattern
      → Text
      → Result Error Text
      → Result Error (List Candidate × List Text)
      → Result Error (List Candidate × List Text)
  read_candidate pattern rel (ok raw) rest =
      matched (record { path = rel; raw = raw; count = pattern.findall raw }) rest
  read_candidate pattern rel (err e) rest = rest

  unfoldable pub collect : Pattern → S → List Text → Result Error (List Candidate × List Text)
  collect pattern s [] = ok ([], [])
  collect pattern s (rel ∷ files) =
      let rest = collect pattern s files in
      if is_swept rel then read_candidate pattern rel (listing.read_text rel s) rest else rest

  -- All locks are taken before the first write.
  unfoldable pub lock_all : List Candidate → S → Result Error (Unit {0})
  lock_all [] s = ok tt
  lock_all (c ∷ candidates) s = store.acquire_lock c.path s >> lock_all candidates s

  -- `storage.write_text_atomic(rel, pattern.sub(replace, raw))`
  abbrev pub rewrite : Pattern → Text → Candidate → S → Result Error FileRevision × S
  rewrite pattern replace c s =
      attempt (pattern.subn replace c.raw 0) s
        (λ (found : Text × ℕ). store.write_text_atomic c.path found.0 none false s)

  -- `replaced_in` and `total`; a write that raises keeps those before it.
  unfoldable pub write_all : Pattern → Text → List Candidate → S → Result Error (List Text × ℕ) × S
  write_all pattern replace [] s = (ok ([], 0), s)
  write_all pattern replace (c ∷ candidates) s = followed (rewrite pattern replace c s) (λ _ after.
      followed (write_all pattern replace candidates after)
        (λ (done : List Text × ℕ) last. (ok (c.path ∷ done.0, c.count + done.1), last)))

  abbrev pub sweep_preview : Pattern → List Candidate × List Text → Swept
  sweep_preview pattern (candidates, skipped) =
      matches
        (map
          (λ (c : Candidate). record {
            path = c.path;
            match_count = c.count;
            preview = match_snippets re c.raw pattern 3;
          })
          candidates)
        (total_matches candidates) skipped

  unfoldable pub prepare_sweep :
      Text → Mode → Text → S → Result Error (Pattern × (List Candidate × List Text))
  prepare_sweep find mode folder s = do
    pattern ← compiled re mode find
    files ← listing.list_files folder s
    found ← collect pattern s files
    ok (pattern, found)

  unfoldable pub find_replace_in_vault :
      Text → Text → Mode → Text → Bool → S → Result Error Swept × S
  unfolding prepare_sweep lock_all write_all
  find_replace_in_vault find replace mode folder preview_only s =
      attempt (prepare_sweep find mode folder s) s
        (λ (found : Pattern × (List Candidate × List Text)).
          let (pattern, (candidates, skipped)) = found in
          if preview_only
          then (ok (sweep_preview pattern (candidates, skipped)), s)
          else attempt (lock_all candidates s) s (λ _.
            followed (write_all pattern replace candidates s)
              (λ (done : List Text × ℕ) after. (ok (replaced done.0 done.1 skipped), after))))
