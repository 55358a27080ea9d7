-- ===== src/Tools/Replace.antt =====
-- Finding and replacing text in a note: `patch_note_text` and `_match_snippets` of
-- src/obsidian_mcp/tools/write.py, over a storage. The update of the index that follows is
-- not modelled.
use brain_mcp.Base.{
  ℕ, zero, suc, Bool, true, false, not, Option, none, some, List, [], ◌∷◌, ◌==◌, nat_eq, Result, ok,
  err, raise_if, ◌>>=◌, ◌>>◌, if◌then◌else◌,
}
use brain_mcp.Base.Text.{Text, text_eq}
use brain_mcp.Errors.{Error, value_error, file_not_found}
use brain_mcp.Revisions.{token, read_text_for_update}
use brain_mcp.Tools.Store.{Store, attempt, followed}
use brain_mcp.Tools.Write.{Setting, opened_path}

-- A compiled pattern of Python's `re`: `subn`, which may refuse the replacement,
-- `findall`, counted, and `search`.
pub record Pattern : Type 0 where
  pub subn : Text → Text → ℕ → Result Error (Text × ℕ)
  pub findall : Text → ℕ
  pub search : Text → Bool

-- `re.compile` and `re.escape`, and `str.splitlines`; `compile` is `none` where it raises
-- `re.error`, which it does for no escaped text.
pub record Regex : Type 0 where
  pub compile : Text → Option Pattern
  pub literal : Text → Pattern
  pub splitlines : Text → List Text

pub data Mode : Type 0 where
  exact regex : Mode

pub record Snippet : Type 0 where
  pub line : ℕ
  pub snippet : Text

abbrev pub or_value_error : Option Pattern → Result Error Pattern
or_value_error none = err value_error
or_value_error (some pattern) = ok pattern

module _ (re : Regex) where
  abbrev pub compiled : Mode → Text → Result Error Pattern
  compiled exact find = ok (re.literal find)
  compiled regex find = or_value_error (re.compile find)

  -- The lines from the number `n` on; `room` is what the limit leaves.
  abbrev pub next_snippets : Bool → Snippet → List Snippet → List Snippet → List Snippet
  next_snippets true found room_left same_room = found ∷ room_left
  next_snippets false found room_left same_room = same_room

  unfoldable pub snippets_from : Pattern → ℕ → List Text → ℕ → List Snippet
  snippets_from pattern n [] room = []
  snippets_from pattern n (line ∷ lines) zero = []
  snippets_from pattern n (line ∷ lines) (suc room) =
      next_snippets (pattern.search line) (record { line = n; snippet = line })
        (snippets_from pattern (suc n) lines room) (snippets_from pattern (suc n) lines (suc room))

  -- `_match_snippets`, for a limit above 0.
  abbrev pub match_snippets : Text → Pattern → ℕ → List Snippet
  match_snippets raw pattern limit = snippets_from pattern 1 (re.splitlines raw) limit

pub record TextPatched : Type 0 where
  pub path : Text
  pub replacements : ℕ
  pub diff : Text
  pub preview : Option (List Snippet)
  pub revision : Text

module _ {S : Type 0} (store : Store S) (setting : Setting) (re : Regex) where
  -- The checks of `patch_note_text` and the note that it finds; `readable` is
  -- `storage.exists(path, read=True)`.
  unfoldable pub prepare_patch :
      (Text → S → Result Error Bool)
      → Text
      → Text
      → Text
      → Mode
      → ℕ
      → Option Text
      → S
      → Result Error (Text × Pattern × (Text × Text) × (Text × ℕ))
  prepare_patch readable path find replace mode count expected s = do
    target ← opened_path store setting path
    there ← readable target s
    raise_if (not there) file_not_found
    pattern ← compiled re mode find
    store.acquire_lock target s
    found ←
        read_text_for_update setting.strings (store.read_text_with_revision target s) target
          expected
    replaced ← pattern.subn replace found.0 count
    raise_if (replaced.1 == 0) value_error
    ok (target, pattern, found, replaced)

  unfoldable pub patch_note_text :
      (Text → S → Result Error Bool)
      → Text
      → Text
      → Text
      → Mode
      → ℕ
      → Bool
      → Option Text
      → S
      → Result Error TextPatched × S
  unfolding prepare_patch
  patch_note_text readable path find replace mode count preview_only expected s =
      attempt (prepare_patch readable path find replace mode count expected s) s
        (λ (found : Text × Pattern × (Text × Text) × (Text × ℕ)).
          let (target, pattern, (raw, current), (content, n)) = found in
          if preview_only
          then (
            ok (record {
              path = target;
              replacements = n;
              diff = setting.unified_diff raw content target;
              preview = some (match_snippets re raw pattern 5);
              revision = current;
            }),
            s,
          )
          else followed (store.write_text_atomic target content (some current) false s)
              (λ revision after. (
                ok (record {
                  path = target;
                  replacements = n;
                  diff = setting.unified_diff raw content target;
                  preview = none;
                  revision = token revision;
                }),
                after,
              )))
