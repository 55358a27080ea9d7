-- ===== src/Tools/Sections.antt =====
-- `_find_section_bounds`, `_patch_section` and `_patch_block_ref` of
-- src/obsidian_mcp/tools/write.py. What the regular expressions find is a parameter;
-- positions are those of code points.
pub mod Kept
use brain_mcp.Base.{
  ℕ, zero, suc, ◌+◌, ◌-◌, Bool, true, false, Option, none, some, [], ◌∷◌, ◌++◌, length, ◌==◌,
  nat_eq, Result, ok, err, ◌>>=◌, if◌then◌else◌,
}
use brain_mcp.Base.Text.{Text, text, strip, rstrip}
use brain_mcp.Errors.{Error, value_error}

-- `heading` is the first match of the heading's pattern, its start, its end and the number
-- of `#`; `next` the start of the next heading of that level or above, in what follows;
-- `block` the start and the end of the line of a block reference.
pub record Finder : Type 0 where
  pub heading : Text → Text → Option (ℕ × ℕ × ℕ)
  pub next : ℕ → Text → Option ℕ
  pub block : Text → Text → Option (ℕ × ℕ)
  pub is_space : ℕ → Bool

pub data PatchMode : Type 0 where
  replace insert_before insert_after append unknown : PatchMode

-- `content[:n]` and `content[n:]`
unfoldable pub before : ℕ → Text → Text
before zero s = []
before (suc n) [] = []
before (suc n) (c ∷ s) = c ∷ before n s

unfoldable pub after : ℕ → Text → Text
after zero s = s
after (suc n) [] = []
after (suc n) (c ∷ s) = after n s

abbrev pub end_of_line : Text
end_of_line = text "\n"

abbrev pub blank_line : Text
blank_line = text "\n\n"

module _ (finder : Finder) where
  -- `new_content.strip()`
  abbrev pub stripped : Text → Text
  stripped s = strip finder.is_space s

  abbrev pub body_end_of : ℕ → Text → Option ℕ → ℕ
  body_end_of h_end content none = length content
  body_end_of h_end content (some offset) = h_end + offset

  abbrev pub bounds_of : Text → Option (ℕ × ℕ × ℕ) → Result Error (ℕ × ℕ × ℕ)
  bounds_of content none = err value_error
  bounds_of content (some (h_start, h_end, level)) =
      ok (h_start, h_end, body_end_of h_end content (finder.next level (after h_end content)))

  unfoldable pub find_section_bounds : Text → Text → Result Error (ℕ × ℕ × ℕ)
  unfolding after
  find_section_bounds content heading = bounds_of content (finder.heading content heading)

  abbrev pub patched_section : Text → Text → PatchMode → ℕ × ℕ × ℕ → Result Error Text
  patched_section content new_content replace (h_start, h_end, body_end) =
      let heading_line = rstrip (λ c. c == b'\n') (after h_start (before h_end content)) in
      ok (
        before h_start content
        ++ heading_line
        ++ blank_line
        ++ stripped new_content
        ++ end_of_line
        ++ after body_end content)
  patched_section content new_content insert_before (h_start, h_end, body_end) =
      ok (before h_start content ++ (stripped new_content ++ blank_line) ++ after h_start content)
  patched_section content new_content insert_after (h_start, h_end, body_end) = ok (
      before h_end content
      ++ (end_of_line ++ stripped new_content ++ blank_line)
      ++ after h_end content)
  patched_section content new_content append (h_start, h_end, body_end) = ok (
      rstrip (λ c. c == b'\n') (before body_end content)
      ++ (blank_line ++ stripped new_content ++ end_of_line)
      ++ after body_end content)
  patched_section content new_content unknown bounds = err value_error

  unfoldable pub patch_section : Text → Text → Text → PatchMode → Result Error Text
  unfolding find_section_bounds before after
  patch_section content heading new_content mode =
      find_section_bounds content heading >>= λ (bounds : ℕ × ℕ × ℕ).
      patched_section content new_content mode bounds

  abbrev pub inserted_below : Text → Text → ℕ × ℕ → Result Error Text
  inserted_below content new_content (start, end) =
      ok (before end content ++ (end_of_line ++ stripped new_content) ++ after end content)

  abbrev pub patched_block : Text → Text → Text → PatchMode → ℕ × ℕ → Result Error Text
  patched_block content block_id new_content replace (start, end) =
      ok (
        before start content
        ++ (stripped new_content ++ text " ^" ++ block_id)
        ++ after end content)
  patched_block content block_id new_content insert_before (start, end) =
      ok (before start content ++ (stripped new_content ++ end_of_line) ++ after start content)
  patched_block content block_id new_content insert_after found =
      inserted_below content new_content found
  patched_block content block_id new_content append found = inserted_below content new_content found
  patched_block content block_id new_content unknown found = err value_error

  abbrev pub found_block : Option (ℕ × ℕ) → Result Error (ℕ × ℕ)
  found_block none = err value_error
  found_block (some found) = ok found

  unfoldable pub patch_block_ref : Text → Text → Text → PatchMode → Result Error Text
  unfolding before after
  patch_block_ref content block_id new_content mode =
      found_block (finder.block content block_id) >>= λ (found : ℕ × ℕ).
      patched_block content block_id new_content mode found
