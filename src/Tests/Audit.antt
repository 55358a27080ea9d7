-- ===== src/Tests/Audit.antt =====
-- The audit log of two writes, of which one may be shown.
use brain_mcp.Base.{ℕ, ◌≡◌, refl, Bool, Option, none, some, List, [], ◌∷◌, length, ◌==◌, nat_eq}
use native.Mathlib.Decide.{ℕ_discrete}
use brain_mcp.Base.Text.{Text, text, text_eq, Text-discrete, rstrip, lstrip}
use brain_mcp.Base.Sorting.{text_leb}
use brain_mcp.Audit.{
  AuditEntry, Filter, selects, matching, read_entries, take, newest_first, insert_newest,
}
use brain_mcp.Audit.Order.{IsNewest, read_entries-IsNewest}

-- A line is the time of its entry.
abbrev parse : Text → Option AuditEntry
parse line = some (record {
  timestamp = some line;
  tool = some (text "write_note");
  path = some (text "a.md");
  vault = none;
  summary = none;
})

abbrev since_two : Filter
since_two = record {
  path = none;
  tool = some (text "write_note");
  since = some (text "2");
  vault = none;
  path_allowed = none;
}

abbrev is_blank : ℕ → Bool
is_blank c = c == b' '

abbrev log : List Text
log = text "1" ∷ text "2" ∷ [] ∷ text "3" ∷ []

newest : length (read_entries is_blank parse since_two log 1) ≡ 1
unfolding read_entries selects rstrip lstrip text_leb ◌==◌ nat_eq text_eq Text-discrete ℕ_discrete
    insert_newest matching newest_first take
newest = refl

read_entries-IsNewest_example :
    IsNewest is_blank parse since_two log 1 (read_entries is_blank parse since_two log 1)
read_entries-IsNewest_example = read_entries-IsNewest is_blank parse since_two log 1
