-- ===== src/Audit.antt =====
-- `read_entries` of src/obsidian_mcp/storage/audit.py: the filters of the audit log, and
-- its order. `parse` is `json.loads` of a line, `none` where it raises. The lines of the
-- file are given, and the limit is not negative.
pub mod Order
use brain_mcp.Base.{
  ℕ, zero, suc, Bool, true, false, not, ◌&&◌, Option, none, some, List, [], ◌∷◌, reverse, ◌==◌,
  if◌then◌else◌,
}
use brain_mcp.Base.Text.{Text, text_eq, strip}
use brain_mcp.Base.Sorting.{text_leb}

-- A value that an entry lacks is `None`.
pub record AuditEntry : Type 0 where
  pub timestamp : Option Text
  pub tool : Option Text
  pub path : Option Text
  pub vault : Option Text
  pub summary : Option Text

pub record Filter : Type 0 where
  pub path : Option Text
  pub tool : Option Text
  pub since : Option Text
  pub vault : Option Text
  pub path_allowed : Option (Option Text → Bool)

-- `entry.get("timestamp", "")`
abbrev pub stamp : AuditEntry → Text
stamp entry = or_empty entry.timestamp
  where
    or_empty : Option Text → Text
    or_empty none = []
    or_empty (some t) = t

abbrev pub same : Text → Option Text → Bool
same value none = false
same value (some other) = other == value

-- `value is not None and entry.get(key) != value`, turned round.
abbrev pub passes : Option Text → Option Text → Bool
passes none found = true
passes (some value) found = same value found

abbrev pub passes_since : Option Text → Text → Bool
passes_since none time = true
passes_since (some since) time = text_leb since time

abbrev pub passes_path : Option (Option Text → Bool) → Option Text → Bool
passes_path none path = true
passes_path (some path_allowed) path = path_allowed path

unfoldable pub selects : Filter → AuditEntry → Bool
selects filter entry =
    passes filter.vault entry.vault
    && passes filter.path entry.path
    && passes filter.tool entry.tool
    && passes_since filter.since (stamp entry)
    && passes_path filter.path_allowed entry.path

-- The newest first; of entries of one time the order is kept, as `list.sort` keeps it.
unfoldable pub insert_newest : AuditEntry → List AuditEntry → List AuditEntry
insert_newest entry [] = entry ∷ []
insert_newest entry (other ∷ entries) =
    if text_leb (stamp other) (stamp entry)
    then entry ∷ other ∷ entries
    else other ∷ insert_newest entry entries

unfoldable pub newest_first : List AuditEntry → List AuditEntry
unfolding insert_newest
newest_first [] = []
newest_first (entry ∷ entries) = insert_newest entry (newest_first entries)

unfoldable pub take : ℕ → List AuditEntry → List AuditEntry
take zero entries = []
take (suc n) [] = []
take (suc n) (entry ∷ entries) = entry ∷ take n entries

module _ (is_space : ℕ → Bool) (parse : Text → Option AuditEntry) (filter : Filter) where
  abbrev pub selected : Option AuditEntry → List AuditEntry → List AuditEntry
  selected none rest = rest
  selected (some entry) rest = if selects filter entry then entry ∷ rest else rest

  unfoldable pub matching : List Text → List AuditEntry
  unfolding selects
  matching [] = []
  matching (line ∷ lines) =
      let rest = matching lines in
      let stripped = strip is_space line in
      if stripped == [] then rest else selected (parse stripped) rest

  unfoldable pub read_entries : List Text → ℕ → List AuditEntry
  unfolding matching newest_first take
  read_entries lines limit = take limit (newest_first (reverse (matching lines)))
