-- ===== src/Tools/Frontmatter.antt =====
-- Frontmatter in src/obsidian_mcp/tools/write.py: `_FM_RE`, `_parse_frontmatter`,
-- `_serialize_frontmatter`, `_apply_frontmatter_updates` and the tag lists of
-- `_apply_tag_changes`. The YAML library is a parameter; of a value the code asks whether
-- it is a list. A frontmatter that is no mapping is not modelled.
pub mod RoundTrip
use brain_mcp.Base.{
  ℕ, Eq, Bool, true, false, not, ◌&&◌, Option, none, some, List, [], ◌∷◌, ◌++◌, keep, contains,
  ◌==◌, nat_eq, if◌then◌else◌,
}
use brain_mcp.Base.Text.{Text, text, text_eq, strip}
use brain_mcp.Base.Dict.{Dict, lookup, insert}
use brain_mcp.Paths.{is_nil}
use brain_mcp.Revisions.{after_prefix}

pub data FieldValue (V : Type 0) : Type 0 where
  single : V → FieldValue V
  sequence : List V → FieldValue V

abbrev pub Frontmatter : Type 0 → Type 0
Frontmatter V = Dict Text (FieldValue V)

-- `load` is `yaml.safe_load(text) or {}`, `none` where it raises; `dump` is
-- `yaml.dump(fm, …).strip()`.
pub record Yaml (V : Type 0) : Type 0 where
  pub load : Text → Option (Frontmatter V)
  pub dump : Frontmatter V → Text
  pub string : Text → V
  pub is_truthy : V → Bool

abbrev pub opening : Text
opening = text "---\n"

abbrev pub fence : Text
fence = text "\n---"

abbrev pub newline : Text
newline = text "\n"

-- `\n?`
abbrev pub skip_newline : Option Text → Text → Text
skip_newline (some rest) s = rest
skip_newline none s = s

-- One letter before what is found after it, unless the fence begins with it.
abbrev pub closed : ℕ → Text → Option Text → Option (Text × Text) → Option (Text × Text)
closed c s (some rest) later = some ([], skip_newline (after_prefix rest newline) rest)
closed c s none (some (before, after)) = some (c ∷ before, after)
closed c s none none = none

-- What is before the first closing fence, and after it.
unfoldable pub closing : Text → Option (Text × Text)
unfolding after_prefix
closing [] = none
closing (c ∷ s) = closed c s (after_prefix (c ∷ s) fence) (closing s)

abbrev pub closing_of : Option Text → Option (Text × Text)
closing_of none = none
closing_of (some rest) = closing rest

-- `_FM_RE.match(raw)`: the YAML text, and what follows.
unfoldable pub match_frontmatter : Text → Option (Text × Text)
unfolding closing
match_frontmatter raw = closing_of (after_prefix raw opening)

module _ {V : Type 0} (yaml : Yaml V) where
  abbrev pub or_empty : Option (Frontmatter V) → Frontmatter V
  or_empty none = []
  or_empty (some fm) = fm

  abbrev pub parsed : Text → Option (Text × Text) → Frontmatter V × Text
  parsed raw none = ([], raw)
  parsed raw (some (yaml_text, body)) = (or_empty (yaml.load yaml_text), body)

  unfoldable pub parse_frontmatter : Text → Frontmatter V × Text
  unfolding match_frontmatter
  parse_frontmatter raw = parsed raw (match_frontmatter raw)

  unfoldable pub serialize_frontmatter : Frontmatter V → Text → Text
  serialize_frontmatter fm body = opening ++ (yaml.dump fm ++ (fence ++ (newline ++ body)))

  -- The frontmatter of the note that is overwritten, if the new content has none.
  abbrev pub carried : Text → Option (Text × Text) → Text → Text × Bool
  carried content (some own) before = (content, false)
  carried content none before =
      let fm = (parse_frontmatter before).0 in
      if is_nil fm then (content, false) else (serialize_frontmatter fm content, true)

  unfoldable pub preserve : Text → Text → Text × Bool
  preserve content before = carried content (match_frontmatter content) before

  module _ ⦃e : Eq V⦄ where
    abbrev pub merged_value : Bool → FieldValue V → Option (FieldValue V) → FieldValue V
    merged_value true (sequence values) (some (sequence existing)) =
        sequence (existing ++ keep (λ v. not (contains existing v)) values)
    merged_value merge_arrays value existing = value

    unfoldable pub apply_updates : Bool → Frontmatter V → Frontmatter V → Frontmatter V
    apply_updates merge_arrays [] fm = fm
    apply_updates merge_arrays ((key, value) ∷ updates) fm =
        apply_updates merge_arrays updates
          (insert key (merged_value merge_arrays value (lookup key fm)) fm)

    unfoldable pub apply_frontmatter_updates : Text → Frontmatter V → Bool → Text
    unfolding apply_updates
    apply_frontmatter_updates raw updates merge_arrays =
        let found = parse_frontmatter raw in
        serialize_frontmatter (apply_updates merge_arrays updates found.0) found.1

    -- `fm.get("tags", [])` as a list.
    abbrev pub tag_list : Option (FieldValue V) → List V
    tag_list none = []
    tag_list (some (sequence tags)) = tags
    tag_list (some (single tag)) = if yaml.is_truthy tag then tag ∷ [] else []

    unfoldable pub add_tags : List Text → List V → List V
    add_tags [] current = current
    add_tags (tag ∷ tags) current =
        add_tags tags (
          if contains current (yaml.string tag) then current else current ++ (yaml.string tag ∷ []))

    unfoldable pub remove_tags : List Text → List V → List V
    remove_tags [] current = current
    remove_tags (tag ∷ tags) current =
        remove_tags tags (keep (λ t. not (t == yaml.string tag)) current)

    -- `strip_inline` removes the inline tags from the body, by regular expressions.
    unfoldable pub apply_tag_changes :
        (List Text → Text → Text) → Text → List Text → List Text → Text
    unfolding add_tags remove_tags
    apply_tag_changes strip_inline raw add remove =
        let found = parse_frontmatter raw in
        let current = tag_list (lookup (text "tags") found.0) in
        let tags = remove_tags remove (add_tags add current) in
        serialize_frontmatter (insert (text "tags") (sequence tags) found.0)
          (strip_inline remove found.1)
