-- ===== src/Models.antt =====
-- The data of src/obsidian_mcp/domain/models.py. A frontmatter is a YAML mapping, whose
-- values the index does not look at: it is kept as text by key.
use brain_mcp.Base.{ℕ, Bool, Option, List}
use brain_mcp.Base.Text.{Text}
use brain_mcp.Base.Dict.{Dict}

pub record FileRevision : Type 0 where
  pub sha256 : Text
  pub size : ℕ
  pub mtime_ns : ℕ

pub record WikiLink : Type 0 where
  pub target : Text
  pub alias : Option Text
  pub heading : Option Text

pub record BlockRef : Type 0 where
  pub block_id : Text
  pub line : ℕ
  pub content : Text

pub record Callout : Type 0 where
  pub kind : Text
  pub title : Text
  pub body : Text

pub record Task : Type 0 where
  pub content : Text
  pub done : Bool
  pub line : ℕ
  pub due : Option Text
  pub recurrence : Option Text
  pub priority : Option Text
  pub done_date : Option Text

pub record Note : Type 0 where
  pub path : Text
  pub frontmatter : Dict Text Text
  pub tags : List Text
  pub aliases : List Text
  pub wikilinks : List WikiLink
  pub block_refs : List BlockRef
  pub block_links : List Text
  pub callouts : List Callout
  pub tasks : List Task
  pub inline_fields : Dict Text Text
  pub content : Text
