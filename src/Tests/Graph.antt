-- ===== src/Tests/Graph.antt =====
-- The link graph of a vault of one note, which links to another.
use brain_mcp.Base.{ℕ, ◌≡◌, ◌≢◌, refl, none, some, [], ◌∷◌, ◌==◌, nat_eq, ok, arith}
use native.Mathlib.Decide.{ℕ_discrete}
use brain_mcp.Base.Text.{Text, text, text_eq, Text-discrete, split}
use brain_mcp.Base.Dict.{lookup, insert}
use brain_mcp.Base.Sets.{add_at, add, to_set}
use brain_mcp.Base.Sorting.{sorted, insert_sorted, text_leb}
use brain_mcp.Index.{path_name, last_dot, stem, register, index_note, block_lines}
use brain_mcp.Index.Queries.{link_keys, gather, aliases_of, without_md, get_outlinks}
use brain_mcp.Index.Queries as Queries
use brain_mcp.Scoping.{ReadScope, allows, filter, filter_by}
use brain_mcp.Query.{get_backlinks}
use brain_mcp.Query.Graph.{
  Graph, search, expand_incoming, expand_outgoing, pop, unique_from, visit, get_link_graph,
}
use brain_mcp.Query.Graph.Ends.{weight, get_link_graph-ends}
use brain_mcp.Query.Graph.Scoped.{IsScoped, get_link_graph-IsScoped}
use brain_mcp.Tests.Notes.{index, a_note, as_is}

-- Only the note itself may be read.
abbrev scope : ReadScope
scope = record { predicate = some (λ path. ok (path == a_note)) }

abbrev turns : ℕ
turns = weight as_is scope index (text "both") 3 a_note

get_link_graph-ends_example :
    get_link_graph as_is scope index (text "both") (λ path. path) 2 turns a_note ≢ ok none
get_link_graph-ends_example =
    get_link_graph-ends as_is scope index (text "both") 2 (λ path. path) turns a_note (omega arith)

abbrev graph : Graph Text
graph = record { visited = a_note ∷ []; nodes = a_note ∷ []; edges = [] }

finds : get_link_graph as_is scope index (text "both") (λ path. path) 2 5 a_note ≡ ok (some graph)
unfolding get_link_graph allows ◌==◌ text_eq get_outlinks sorted lookup index_note insert to_set
    get_backlinks Queries.get_backlinks filter add_at without_md stem split register add
    insert_sorted text_leb nat_eq Text-discrete aliases_of gather Queries.resolve_alias block_lines
    last_dot path_name expand_incoming expand_outgoing pop search unique_from visit filter_by
    ℕ_discrete
finds = refl

get_link_graph-IsScoped_example : IsScoped scope (λ path. path) graph
get_link_graph-IsScoped_example =
    get_link_graph-IsScoped scope as_is index (text "both") (λ path. path) 2 5 a_note graph finds
