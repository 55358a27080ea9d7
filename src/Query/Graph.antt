-- ===== src/Query/Graph.antt =====
-- `get_link_graph` of src/obsidian_mcp/tools/query.py: a breadth-first search over the
-- links of the notes, in the read scope of the calling identity. `meta` is `_meta`, which
-- reads a note and falls back to its name. The loop runs on fuel.
pub mod Ends
pub mod Scoped
use brain_mcp.Base.{
  ℕ, zero, suc, ◌+◌, ◌-◌, Bool, true, false, not, ◌&&◌, ◌||◌, Option, none, some, List, [], ◌∷◌,
  ◌++◌, map, contains, ◌==◌, nat_eq, ltb, Result, ok, err, ◌>>=◌, if◌then◌else◌,
}
use brain_mcp.Base.Text.{Text, text, text_eq}
use brain_mcp.Base.Sorting.{sorted}
use brain_mcp.Errors.{Error}
use brain_mcp.Index.{VaultIndex}
use brain_mcp.Index.Queries.{get_outlinks}
use brain_mcp.Index.Queries as Queries
use brain_mcp.Scoping.{ReadScope, allows}
use brain_mcp.Query.{get_backlinks}

pub record Edge : Type 0 where
  pub source : Text
  pub target : Text
  pub kind : Text

pub record Graph (M : Type 0) : Type 0 where
  pub visited : List Text
  pub nodes : List M
  pub edges : List Edge

-- The queue, and what is found so far.
abbrev pub Search : Type 0 → Type 0
Search M = List (Text × ℕ) × Graph M

-- The edges and the new entries of the queue that a step finds.
abbrev pub Found : Type 0
Found = List Edge × List (Text × ℕ)

abbrev pub edge : Text → Text → Text → Edge
edge source target kind = record { source = source; target = target; kind = kind }

abbrev pub queued : List Text → Text → ℕ → List (Text × ℕ) → List (Text × ℕ)
queued visited path level rest = if contains visited path then rest else (path, suc level) ∷ rest

abbrev pub seen_before : List (Text × Text) → Edge → Bool
seen_before [] e = false
seen_before ((a, b) ∷ seen) e = (a == e.source && b == e.target) || seen_before seen e

-- The first edge of each pair of ends.
unfoldable pub unique_from : List (Text × Text) → List Edge → List Edge
unique_from seen [] = []
unique_from seen (e ∷ edges) =
    let new = e ∷ unique_from ((e.source, e.target) ∷ seen) edges in
    let old = unique_from seen edges in if seen_before seen e then old else new

module _ {M : Type 0} where
  abbrev pub deduplicated : Option (Graph M) → Option (Graph M)
  deduplicated none = none
  deduplicated (some g) = some (record g { edges = unique_from [] g.edges })

  abbrev pub empty_graph : Graph M
  empty_graph = record { visited = []; nodes = []; edges = [] }

module _ (lower : Text → Text) (scope : ReadScope) (index : VaultIndex) (direction : Text) where
  -- `index.resolve_alias(target) or target`
  abbrev pub or_itself : Option Text → Text → Text
  or_itself none name = name
  or_itself (some path) name = path

  abbrev pub resolved : Text → Text
  resolved name = or_itself (Queries.resolve_alias lower index name) name

  abbrev pub with_target : Text → ℕ → List Text → Text → Bool → Found → Found
  with_target current level visited target false found = found
  with_target current level visited target true found =
      (edge current target (text "outgoing") ∷ found.0, queued visited target level found.1)

  unfoldable pub expand_outgoing : Text → ℕ → List Text → List Text → Result Error Found
  expand_outgoing current level visited [] = ok ([], [])
  expand_outgoing current level visited (target ∷ targets) =
      let rest = expand_outgoing current level visited targets in
      allows scope (resolved target) >>= λ allowed.
      rest >>= λ found. ok (with_target current level visited (resolved target) allowed found)

  unfoldable pub expand_incoming : Text → ℕ → List Text → List Text → Found
  expand_incoming current level visited [] = ([], [])
  expand_incoming current level visited (source ∷ sources) =
      let rest = expand_incoming current level visited sources in
      (edge source current (text "incoming") ∷ rest.0, queued visited source level rest.1)

  abbrev pub goes : Text → Bool
  goes way = direction == way || direction == text "both"

  abbrev pub targets_of : Bool → Text → Result Error (List Text)
  targets_of false current = ok []
  targets_of true current = do targets ← get_outlinks index current; ok (sorted targets)

  abbrev pub sources_of : Bool → Text → Result Error (List Text)
  sources_of false current = ok []
  sources_of true current = get_backlinks lower scope current index

  module _ {M : Type 0} (meta : Text → M) (depth : ℕ) where
    abbrev pub extended : Text → Found → Found → List (Text × ℕ) → Graph M → Search M
    extended current out incoming queue g = (
      queue ++ (out.1 ++ incoming.1),
      record {
        visited = current ∷ g.visited;
        nodes = g.nodes ++ (meta current ∷ []);
        edges = g.edges ++ (out.0 ++ incoming.0);
      },
    )

    unfoldable pub visit : Text → ℕ → List (Text × ℕ) → Graph M → Result Error (Search M)
    unfolding expand_outgoing expand_incoming
    visit current level queue g = do
      targets ← targets_of (goes (text "outgoing")) current
      out ← expand_outgoing current level (current ∷ g.visited) targets
      sources ← sources_of (goes (text "incoming")) current
      ok (
          extended current out (expand_incoming current level (current ∷ g.visited) sources) queue
            g)

    abbrev pub if_allowed : Bool → Text → ℕ → List (Text × ℕ) → Graph M → Result Error (Search M)
    if_allowed true current level queue g = visit current level queue g
    if_allowed false current level queue g = ok (queue, g)

    -- One turn of the loop.
    unfoldable pub pop : Text → ℕ → List (Text × ℕ) → Graph M → Result Error (Search M)
    unfolding visit
    pop current level queue g =
        if contains g.visited current || ltb depth level
        then ok (queue, g)
        else (allows scope current >>= λ allowed. if_allowed allowed current level queue g)

    unfoldable pub search : ℕ → Search M → Result Error (Option (Graph M))
    unfolding pop
    search fuel ([], g) = ok (some g)
    search zero (entry ∷ queue, g) = ok none
    search (suc fuel) ((current, level) ∷ queue, g) =
        pop current level queue g >>= λ next. search fuel next

    unfoldable pub get_link_graph : ℕ → Text → Result Error (Option (Graph M))
    unfolding search
    get_link_graph fuel root =
        search fuel ((root, 0) ∷ [], empty_graph) >>= λ found. ok (deduplicated found)
