-- ===== src/Query/Graph/Scoped.antt =====
-- What `get_link_graph` of src/obsidian_mcp/tools/query.py shows: notes that its caller may
-- read only.
use brain_mcp.Base.{
  ℕ, zero, suc, ◌≡◌, refl, ap, sym, subst, ◌∙◌, ◌++◌, map, reverse, Bool, true, false, ◌||◌,
  Bool-cases, inl, inr, Option, none, some, List, [], ◌∷◌, contains, ==_iff, All, All-append, ltb,
  Result, ok, >>=-eq-ok, ok-injective, arith,
}
use mathlib.Core.List.{reverse-cons}
use brain_mcp.Base.Text.{Text, text, text_eq}
use brain_mcp.Errors.{Error}
use brain_mcp.Index.{VaultIndex}
use brain_mcp.Index.Queries as Queries
use brain_mcp.Scoping.{ReadScope, allows, ask, filter, filter_with}
use brain_mcp.Query.{get_backlinks}
use brain_mcp.Query.Visible.{filter_by-allowed}
use brain_mcp.Query.Graph.{
  Edge, Graph, Search, Found, resolved, with_target, expand_outgoing, expand_incoming, goes,
  targets_of, sources_of, visit, if_allowed, pop, search, get_link_graph, deduplicated, empty_graph,
  seen_before, unique_from,
}

map-append :
    {M : Type 0} (meta : Text → M) (paths others : List Text)
    → map meta (paths ++ others) ≡ map meta paths ++ map meta others
map-append meta [] others = refl
map-append meta (path ∷ paths) others = ap (λ x. meta path ∷ x) (map-append meta paths others)

some-injective : {M : Type 0} (g found : M) → some g ≡ some found → g ≡ found
some-injective g found h = cc

All-unique_from :
    (P : Edge → Type 0) (seen : List (Text × Text)) (edges : List Edge)
    → All P edges
    → All P (unique_from seen edges)
unfolding unique_from
All-unique_from P seen [] a = tt
All-unique_from P seen (e ∷ edges) a = elim (Bool-cases (seen_before seen e)) [
  | inl s ↦ rw s (All-unique_from P seen edges a.1)
  | inr s ↦ rw s (a.0, All-unique_from P ((e.source, e.target) ∷ seen) edges a.1)
]

module _ (scope : ReadScope) where
  abbrev pub IsVisible : Text → Type 0
  IsVisible path = allows scope path ≡ ok true

  abbrev pub IsVisibleEdge : Edge → Type 0
  IsVisibleEdge e = IsVisible e.source × IsVisible e.target

  -- The notes that the search has visited, whose metadata are the graph's nodes, and both ends
  -- of its edges.
  pub record IsScoped {M : Type 0} (meta : Text → M) (g : Graph M) : Type 0 where
    pub visible : All IsVisible g.visited
    pub shown : g.nodes ≡ map meta (reverse g.visited)
    pub ends : All IsVisibleEdge g.edges

  filter_with-visible :
      (predicate : Option (Text → Result Error Bool)) (paths found : List Text)
      → filter_with predicate paths ≡ ok found
      → (path : Text) → contains found path ≡ true
      → ask predicate path ≡ ok true
  filter_with-visible none paths found h path m = refl
  filter_with-visible (some predicate) paths found h path m =
      filter_by-allowed predicate paths found path h m

  All-contains :
      (paths : List Text)
      → ((path : Text) → contains paths path ≡ true → IsVisible path)
      → All IsVisible paths
  All-contains [] h = tt
  All-contains (p ∷ paths) h =
      (h p (ground (arith, ==_iff p p)), All-contains paths (λ q m. h q (ground (arith, m))))

  module _ (lower : Text → Text) (index : VaultIndex) (direction : Text) where
    sources_of-visible :
        (current : Text) (go : Bool) (sources : List Text)
        → sources_of lower scope index direction go current ≡ ok sources
        → All IsVisible sources
    unfolding get_backlinks filter allows
    sources_of-visible current false sources h =
        subst (All IsVisible) (ok-injective [] sources h) tt
    sources_of-visible current true sources h =
        let (linking, a, b) = >>=-eq-ok (Queries.get_backlinks lower index current) _ h in
        All-contains sources (filter_with-visible scope.predicate linking sources b)

    with_target-visible :
        (current : Text) (level : ℕ) (visited : List Text) (target : Text) (allowed : Bool)
        (found : Found)
        → IsVisible current
        → allows scope target ≡ ok allowed
        → All IsVisibleEdge found.0
        → All IsVisibleEdge
            (with_target lower scope index direction current level visited target allowed found).0
    with_target-visible current level visited target false found v a h = h
    with_target-visible current level visited target true found v a h = ((v, a), h)

    expand_outgoing-visible :
        (current : Text) (level : ℕ) (visited targets : List Text) (found : Found)
        → IsVisible current
        → expand_outgoing lower scope index direction current level visited targets ≡ ok found
        → All IsVisibleEdge found.0
    unfolding expand_outgoing
    expand_outgoing-visible current level visited [] found v h =
        subst (λ (x : Found). All IsVisibleEdge x.0) (ok-injective ([], []) found h) tt
    expand_outgoing-visible current level visited (target ∷ targets) found v h =
        let name = resolved lower scope index direction target in
        let (allowed, a, h₁) = >>=-eq-ok (allows scope name) _ h in
        let (rest, b, h₂) =
          >>=-eq-ok (expand_outgoing lower scope index direction current level visited targets) _
            h₁ in
        subst (λ (x : Found). All IsVisibleEdge x.0) (ok-injective _ found h₂)
          (with_target-visible current level visited name allowed rest v a
            (expand_outgoing-visible current level visited targets rest v b))

    expand_incoming-visible :
        (current : Text) (level : ℕ) (visited sources : List Text)
        → IsVisible current
        → All IsVisible sources
        → All IsVisibleEdge
            (expand_incoming lower scope index direction current level visited sources).0
    unfolding expand_incoming
    expand_incoming-visible current level visited [] v s = tt
    expand_incoming-visible current level visited (source ∷ sources) v s =
        ((s.0, v), expand_incoming-visible current level visited sources v s.1)

    module _ {M : Type 0} (meta : Text → M) (depth : ℕ) where
      visit-IsScoped :
          (current : Text) (level : ℕ) (queue : List (Text × ℕ)) (g : Graph M) (next : Search M)
          → IsScoped meta g
          → IsVisible current
          → visit lower scope index direction meta depth current level queue g ≡ ok next
          → IsScoped meta next.1
      unfolding visit
      visit-IsScoped current level queue g next i v h =
          let (targets, a, h₁) =
            >>=-eq-ok
              (targets_of lower scope index direction
                (goes lower scope index direction (text "outgoing")) current)
              _ h in
          let visited = current ∷ g.visited in
          let (out, b, h₂) =
            >>=-eq-ok (expand_outgoing lower scope index direction current level visited targets) _
              h₁ in
          let (sources, c, h₃) =
            >>=-eq-ok
              (sources_of lower scope index direction
                (goes lower scope index direction (text "incoming")) current)
              _ h₂ in
          subst (λ (x : Search M). IsScoped meta x.1) (ok-injective _ next h₃)
            (record {
              visible = (v, i.visible);
              shown =
                  ap (λ nodes. nodes ++ (meta current ∷ [])) i.shown
                  ∙ (sym (map-append meta (reverse g.visited) (current ∷ []))
                      ∙ ap (map meta) (sym (reverse-cons current g.visited)));
              ends = All-append IsVisibleEdge g.edges _ i.ends (
                  All-append IsVisibleEdge out.0 _
                    (expand_outgoing-visible current level visited targets out v b)
                    (expand_incoming-visible current level visited sources v
                      (sources_of-visible current _ sources c)));
            })

      if_allowed-IsScoped :
          (current : Text) (level : ℕ) (queue : List (Text × ℕ)) (g : Graph M) (next : Search M)
          (allowed : Bool)
          → IsScoped meta g
          → allows scope current ≡ ok allowed
          → if_allowed lower scope index direction meta depth allowed current level queue g
            ≡ ok next
          → IsScoped meta next.1
      if_allowed-IsScoped current level queue g next true i a h =
          visit-IsScoped current level queue g next i a h
      if_allowed-IsScoped current level queue g next false i a h =
          subst (λ (x : Search M). IsScoped meta x.1) (ok-injective (queue, g) next h) i

      pop-IsScoped :
          (current : Text) (level : ℕ) (queue : List (Text × ℕ)) (g : Graph M) (next : Search M)
          → IsScoped meta g
          → pop lower scope index direction meta depth current level queue g ≡ ok next
          → IsScoped meta next.1
      unfolding pop
      pop-IsScoped current level queue g next i h =
          elim (Bool-cases (contains g.visited current || ltb depth level)) [
            | inl skip ↦
                subst (λ (x : Search M). IsScoped meta x.1)
                  (ok-injective (queue, g) next (rw skip at h)) i
            | inr keep ↦
                let (allowed, a, h₁) = >>=-eq-ok (allows scope current) _ (rw keep at h) in
                if_allowed-IsScoped current level queue g next allowed i a h₁
          ]

      search-IsScoped :
          (fuel : ℕ) (queue : List (Text × ℕ)) (g found : Graph M)
          → IsScoped meta g
          → search lower scope index direction meta depth fuel (queue, g) ≡ ok (some found)
          → IsScoped meta found
      unfolding search
      search-IsScoped fuel [] g found i h =
          subst (IsScoped meta) (some-injective g found (ok-injective (some g) (some found) h)) i
      search-IsScoped zero ((current, level) ∷ queue) g found i h =
          cc (ok-injective none (some found) h)
      search-IsScoped (suc fuel) ((current, level) ∷ queue) g found i h =
          let (next, a, b) =
            >>=-eq-ok (pop lower scope index direction meta depth current level queue g) _ h in
          search-IsScoped fuel next.0 next.1 found (pop-IsScoped current level queue g next i a) b

      deduplicated-IsScoped :
          (answer : Option (Graph M)) (found : Graph M)
          → ((g : Graph M) → answer ≡ some g → IsScoped meta g)
          → deduplicated answer ≡ some found
          → IsScoped meta found
      deduplicated-IsScoped none found i h = cc
      deduplicated-IsScoped (some g) found i h =
          let scoped = i g refl in
          subst (IsScoped meta) (some-injective _ found h) (record {
            visible = scoped.visible;
            shown = scoped.shown;
            ends = All-unique_from IsVisibleEdge [] g.edges scoped.ends;
          })

      -- The link graph shows notes only that the scope allows: its nodes are the metadata of
      -- the notes that it visited, in their order, and these and both ends of each of its
      -- edges are allowed, at any depth and in any direction.
      pub get_link_graph-IsScoped :
          (fuel : ℕ) (root : Text) (found : Graph M)
          → get_link_graph lower scope index direction meta depth fuel root ≡ ok (some found)
          → IsScoped meta found
      unfolding get_link_graph
      get_link_graph-IsScoped fuel root found h =
          let (answer, a, b) =
            >>=-eq-ok
              (search lower scope index direction meta depth fuel ((root, 0) ∷ [], empty_graph)) _
              h in
          deduplicated-IsScoped answer found
            (λ g e.
              search-IsScoped fuel ((root, 0) ∷ []) empty_graph g
                (record { visible = tt; shown = refl; ends = tt }) (a ∙ ap ok e))
            (ok-injective _ (some found) b)
