-- ===== src/Query/Graph/Ends.antt =====
-- `get_link_graph` of src/obsidian_mcp/tools/query.py ends: each turn of its loop makes the
-- queue lighter.
use brain_mcp.Base.{
  ℕ, zero, suc, ◌+◌, ◌-◌, ◌≤◌, ◌<◌, ◌≡◌, ◌≢◌, refl, ap, ◌∙◌, sym, subst, Bool, true, false, ◌||◌,
  Bool-cases, inl, inr, Option, none, some, List, [], ◌∷◌, ◌++◌, map, contains, ltb, Result, ok,
  err, >>=-eq-ok, ok-injective, arith,
}
use brain_mcp.Base.Text.{Text, text, text_eq}
use brain_mcp.Errors.{Error}
use brain_mcp.Index.{VaultIndex}
use brain_mcp.Scoping.{ReadScope, allows}
use brain_mcp.Query.Graph.{
  Graph, Search, Found, queued, resolved, with_target, expand_outgoing, expand_incoming, goes,
  targets_of, sources_of, visit, if_allowed, pop, search, get_link_graph, deduplicated, empty_graph,
}

abbrev pub or_nothing : Result Error (List Text) → List Text
or_nothing (ok found) = found
or_nothing (err e) = []

unfoldable pub sum : List ℕ → ℕ
sum [] = 0
sum (n ∷ ns) = n + sum ns

sum-append : (xs ys : List ℕ) → sum (xs ++ ys) ≡ sum xs + sum ys
unfolding sum
sum-append [] ys = omega arith
sum-append (x ∷ xs) ys = omega (arith, sum-append xs ys)

map-append : (f : Text → ℕ) (xs ys : List Text) → map f (xs ++ ys) ≡ map f xs ++ map f ys
map-append f [] ys = refl
map-append f (x ∷ xs) ys = ap (λ r. f x ∷ r) (map-append f xs ys)

module _ (lower : Text → Text) (scope : ReadScope) (index : VaultIndex) (direction : Text) where
  -- Every path that a visit may append to the queue.
  abbrev pub neighbours : Text → List Text
  neighbours current =
      map (resolved lower scope index direction) (
        or_nothing (
          targets_of lower scope index direction
            (goes lower scope index direction (text "outgoing")) current))
      ++ or_nothing (
          sources_of lower scope index direction
            (goes lower scope index direction (text "incoming")) current)

  -- The turns that an entry may cost: itself, and what it appends, down to the depth.
  unfoldable pub weight : ℕ → Text → ℕ
  unfolding sum
  weight zero current = 1
  weight (suc k) current = suc (sum (map (weight k) (neighbours current)))

  module _ (depth : ℕ) where
    abbrev pub queue_weight : List (Text × ℕ) → ℕ
    queue_weight [] = 0
    queue_weight ((path, level) ∷ queue) = weight (suc depth - level) path + queue_weight queue

    queue_weight-append :
        (q r : List (Text × ℕ)) → queue_weight (q ++ r) ≡ queue_weight q + queue_weight r
    queue_weight-append [] r = omega arith
    queue_weight-append ((path, level) ∷ q) r = omega (arith, queue_weight-append q r)

    abbrev total : ℕ → List Text → ℕ
    total level paths = sum (map (weight (suc depth - suc level)) paths)

    queued-weight :
        (visited : List Text) (path : Text) (level n : ℕ) (rest : List (Text × ℕ))
        → queue_weight rest ≤ n
        → queue_weight (queued visited path level rest) ≤ weight (suc depth - suc level) path + n
    queued-weight visited path level n rest h = elim (Bool-cases (contains visited path)) [
      | inl c ↦ rw c (omega (arith, h))
      | inr c ↦ rw c (omega (arith, h))
    ]

    with_target-weight :
        (current : Text) (level : ℕ) (visited : List Text) (target : Text) (n : ℕ) (allowed : Bool)
        (found : Found)
        → queue_weight found.1 ≤ n
        → queue_weight
            (with_target lower scope index direction current level visited target allowed found).1
          ≤ weight (suc depth - suc level) target + n
    with_target-weight current level visited target n false found h = omega (arith, h)
    with_target-weight current level visited target n true found h =
        queued-weight visited target level n found.1 h

    expand_outgoing-weight :
        (current : Text) (level : ℕ) (visited targets : List Text) (found : Found)
        → expand_outgoing lower scope index direction current level visited targets ≡ ok found
        → queue_weight found.1 ≤ total level (map (resolved lower scope index direction) targets)
    unfolding expand_outgoing sum
    expand_outgoing-weight current level visited [] found h =
        subst (λ (x : Found). queue_weight x.1 ≤ 0) (ok-injective ([], []) found h) (omega arith)
    expand_outgoing-weight current level visited (target ∷ targets) found h =
        let name = resolved lower scope index direction target in
        let (allowed, a, h₁) = >>=-eq-ok (allows scope name) _ h in
        let (rest, b, h₂) =
          >>=-eq-ok (expand_outgoing lower scope index direction current level visited targets) _
            h₁ in
        subst
          (λ (x : Found).
            queue_weight x.1
            ≤ total level (name ∷ map (resolved lower scope index direction) targets))
          (ok-injective _ found h₂)
          (with_target-weight current level visited name
            (total level (map (resolved lower scope index direction) targets)) allowed rest
            (expand_outgoing-weight current level visited targets rest b))

    expand_incoming-weight :
        (current : Text) (level : ℕ) (visited sources : List Text)
        → queue_weight (expand_incoming lower scope index direction current level visited sources).1
          ≤ total level sources
    unfolding expand_incoming sum
    expand_incoming-weight current level visited [] = omega arith
    expand_incoming-weight current level visited (source ∷ sources) =
        queued-weight visited source level _ _
          (expand_incoming-weight current level visited sources)

    not_deep : (a b : ℕ) → ltb a b ≡ false → b ≤ a
    not_deep a b h = ground arith

    weight-suc :
        (n m : ℕ) (current : Text)
        → n ≡ suc m
        → weight n current ≡ suc (sum (map (weight m) (neighbours current)))
    unfolding weight
    weight-suc n m current e =
        subst (λ k. weight k current ≡ suc (sum (map (weight m) (neighbours current)))) (sym e) refl

    -- An entry that is not too deep weighs more than what it may append.
    weight-neighbours :
        (current : Text) (level : ℕ)
        → ltb depth level ≡ false
        → weight (suc depth - level) current ≡ suc (total level (neighbours current))
    weight-neighbours current level h =
        weight-suc (suc depth - level) (suc depth - suc level) current
          (omega (arith, not_deep depth level h))

    total-append :
        (level : ℕ) (xs ys : List Text) → total level (xs ++ ys) ≡ total level xs + total level ys
    total-append level xs ys =
        ap sum (map-append (weight (suc depth - suc level)) xs ys)
        ∙ sum-append (map (weight (suc depth - suc level)) xs)
            (map (weight (suc depth - suc level)) ys)

    module _ {M : Type 0} (meta : Text → M) where
      visit-weight :
          (current : Text) (level : ℕ) (queue : List (Text × ℕ)) (g : Graph M) (next : Search M)
          → ltb depth level ≡ false
          → visit lower scope index direction meta depth current level queue g ≡ ok next
          → queue_weight next.0 < weight (suc depth - level) current + queue_weight queue
      unfolding visit
      visit-weight current level queue g next d h =
          let (targets, a, h₁) =
            >>=-eq-ok
              (targets_of lower scope index direction
                (goes lower scope index direction (text "outgoing")) current)
              _ h in
          let visited = current ∷ g.visited in
          let (out, b, h₂) =
            >>=-eq-ok (expand_outgoing lower scope index direction current level visited targets) _
              h₁ in
          let (sources, c, h₃) =
            >>=-eq-ok
              (sources_of lower scope index direction
                (goes lower scope index direction (text "incoming")) current)
              _ h₂ in
          let incoming =
            expand_incoming lower scope index direction current level visited sources in
          let same = ok-injective _ next h₃ in
          let around : neighbours current
              ≡ map (resolved lower scope index direction) targets ++ sources =
            ap
              (λ (x : Result Error (List Text)).
                map (resolved lower scope index direction) (or_nothing x)
                ++ or_nothing (
                    sources_of lower scope index direction
                      (goes lower scope index direction (text "incoming")) current))
              a
            ∙ ap
                (λ (x : Result Error (List Text)).
                  map (resolved lower scope index direction) targets ++ or_nothing x)
                c in
          let parts =
            ap (total level) around
            ∙ total-append level (map (resolved lower scope index direction) targets) sources in
          subst
            (λ (x : Search M).
              queue_weight x.0 < weight (suc depth - level) current + queue_weight queue)
            same
            (omega (
              arith,
              weight-neighbours current level d,
              parts,
              queue_weight-append queue (out.1 ++ incoming.1),
              queue_weight-append out.1 incoming.1,
              expand_outgoing-weight current level visited targets out b,
              expand_incoming-weight current level visited sources,
            ))

      weight-positive : (k : ℕ) (current : Text) → 0 < weight k current
      unfolding weight
      weight-positive zero current = omega arith
      weight-positive (suc k) current = omega arith

      pop-weight :
          (current : Text) (level : ℕ) (queue : List (Text × ℕ)) (g : Graph M) (next : Search M)
          → pop lower scope index direction meta depth current level queue g ≡ ok next
          → queue_weight next.0 < weight (suc depth - level) current + queue_weight queue
      unfolding pop
      pop-weight current level queue g next h =
          elim (Bool-cases (contains g.visited current || ltb depth level)) [
            | inl skip ↦ skipped (rw skip at h)
            | inr keep ↦
                let (allowed, a, h₁) = >>=-eq-ok (allows scope current) _ (rw keep at h) in
                by_allowed allowed (second (contains g.visited current) (ltb depth level) keep) h₁
          ]
        where
          second : (b c : Bool) → (b || c) ≡ false → c ≡ false
          second b c h = ground arith

          skipped :
              ◌≡◌ {A = Result Error (Search M)} (ok (queue, g)) (ok next)
              → queue_weight next.0 < weight (suc depth - level) current + queue_weight queue
          skipped k =
              subst
                (λ (x : Search M).
                  queue_weight x.0 < weight (suc depth - level) current + queue_weight queue)
                (ok-injective (queue, g) next k)
                (omega (arith, weight-positive (suc depth - level) current))

          by_allowed :
              (allowed : Bool)
              → ltb depth level ≡ false
              → if_allowed lower scope index direction meta depth allowed current level queue g
                ≡ ok next
              → queue_weight next.0 < weight (suc depth - level) current + queue_weight queue
          by_allowed true d k = visit-weight current level queue g next d k
          by_allowed false d k = skipped k

      search-ends :
          (fuel : ℕ) (queue : List (Text × ℕ)) (g : Graph M)
          → queue_weight queue ≤ fuel
          → search lower scope index direction meta depth fuel (queue, g) ≢ ok none
      unfolding search
      search-ends fuel [] g h = λ e. cc (ok-injective (some g) none e)
      search-ends zero ((current, level) ∷ queue) g h =
          λ e. omega (arith, weight-positive (suc depth - level) current, h)
      search-ends (suc fuel) ((current, level) ∷ queue) g h = λ e.
          let (next, a, b) =
            >>=-eq-ok (pop lower scope index direction meta depth current level queue g) _ e in
          search-ends fuel next.0 next.1 (omega (arith, h, pop-weight current level queue g next a))
            b

      deduplicated-none : (found : Option (Graph M)) → deduplicated found ≡ none → found ≡ none
      deduplicated-none none h = refl
      deduplicated-none (some g) h = cc

      -- The search for the link graph ends: with fuel for the weight of the root, which
      -- counts the paths of links from it down to the depth, it never runs out, whatever
      -- the links are.
      pub get_link_graph-ends :
          (fuel : ℕ) (root : Text)
          → weight (suc depth) root ≤ fuel
          → get_link_graph lower scope index direction meta depth fuel root ≢ ok none
      unfolding get_link_graph
      get_link_graph-ends fuel root h = λ e.
          let (found, a, b) =
            >>=-eq-ok
              (search lower scope index direction meta depth fuel ((root, 0) ∷ [], empty_graph)) _
              e in
          let whole : suc depth ≡ suc depth - 0 = omega arith in
          let enough = subst (λ k. weight k root ≤ fuel) whole h in
          search-ends fuel ((root, 0) ∷ []) empty_graph (omega (arith, enough))
            (a ∙ ap ok (deduplicated-none found (ok-injective _ none b)))
