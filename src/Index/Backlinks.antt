-- ===== src/Index/Backlinks.antt =====
-- What the index answers: backlinks are the outgoing links turned round, and an alias names an
-- indexed note.
use brain_mcp.Base.{
  ◌≡◌, refl, ap, sym, subst, ◌∙◌, inl, inr, true, not, ◌||◌, some, List, [], ◌∷◌, ◌++◌, any, All,
  contains, ◌==◌, arith, Bool-cases, ok, raise_if, ok-injective, >>=-eq-ok,
}
use mathlib.Core.Option.{some-injective}
use brain_mcp.Base.Text.{Text, text_eq}
use brain_mcp.Base.Dict.{Dict, lookup}
use brain_mcp.Base.Sets.{members, to_set, contains-to_set}
use brain_mcp.Base.Sorting.{contains-sorted}
use brain_mcp.Errors.{index_building}
use brain_mcp.Index.{VaultIndex, stem}
use brain_mcp.Index.Consistent.{IsConsistent}
use brain_mcp.Index.Queries.{gather, link_keys, get_backlinks, resolve_alias}

contains-++ :
    (xs ys : List Text) (y : Text) → contains (xs ++ ys) y ≡ (contains xs y || contains ys y)
contains-++ [] ys y = refl
contains-++ (x ∷ xs) ys y = ground (arith, contains-++ xs ys y)

module _ (index : VaultIndex) (c : IsConsistent index) where
  contains-gather :
      (keys : List Text) (source : Text)
      → contains (gather keys index.backlinks) source
        ≡ any (λ key. contains (members source index.outlinks) key) keys
  unfolding gather
  contains-gather [] source = refl
  contains-gather (key ∷ keys) source =
      contains-++ (members key index.backlinks) (gather keys index.backlinks) source
      ∙ ground (arith, c.linked source key, contains-gather keys source)

  -- In a consistent index, the backlinks that are returned for a note are exactly the notes one
  -- of whose outgoing links is a key of the note: its path in lower case, that without `.md`, its
  -- stem in lower case, or one of its aliases.
  pub get_backlinks-outlinks :
      (lower : Text → Text) (note_path : Text) (found : List Text)
      → get_backlinks lower index note_path ≡ ok found
      → (source : Text)
      → contains found source
        ≡ any
            (λ key. contains (members source index.outlinks) key)
            (link_keys lower index note_path)
  unfolding get_backlinks
  get_backlinks-outlinks lower note_path found h source =
      let (ready, p, q) = >>=-eq-ok (raise_if (not index.ready) index_building) _ h in
      let keys = link_keys lower index note_path in
      ap (λ (xs : List Text). contains xs source) (sym (ok-injective _ found q))
      ∙ (contains-sorted source (to_set (gather keys index.backlinks))
          ∙ (contains-to_set source (gather keys index.backlinks) ∙ contains-gather keys source))

  lookup-PointsInto :
      (notes : List Text) (aliases : Dict Text Text) (key path : Text)
      → All (λ (entry : Text × Text). contains notes (entry.1) ≡ true) aliases
      → lookup key aliases ≡ some path
      → contains notes path ≡ true
  unfolding lookup
  lookup-PointsInto notes [] key path a h = cc
  lookup-PointsInto notes ((k, v) ∷ aliases) key path a h = elim (Bool-cases (k == key)) [
    | inl e ↦ subst (λ p. contains notes p ≡ true) (some-injective v path (rw e at h)) a.0
    | inr e ↦ lookup-PointsInto notes aliases key path a.1 (rw e at h)
  ]

  -- In a consistent index, a name or an alias that resolves does so to a note that is indexed.
  pub resolve_alias-indexed :
      (lower : Text → Text) (name path : Text)
      → resolve_alias lower index name ≡ some path
      → contains index.all_notes path ≡ true
  unfolding resolve_alias
  resolve_alias-indexed lower name path h =
      lookup-PointsInto index.all_notes index.alias_index (lower (stem name)) path c.aliased h
