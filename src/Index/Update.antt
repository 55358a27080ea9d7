-- ===== src/Index/Update.antt =====
-- Following the vault keeps the index consistent: `update`, `build` and `reconcile`.
use brain_mcp.Base.{
  ℕ, zero, suc, ◌≡◌, inl, inr, Bool, true, false, Option, none, some, List, [], ◌∷◌, ◌++◌, nat_eq,
  keep, ◌==◌, ==_refl, Bool-cases, Result, ok, err,
}
use brain_mcp.Base.Text.{Text, text_eq, slash, starts_with, rstrip}
use brain_mcp.Base.Dict.{lookup, lookup-erase}
use brain_mcp.Base.Sorting.{sorted}
use brain_mcp.Errors.{Error, is_gone}
use brain_mcp.Models.{FileRevision}
use brain_mcp.Index.{VaultIndex, ReconcileError, failed_sweep, remove}
use brain_mcp.Index.Consistent.{IsConsistent, remove-IsConsistent, index_note-IsConsistent}
use brain_mcp.Index.Sync.{
  Gateway, remove_all, remove_descendants, is_note, reindex, update_each, refresh_file,
  refresh_notes, refresh, after_visible, after_canonical, visible, update, known_as, reconcile_note,
  reconcile_notes, sweep, reconcile, after_listing, candidates, stale,
}

remove_all-IsConsistent :
    (paths : List Text) (index : VaultIndex)
    → IsConsistent index
    → IsConsistent (remove_all paths index)
unfolding remove_all
remove_all-IsConsistent [] index c = c
remove_all-IsConsistent (path ∷ paths) index c =
    remove_all-IsConsistent paths (remove path index) (remove-IsConsistent path index c)

remove_descendants-IsConsistent :
    (path : Text) (index : VaultIndex)
    → IsConsistent index
    → IsConsistent (remove_descendants path index)
unfolding remove_descendants
remove_descendants-IsConsistent path index c =
    remove_all-IsConsistent
      (keep (λ note. starts_with note (rstrip (λ x. x == slash) path ++ (slash ∷ [])))
        index.all_notes)
      index c

lookup-remove : (path : Text) (index : VaultIndex) → lookup path (remove path index).outlinks ≡ none
unfolding remove
lookup-remove path index = rw (lookup-erase, ==_refl path)

module _ (g : Gateway) (exclude_paths : List Text) where
  reindex-IsConsistent :
      (rel raw : Text) (revision : FileRevision) (index : VaultIndex)
      → IsConsistent index
      → IsConsistent (reindex g exclude_paths rel raw revision index)
  reindex-IsConsistent rel raw revision index c =
      index_note-IsConsistent g.lower rel (g.parse raw rel) revision (remove rel index)
        (remove-IsConsistent rel index c) (lookup-remove rel index)

  -- A step that keeps consistency, as `update` does at a smaller depth.
  abbrev Keeps : (Text → VaultIndex → Result Error (Unit {0}) × VaultIndex) → Type 0
  Keeps step =
      (rel : Text) (index : VaultIndex) → IsConsistent index → IsConsistent (step rel index).1

  update_each-IsConsistent :
      (step : Text → VaultIndex → Result Error (Unit {0}) × VaultIndex)
      → Keeps step
      → (rels : List Text) (index : VaultIndex) → IsConsistent index
      → IsConsistent (update_each g exclude_paths step rels index)
  unfolding update_each
  update_each-IsConsistent step k [] index c = c
  update_each-IsConsistent step k (rel ∷ rels) index c =
      by_result (step rel index).0 (k rel index c)
        (update_each-IsConsistent step k rels (step rel index).1 (k rel index c))
    where
      by_result :
          (r : Result Error (Unit {0}))
          → IsConsistent (step rel index).1
          → IsConsistent (update_each g exclude_paths step rels (step rel index).1)
          → IsConsistent (elim r [
            | ok _ ↦ update_each g exclude_paths step rels (step rel index).1
            | err _ ↦ (step rel index).1
          ])
      by_result (ok _) stopped went_on = went_on
      by_result (err _) stopped went_on = stopped

  refresh_file-IsConsistent :
      (rel : Text) (content : Result Error (Text × FileRevision)) (index : VaultIndex)
      → IsConsistent index
      → IsConsistent (refresh_file g exclude_paths rel content index)
  refresh_file-IsConsistent rel (ok (raw, revision)) index c =
      reindex-IsConsistent rel raw revision index c
  refresh_file-IsConsistent rel (err e) index c = c

  refresh_notes-IsConsistent :
      (step : Text → VaultIndex → Result Error (Unit {0}) × VaultIndex)
      → Keeps step
      → (files : Result Error (List Text)) (index : VaultIndex) → IsConsistent index
      → IsConsistent (refresh_notes g exclude_paths step files index)
  refresh_notes-IsConsistent step k (ok files) index c =
      update_each-IsConsistent step k (keep (is_note g exclude_paths) files) index c
  refresh_notes-IsConsistent step k (err e) index c = c

  refresh-IsConsistent :
      (step : Text → VaultIndex → Result Error (Unit {0}) × VaultIndex)
      → Keeps step
      → (rel : Text) (kind : Result Error Bool) (index : VaultIndex) → IsConsistent index
      → IsConsistent (refresh g exclude_paths step rel kind index)
  refresh-IsConsistent step k rel (ok true) index c =
      refresh_notes-IsConsistent step k (g.list_files rel) index c
  refresh-IsConsistent step k rel (ok false) index c =
      refresh_file-IsConsistent rel (g.read rel) index c
  refresh-IsConsistent step k rel (err e) index c = c

  after_visible-IsConsistent :
      (step : Text → VaultIndex → Result Error (Unit {0}) × VaultIndex)
      → Keeps step
      → (rel : Text) (v : Result Error Bool) (index : VaultIndex) → IsConsistent index
      → IsConsistent (after_visible g exclude_paths step rel v index).1
  after_visible-IsConsistent step k rel (ok true) index c =
      refresh-IsConsistent step k rel (g.is_directory rel) index c
  after_visible-IsConsistent step k rel (ok false) index c =
      remove_descendants-IsConsistent rel index c
  after_visible-IsConsistent step k rel (err e) index c = c

  after_canonical-IsConsistent :
      (step : Text → VaultIndex → Result Error (Unit {0}) × VaultIndex)
      → Keeps step
      → (path : Text) (canonical : Result Error Text) (index : VaultIndex) → IsConsistent index
      → IsConsistent (after_canonical g exclude_paths step path canonical index).1
  after_canonical-IsConsistent step k path (ok rel) index c =
      after_visible-IsConsistent step k rel (visible g exclude_paths rel) (remove rel index)
        (remove-IsConsistent rel index c)
  after_canonical-IsConsistent step k path (err e) index c = remove-IsConsistent path index c

  -- `update` keeps the index consistent, whatever the path is, whatever the storage answers, and
  -- at any depth of the stack.
  pub update-IsConsistent :
      (depth : ℕ) (path : Text) (index : VaultIndex)
      → IsConsistent index
      → IsConsistent (update g exclude_paths depth path index).1
  unfolding update
  update-IsConsistent zero path index c = c
  update-IsConsistent (suc depth) path index c =
      after_canonical-IsConsistent (update g exclude_paths depth) (update-IsConsistent depth) path
        (g.canonicalize path) index c

  reconcile_note-IsConsistent :
      (rel : Text) (content : Result Error (Text × FileRevision)) (index : VaultIndex) (n : ℕ)
      → IsConsistent index
      → IsConsistent (reconcile_note g exclude_paths rel content (index, n)).0
  reconcile_note-IsConsistent rel (ok (raw, revision)) index n c =
      elim (Bool-cases (known_as (lookup rel index.revisions) revision)) [
        | inl e ↦ rw e c
        | inr e ↦ rw e (reindex-IsConsistent rel raw revision index c)
      ]
  reconcile_note-IsConsistent rel (err e) index n c = elim (Bool-cases (is_gone e)) [
    | inl f ↦ rw f (remove-IsConsistent rel index c)
    | inr f ↦ rw f c
  ]

  reconcile_notes-IsConsistent :
      (rels : List Text) (state : VaultIndex × ℕ)
      → IsConsistent state.0
      → IsConsistent (reconcile_notes g exclude_paths rels state).0
  unfolding reconcile_notes
  reconcile_notes-IsConsistent [] state c = c
  reconcile_notes-IsConsistent (rel ∷ rels) state c =
      reconcile_notes-IsConsistent rels (reconcile_note g exclude_paths rel (g.read rel) state)
        (reconcile_note-IsConsistent rel (g.read rel) state.0 state.1 c)

  with_error :
      (e : Option ReconcileError) (index : VaultIndex)
      → IsConsistent index
      → IsConsistent (record index { last_reconcile_error = e })
  with_error e index c = record {
    linked = c.linked;
    with_links = c.with_links;
    with_revision = c.with_revision;
    tagged = c.tagged;
    with_blocks = c.with_blocks;
    aliased = c.aliased;
  }

  sweep-IsConsistent :
      (files : List Text) (index : VaultIndex)
      → IsConsistent index
      → IsConsistent (sweep g exclude_paths files index)
  unfolding sweep
  sweep-IsConsistent files index c =
      let found = candidates g exclude_paths files in
      let start = remove_all (stale found index) index in
      with_error _ _ (
        reconcile_notes-IsConsistent (sorted found) (start, 0)
          (remove_all-IsConsistent (stale found index) index c))

  -- A reconciliation keeps the index consistent, also where the listing or single notes fail.
  pub reconcile-IsConsistent :
      (index : VaultIndex) → IsConsistent index → IsConsistent (reconcile g exclude_paths index).1
  unfolding reconcile
  reconcile-IsConsistent index c = by_listing (g.list_files [])
    where
      by_listing :
          (files : Result Error (List Text))
          → IsConsistent (after_listing g exclude_paths files index).1
      by_listing (ok files) = sweep-IsConsistent files index c
      by_listing (err e) = with_error (some (failed_sweep e)) index c
