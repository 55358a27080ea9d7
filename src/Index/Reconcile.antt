-- ===== src/Index/Reconcile.antt =====
-- What a reconciliation achieves: afterwards the index holds the notes that the storage lists, at
-- the revisions that it reads.
use brain_mcp.Base.{
  ℕ, ◌≡◌, refl, ap, sym, subst, ◌∙◌, inl, inr, Bool, true, false, not, ◌&&◌, Option, none, some,
  List, [], ◌∷◌, keep, contains, ◌==◌, ==_iff, ==_refl, arith, Bool-cases, Result, ok, err,
}
use brain_mcp.Base.Text.{Text, text_eq}
use brain_mcp.Base.Dict.{lookup, lookup-insert, lookup-erase}
use brain_mcp.Base.Sets.{contains-add, contains-discard}
use brain_mcp.Base.Sorting.{sorted, contains-sorted}
use brain_mcp.Errors.{Error, is_gone}
use brain_mcp.Models.{FileRevision}
use brain_mcp.Index.{VaultIndex, remove, index_note}
use brain_mcp.Index.Sync.{
  Gateway, remove_all, known_as, reconcile_note, reconcile_notes, sweep, candidates, stale,
}

-- The index has the note at the content that a read gave, and has not the note that is gone. Of
-- a note that cannot be read for another reason nothing is said.
abbrev pub IsFresh : Result Error (Text × FileRevision) → Text → VaultIndex → Type 0
IsFresh (ok (raw, revision)) rel index =
    (known : FileRevision) × (lookup rel index.revisions ≡ some known)
    × (known.sha256 ≡ revision.sha256)
IsFresh (err e) rel index = is_gone e ≡ true → contains index.all_notes rel ≡ false

-- What the index records of one note.
record SameNote (rel : Text) (a b : VaultIndex) : Type 0 where
  notes : contains a.all_notes rel ≡ contains b.all_notes rel
  revisions : lookup rel a.revisions ≡ lookup rel b.revisions

known_found :
    (o : Option FileRevision) (revision : FileRevision)
    → known_as o revision ≡ true
    → (known : FileRevision) × (o ≡ some known) × (known.sha256 ≡ revision.sha256)
known_found none revision h = cc
known_found (some known) revision h = (known, refl, (==_iff known.sha256 revision.sha256).0 h)

module _ (g : Gateway) (exclude_paths : List Text) where
  IsFresh-SameNote :
      (content : Result Error (Text × FileRevision)) (rel : Text) (a b : VaultIndex)
      → SameNote rel a b
      → IsFresh content rel a
      → IsFresh content rel b
  IsFresh-SameNote (ok (raw, revision)) rel a b s (known, e, h) = (known, sym s.revisions ∙ e, h)
  IsFresh-SameNote (err e) rel a b s f = λ h. sym s.notes ∙ f h

  -- A round of the loop leaves the other notes alone,
  reconcile_note-SameNote :
      (rel other : Text) (content : Result Error (Text × FileRevision)) (state : VaultIndex × ℕ)
      → (rel == other) ≡ false
      → SameNote other state.0 (reconcile_note g exclude_paths rel content state).0
  unfolding remove index_note
  reconcile_note-SameNote rel other (ok (raw, revision)) (index, n) d =
      elim (Bool-cases (known_as (lookup rel index.revisions) revision)) [
        | inl e ↦ rw e (record { notes = refl; revisions = refl })
        | inr e ↦ rw e (record {
          notes =
              rw (contains-add, contains-discard)
                (ground (arith, ==_iff rel other, ==_iff other rel));
          revisions = rw (lookup-insert, d, lookup-erase, d);
        })
      ]
  reconcile_note-SameNote rel other (err x) (index, n) d = elim (Bool-cases (is_gone x)) [
    | inl e ↦ rw e (record {
      notes = rw contains-discard (ground (arith, ==_iff rel other, ==_iff other rel));
      revisions = rw (lookup-erase, d);
    })
    | inr e ↦ rw e (record { notes = refl; revisions = refl })
  ]

  -- and makes its own note fresh.
  reconcile_note-IsFresh :
      (rel : Text) (content : Result Error (Text × FileRevision)) (state : VaultIndex × ℕ)
      → IsFresh content rel (reconcile_note g exclude_paths rel content state).0
  unfolding remove index_note
  reconcile_note-IsFresh rel (ok (raw, revision)) (index, n) =
      elim (Bool-cases (known_as (lookup rel index.revisions) revision)) [
        | inl e ↦ rw e (known_found (lookup rel index.revisions) revision e)
        | inr e ↦ rw e (revision, rw (lookup-insert, ==_refl rel), refl)
      ]
  reconcile_note-IsFresh rel (err x) (index, n) = elim (Bool-cases (is_gone x)) [
    | inl e ↦ rw e (λ _. rw (contains-discard, ==_refl rel) refl)
    | inr e ↦ λ h. cc (e, h)
  ]

  reconcile_notes-SameNote :
      (rels : List Text) (other : Text) (state : VaultIndex × ℕ)
      → contains rels other ≡ false
      → SameNote other state.0 (reconcile_notes g exclude_paths rels state).0
  unfolding reconcile_notes
  reconcile_notes-SameNote [] other state h = record { notes = refl; revisions = refl }
  reconcile_notes-SameNote (rel ∷ rels) other state h =
      let next = reconcile_note g exclude_paths rel (g.read rel) state in
      let one =
        reconcile_note-SameNote rel other (g.read rel) state
          (ground (arith, ==_iff rel other, ==_iff other rel)) in
      let rest = reconcile_notes-SameNote rels other next (ground arith) in
      record { notes = one.notes ∙ rest.notes; revisions = one.revisions ∙ rest.revisions }

  reconcile_notes-IsFresh :
      (rels : List Text) (rel : Text) (state : VaultIndex × ℕ)
      → contains rels rel ≡ true
      → IsFresh (g.read rel) rel (reconcile_notes g exclude_paths rels state).0
  unfolding reconcile_notes
  reconcile_notes-IsFresh [] rel state h = cc
  reconcile_notes-IsFresh (r ∷ rels) rel state h = elim (Bool-cases (contains rels rel)) [
    | inl e ↦ reconcile_notes-IsFresh rels rel (reconcile_note g exclude_paths r (g.read r) state) e
    | inr e ↦
        let same : r ≡ rel = sym ((==_iff rel r).0 (ground arith)) in
        let next = reconcile_note g exclude_paths r (g.read r) state in
        IsFresh-SameNote (g.read rel) rel next.0 _ (reconcile_notes-SameNote rels rel next e) (
          subst (λ x. IsFresh (g.read x) x next.0) same (reconcile_note-IsFresh r (g.read r) state))
  ]

  remove_all-contains :
      (paths : List Text) (p : Text) (index : VaultIndex)
      → contains (remove_all paths index).all_notes p
        ≡ (not (contains paths p) && contains index.all_notes p)
  unfolding remove_all remove
  remove_all-contains [] p index = refl
  remove_all-contains (path ∷ paths) p index =
      remove_all-contains paths p (remove path index) ∙ rw contains-discard (ground arith)

  contains-keep :
      (test : Text → Bool) (xs : List Text) (p : Text)
      → contains (keep test xs) p ≡ (test p && contains xs p)
  contains-keep test [] p = ground arith
  contains-keep test (x ∷ xs) p =
      ground (arith, contains-keep test xs p, ==_iff p x, ap test {x = p} {y = x})

  -- After a sweep: a note that is no longer listed is no longer indexed, and a listed one is
  -- fresh.
  pub sweep-IsFresh :
      (files : List Text) (index : VaultIndex) (p : Text)
      → (contains (candidates g exclude_paths files) p ≡ false
          → contains (sweep g exclude_paths files index).all_notes p ≡ false)
        × (contains (candidates g exclude_paths files) p ≡ true
            → IsFresh (g.read p) p (sweep g exclude_paths files index))
  unfolding sweep
  sweep-IsFresh files index p =
      let found = candidates g exclude_paths files in
      let start = remove_all (stale found index) index in
      (
        (λ h.
            sym
              (reconcile_notes-SameNote (sorted found) p (start, 0)
                (contains-sorted p found ∙ h)).notes
            ∙ (remove_all-contains (stale found index) p index
                ∙ rw contains-keep (ground (arith, h)))),
        (λ h.
            IsFresh-SameNote (g.read p) p _ _ (record { notes = refl; revisions = refl })
              (reconcile_notes-IsFresh (sorted found) p (start, 0) (contains-sorted p found ∙ h))),
      )
