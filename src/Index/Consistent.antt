-- ===== src/Index/Consistent.antt =====
-- The invariant of the index: its dictionaries describe the same notes, and the backlinks are the
-- outgoing links turned round. `remove` and `index_note` keep it.
use brain_mcp.Base.{
  ◌≡◌, refl, ap, inl, inr, Bool, true, false, Option, none, some, List, [], ◌∷◌, All, contains,
  ◌==◌, ==_iff, ==_refl, arith, Bool-cases,
}
use brain_mcp.Base.Text.{Text, text_eq}
use brain_mcp.Base.Dict.{Dict, lookup, insert, erase, erase_values, lookup-insert, lookup-erase}
use brain_mcp.Base.Sets.{
  members, contains-add, contains-discard, contains-add_at, contains-discard_at,
  contains-map_values-discard,
}
use brain_mcp.Models.{FileRevision, Note}
use brain_mcp.Index.{
  VaultIndex, empty_index, register, block_lines, remove, link_targets, alias_names, index_note,
}

abbrev pub is_some {ℓ} : {A : Type ℓ} → Option A → Bool
is_some none = false
is_some (some a) = true

abbrev PointsInto : List Text → Text × Text → Type 0
PointsInto notes entry = contains notes entry.1 ≡ true

pub record IsConsistent (index : VaultIndex) : Type 0 where
  -- p is a backlink of t exactly when t is an outgoing link of p
  pub linked :
      (p t : Text) → contains (members t index.backlinks) p ≡ contains (members p index.outlinks) t
  -- the notes are those with outgoing links on record, and those with a revision
  pub with_links : (p : Text) → contains index.all_notes p ≡ is_some (lookup p index.outlinks)
  pub with_revision : (p : Text) → contains index.all_notes p ≡ is_some (lookup p index.revisions)
  -- tags, blocks and aliases speak of indexed notes only
  pub tagged :
      (tag p : Text)
      → contains (members tag index.tags_index) p ≡ true
      → contains index.all_notes p ≡ true
  pub with_blocks :
      (p : Text) → is_some (lookup p index.block_index) ≡ true → contains index.all_notes p ≡ true
  pub aliased : All (PointsInto index.all_notes) index.alias_index

pub empty_index-IsConsistent : IsConsistent empty_index
unfolding lookup
empty_index-IsConsistent = record {
  linked = λ p t. refl;
  with_links = λ p. refl;
  with_revision = λ p. refl;
  tagged = λ tag p h. h;
  with_blocks = λ p h. h;
  aliased = tt;
}

module _ (path : Text) (index : VaultIndex) (c : IsConsistent index) where
  remove-linked :
      (p t : Text)
      → contains (members t (remove path index).backlinks) p
        ≡ contains (members p (remove path index).outlinks) t
  unfolding remove
  remove-linked p t =
      rw (contains-discard_at, lookup-erase)
        (elim (Bool-cases (path == p)) [
          | inl e ↦ rw e (
              ground (
                arith,
                c.linked p t,
                ==_iff path p,
                ==_iff p path,
                ap (λ (x : Text). contains (members x index.outlinks) t) {x = path} {y = p},
              ))
          | inr e ↦ rw e (ground (arith, c.linked p t, ==_iff path p, ==_iff p path))
        ])

  remove-option :
      {A : Type 0} (p : Text) (d : Dict Text A)
      → contains index.all_notes p ≡ is_some (lookup p d)
      → contains (remove path index).all_notes p ≡ is_some (lookup p (erase path d))
  unfolding remove
  remove-option p d h =
      rw (contains-discard, lookup-erase)
        (elim (Bool-cases (path == p)) [
          | inl e ↦ rw e (ground (arith, ==_iff path p, ==_iff p path))
          | inr e ↦ rw e (ground (arith, h, ==_iff path p, ==_iff p path))
        ])

  remove-tagged :
      (tag p : Text)
      → contains (members tag (remove path index).tags_index) p ≡ true
      → contains (remove path index).all_notes p ≡ true
  unfolding remove
  remove-tagged tag p h =
      rw contains-discard
        (ground (arith, c.tagged tag p, contains-map_values-discard path p tag index.tags_index))

  remove-with_blocks :
      (p : Text)
      → is_some (lookup p (remove path index).block_index) ≡ true
      → contains (remove path index).all_notes p ≡ true
  unfolding remove
  remove-with_blocks p h = rw contains-discard (elim (Bool-cases (path == p)) [
    | inl e ↦ cc (rw (lookup-erase, e) at h)
    | inr e ↦
        ground (arith, c.with_blocks p (rw (lookup-erase, e) at h), ==_iff path p, ==_iff p path)
  ])

  remove-aliased :
      (d : Dict Text Text)
      → All (PointsInto index.all_notes) d
      → All (PointsInto (remove path index).all_notes) (erase_values (λ v. v == path) d)
  unfolding remove erase_values
  remove-aliased [] a = tt
  remove-aliased ((name, p) ∷ d) a = elim (Bool-cases (p == path)) [
    | inl e ↦ rw e (remove-aliased d a.1)
    | inr e ↦ rw e (rw (contains-discard, e) a.0, remove-aliased d a.1)
  ]

  -- Removing a note keeps the index consistent.
  pub remove-IsConsistent : IsConsistent (remove path index)
  remove-IsConsistent = record {
    linked = remove-linked;
    with_links = λ p. unfold remove in remove-option p index.outlinks (c.with_links p);
    with_revision = λ p. unfold remove in remove-option p index.revisions (c.with_revision p);
    tagged = remove-tagged;
    with_blocks = remove-with_blocks;
    aliased = unfold remove in remove-aliased index.alias_index c.aliased;
  }

module _ (lower : Text → Text) (path : Text) (note : Note) (revision : FileRevision)
    (index : VaultIndex) (c : IsConsistent index) where
  abbrev indexed : VaultIndex
  indexed = index_note lower path note revision index

  index_note-linked :
      lookup path index.outlinks ≡ none
      → (p t : Text)
      → contains (members t indexed.backlinks) p ≡ contains (members p indexed.outlinks) t
  unfolding index_note
  index_note-linked fresh p t =
      rw (contains-add_at, lookup-insert)
        (elim (Bool-cases (path == p)) [
          | inl e ↦ rw e (
              ground (
                arith,
                c.linked p t,
                ==_iff path p,
                ==_iff p path,
                fresh,
                ap (λ (x : Text). lookup x index.outlinks) {x = path} {y = p},
              ))
          | inr e ↦ rw e (ground (arith, c.linked p t, ==_iff path p, ==_iff p path))
        ])

  index_note-option :
      {A : Type 0} (p : Text) (a : A) (d : Dict Text A)
      → contains index.all_notes p ≡ is_some (lookup p d)
      → contains indexed.all_notes p ≡ is_some (lookup p (insert path a d))
  unfolding index_note
  index_note-option p a d h =
      rw (contains-add, lookup-insert)
        (elim (Bool-cases (path == p)) [
          | inl e ↦ rw e (ground (arith, ==_iff path p, ==_iff p path))
          | inr e ↦ rw e (ground (arith, h, ==_iff path p, ==_iff p path))
        ])

  index_note-tagged :
      (tag p : Text)
      → contains (members tag indexed.tags_index) p ≡ true
      → contains indexed.all_notes p ≡ true
  unfolding index_note
  index_note-tagged tag p h =
      rw contains-add
        (ground (arith, c.tagged tag p, contains-add_at path p note.tags tag index.tags_index))

  index_note-with_blocks :
      (p : Text)
      → is_some (lookup p indexed.block_index) ≡ true
      → contains indexed.all_notes p ≡ true
  unfolding index_note
  index_note-with_blocks p h = rw contains-add (
      ground (
        arith,
        c.with_blocks p,
        lookup-insert path p (block_lines note.block_refs []) index.block_index,
        ==_iff path p,
        ==_iff p path,
      ))

  kept :
      (d : Dict Text Text)
      → All (PointsInto index.all_notes) d
      → All (PointsInto indexed.all_notes) d
  unfolding index_note
  kept [] a = tt
  kept ((name, p) ∷ d) a = (rw (contains-add, a.0) (ground arith), kept d a.1)

  insert-aliased :
      (name : Text) (d : Dict Text Text)
      → All (PointsInto indexed.all_notes) d
      → All (PointsInto indexed.all_notes) (insert name path d)
  unfolding insert index_note
  insert-aliased name [] a = (rw (contains-add, ==_refl path), tt)
  insert-aliased name ((j, p) ∷ d) a = elim (Bool-cases (j == name)) [
    | inl e ↦ rw e (rw (contains-add, ==_refl path) refl, a.1)
    | inr e ↦ rw e (a.0, insert-aliased name d a.1)
  ]

  register-aliased :
      (names : List Text) (d : Dict Text Text)
      → All (PointsInto indexed.all_notes) d
      → All (PointsInto indexed.all_notes) (register path names d)
  unfolding register
  register-aliased [] d a = a
  register-aliased (name ∷ names) d a =
      register-aliased names (insert name path d) (insert-aliased name d a)

  -- Indexing a note that has no outgoing links on record, as after `remove`, keeps the index
  -- consistent.
  pub index_note-IsConsistent : lookup path index.outlinks ≡ none → IsConsistent indexed
  index_note-IsConsistent fresh = record {
    linked = index_note-linked fresh;
    with_links = λ p.
        unfold index_note in
        index_note-option p (link_targets lower note) index.outlinks (c.with_links p);
    with_revision =
        λ p. unfold index_note in index_note-option p revision index.revisions (c.with_revision p);
    tagged = index_note-tagged;
    with_blocks = index_note-with_blocks;
    aliased =
        unfold index_note in
        register-aliased (alias_names lower path note) index.alias_index
          (kept index.alias_index c.aliased);
  }
