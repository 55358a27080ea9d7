-- ===== src/Tools/Move/Checked.antt =====
-- `move_note` of src/obsidian_mcp/tools/write.py checks each note whose links it rewrites
-- before it changes anything.
use brain_mcp.Base.{
  ◌≡◌, refl, subst, true, Bool-cases, inl, inr, not, ◌&&◌, List, [], ◌∷◌, All, ◌==◌, Result, ok,
  err, >>=-eq-ok, ok-injective,
}
use brain_mcp.Base.Text.{Text, text_eq}
use brain_mcp.Errors.{Error}
use brain_mcp.Tools.Store.{Store, Remover}
use brain_mcp.Tools.Sweep.{Listing}
use brain_mcp.Tools.Move.{
  Mover, Links, is_note_path, with_links, files_to_rewrite, prepare_move, move_note,
}

module _ {S : Type 0} (store : Store S) (remover : Remover S) (mover : Mover S)
    (listing : Listing S) (links : Links) where
  -- A note that may be written and has a link to the note that is moved.
  abbrev pub IsChecked : Text → Text × Text → Type 0
  IsChecked from_path file =
      ((target : Text) × (store.resolve_write file.0 ≡ ok target))
      × (links.found_in from_path file.1 ≡ true)

  with_links-IsChecked :
      (from_path rel : Text) (read : Result Error Text) (rest : Result Error (List (Text × Text)))
      (files : List (Text × Text))
      → ((f : List (Text × Text)) → rest ≡ ok f → All (IsChecked from_path) f)
      → with_links store remover mover listing links from_path rel read rest ≡ ok files
      → All (IsChecked from_path) files
  with_links-IsChecked from_path rel (err e) rest files below h = below files h
  with_links-IsChecked from_path rel (ok raw) rest files below h =
      elim (Bool-cases (links.found_in from_path raw)) [
        | inl e ↦
            let (target, r, h₁) = >>=-eq-ok (store.resolve_write rel) _ (rw e at h) in
            let (found, f, h₂) = >>=-eq-ok rest _ h₁ in
            subst (All (IsChecked from_path))
              (ok-injective {E = Error} ((rel, raw) ∷ found) files h₂)
              (((target, r), e), below found f)
        | inr e ↦ below files (rw e at h)
      ]

  -- The notes that a move rewrites have each a link to the note that is moved, and may be
  -- written.
  pub files_to_rewrite-IsChecked :
      (from_path : Text) (s : S) (all_files : List Text) (files : List (Text × Text))
      → files_to_rewrite store remover mover listing links from_path s all_files ≡ ok files
      → All (IsChecked from_path) files
  unfolding files_to_rewrite
  files_to_rewrite-IsChecked from_path s [] files h =
      subst (All (IsChecked from_path)) (ok-injective {E = Error} [] files h) tt
  files_to_rewrite-IsChecked from_path s (rel ∷ all_files) files h =
      elim (Bool-cases (is_note_path store remover mover listing rel && not (rel == from_path))) [
        | inl e ↦
            with_links-IsChecked from_path rel (listing.read_text rel s)
              (files_to_rewrite store remover mover listing links from_path s all_files) files
              (files_to_rewrite-IsChecked from_path s all_files) (rw e at h)
        | inr e ↦ files_to_rewrite-IsChecked from_path s all_files files (rw e at h)
      ]

  -- A move whose checks raise has changed nothing.
  pub move_note-unprepared :
      (from_path to_path : Text) (s : S) (e : Error)
      → prepare_move store remover mover listing links from_path to_path s ≡ err e
      → move_note store remover mover listing links from_path to_path s ≡ (err e, s)
  unfolding move_note
  move_note-unprepared from_path to_path s e h = rw h refl
