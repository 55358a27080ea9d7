-- ===== src/Tools/Write/Edits.antt =====
-- The tools of src/obsidian_mcp/tools/write.py that change a note that is there, `patch_note`,
-- `patch_frontmatter` and `manage_tags`, and the previews of `write_note`.
use brain_mcp.Base.{
  ◌≡◌, refl, ap, sym, subst, ◌∙◌, Bool, true, false, not, Option, some, Result, ok, raise_if,
  >>=-eq-ok, ok-injective, ◌>>=◌, Eq,
}
use brain_mcp.Base.Text.{Text, text_eq}
use brain_mcp.Errors.{Error, file_not_found}
use brain_mcp.Index.{VaultIndex}
use brain_mcp.Models.{FileRevision}
use brain_mcp.Revisions.{read_text_for_update}
use brain_mcp.Tools.Store.{Store, IsStore, IsExpected, UnchangedBut}
use brain_mcp.Tools.Frontmatter.{Yaml, Frontmatter, preserve, apply_frontmatter_updates}
use brain_mcp.Tools.Write.{
  Setting, Status, NoteResult, frontmatter_patched, opened_path, existing_path, prepare_edit,
  edit_note, patch_frontmatter, patch_note, patched, prepare_note, store_note, write_note,
}
use brain_mcp.Tools.Write.Safe.{
  attempt-ok, outcome-ok, opened_path-ok, IsFound, read_text_for_update-IsFound, commit-IsWritten,
}
use brain_mcp.Tools.Write.Notes.{store_note-stages, indexed-ok}

module _ {S : Type 0} (store : Store S) (setting : Setting) (content : Text → S → Option Text)
    (current : Text → S → Option FileRevision) (IsReady : S → Type 0)
    (laws : IsStore setting.strings content current store IsReady) where
  -- The note was there, in the revision that was asked for; it now has the text that the
  -- change makes of what it had, and no other note has changed.
  pub record IsEdited (expected : Option Text) (patch : Text → Result Error Text) (s : S)
      (target : Text) (after : S) : Type 0 where
    pub before : Text
    pub replaced_text : Text
    pub there : content target s ≡ some before
    pub replaced : IsExpected setting.strings content current expected target s
    pub changed : patch before ≡ ok replaced_text
    pub stored : content target after ≡ some replaced_text
    pub others : UnchangedBut setting.strings content current target s after

  prepare_edit-IsFound :
      (raw_path target path before replaced_text pinned : Text) (expected : Option Text)
      (patch : Text → Result Error Text) (s : S)
      → store.resolve_write raw_path ≡ ok target
      → prepare_edit store setting target expected patch s
        ≡ ok (path, before, replaced_text, pinned)
      → (target ≡ path)
        × IsFound store setting content current IsReady laws target expected s before pinned
        × (patch before ≡ ok replaced_text)
  prepare_edit-IsFound raw_path target path before replaced_text pinned expected patch s r h =
      let (_, _, h₁) = >>=-eq-ok (store.acquire_lock target s) _ h in
      let ((raw, t), a, h₂) =
        >>=-eq-ok
          (read_text_for_update setting.strings (store.read_text_with_revision target s) target
            expected)
          _ h₁ in
      let (full, b, h₃) = >>=-eq-ok (patch raw) _ h₂ in
      subst
        (λ (x : Text × Text × Text × Text).
          (target ≡ x.0)
          × IsFound store setting content current IsReady laws target expected s x.1 x.3
          × (patch x.1 ≡ ok x.2))
        (ok-injective (target, raw, full, t) (path, before, replaced_text, pinned) h₃)
        (
          refl,
          read_text_for_update-IsFound store setting content current IsReady laws raw_path target
              expected s raw t r a,
          b,
        )

  -- An edit that is not a preview and returns.
  pub edit_note-IsEdited :
      (status : Status) (raw : Text) (opened : Result Error Text) (expected : Option Text)
      (patch : Text → Result Error Text) (s after : S) (result : NoteResult)
      → IsReady s
      → ((target : Text) → opened ≡ ok target → store.resolve_write raw ≡ ok target)
      → edit_note store setting status false opened expected patch s ≡ (ok result, after)
      → IsEdited expected patch s result.path after
  unfolding edit_note
  edit_note-IsEdited status raw opened expected patch s after result ready resolves h =
      let ((target, before, full, pinned), a, h₁) =
        attempt-ok (opened >>= λ t. prepare_edit store setting t expected patch s) s _ h in
      let (t, o, a₁) = >>=-eq-ok opened _ a in
      let (same, found, p) =
        prepare_edit-IsFound raw t target before full pinned expected patch s (resolves t o) a₁ in
      let r = subst (λ x. store.resolve_write raw ≡ ok x) same (resolves t o) in
      let (at_target, (revision, w)) =
        commit-IsWritten store setting content current IsReady laws raw target status before full
          (some pinned) false s after result ready r h₁ in
      subst (λ x. IsEdited expected patch s x after) (sym at_target)
        (record {
          before = before;
          replaced_text = full;
          there = subst (λ x. content x s ≡ some before) same found.there;
          replaced =
              subst (λ x. IsExpected setting.strings content current expected x s) same
                found.is_expected;
          changed = p;
          stored = w.2;
          others = w.3;
        })

  existing_path-ok :
      (path target : Text) (s : S)
      → existing_path store setting path s ≡ ok target
      → store.resolve_write path ≡ ok target
  existing_path-ok path target s h =
      let (t, a, h₁) = >>=-eq-ok (opened_path store setting path) _ h in
      let (there, _, h₂) = >>=-eq-ok (store.exists t s) _ h₁ in
      let (_, _, h₃) = >>=-eq-ok (raise_if (not there) file_not_found) _ h₂ in
      opened_path-ok store setting path t a ∙ h₃

  -- A `patch_note` that returns, and is no preview, has replaced the revision that was
  -- asked for, if one was: the note has the text that the patch makes of what it had, and
  -- no other note has changed. The storage keeps the laws and is ready.
  pub patch_note-IsEdited :
      (path : Text) (patch_section : Text → Result Error Text) (expected : Option Text)
      (s after : S) (result : NoteResult)
      → IsReady s
      → patch_note store setting path patch_section false expected s ≡ (ok result, after)
      → IsEdited expected patch_section s result.path after
  unfolding patch_note
  patch_note-IsEdited path patch_section expected s after result ready h =
      edit_note-IsEdited patched path (opened_path store setting path) expected patch_section s
        after result ready (λ target o. opened_path-ok store setting path target o) h

  module _ {V : Type 0} (yaml : Yaml V) where
    -- A `patch_frontmatter` that returns, and is no preview, has replaced the revision that
    -- was asked for, if one was: the note has its text with the updated frontmatter, and no
    -- other note has changed. The storage keeps the laws and is ready.
    pub patch_frontmatter-IsEdited :
        ⦃e : Eq V⦄ (path : Text) (updates : Frontmatter V) (merge_arrays : Bool)
        (expected : Option Text) (s after : S) (result : NoteResult)
        → IsReady s
        → patch_frontmatter store setting yaml path updates merge_arrays false expected s
          ≡ (ok result, after)
        → IsEdited expected
            (λ raw. ok (apply_frontmatter_updates yaml raw updates merge_arrays))
            s
            result.path
            after
    unfolding patch_frontmatter
    patch_frontmatter-IsEdited path updates merge_arrays expected s after result ready h =
        edit_note-IsEdited frontmatter_patched path (existing_path store setting path s) expected
          (λ raw. ok (apply_frontmatter_updates yaml raw updates merge_arrays)) s after result ready
          (λ target o. existing_path-ok path target s o) h

    store_note-store_note :
        (path written_text : Text) (expected : Option Text) (create_only : Bool)
        (s middle after : S) (preview result : NoteResult)
        → IsReady s
        → store_note store setting yaml path written_text true expected create_only s
          ≡ (ok preview, middle)
        → store_note store setting yaml path written_text false expected create_only s
          ≡ (ok result, after)
        → (middle ≡ s)
          × (preview.path ≡ result.path)
          × (content result.path after ≡ preview.preview)
    unfolding store_note
    store_note-store_note path written_text expected create_only s middle after preview result ready
          h k =
        let (found, a, h₁) = attempt-ok (prepare_note store setting path expected s) s _ h in
        let (same, left) = outcome-ok _ preview s middle h₁ in
        let (again, u, revision, b, g, at_path, r, l, w) =
          store_note-stages store setting content current IsReady laws yaml path written_text
            expected create_only s after result ready k in
        let once : found ≡ again = ok-injective found again (sym a ∙ b) in
        let shown : (x : Text × Bool × Text × Option Text)
            → found ≡ x
            → some (preserve yaml written_text x.2).0 ≡ preview.preview =
          λ x e.
            ap (λ (y : Text × Bool × Text × Option Text). some (preserve yaml written_text y.2).0)
              (sym e)
            ∙ ap (λ (y : NoteResult). y.preview) same in
        (
          sym left,
          sym (ap (λ (y : NoteResult). y.path) same)
              ∙ (ap (λ (y : Text × Bool × Text × Option Text). y.0) once ∙ at_path),
          subst (λ x. content x after ≡ preview.preview) at_path (w.2 ∙ shown again once),
        )

    module _ (refresh : Text → S → VaultIndex → Result Error (Unit {0}) × VaultIndex) where
      -- A preview of `write_note` changes nothing, and shows the text that the same call
      -- writes when it is no preview and returns. The storage keeps the laws and is ready.
      pub write_note-write_note :
          (path written_text : Text) (expected : Option Text) (create_only : Bool)
          (index shown_index left : Option VaultIndex) (s middle after : S)
          (preview result : NoteResult)
          → IsReady s
          → write_note store setting refresh yaml path written_text true expected create_only index
              s
            ≡ (ok preview, middle, shown_index)
          → write_note store setting refresh yaml path written_text false expected create_only index
              s
            ≡ (ok result, after, left)
          → (middle ≡ s)
            × (preview.path ≡ result.path)
            × (content result.path after ≡ preview.preview)
      unfolding write_note
      write_note-write_note path written_text expected create_only index shown_index left s middle
            after preview result ready h k =
          let kept = indexed-ok store setting content current IsReady laws yaml refresh in
          store_note-store_note path written_text expected create_only s middle after preview result
            ready (kept _ index shown_index preview middle h) (kept _ index left result after k)
