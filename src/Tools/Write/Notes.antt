-- ===== src/Tools/Write/Notes.antt =====
-- `write_note` of src/obsidian_mcp/tools/write.py: what it writes, and when.
use brain_mcp.Base.{
  ◌≡◌, ap, sym, subst, ◌∙◌, Bool, true, false, not, ◌&&◌, ◌||◌, Option, none, some, [], Result, ok,
  err, ok-injective, refl, raise_if, raise_if-false, arith,
}
use brain_mcp.Base.Text.{Text, text_eq}
use brain_mcp.Errors.{Error, precondition_required}
use brain_mcp.Identity.{is_none}
use brain_mcp.Index.{VaultIndex}
use brain_mcp.Models.{FileRevision}
use brain_mcp.Tools.Store.{Store, IsStore, IsStored, IsWritten, IsExpected, UnchangedBut}
use brain_mcp.Tools.Frontmatter.{Yaml, preserve}
use brain_mcp.Tools.Write.{
  Setting, NoteResult, Status, dry_run, deleted, written, prepare_note, store_note, write_note,
  indexed, by_status, refreshed, commit, preserving, with_preserved,
}
use brain_mcp.Tools.Write.Safe.{
  attempt-ok, IsLooked, prepare_note-IsLooked, commit-IsWritten, outcome-ok,
}

abbrev pub text_or_empty : Option Text → Text
text_or_empty none = []
text_or_empty (some raw) = raw

pub preserving-ok :
    {S : Type 0} (preserved : Bool) (step : Result Error NoteResult × S) (result : NoteResult)
    (after : S)
    → preserving preserved step ≡ (ok result, after)
    → (inner : NoteResult) × (step ≡ (ok inner, after)) × (inner.path ≡ result.path)
preserving-ok preserved (err e, s) result after h = cc
preserving-ok preserved (ok inner, s) result after h =
    let (same, left) = outcome-ok (with_preserved preserved inner) result s after h in
    (inner, ap (λ x. (ok inner, x)) left, ap (λ (x : NoteResult). x.path) same)

module _ {S : Type 0} (store : Store S) (setting : Setting) (content : Text → S → Option Text)
    (current : Text → S → Option FileRevision) (IsReady : S → Type 0)
    (laws : IsStore setting.strings content current store IsReady) {V : Type 0}
    (yaml : Yaml V) where
  -- What a write of a note has found and done: it creates where it was to create, replaces the
  -- revision that was asked for, and in strict mode replaces nothing unasked; the text is
  -- the new one with the frontmatter that it preserves, and no other note has changed.
  pub record IsNoteWritten (path written_text : Text) (expected : Option Text) (create_only : Bool)
      (s : S) (target : Text) (after : S) : Type 0 where
    pub resolved : store.resolve_write path ≡ ok target
    pub created : create_only ≡ true → content target s ≡ none
    pub replaced : IsExpected setting.strings content current expected target s
    pub strict :
        setting.require_write_preconditions ≡ true
        → create_only ≡ false
        → expected ≡ none
        → content target s ≡ none
    pub stored :
        content target after
        ≡ some (preserve yaml written_text (text_or_empty (content target s))).0
    pub others : UnchangedBut setting.strings content current target s after

  -- The write itself, by what was found.
  pub written_found :
      (path target written_text before : Text) (expected pinned : Option Text)
      (create_only exists : Bool) (s after : S) (u : Unit {0})
      → store.resolve_write path ≡ ok target
      → IsLooked store setting content current IsReady laws target expected s exists before pinned
      → raise_if
          (exists && not create_only && setting.require_write_preconditions && is_none expected)
          precondition_required
        ≡ ok u
      → IsStored setting.strings content current target
          (preserve yaml written_text before).0
          pinned
          (create_only || not exists)
          s
          after
      → IsNoteWritten path written_text expected create_only s target after
  written_found path target written_text before expected pinned create_only true s after u r l g w =
      let (t, p, found) = l in
      record {
        resolved = r;
        created = λ c. w.0 (ground arith);
        replaced = found.is_expected;
        strict = λ a b c. ground (arith, raise_if-false _ _ u g);
        stored = rw found.there w.2;
        others = w.3;
      }
  written_found path target written_text before expected pinned create_only false s after u r l g
        w =
      record {
        resolved = r;
        created = λ c. l.0;
        replaced = subst (λ x. IsExpected setting.strings content current x target s) (sym l.1) tt;
        strict = λ a b c. l.0;
        stored =
            rw l.0
              (subst (λ x. content target after ≡ some (preserve yaml written_text x).0) l.2 w.2);
        others = w.3;
      }

  -- The stages of a `store_note` that returns, with what `prepare_note` found.
  pub store_note-stages :
      (path written_text : Text) (expected : Option Text) (create_only : Bool) (s after : S)
      (result : NoteResult)
      → IsReady s
      → store_note store setting yaml path written_text false expected create_only s
        ≡ (ok result, after)
      → (found : Text × Bool × Text × Option Text) × (u : Unit {0}) × (revision : FileRevision)
        × (prepare_note store setting path expected s ≡ ok found)
        × (raise_if
              (found.1
                && not create_only
                && setting.require_write_preconditions
                && is_none expected)
              precondition_required
            ≡ ok u)
        × (found.0 ≡ result.path)
        × (store.resolve_write path ≡ ok found.0)
        × IsLooked store setting content current IsReady laws found.0 expected s found.1 found.2
            found.3
        × IsWritten setting.strings content current found.0
            (preserve yaml written_text found.2).0
            found.3
            (create_only || not found.1)
            s
            (ok revision, after)
  unfolding store_note
  store_note-stages path written_text expected create_only s after result ready h =
      let ((target, exists, before, pinned), a, h₁) =
        attempt-ok (prepare_note store setting path expected s) s _ h in
      let guard =
        exists && not create_only && setting.require_write_preconditions && is_none expected in
      let (u, g, h₂) = attempt-ok (raise_if guard precondition_required) s _ h₁ in
      let full = preserve yaml written_text before in
      let (inner, c, same) =
        preserving-ok full.1
          (commit store setting target written before full.0 pinned (create_only || not exists) s)
          result after h₂ in
      let (r, l) =
        prepare_note-IsLooked store setting content current IsReady laws path target expected s
          exists before pinned a in
      let (at_target, (revision, w)) =
        commit-IsWritten store setting content current IsReady laws path target written before
          full.0 pinned (create_only || not exists) s after inner ready r c in
      ((target, exists, before, pinned), u, revision, a, g, sym at_target ∙ same, r, l, w)

  pub store_note-IsNoteWritten :
      (path written_text : Text) (expected : Option Text) (create_only : Bool) (s after : S)
      (result : NoteResult)
      → IsReady s
      → store_note store setting yaml path written_text false expected create_only s
        ≡ (ok result, after)
      → IsNoteWritten path written_text expected create_only s result.path after
  store_note-IsNoteWritten path written_text expected create_only s after result ready h =
      let (found, u, revision, a, g, at_path, r, l, w) =
        store_note-stages path written_text expected create_only s after result ready h in
      subst (λ x. IsNoteWritten path written_text expected create_only s x after) at_path
        (written_found path found.0 written_text found.2 expected found.3 create_only found.1 s
          after u r l g w)

  module _ (refresh : Text → S → VaultIndex → Result Error (Unit {0}) × VaultIndex) where
    refreshed-kept :
        (result : NoteResult) (s : S) (step : Result Error (Unit {0}) × VaultIndex)
        → (refreshed store setting refresh result s step).1 ≡ s
    refreshed-kept result s (ok u, index) = refl
    refreshed-kept result s (err e, index) = refl

    refreshed-same :
        (result other : NoteResult) (s after : S) (left : Option VaultIndex)
        (step : Result Error (Unit {0}) × VaultIndex)
        → refreshed store setting refresh result s step ≡ (ok other, after, left)
        → result ≡ other
    refreshed-same result other s after left (ok u, index) h =
        ok-injective {E = Error} result other (ap (λ x. x.0) h)
    refreshed-same result other s after left (err e, index) h = cc

    by_status-kept :
        (status : Status) (result : NoteResult) (s : S) (index : VaultIndex)
        → (by_status store setting refresh status result s index).1 ≡ s
    by_status-kept dry_run result s index = refl
    by_status-kept deleted result s index = refl
    by_status-kept _ result s index = refreshed-kept result s (refresh result.path s index)

    by_status-same :
        (status : Status) (result other : NoteResult) (s after : S) (index : VaultIndex)
        (left : Option VaultIndex)
        → by_status store setting refresh status result s index ≡ (ok other, after, left)
        → result ≡ other
    by_status-same dry_run result other s after index left h =
        ok-injective {E = Error} result other (ap (λ x. x.0) h)
    by_status-same deleted result other s after index left h =
        ok-injective {E = Error} result other (ap (λ x. x.0) h)
    by_status-same _ result other s after index left h =
        refreshed-same result other s after left (refresh result.path s index) h

    -- The index takes no part in what is stored.
    pub indexed-kept :
        (step : Result Error NoteResult × S) (index : Option VaultIndex)
        → (indexed store setting refresh step index).1 ≡ step.1
    unfolding indexed
    indexed-kept (err e, s) index = refl
    indexed-kept (ok result, s) none = refl
    indexed-kept (ok result, s) (some index) = by_status-kept result.status result s index

    pub indexed-ok :
        (step : Result Error NoteResult × S) (index left : Option VaultIndex) (result : NoteResult)
        (after : S)
        → indexed store setting refresh step index ≡ (ok result, after, left)
        → step ≡ (ok result, after)
    unfolding indexed
    indexed-ok (err e, s) index left result after h = cc
    indexed-ok (ok r, s) none left result after h =
        let same = ok-injective {E = Error} r result (ap (λ x. x.0) h) in
        ap (λ x. (ok x, s)) same ∙ ap (λ x. (ok result, x)) (ap (λ x. x.1) h)
    indexed-ok (ok r, s) (some index) left result after h =
        ap (λ x. (ok x, s)) (by_status-same r.status r result s after index left h)
        ∙ ap (λ x. (ok result, x)) (sym (by_status-kept r.status r s index) ∙ ap (λ x. x.1) h)

    -- A `write_note` that returns, and is no preview, has created the note if it was to
    -- create it, has replaced the revision that was asked for if one was, and in strict mode
    -- nothing unasked; the note has the new text, with the frontmatter that it preserves, and
    -- no other note has changed. The storage keeps the laws and is ready.
    pub write_note-IsNoteWritten :
        (path written_text : Text) (expected : Option Text) (create_only : Bool)
        (index left : Option VaultIndex) (s after : S) (result : NoteResult)
        → IsReady s
        → write_note store setting refresh yaml path written_text false expected create_only index s
          ≡ (ok result, after, left)
        → IsNoteWritten path written_text expected create_only s result.path after
    unfolding write_note
    write_note-IsNoteWritten path written_text expected create_only index left s after result ready
          h =
        store_note-IsNoteWritten path written_text expected create_only s after result ready (
          indexed-ok (store_note store setting yaml path written_text false expected create_only s)
            index left result after h)
