-- ===== src/Tools/Write/Failures.antt =====
-- `write_note` of src/obsidian_mcp/tools/write.py where it raises: all or nothing is stored.
use brain_mcp.Base.{
  ◌≡◌, ◌⊎◌, inl, inr, sym, ◌∙◌, refl, ap, subst, Bool, true, false, not, ◌&&◌, ◌||◌, Option, Result,
  ok, err, raise_if,
}
use brain_mcp.Base.Text.{Text, text_eq}
use brain_mcp.Errors.{Error, precondition_required}
use brain_mcp.Identity.{is_none}
use brain_mcp.Index.{VaultIndex}
use brain_mcp.Models.{FileRevision}
use brain_mcp.Tools.Store.{Store, IsStore, IsStored, IsWritten, Unchanged, attempt, followed}
use brain_mcp.Tools.Frontmatter.{Yaml, preserve}
use brain_mcp.Tools.Write.{
  Setting, NoteResult, prepare_note, store_note, write_note, preserving, with_preserved, previewed,
}
use brain_mcp.Tools.Write.Safe.{prepare_note-IsLooked}
use brain_mcp.Tools.Write.Notes.{
  IsNoteWritten, written_found, store_note-IsNoteWritten, indexed-kept,
}

-- What holds of the state in which a step has raised.
abbrev IsSafe : {S A : Type 0} → (S → Type 0) → Result Error A × S → Type 0
IsSafe P (ok a, after) = Unit
IsSafe P (err e, after) = P after

safe-err :
    {S A : Type 0} (P : S → Type 0) (after : S) (e : Error) (step : Result Error A × S)
    → IsSafe P step
    → step ≡ (err e, after)
    → P after
safe-err P after e (ok a, m) safe h = cc
safe-err P after e (err x, m) safe h = subst P (ap (λ x. x.1) h) safe

attempt-IsSafe :
    {S A B : Type 0} (P : S → Type 0) (answer : Result Error A) (s : S)
    (next : A → Result Error B × S)
    → P s
    → ((a : A) → answer ≡ ok a → IsSafe P (next a))
    → IsSafe P (attempt answer s next)
attempt-IsSafe P (err e) s next p h = p
attempt-IsSafe P (ok a) s next p h = h a refl

preserving-IsSafe :
    {S : Type 0} (P : S → Type 0) (preserved : Bool) (step : Result Error NoteResult × S)
    → IsSafe P step
    → IsSafe P (preserving preserved step)
preserving-IsSafe P preserved (ok result, after) safe = tt
preserving-IsSafe P preserved (err e, after) safe = safe

module _ {S : Type 0} (store : Store S) (setting : Setting) (content : Text → S → Option Text)
    (current : Text → S → Option FileRevision) (IsReady : S → Type 0)
    (laws : IsStore setting.strings content current store IsReady) where
  followed-IsSafe :
      (P : S → Type 0) (path full : Text) (pinned : Option Text) (create_only : Bool) (s : S)
      (step : Result Error FileRevision × S) (make : FileRevision → NoteResult)
      → IsWritten setting.strings content current path full pinned create_only s step
      → ((after : S) → Unchanged setting.strings content current s after → P after)
      → ((after : S)
          → IsStored setting.strings content current path full pinned create_only s after
          → P after)
      → IsSafe {A = NoteResult} P (followed step (λ revision after. (ok (make revision), after)))
  followed-IsSafe P path full pinned create_only s (ok revision, after) make w none_of all_of = tt
  followed-IsSafe P path full pinned create_only s (err e, after) make (inl w) none_of all_of =
      none_of after w
  followed-IsSafe P path full pinned create_only s (err e, after) make (inr w) none_of all_of =
      all_of after w

  module _ {V : Type 0} (yaml : Yaml V) (path written_text : Text) (expected : Option Text)
      (create_only : Bool) (s : S) where
    -- No note has changed, or all that the call is to store is stored.
    abbrev pub IsWhole : S → Type 0
    IsWhole after =
        Unchanged setting.strings content current s after
        ⊎ ((target : Text) × IsNoteWritten store setting content current IsReady laws yaml path
              written_text expected create_only s target after)

    store_note-IsSafe :
        IsReady s
        → IsSafe IsWhole
            (store_note store setting yaml path written_text false expected create_only s)
    unfolding store_note
    store_note-IsSafe ready =
        let unchanged : IsWhole s = inl (λ name. refl) in
        attempt-IsSafe IsWhole (prepare_note store setting path expected s) s _ unchanged
          (λ (found : Text × Bool × Text × Option Text) a.
            let guard =
              found.1
              && not create_only
              && setting.require_write_preconditions
              && is_none expected in
            let full = preserve yaml written_text found.2 in
            let (r, l) =
              prepare_note-IsLooked store setting content current IsReady laws path found.0 expected
                s found.1 found.2 found.3 a in
            attempt-IsSafe IsWhole (raise_if guard precondition_required) s _ unchanged (λ u g.
              preserving-IsSafe IsWhole full.1 _ (
                followed-IsSafe IsWhole found.0 full.0 found.3 (create_only || not found.1) s _ _
                  (laws.writes path found.0 full.0 found.3 (create_only || not found.1) s ready r)
                  (λ after w. inl w)
                  (λ after w. inr (
                    found.0,
                    written_found store setting content current IsReady laws yaml path found.0
                        written_text found.2 expected found.3 create_only found.1 s after u r l g w,
                  )))))

    store_note-IsWhole :
        (outcome : Result Error NoteResult) (after : S)
        → IsReady s
        → store_note store setting yaml path written_text false expected create_only s
          ≡ (outcome, after)
        → IsWhole after
    store_note-IsWhole (ok result) after ready h = inr (
      result.path,
      store_note-IsNoteWritten store setting content current IsReady laws yaml path written_text
          expected create_only s after result ready h,
    )
    store_note-IsWhole (err e) after ready h =
        safe-err IsWhole after e _ (store_note-IsSafe ready) h

    shown-Unchanged :
        (step : Result Error NoteResult × S)
        → step ≡ store_note store setting yaml path written_text true expected create_only s
        → step.1 ≡ s
    unfolding store_note
    shown-Unchanged step h = ap (λ x. x.1) h ∙ kept (prepare_note store setting path expected s)
      where
        kept :
            (answer : Result Error (Text × Bool × Text × Option Text))
            → (attempt answer s (λ (found : Text × Bool × Text × Option Text). (
              ok (
                  with_preserved (preserve yaml written_text found.2).1 (
                    previewed store setting found.0 found.2
                      (preserve yaml written_text found.2).0
                      found.3)),
              s,
            ))).1
              ≡ s
        kept (err e) = refl
        kept (ok found) = refl

    module _ (refresh : Text → S → VaultIndex → Result Error (Unit {0}) × VaultIndex) where
      -- Whatever `write_note` does, it returns or raises, before the write, after it or in the
      -- update of the index: a preview has changed no note; a call that is no preview has
      -- changed no note, or has met its preconditions and stored the whole text, and changed
      -- no other note. The storage keeps the laws and is ready.
      pub write_note-IsWhole :
          (index left : Option VaultIndex) (after : S) (preview_only : Bool)
          (outcome : Result Error NoteResult)
          → IsReady s
          → write_note store setting refresh yaml path written_text preview_only expected
              create_only index s
            ≡ (outcome, after, left)
          → (preview_only ≡ true → Unchanged setting.strings content current s after)
            × IsWhole after
      unfolding write_note
      write_note-IsWhole index left after true outcome ready h =
          let step = store_note store setting yaml path written_text true expected create_only s in
          let same =
            sym (shown-Unchanged step refl)
            ∙ (sym (indexed-kept store setting content current IsReady laws yaml refresh step index)
                ∙ ap (λ x. x.1) h) in
          let unchanged =
            subst (λ x. Unchanged setting.strings content current s x) same (λ name. refl) in
          ((λ _. unchanged), inl unchanged)
      write_note-IsWhole index left after false outcome ready h =
          let step = store_note store setting yaml path written_text false expected create_only s in
          let same =
            sym (indexed-kept store setting content current IsReady laws yaml refresh step index)
            ∙ ap (λ x. x.1) h in
          ((λ t. cc (t)), subst IsWhole same (store_note-IsWhole step.0 step.1 ready refl))
