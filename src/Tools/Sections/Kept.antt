-- ===== src/Tools/Sections/Kept.antt =====
-- Inserting into a note at a section or at a block reference keeps all of its text
-- (src/obsidian_mcp/tools/write.py).
use brain_mcp.Base.{
  ℕ, zero, suc, ◌≡◌, refl, sym, ap, ◌++◌, [], ◌∷◌, ok, >>=-eq-ok, ok-injective, nat_eq,
}
use brain_mcp.Base.Text.{Text}
use brain_mcp.Errors.{Error}
use brain_mcp.Tools.Sections.{
  Finder, PatchMode, replace, insert_before, insert_after, append, unknown, before, after,
  patch_section, find_section_bounds, patch_block_ref, found_block,
}

before-after : (n : ℕ) (s : Text) → before n s ++ after n s ≡ s
unfolding before after
before-after zero s = refl
before-after (suc n) [] = refl
before-after (suc n) (c ∷ s) = ap (λ t. c ∷ t) (before-after n s)

-- Something is put between two parts of the text.
abbrev pub IsInsertion : Text → Text → Type 0
IsInsertion content result =
    (front : Text) × (new : Text) × (back : Text) × (front ++ back ≡ content)
    × (result ≡ front ++ new ++ back)

-- The modes whose name says that they insert.
pub data IsInserting : PatchMode → Type 0 where
  above : IsInserting insert_before
  below : IsInserting insert_after

module _ (finder : Finder) where
  -- A patch of a section that is to insert before or after the heading, and returns, keeps
  -- all text of the note.
  pub patch_section-IsInsertion :
      (content heading new_content result : Text) (mode : PatchMode)
      → IsInserting mode
      → patch_section finder content heading new_content mode ≡ ok result
      → IsInsertion content result
  unfolding patch_section
  patch_section-IsInsertion content heading new_content result replace inserting h =
      elim inserting [ ]
  patch_section-IsInsertion content heading new_content result append inserting h =
      elim inserting [ ]
  patch_section-IsInsertion content heading new_content result unknown inserting h =
      elim inserting [ ]
  patch_section-IsInsertion content heading new_content result insert_before above h =
      let ((h_start, h_end, body_end), b, r) =
        >>=-eq-ok (find_section_bounds finder content heading) _ h in
      (
        before h_start content,
        _,
        after h_start content,
        before-after h_start content,
        sym (ok-injective {E = Error} _ result r),
      )
  patch_section-IsInsertion content heading new_content result insert_after below h =
      let ((h_start, h_end, body_end), b, r) =
        >>=-eq-ok (find_section_bounds finder content heading) _ h in
      (
        before h_end content,
        _,
        after h_end content,
        before-after h_end content,
        sym (ok-injective {E = Error} _ result r),
      )

  -- The same of a patch at a block reference.
  pub patch_block_ref-IsInsertion :
      (content block_id new_content result : Text) (mode : PatchMode)
      → IsInserting mode
      → patch_block_ref finder content block_id new_content mode ≡ ok result
      → IsInsertion content result
  unfolding patch_block_ref
  patch_block_ref-IsInsertion content block_id new_content result replace inserting h =
      elim inserting [ ]
  patch_block_ref-IsInsertion content block_id new_content result append inserting h =
      elim inserting [ ]
  patch_block_ref-IsInsertion content block_id new_content result unknown inserting h =
      elim inserting [ ]
  patch_block_ref-IsInsertion content block_id new_content result insert_before above h =
      let ((start, end), b, r) =
        >>=-eq-ok (found_block finder (finder.block content block_id)) _ h in
      (
        before start content,
        _,
        after start content,
        before-after start content,
        sym (ok-injective {E = Error} _ result r),
      )
  patch_block_ref-IsInsertion content block_id new_content result insert_after below h =
      let ((start, end), b, r) =
        >>=-eq-ok (found_block finder (finder.block content block_id)) _ h in
      (
        before end content,
        _,
        after end content,
        before-after end content,
        sym (ok-injective {E = Error} _ result r),
      )
