-- ===== src/Tools/Write/Safe.antt =====
-- The tools of src/obsidian_mcp/tools/write.py lose no update: what they write replaces
-- what they read.
use brain_mcp.Base.{
  ◌≡◌, refl, ap, sym, subst, ◌∙◌, Bool, true, false, not, Option, none, some, [], ◌==◌, ==_iff,
  Result, ok, err, raise_if, raise_if-not, >>=-eq-ok, ok-injective, ◌>>◌,
}
use brain_mcp.Base.Text.{Text, text, text_eq, ends_with}
use brain_mcp.Errors.{Error, value_error}
use brain_mcp.Models.{FileRevision}
use brain_mcp.Revisions.{token, normalize_revision_token, read_text_for_update, check_expected}
use brain_mcp.Tools.Store.{Store, IsStore, IsWritten, IsExpected, attempt, followed}
use brain_mcp.Tools.Write.{
  Setting, Status, NoteResult, opened_path, read_before, prepare_note, commit,
}

pub attempt-ok {ℓ κ μ} :
    {S : Type ℓ} {A : Type κ} {B : Type μ} {b : B} {after : S} (answer : Result Error A) (s : S)
    (next : A → Result Error B × S)
    → attempt answer s next ≡ (ok b, after)
    → (a : A) × (answer ≡ ok a) × (next a ≡ (ok b, after))
attempt-ok (err e) s next h = cc
attempt-ok (ok a) s next h = (a, refl, h)

pub followed-ok {ℓ κ μ} :
    {S : Type ℓ} {A : Type κ} {B : Type μ} {b : B} {after : S} (step : Result Error A × S)
    (next : A → S → Result Error B × S)
    → followed step next ≡ (ok b, after)
    → (a : A) × (middle : S) × (step ≡ (ok a, middle)) × (next a middle ≡ (ok b, after))
followed-ok (err e, s) next h = cc
followed-ok (ok a, s) next h = (a, s, refl, h)

pub outcome-ok {ℓ κ} :
    {S : Type ℓ} {B : Type κ} (b result : B) (s after : S)
    → ◌≡◌ {A = Result Error B × S} (ok b, s) (ok result, after)
    → (b ≡ result) × (s ≡ after)
outcome-ok b result s after h =
    (ok-injective {E = Error} b result (ap (λ x. x.0) h), ap (λ x. x.1) h)

passed :
    {A : Type 0} {a : A} (test : Bool) (e : Error) (next : Result Error A)
    → (raise_if test e >> next) ≡ ok a
    → next ≡ ok a
passed true e next h = cc
passed false e next h = h

pub opened_path-ok :
    {S : Type 0} (store : Store S) (setting : Setting) (path target : Text)
    → opened_path store setting path ≡ ok target
    → store.resolve_write path ≡ ok target
opened_path-ok store setting path target h =
    passed (not (ends_with (setting.strings.lower path) (text ".md"))) value_error
      (store.resolve_write path) h

module _ {S : Type 0} (store : Store S) (setting : Setting) (content : Text → S → Option Text)
    (current : Text → S → Option FileRevision) (IsReady : S → Type 0)
    (laws : IsStore setting.strings content current store IsReady) where
  -- What is known of a note once it is read.
  pub record IsFound (path : Text) (expected : Option Text) (s : S) (before : Text) (pinned : Text)
      : Type 0 where
    pub there : content path s ≡ some before
    pub revision : FileRevision
    pub is_current : current path s ≡ some revision
    pub is_pinned : token revision ≡ pinned
    pub is_expected : IsExpected setting.strings content current expected path s

  expected_of :
      (path : Text) (expected : Option Text) (s : S) (revision : FileRevision) (u : Unit {0})
      → current path s ≡ some revision
      → check_expected setting.strings path expected revision ≡ ok u
      → IsExpected setting.strings content current expected path s
  expected_of path none s revision u c h = tt
  expected_of path (some value) s revision u c h =
      let (normal, a, h₁) = >>=-eq-ok (normalize_revision_token setting.strings value) _ h in
      let same : token revision ≡ normal =
        (==_iff (token revision) normal).0 (raise_if-not (token revision == normal) _ u h₁) in
      (revision, c, rw a (ap (λ t. ok (some t)) (sym same)))

  pub read_text_for_update-IsFound :
      (raw_path path : Text) (expected : Option Text) (s : S) (before pinned : Text)
      → store.resolve_write raw_path ≡ ok path
      → read_text_for_update setting.strings (store.read_text_with_revision path s) path expected
        ≡ ok (before, pinned)
      → IsFound path expected s before pinned
  unfolding read_text_for_update
  read_text_for_update-IsFound raw_path path expected s before pinned r h =
      let (found, a, h₁) = >>=-eq-ok (store.read_text_with_revision path s) _ h in
      let (u, b, h₂) = >>=-eq-ok (check_expected setting.strings path expected found.1) _ h₁ in
      let (there, is_current) = laws.reads raw_path path s found r a in
      let same = ok-injective (found.0, token found.1) (before, pinned) h₂ in
      record {
        there = there ∙ ap (λ (x : Text × Text). some x.0) same;
        revision = found.1;
        is_current = is_current;
        is_pinned = ap (λ (x : Text × Text). x.1) same;
        is_expected = expected_of path expected s found.1 u is_current b;
      }

  -- What is known when `write_note` has looked for the note.
  abbrev pub IsLooked : Text → Option Text → S → Bool → Text → Option Text → Type 0
  IsLooked path expected s true before pinned =
      (token_found : Text) × (pinned ≡ some token_found)
      × IsFound path expected s before token_found
  IsLooked path expected s false before pinned =
      (content path s ≡ none) × (expected ≡ none) × (before ≡ []) × (pinned ≡ none)

  read_before-IsLooked :
      (raw_path path : Text) (expected : Option Text) (s : S) (exists : Bool) (before : Text)
      (pinned : Option Text)
      → store.resolve_write raw_path ≡ ok path
      → store.exists path s ≡ ok exists
      → read_before store setting path expected s exists ≡ ok (before, pinned)
      → IsLooked path expected s exists before pinned
  read_before-IsLooked raw_path path expected s true before pinned r e h =
      let ((raw, t), a, h₁) =
        >>=-eq-ok
          (read_text_for_update setting.strings (store.read_text_with_revision path s) path
            expected)
          _ h in
      let same = ok-injective (raw, some t) (before, pinned) h₁ in
      (
        t,
        sym (ap (λ (x : Text × Option Text). x.1) same),
        subst (λ x. IsFound path expected s x t) (ap (λ (x : Text × Option Text). x.0) same)
            (read_text_for_update-IsFound raw_path path expected s raw t r a),
      )
  read_before-IsLooked raw_path path none s false before pinned r e h =
      let same = ok-injective ([], none) (before, pinned) h in
      (
        laws.absent raw_path path s r e,
        refl,
        sym (ap (λ (x : Text × Option Text). x.0) same),
        sym (ap (λ (x : Text × Option Text). x.1) same),
      )
  read_before-IsLooked raw_path path (some value) s false before pinned r e h = cc

  pub prepare_note-IsLooked :
      (path target : Text) (expected : Option Text) (s : S) (exists : Bool) (before : Text)
      (pinned : Option Text)
      → prepare_note store setting path expected s ≡ ok (target, exists, before, pinned)
      → (store.resolve_write path ≡ ok target) × IsLooked target expected s exists before pinned
  unfolding prepare_note
  prepare_note-IsLooked path target expected s exists before pinned h =
      let (t, a, h₁) = >>=-eq-ok (opened_path store setting path) _ h in
      let a₂ = opened_path-ok store setting path t a in
      let (readable, _, h₂) = >>=-eq-ok (store.can_read t) _ h₁ in
      let (_, _, h₃) = >>=-eq-ok (raise_if (not readable) _) _ h₂ in
      let (_, _, h₄) = >>=-eq-ok (store.acquire_lock t s) _ h₃ in
      let (there, b, h₅) = >>=-eq-ok (store.exists t s) _ h₄ in
      let (found, c, h₆) = >>=-eq-ok (read_before store setting t expected s there) _ h₅ in
      subst
        (λ (x : Text × Bool × Text × Option Text).
          (store.resolve_write path ≡ ok x.0) × IsLooked x.0 expected s x.1 x.2 x.3)
        (ok-injective (t, there, found.0, found.1) (target, exists, before, pinned) h₆)
        (a₂, read_before-IsLooked path t expected s there found.0 found.1 a₂ b c)

  -- A write of a note that raises changes nothing; one that returns has written the text
  -- that it was given, on the revision that it was given, in place of no file if it was to
  -- create one.
  pub commit-IsWritten :
      (raw path : Text) (status : Status) (before written : Text) (pinned : Option Text)
      (create_only : Bool) (s after : S) (result : NoteResult)
      → IsReady s
      → store.resolve_write raw ≡ ok path
      → commit store setting path status before written pinned create_only s ≡ (ok result, after)
      → (result.path ≡ path)
        × ((revision : FileRevision) × IsWritten setting.strings content current path written pinned
              create_only s
              (ok revision, after))
  commit-IsWritten raw path status before written pinned create_only s after result ready r h =
      let (revision, middle, a, b) =
        followed-ok (store.write_text_atomic path written pinned create_only s) _ h in
      let law = laws.writes raw path written pinned create_only s ready r in
      let (same, left) = outcome-ok _ result middle after b in
      (
        sym (ap (λ (x : NoteResult). x.path) same),
        (
          revision,
          subst
              (λ x.
                IsWritten setting.strings content current path written pinned create_only s
                  (ok revision, x))
              left
              (subst (IsWritten setting.strings content current path written pinned create_only s) a
                law),
        ),
      )
