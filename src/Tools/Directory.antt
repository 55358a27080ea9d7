-- ===== src/Tools/Directory.antt =====
-- The storage of the tools of src/obsidian_mcp/tools/write.py where all notes are in one
-- directory: the reads of `VaultStorage` in src/obsidian_mcp/storage/filesystem.py, and its
-- atomic write, while no other process writes. A file is read as text by UTF-8, which is
-- not modelled.
use brain_mcp.Base.{
  ◌≡◌, inl, inr, Bool-cases, arith, refl, ap, sym, subst, ◌∙◌, Bool, true, false, not, Option, none,
  some, ◌==◌, ==_iff, Result, ok, err, ok-injective, >>=-eq-ok, ◌>>=◌,
}
use brain_mcp.Base.Text.{Text, text_eq}
use brain_mcp.Base.Dict.{lookup}
use brain_mcp.Errors.{Error, file_not_found, vault_path, is_a_directory, os_error}
use brain_mcp.Models.{FileRevision}
use brain_mcp.Policy.{Kind, regular, symlink}
use brain_mcp.Revisions.{Strings, token, from_bytes, normalize_optional, normalize_revision_token}
use brain_mcp.Storage.{
  Entry, Directory, Os, revision_at, revision_of, revision_of_kind, mismatch, write_atomic,
  with_expected,
}
use brain_mcp.Storage.Atomic.{IsCommitted, IsAtomic, quiet, write_at-IsAtomic}
use brain_mcp.Tools.Store.{Store, IsStore, IsStored, IsWritten, IsExpected}

-- What the access policy answers.
pub record Resolver : Type 0 where
  pub resolve_read : Text → Result Error Text
  pub resolve_write : Text → Result Error Text
  pub can_read : Text → Result Error Bool

not-false : (b : Bool) → not b ≡ false → b ≡ true
not-false true h = refl
not-false false h = cc

module _ (os : Os) (strings : Strings) (resolver : Resolver) where
  abbrev pub exists_kind : Kind → Result Error Bool
  exists_kind symlink = err vault_path
  exists_kind _ = ok true

  abbrev pub exists_as : Option Entry → Result Error Bool
  exists_as none = ok false
  exists_as (some entry) = exists_kind entry.kind

  -- `VaultStorage.exists`
  unfoldable pub exists : Text → Directory → Result Error Bool
  exists path dir = resolver.resolve_read path >>= λ target. exists_as (lookup target dir)

  abbrev pub read_kind : Kind → Entry → Result Error (Text × FileRevision)
  read_kind regular entry = ok (entry.content, from_bytes os.hash entry.content entry.mtime_ns)
  read_kind symlink entry = err os_error
  read_kind _ entry = err is_a_directory

  abbrev pub read_entry : Option Entry → Result Error (Text × FileRevision)
  read_entry none = err file_not_found
  read_entry (some entry) = read_kind entry.kind entry

  -- `VaultStorage.read_text_with_revision`
  unfoldable pub read_text_with_revision : Text → Directory → Result Error (Text × FileRevision)
  read_text_with_revision path dir =
      resolver.resolve_read path >>= λ target. read_entry (lookup target dir)

  abbrev pub there : Option FileRevision → Result Error FileRevision
  there none = err file_not_found
  there (some revision) = ok revision

  -- `VaultStorage.revision` with `read=False`
  unfoldable pub revision : Text → Directory → Result Error FileRevision
  revision path dir =
      resolver.resolve_write path >>= λ target. revision_at (quiet os) dir target >>= there

  abbrev pub write_to :
      Result Error Text
      → Text
      → Option Text
      → Bool
      → Directory
      → Result Error FileRevision × Directory
  write_to (err e) content expected create_only dir = (err e, dir)
  write_to (ok target) content expected create_only dir =
      write_atomic (quiet os) strings target target content expected create_only dir

  -- `VaultStorage.write_text_atomic`
  unfoldable pub write_text_atomic :
      Text → Text → Option Text → Bool → Directory → Result Error FileRevision × Directory
  write_text_atomic path content expected create_only dir =
      write_to (resolver.resolve_write path) content expected create_only dir

  unfoldable pub directory_store : Store Directory
  unfolding exists read_text_with_revision revision write_text_atomic
  directory_store = record {
    resolve_write = resolver.resolve_write;
    can_read = resolver.can_read;
    exists = exists;
    read_text_with_revision = read_text_with_revision;
    revision = revision;
    write_text_atomic = write_text_atomic;
    acquire_lock = λ path dir. ok tt;
  }

  abbrev content_of : Option Entry → Option Text
  content_of none = none
  content_of (some entry) = some entry.content

  -- The temporary file is no note.
  abbrev pub hidden : Bool → Option Entry → Option Text
  hidden true found = none
  hidden false found = content_of found

  abbrev pub content : Text → Directory → Option Text
  content path dir = hidden (os.tmp_name == path) (lookup path dir)

  same_note :
      (name : Text) (before after : Option Entry)
      → ((os.tmp_name == name) ≡ false → after ≡ before)
      → hidden (os.tmp_name == name) after ≡ hidden (os.tmp_name == name) before
  same_note name before after h = elim (Bool-cases (os.tmp_name == name)) [
    | inl e ↦ rw e refl
    | inr e ↦ rw e (ap content_of (h e))
  ]

  abbrev known : Result Error (Option FileRevision) → Option FileRevision
  known (ok found) = found
  known (err e) = none

  abbrev pub current : Text → Directory → Option FileRevision
  current path dir = known (revision_at os dir path)

  abbrev pub IsReady : Directory → Type 0
  IsReady dir = lookup os.tmp_name dir ≡ none

  -- A path that was resolved resolves to itself, or no longer; and it is no temporary name.
  pub record IsResolver : Type 0 where
    pub reads_same :
        (raw path target : Text)
        → resolver.resolve_write raw ≡ ok path
        → resolver.resolve_read path ≡ ok target
        → target ≡ path
    pub writes_same :
        (raw path target : Text)
        → resolver.resolve_write raw ≡ ok path
        → resolver.resolve_write path ≡ ok target
        → target ≡ path
    pub apart :
        (raw path : Text) → resolver.resolve_write raw ≡ ok path → (os.tmp_name == path) ≡ false

  exists_as-none : (found : Option Entry) → exists_as found ≡ ok false → content_of found ≡ none
  exists_as-none none h = refl
  exists_as-none (some entry) h = by_kind entry.kind h
    where
      by_kind : (kind : Kind) → exists_kind kind ≡ ok false → content_of (some entry) ≡ none
      by_kind symlink h = cc
      by_kind _ h = cc

  read_entry-ok :
      (entry_found : Option Entry) (found : Text × FileRevision)
      → read_entry entry_found ≡ ok found
      → (content_of entry_found ≡ some found.0) × (revision_of os entry_found ≡ ok (some found.1))
  read_entry-ok none found h = cc
  read_entry-ok (some entry) found h = by_kind entry.kind h
    where
      by_kind :
          (kind : Kind)
          → read_kind kind entry ≡ ok found
          → (some entry.content ≡ some found.0)
            × (revision_of_kind os kind entry ≡ ok (some found.1))
      by_kind regular k =
          let same = ok-injective _ found k in
          (
            ap (λ (x : Text × FileRevision). some x.0) same,
            ap (λ (x : Text × FileRevision). ok (some x.1)) same,
          )
      by_kind symlink k = cc
      by_kind _ k = cc

  expected_found :
      (path : Text) (dir : Directory) (expected exact : Option Text) (found : Option FileRevision)
      → normalize_optional strings expected ≡ ok exact
      → revision_at os dir path ≡ ok found
      → mismatch exact found ≡ false
      → IsExpected strings content current expected path dir
  expected_found path dir none exact found n r m = tt
  expected_found path dir (some value) none found n r m =
      let (t, _, h) = >>=-eq-ok (normalize_revision_token strings value) _ n in
      cc (ok-injective _ _ h)
  expected_found path dir (some value) (some exact) none n r m = cc
  expected_found path dir (some value) (some exact) (some found) n r m =
      let same : token found ≡ exact = (==_iff (token found) exact).0 (not-false _ m) in
      (found, ap known r, n ∙ ap (λ t. ok (some t)) (sym same))

  committed-IsStored :
      (path full : Text) (expected exact : Option Text) (create_only : Bool) (dir after : Directory)
      → (os.tmp_name == path) ≡ false
      → normalize_optional strings expected ≡ ok exact
      → IsCommitted os path full exact create_only dir after
      → ((name : Text)
          → (path == name) ≡ false
          → (os.tmp_name == name) ≡ false
          → lookup name after ≡ lookup name dir)
      → IsStored strings content current path full expected create_only dir after
  committed-IsStored path full expected exact create_only dir after t n c others = (
    (λ created. rw (t, c.0 created) refl),
    expected_found path dir expected exact (c.1).0 n (c.1).1 (c.1).2,
    rw t (ap content_of (c.2).1 ∙ ap some (c.2).2),
    (λ name d. same_note name (lookup name dir) (lookup name after) (others name d)),
  )

  write_at-IsWritten :
      (path full : Text) (expected exact : Option Text) (create_only : Bool) (dir : Directory)
      (step : Result Error FileRevision × Directory)
      → (os.tmp_name == path) ≡ false
      → normalize_optional strings expected ≡ ok exact
      → IsAtomic os path full exact create_only dir step
      → IsWritten strings content current path full expected create_only dir step
  write_at-IsWritten path full expected exact create_only dir (err e, after) t n (inl a) =
      inl (λ name. same_note name (lookup name dir) (lookup name after) (λ d. a name (inr d)))
  write_at-IsWritten path full expected exact create_only dir (err e, after) t n (inr a) =
      inr (committed-IsStored path full expected exact create_only dir after t n a.1 a.2)
  write_at-IsWritten path full expected exact create_only dir (ok r, after) t n a =
      committed-IsStored path full expected exact create_only dir after t n a.0
        (λ name d _. a.2 name d)

  -- Once a write has returned, its temporary file is gone.
  written-IsReady :
      (path full : Text) (exact : Option Text) (create_only : Bool) (dir after : Directory)
      (revision : FileRevision) (step : Result Error FileRevision × Directory)
      → IsReady dir
      → (os.tmp_name == path) ≡ false
      → IsAtomic os path full exact create_only dir step
      → step ≡ (ok revision, after)
      → IsReady after
  written-IsReady path full exact create_only dir after revision (err e, d) ready t a h = cc
  written-IsReady path full exact create_only dir after revision (ok r, d) ready t a h =
      subst IsReady (ap (λ x. x.1) h) (
        a.2 os.tmp_name (ground (arith, ==_iff path os.tmp_name, ==_iff os.tmp_name path, t))
        ∙ ready)

  write_to-IsReady :
      (path full : Text) (expected : Option Text) (create_only : Bool) (dir after : Directory)
      (revision : FileRevision) (answer : Result Error Text)
      → IsReady dir
      → (os.tmp_name == path) ≡ false
      → ((target : Text) → answer ≡ ok target → target ≡ path)
      → write_to answer full expected create_only dir ≡ (ok revision, after)
      → IsReady after
  unfolding write_atomic
  write_to-IsReady path full expected create_only dir after revision (err e) ready t same h = cc
  write_to-IsReady path full expected create_only dir after revision (ok target) ready t same h =
      by_expected (normalize_optional strings expected) (
        subst (λ x. write_to (ok x) full expected create_only dir ≡ (ok revision, after))
          (same target refl) h)
    where
      by_expected :
          (exact : Result Error (Option Text))
          → with_expected (quiet os) strings path path full exact create_only dir
            ≡ (ok revision, after)
          → IsReady after
      by_expected (err e) k = cc
      by_expected (ok exact) k =
          written-IsReady path full exact create_only dir after revision _ ready t
            (write_at-IsAtomic os strings path path full exact dir ready t create_only) k

  with_expected-IsWritten :
      (path full : Text) (expected : Option Text) (create_only : Bool) (dir : Directory)
      (exact : Result Error (Option Text))
      → IsReady dir
      → (os.tmp_name == path) ≡ false
      → normalize_optional strings expected ≡ exact
      → IsWritten strings content current path full expected create_only dir
          (with_expected (quiet os) strings path path full exact create_only dir)
  with_expected-IsWritten path full expected create_only dir (err e) ready apart n =
      inl (λ name. refl)
  with_expected-IsWritten path full expected create_only dir (ok exact) ready apart n =
      write_at-IsWritten path full expected exact create_only dir _ apart n
        (write_at-IsAtomic os strings path path full exact dir ready apart create_only)

  write_to-IsWritten :
      (path full : Text) (expected : Option Text) (create_only : Bool) (dir : Directory)
      (answer : Result Error Text)
      → IsReady dir
      → (os.tmp_name == path) ≡ false
      → ((target : Text) → answer ≡ ok target → target ≡ path)
      → IsWritten strings content current path full expected create_only dir
          (write_to answer full expected create_only dir)
  unfolding write_atomic
  write_to-IsWritten path full expected create_only dir (err e) ready apart same =
      inl (λ name. refl)
  write_to-IsWritten path full expected create_only dir (ok target) ready apart same =
      subst
        (λ x.
          IsWritten strings content current path full expected create_only dir
            (write_to (ok x) full expected create_only dir))
        (sym (same target refl))
        (with_expected-IsWritten path full expected create_only dir
          (normalize_optional strings expected) ready apart refl)

  -- The directory's storage keeps the laws that the tools rely on.
  pub directory_store-IsStore : IsResolver → IsStore strings content current directory_store IsReady
  unfolding directory_store
  directory_store-IsStore r = record {
    reads = λ raw path dir found w h.
        let (target, a, b) = >>=-eq-ok (resolver.resolve_read path) _ h in
        let (text_there, revision_there) = read_entry-ok (lookup path dir) found (
          subst (λ x. read_entry (lookup x dir) ≡ ok found) (r.reads_same raw path target w a) b) in
        (rw (r.apart raw path w) text_there, ap known revision_there);
    absent = λ raw path dir w h.
        let (target, a, b) = >>=-eq-ok (resolver.resolve_read path) _ h in
        rw (r.apart raw path w) (
          exists_as-none (lookup path dir) (
            subst (λ x. exists_as (lookup x dir) ≡ ok false) (r.reads_same raw path target w a) b));
    writes = λ raw path full expected create_only dir ready w.
        write_to-IsWritten path full expected create_only dir (resolver.resolve_write path) ready
          (r.apart raw path w) (λ target a. r.writes_same raw path target w a);
    stays = λ raw path full expected create_only dir after revision ready w h.
        write_to-IsReady path full expected create_only dir after revision
          (resolver.resolve_write path) ready (r.apart raw path w)
          (λ target a. r.writes_same raw path target w a) h;
  }
