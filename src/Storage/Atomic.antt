-- ===== src/Storage/Atomic.antt =====
-- What `_write_atomic` of src/obsidian_mcp/storage/filesystem.py does while no other
-- process writes to the directory.
use brain_mcp.Base.{
  ℕ, ◌≡◌, refl, ap, sym, ◌∙◌, ◌⊎◌, inl, inr, ◌&&◌, arith, Bool, true, false, Option, none, some,
  ◌==◌, ==_iff, ==_refl, Bool-cases, Result, ok, err,
}
use brain_mcp.Base.Text.{Text, text_eq}
use brain_mcp.Base.Dict.{lookup, insert, erase, lookup-insert, lookup-erase}
use brain_mcp.Errors.{Error}
use brain_mcp.Models.{FileRevision}
use brain_mcp.Policy.{Kind, regular, symlink}
use brain_mcp.Revisions.{Strings, from_bytes}
use brain_mcp.Storage.{
  Entry, Directory, Os, mismatch, revision_of_kind, revision_of, revision_at, mode_of, cleanup_if,
  cleanup, finish_if, unlink_tmp, link_done, link_if, rename_done, commit, commit_if, create_tmp,
  check_current, write_at,
}

-- The system when no other process writes.
abbrev pub quiet : Os → Os
quiet os = record os { env = λ n dir. dir }

-- What a write has found and done once the target is changed: a creation found no file, an
-- expected revision was the file's, and the file has the data.
abbrev pub IsCommitted : Os → Text → Text → Option Text → Bool → Directory → Directory → Type 0
IsCommitted os leaf data_bytes expected create_only dir after =
    (create_only ≡ true → lookup leaf dir ≡ none)
    × ((current : Option FileRevision) × (revision_at os dir leaf ≡ ok current)
        × (mismatch expected current ≡ false))
    × ((entry : Entry) × (lookup leaf after ≡ some entry) × (entry.content ≡ data_bytes))

-- No entry has changed, but for the temporary one if it could not be removed.
abbrev pub IsUntouched : Os → Directory → Directory → Type 0
IsUntouched os dir after =
    (name : Text)
    → (os.cleaned ≡ true) ⊎ ((os.tmp_name == name) ≡ false)
    → lookup name after ≡ lookup name dir

-- What an outcome of a write may be. If it returns: the change is made, the revision is that
-- of the data, and no other entry has changed. If it raises: no entry has changed; or the
-- change is made, a system call after it has failed, and no other entry has changed but for
-- the temporary one.
abbrev pub IsAtomic :
    Os
    → Text
    → Text
    → Option Text
    → Bool
    → Directory
    → Result Error FileRevision × Directory
    → Type 0
IsAtomic os leaf data_bytes expected create_only dir (ok revision, after) =
    IsCommitted os leaf data_bytes expected create_only dir after
    × (revision ≡ from_bytes os.hash data_bytes os.now)
    × ((name : Text) → (leaf == name) ≡ false → lookup name after ≡ lookup name dir)
IsAtomic os leaf data_bytes expected create_only dir (err e, after) =
    IsUntouched os dir after
    ⊎ (((os.unlinked && os.synced) ≡ false)
        × IsCommitted os leaf data_bytes expected create_only dir after
        × ((name : Text)
            → (leaf == name) ≡ false
            → (os.tmp_name == name) ≡ false
            → lookup name after ≡ lookup name dir))

module _ (os : Os) (strings : Strings) (relative leaf data_bytes : Text) (expected : Option Text)
    (dir : Directory) (fresh : lookup os.tmp_name dir ≡ none)
    (apart : (os.tmp_name == leaf) ≡ false) where
  unfoldable pub tmp_entry : ℕ → Entry
  tmp_entry mode = record { kind = regular; content = data_bytes; mtime_ns = os.now; mode = mode }

  unfoldable pub filled : ℕ → Directory
  filled mode = insert os.tmp_name (tmp_entry mode) dir

  pub lookup-filled : (mode : ℕ) → lookup leaf (filled mode) ≡ lookup leaf dir
  unfolding filled
  lookup-filled mode = rw (lookup-insert, apart)

  pub lookup-tmp : (mode : ℕ) → lookup os.tmp_name (filled mode) ≡ some (tmp_entry mode)
  unfolding filled
  lookup-tmp mode = rw (lookup-insert, ==_refl os.tmp_name)

  lookup-erased :
      (mode : ℕ) (name : Text) → lookup name (erase os.tmp_name (filled mode)) ≡ lookup name dir
  unfolding filled
  lookup-erased mode name =
      rw (lookup-erase, lookup-insert)
        (elim (Bool-cases (os.tmp_name == name)) [
          | inl e ↦
              rw e (sym (ap (λ x. lookup x dir) (sym ((==_iff os.tmp_name name).0 e)) ∙ fresh))
          | inr e ↦ rw e
        ])

  cleanup_if-IsUntouched :
      (mode : ℕ) (cleaned : Bool)
      → os.cleaned ≡ cleaned
      → IsUntouched os dir (cleanup_if (quiet os) cleaned (filled mode))
  unfolding filled
  cleanup_if-IsUntouched mode true e name h = lookup-erased mode name
  cleanup_if-IsUntouched mode false e name (inl c) = cc
  cleanup_if-IsUntouched mode false e name (inr d) = rw (lookup-insert, d) refl

  cleanup-IsUntouched : (mode : ℕ) → IsUntouched os dir (cleanup (quiet os) (filled mode))
  cleanup-IsUntouched mode = cleanup_if-IsUntouched mode os.cleaned refl

  pub lookup-linked :
      (mode : ℕ)
      → lookup leaf (erase os.tmp_name (insert leaf (tmp_entry mode) (filled mode)))
        ≡ some (tmp_entry mode)
  lookup-linked mode = rw (lookup-erase, lookup-insert, apart, ==_refl leaf)

  pub lookup-renamed :
      (mode : ℕ)
      → lookup leaf (insert leaf (tmp_entry mode) (erase os.tmp_name (filled mode)))
        ≡ some (tmp_entry mode)
  lookup-renamed mode = rw (lookup-insert, ==_refl leaf)

  lookup-linked_other :
      (mode : ℕ) (name : Text)
      → (leaf == name) ≡ false
      → lookup name (erase os.tmp_name (insert leaf (tmp_entry mode) (filled mode)))
        ≡ lookup name dir
  lookup-linked_other mode name d =
      lookup-erase os.tmp_name name (insert leaf (tmp_entry mode) (filled mode))
      ∙ rw (lookup-insert leaf name (tmp_entry mode) (filled mode), d)
          (sym (lookup-erase os.tmp_name name (filled mode)) ∙ lookup-erased mode name)

  lookup-renamed_other :
      (mode : ℕ) (name : Text)
      → (leaf == name) ≡ false
      → lookup name (insert leaf (tmp_entry mode) (erase os.tmp_name (filled mode)))
        ≡ lookup name dir
  lookup-renamed_other mode name d =
      rw (lookup-insert leaf name (tmp_entry mode) (erase os.tmp_name (filled mode)), d)
        (lookup-erased mode name)

  lookup-left_other :
      (mode : ℕ) (name : Text)
      → (leaf == name) ≡ false
      → (os.tmp_name == name) ≡ false
      → lookup name (insert leaf (tmp_entry mode) (filled mode)) ≡ lookup name dir
  unfolding filled
  lookup-left_other mode name d t =
      lookup-insert leaf name (tmp_entry mode) (filled mode)
      ∙ rw d (lookup-insert os.tmp_name name (tmp_entry mode) dir ∙ rw t refl)

  -- The stages, from the last one back. The directory is synced and the file read again,
  finish_if-IsAtomic :
      (create_only : Bool) (mode : ℕ) (after : Directory) (synced : Bool)
      → os.synced ≡ synced
      → lookup leaf after ≡ some (tmp_entry mode)
      → IsCommitted os leaf data_bytes expected create_only dir after
      → ((name : Text) → (leaf == name) ≡ false → lookup name after ≡ lookup name dir)
      → IsAtomic os leaf data_bytes expected create_only dir
          (finish_if (quiet os) strings relative leaf data_bytes expected synced after)
  unfolding tmp_entry
  finish_if-IsAtomic create_only mode after true e h c others = rw h (c, refl, others)
  finish_if-IsAtomic create_only mode after false e h c others =
      inr (ground (arith, e), c, λ name d t. others name d)

  -- once the temporary name of a new file is removed;
  unlink_tmp-IsAtomic :
      (create_only : Bool) (mode : ℕ) (unlinked : Bool)
      → os.unlinked ≡ unlinked
      → lookup leaf dir ≡ none
      → mismatch expected none ≡ false
      → IsAtomic os leaf data_bytes expected create_only dir (
          unlink_tmp
            (quiet os)
            strings
            relative
            leaf
            data_bytes
            expected
            unlinked
            (insert leaf (tmp_entry mode) (filled mode)))
  unfolding tmp_entry
  unlink_tmp-IsAtomic create_only mode true u absent matches =
      finish_if-IsAtomic create_only mode _ os.synced refl (lookup-linked mode)
        ((λ _. absent), (none, rw absent refl, matches), (tmp_entry mode, lookup-linked mode, refl))
        (lookup-linked_other mode)
  unlink_tmp-IsAtomic create_only mode false u absent matches = inr (
    ground (arith, u),
    (
      (λ _. absent),
      (none, rw absent refl, matches),
      (
        tmp_entry mode,
        lookup-insert leaf leaf (tmp_entry mode) (filled mode) ∙ rw (==_refl leaf) refl,
        refl,
      ),
    ),
    lookup-left_other mode,
  )

  -- the link itself may fail.
  link_done-IsAtomic :
      (create_only : Bool) (mode : ℕ) (linked : Bool)
      → lookup leaf dir ≡ none
      → mismatch expected none ≡ false
      → IsAtomic os leaf data_bytes expected create_only dir (
          link_done
            (quiet os)
            strings
            relative
            leaf
            data_bytes
            expected
            linked
            (tmp_entry mode)
            (filled mode))
  link_done-IsAtomic create_only mode false absent matches = inl (cleanup-IsUntouched mode)
  link_done-IsAtomic create_only mode true absent matches =
      unlink_tmp-IsAtomic create_only mode os.unlinked refl absent matches

  link_if-IsAtomic :
      (create_only : Bool) (mode : ℕ) (supported : Bool)
      → lookup leaf dir ≡ none
      → mismatch expected none ≡ false
      → IsAtomic os leaf data_bytes expected create_only dir (
          link_if
            (quiet os)
            strings
            relative
            leaf
            data_bytes
            expected
            supported
            (some (tmp_entry mode))
            (filled mode))
  link_if-IsAtomic create_only mode false absent matches = inl (cleanup-IsUntouched mode)
  link_if-IsAtomic create_only mode true absent matches =
      link_done-IsAtomic create_only mode os.linked absent matches

  commit_new-IsAtomic :
      (create_only : Bool) (mode : ℕ)
      → lookup leaf dir ≡ none
      → mismatch expected none ≡ false
      → IsAtomic os leaf data_bytes expected create_only dir (
          commit
            (quiet os)
            strings
            relative
            leaf
            data_bytes
            expected
            true
            (revision_at (quiet os) (filled mode) leaf)
            (filled mode))
  commit_new-IsAtomic create_only mode absent matches =
      rw (lookup-filled mode, absent, lookup-filled mode, absent, lookup-tmp mode)
        (link_if-IsAtomic create_only mode os.link_supported absent matches)

  -- an existing one is replaced,
  rename_done-IsAtomic :
      (create_only : Bool) (mode : ℕ) (renamed : Bool)
      → (create_only ≡ true → lookup leaf dir ≡ none)
      → ((current : Option FileRevision) × (revision_at os dir leaf ≡ ok current)
          × (mismatch expected current ≡ false))
      → IsAtomic os leaf data_bytes expected create_only dir (
          rename_done
            (quiet os)
            strings
            relative
            leaf
            data_bytes
            expected
            renamed
            (tmp_entry mode)
            (filled mode))
  unfolding tmp_entry
  rename_done-IsAtomic create_only mode true c found =
      finish_if-IsAtomic create_only mode _ os.synced refl (lookup-renamed mode)
        (c, found, (tmp_entry mode, lookup-renamed mode, refl)) (lookup-renamed_other mode)
  rename_done-IsAtomic create_only mode false c found = inl (cleanup-IsUntouched mode)

  commit_replace-IsAtomic :
      (create_only : Bool) (mode : ℕ) (r : Result Error (Option FileRevision))
      → create_only ≡ false
      → revision_at os dir leaf ≡ r
      → IsAtomic os leaf data_bytes expected create_only dir
          (commit (quiet os) strings relative leaf data_bytes expected false r (filled mode))
  unfolding tmp_entry
  commit_replace-IsAtomic create_only mode (err e) c p = inl (cleanup-IsUntouched mode)
  commit_replace-IsAtomic create_only mode (ok latest) c p =
      elim (Bool-cases (mismatch expected latest)) [
        | inl m ↦ rw m (inl (cleanup-IsUntouched mode))
        | inr m ↦
            rw (m, lookup-tmp mode)
              (rename_done-IsAtomic create_only mode os.renamed (λ t. cc (c, t)) (latest, p, m))
      ]

  -- once the temporary file is written;
  commit_if-IsAtomic :
      (create_only : Bool) (mode : ℕ) (written : Bool)
      → (lookup leaf dir ≡ none) × (mismatch expected none ≡ false)
      → IsAtomic os leaf data_bytes expected create_only dir (
          commit_if (quiet os) strings relative leaf data_bytes expected written true (filled mode))
  commit_if-IsAtomic create_only mode false h = inl (cleanup-IsUntouched mode)
  commit_if-IsAtomic create_only mode true h = commit_new-IsAtomic create_only mode h.0 h.1

  replace_if-IsAtomic :
      (mode : ℕ) (written : Bool)
      → IsAtomic os leaf data_bytes expected false dir (
          commit_if
            (quiet os)
            strings
            relative
            leaf
            data_bytes
            expected
            written
            false
            (filled mode))
  replace_if-IsAtomic mode false = inl (cleanup-IsUntouched mode)
  replace_if-IsAtomic mode true =
      rw (lookup-filled mode)
        (commit_replace-IsAtomic false mode (revision_at os dir leaf) refl refl)

  create_tmp-IsAtomic :
      (mode : Result Error ℕ)
      → IsAtomic os leaf data_bytes expected false dir
          (create_tmp (quiet os) strings relative leaf data_bytes expected false mode dir)
  unfolding filled tmp_entry
  create_tmp-IsAtomic (err e) = inl (λ name c. refl)
  create_tmp-IsAtomic (ok mode) = rw fresh (replace_if-IsAtomic mode os.written)

  -- and before that, once the tests on the first revision are passed.
  check_new-IsAtomic :
      (create_only : Bool)
      → lookup leaf dir ≡ none
      → IsAtomic os leaf data_bytes expected create_only dir (
          check_current
            (quiet os)
            strings
            relative
            leaf
            data_bytes
            expected
            create_only
            (ok none)
            dir)
  unfolding filled tmp_entry
  check_new-IsAtomic true p = elim (Bool-cases (mismatch expected none)) [
    | inl m ↦ rw m (inl (λ name c. refl))
    | inr m ↦ rw (m, fresh) (commit_if-IsAtomic true os.default_mode os.written (p, m))
  ]
  check_new-IsAtomic false p = elim (Bool-cases (mismatch expected none)) [
    | inl m ↦ rw m (inl (λ name c. refl))
    | inr m ↦ rw (m, fresh) (commit_if-IsAtomic false os.default_mode os.written (p, m))
  ]

  check_existing-IsAtomic :
      (create_only : Bool) (current : FileRevision)
      → IsAtomic os leaf data_bytes expected create_only dir (
          check_current
            (quiet os)
            strings
            relative
            leaf
            data_bytes
            expected
            create_only
            (ok (some current))
            dir)
  check_existing-IsAtomic true current = inl (λ name c. refl)
  check_existing-IsAtomic false current = elim (Bool-cases (mismatch expected (some current))) [
    | inl m ↦ rw m (inl (λ name c. refl))
    | inr m ↦ rw m (create_tmp-IsAtomic (mode_of (quiet os) (lookup leaf dir)))
  ]

  check_kind-IsAtomic :
      (create_only : Bool) (kind : Kind) (entry : Entry)
      → IsAtomic os leaf data_bytes expected create_only dir (
          check_current
            (quiet os)
            strings
            relative
            leaf
            data_bytes
            expected
            create_only
            (revision_of_kind (quiet os) kind entry)
            dir)
  check_kind-IsAtomic create_only regular entry =
      check_existing-IsAtomic create_only (from_bytes os.hash entry.content entry.mtime_ns)
  check_kind-IsAtomic create_only symlink entry = inl (λ name c. refl)
  check_kind-IsAtomic create_only _ entry = inl (λ name c. refl)

  check_current-IsAtomic :
      (create_only : Bool) (found : Option Entry)
      → lookup leaf dir ≡ found
      → IsAtomic os leaf data_bytes expected create_only dir (
          check_current
            (quiet os)
            strings
            relative
            leaf
            data_bytes
            expected
            create_only
            (revision_of (quiet os) found)
            dir)
  check_current-IsAtomic create_only none p = check_new-IsAtomic create_only p
  check_current-IsAtomic create_only (some entry) p =
      check_kind-IsAtomic create_only entry.kind entry

  -- While no other process writes, with a fresh name for the temporary file that is not the
  -- target's: a write that returns has found no file if it was to create one, and the expected
  -- revision if one was given; the target then holds the data, the returned revision is the
  -- data's, and no other entry has changed. A write that raises leaves every entry as it was;
  -- or a system call has failed after the change, and then the same is true of what the write
  -- has found, and of the target, and no other entry has changed. The temporary entry alone
  -- may be left where it could not be removed.
  pub write_at-IsAtomic :
      (create_only : Bool)
      → IsAtomic os leaf data_bytes expected create_only dir
          (write_at (quiet os) strings relative leaf data_bytes expected create_only dir)
  unfolding write_at
  write_at-IsAtomic create_only = check_current-IsAtomic create_only (lookup leaf dir) refl
