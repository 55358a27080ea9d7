-- ===== src/Storage/Success.antt =====
-- When `_write_atomic` of src/obsidian_mcp/storage/filesystem.py succeeds.
use brain_mcp.Base.{
  ℕ, ◌≡◌, refl, Bool, true, false, ◌&&◌, Option, none, some, ◌==◌, ok, ok-injective,
}
use brain_mcp.Base.Text.{Text, text_eq}
use brain_mcp.Base.Dict.{lookup, insert}
use brain_mcp.Models.{FileRevision}
use brain_mcp.Policy.{Kind, regular, symlink}
use brain_mcp.Revisions.{Strings, from_bytes}
use brain_mcp.Storage.{
  Entry, Directory, Os, mismatch, exists, revision_of_kind, revision_of, revision_at, mode_of_kind,
  mode_of, finish_if, unlink_tmp, link_done, link_if, rename_done, commit_if, write_at,
}
use brain_mcp.Storage.Atomic.{
  quiet, tmp_entry, filled, lookup-filled, lookup-tmp, lookup-linked, lookup-renamed,
}

-- Every system call of the write succeeds.
pub record IsWorking (os : Os) : Type 0 where
  pub written : os.written ≡ true
  pub link_supported : os.link_supported ≡ true
  pub linked : os.linked ≡ true
  pub renamed : os.renamed ≡ true
  pub unlinked : os.unlinked ≡ true
  pub synced : os.synced ≡ true

revision_of-none : (os : Os) (found : Option Entry) → revision_of os found ≡ ok none → found ≡ none
revision_of-none os none h = refl
revision_of-none os (some entry) h = by_kind entry.kind h
  where
    by_kind : (kind : Kind) → revision_of_kind os kind entry ≡ ok none → some entry ≡ none
    by_kind regular h = cc (ok-injective _ none h)
    by_kind symlink h = cc
    by_kind _ h = cc

mode_of-some :
    (os : Os) (found : Option Entry) (current : FileRevision)
    → revision_of os found ≡ ok (some current)
    → (mode : ℕ) × (mode_of os found ≡ ok mode)
mode_of-some os none current h = cc (ok-injective none (some current) h)
mode_of-some os (some entry) current h = by_kind entry.kind h
  where
    by_kind :
        (kind : Kind)
        → revision_of_kind os kind entry ≡ ok (some current)
        → (mode : ℕ) × (mode_of_kind os kind entry ≡ ok mode)
    by_kind regular h = (entry.mode, refl)
    by_kind symlink h = cc
    by_kind _ h = cc

module _ (os : Os) (strings : Strings) (relative leaf data_bytes : Text) (expected : Option Text)
    (dir : Directory) (fresh : lookup os.tmp_name dir ≡ none)
    (apart : (os.tmp_name == leaf) ≡ false) where
  abbrev entry_of_mode : ℕ → Entry
  entry_of_mode mode = tmp_entry os strings relative leaf data_bytes expected dir fresh apart mode

  abbrev directory_of_mode : ℕ → Directory
  directory_of_mode mode = filled os strings relative leaf data_bytes expected dir fresh apart mode

  finish_if-ok :
      (mode : ℕ) (after : Directory) (synced : Bool)
      → synced ≡ true
      → lookup leaf after ≡ some (entry_of_mode mode)
      → (finish_if (quiet os) strings relative leaf data_bytes expected synced after).0
        ≡ ok (from_bytes os.hash data_bytes os.now)
  unfolding tmp_entry
  finish_if-ok mode after true w h = rw h refl
  finish_if-ok mode after false w h = cc

  unlink_tmp-ok :
      (mode : ℕ) (unlinked : Bool)
      → unlinked ≡ true
      → os.synced ≡ true
      → (unlink_tmp
          (quiet os)
          strings
          relative
          leaf
          data_bytes
          expected
          unlinked
          (insert leaf (entry_of_mode mode) (directory_of_mode mode))).0
        ≡ ok (from_bytes os.hash data_bytes os.now)
  unlink_tmp-ok mode true w y =
      finish_if-ok mode _ os.synced y
        (lookup-linked os strings relative leaf data_bytes expected dir fresh apart mode)
  unlink_tmp-ok mode false w y = cc

  link_done-ok :
      (mode : ℕ) (linked : Bool)
      → linked ≡ true
      → IsWorking os
      → (link_done
          (quiet os)
          strings
          relative
          leaf
          data_bytes
          expected
          linked
          (entry_of_mode mode)
          (directory_of_mode mode)).0
        ≡ ok (from_bytes os.hash data_bytes os.now)
  link_done-ok mode true l w = unlink_tmp-ok mode os.unlinked w.unlinked w.synced
  link_done-ok mode false l w = cc

  rename_done-ok :
      (mode : ℕ) (renamed : Bool)
      → renamed ≡ true
      → os.synced ≡ true
      → (rename_done
          (quiet os)
          strings
          relative
          leaf
          data_bytes
          expected
          renamed
          (entry_of_mode mode)
          (directory_of_mode mode)).0
        ≡ ok (from_bytes os.hash data_bytes os.now)
  rename_done-ok mode true r y =
      finish_if-ok mode _ os.synced y
        (lookup-renamed os strings relative leaf data_bytes expected dir fresh apart mode)
  rename_done-ok mode false r y = cc

  link_if-ok :
      (mode : ℕ) (supported : Bool)
      → supported ≡ true
      → IsWorking os
      → (link_if
          (quiet os)
          strings
          relative
          leaf
          data_bytes
          expected
          supported
          (some (entry_of_mode mode))
          (directory_of_mode mode)).0
        ≡ ok (from_bytes os.hash data_bytes os.now)
  link_if-ok mode false s w = cc
  link_if-ok mode true s w = link_done-ok mode os.linked w.linked w

  commit_if-ok :
      (mode : ℕ) (written : Bool)
      → written ≡ true
      → IsWorking os
      → lookup leaf dir ≡ none
      → (commit_if
          (quiet os)
          strings
          relative
          leaf
          data_bytes
          expected
          written
          true
          (directory_of_mode mode)).0
        ≡ ok (from_bytes os.hash data_bytes os.now)
  commit_if-ok mode false w s absent = cc
  commit_if-ok mode true w s absent =
      let found = lookup-filled os strings relative leaf data_bytes expected dir fresh apart mode in
      rw
        (
          found,
          absent,
          found,
          absent,
          lookup-tmp os strings relative leaf data_bytes expected dir fresh apart mode,
        )
        (link_if-ok mode os.link_supported s.link_supported s)

  replace_if-ok :
      (mode : ℕ) (current : FileRevision) (written : Bool)
      → written ≡ true
      → IsWorking os
      → revision_of os (lookup leaf dir) ≡ ok (some current)
      → mismatch expected (some current) ≡ false
      → (commit_if
          (quiet os)
          strings
          relative
          leaf
          data_bytes
          expected
          written
          false
          (directory_of_mode mode)).0
        ≡ ok (from_bytes os.hash data_bytes os.now)
  unfolding tmp_entry
  replace_if-ok mode current false w s p m = cc
  replace_if-ok mode current true w s p m =
      rw
        (
          lookup-filled os strings relative leaf data_bytes expected dir fresh apart mode,
          p,
          m,
          lookup-tmp os strings relative leaf data_bytes expected dir fresh apart mode,
        )
        (rename_done-ok mode os.renamed s.renamed s.synced)

  -- While no other process writes, with a fresh name for the temporary file that is not the
  -- target's: if the system calls succeed and hard links are supported, if the target is
  -- absent or a regular file, is absent where it is to be created and has the expected revision
  -- where one is given, then the write returns the revision of the data.
  pub write_at-ok :
      (create_only : Bool) (current : Option FileRevision)
      → IsWorking os
      → revision_at os dir leaf ≡ ok current
      → (create_only && exists current) ≡ false
      → mismatch expected current ≡ false
      → (write_at (quiet os) strings relative leaf data_bytes expected create_only dir).0
        ≡ ok (from_bytes os.hash data_bytes os.now)
  unfolding write_at filled tmp_entry
  write_at-ok true none w p c m =
      let absent = revision_of-none os (lookup leaf dir) p in
      rw (absent, m, fresh) (commit_if-ok os.default_mode os.written w.written w absent)
  write_at-ok false none w p c m =
      let absent = revision_of-none os (lookup leaf dir) p in
      rw (absent, m, fresh) (commit_if-ok os.default_mode os.written w.written w absent)
  write_at-ok true (some current) w p c m = cc
  write_at-ok false (some current) w p c m =
      let (mode, q) = mode_of-some os (lookup leaf dir) current p in
      rw (p, m, q, fresh) (replace_if-ok mode current os.written w.written w p m)
