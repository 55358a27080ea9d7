-- ===== src/Tools/Store.antt =====
-- What the tools of src/obsidian_mcp/tools/write.py ask of the storage gateway and of the
-- locks, as an interface with its laws. `S` is the state of the vault. The operations are
-- the methods of `VaultStorage` with the same names, and `acquire_lock`, which a timeout
-- may refuse; the tools release a lock whatever happens.
use brain_mcp.Base.{◌≡◌, ◌⊎◌, Bool, true, false, Option, none, some, ◌==◌, Result, ok, err}
use brain_mcp.Base.Text.{Text, text_eq}
use brain_mcp.Errors.{Error}
use brain_mcp.Models.{FileRevision}
use brain_mcp.Revisions.{Strings, token, normalize_optional}

pub record Store (S : Type 0) : Type 0 where
  pub resolve_write : Text → Result Error Text
  pub can_read : Text → Result Error Bool
  pub exists : Text → S → Result Error Bool
  pub read_text_with_revision : Text → S → Result Error (Text × FileRevision)
  pub revision : Text → S → Result Error FileRevision
  pub write_text_atomic : Text → Text → Option Text → Bool → S → Result Error FileRevision × S
  pub acquire_lock : Text → S → Result Error (Unit {0})

-- Its operations that remove files.
pub record Remover (S : Type 0) : Type 0 where
  pub resolve_delete : Text → Bool → Result Error Text
  pub trash : Text → S → Result Error (Unit {0}) × S
  pub delete : Text → S → Result Error (Unit {0}) × S

-- What an operation does once the checks before it have passed.
abbrev pub attempt {ℓ κ μ} :
    {S : Type ℓ} {A : Type κ} {B : Type μ}
    → Result Error A
    → S
    → (A → Result Error B × S)
    → Result Error B × S
attempt (err e) s next = (err e, s)
attempt (ok a) s next = next a

-- The same where the first operation changes the state too.
abbrev pub followed {ℓ κ μ} :
    {S : Type ℓ} {A : Type κ} {B : Type μ}
    → Result Error A × S
    → (A → S → Result Error B × S)
    → Result Error B × S
followed (err e, s) next = (err e, s)
followed (ok a, s) next = next a s

module _ {S : Type 0} (strings : Strings) (content : Text → S → Option Text)
    (current : Text → S → Option FileRevision) where
  abbrev pub Unchanged : S → S → Type 0
  Unchanged s after = (path : Text) → content path after ≡ content path s

  abbrev pub UnchangedBut : Text → S → S → Type 0
  UnchangedBut path s after =
      (other : Text) → (path == other) ≡ false → content other after ≡ content other s

  -- The token that was asked for is that of the file.
  abbrev pub IsExpected : Option Text → Text → S → Type 0
  IsExpected none path s = Unit
  IsExpected (some value) path s =
      (found : FileRevision) × (current path s ≡ some found)
      × (normalize_optional strings (some value) ≡ ok (some (token found)))

  -- What an atomic write has found and done, on the preconditions that it was given.
  abbrev pub IsStored : Text → Text → Option Text → Bool → S → S → Type 0
  IsStored path written expected create_only s after =
      (create_only ≡ true → content path s ≡ none)
      × IsExpected expected path s
      × (content path after ≡ some written)
      × UnchangedBut path s after

  -- All or nothing: a write that raises may have failed after the change.
  abbrev pub IsWritten :
      Text → Text → Option Text → Bool → S → Result Error FileRevision × S → Type 0
  IsWritten path written expected create_only s (ok revision, after) =
      IsStored path written expected create_only s after
  IsWritten path written expected create_only s (err e, after) =
      Unchanged s after ⊎ IsStored path written expected create_only s after

  -- The laws are about paths that `resolve_write` has returned.
  pub record IsStore (store : Store S) (IsReady : S → Type 0) : Type 0 where
    pub reads :
        (raw path : Text) (s : S) (found : Text × FileRevision)
        → store.resolve_write raw ≡ ok path
        → store.read_text_with_revision path s ≡ ok found
        → (content path s ≡ some found.0) × (current path s ≡ some found.1)
    pub absent :
        (raw path : Text) (s : S)
        → store.resolve_write raw ≡ ok path
        → store.exists path s ≡ ok false
        → content path s ≡ none
    pub writes :
        (raw path written : Text) (expected : Option Text) (create_only : Bool) (s : S)
        → IsReady s
        → store.resolve_write raw ≡ ok path
        → IsWritten path written expected create_only s
            (store.write_text_atomic path written expected create_only s)
    pub stays :
        (raw path written : Text) (expected : Option Text) (create_only : Bool) (s after : S)
        (revision : FileRevision)
        → IsReady s
        → store.resolve_write raw ≡ ok path
        → store.write_text_atomic path written expected create_only s ≡ (ok revision, after)
        → IsReady after
