-- ===== src/Paths.antt =====
-- Vault-relative paths: `_normalise_relative` of src/obsidian_mcp/storage/policy.py, with
-- the parts of `posixpath.normpath` and `PureWindowsPath` that it runs.
pub mod Walk
pub mod Normalise
pub mod Canonical
use brain_mcp.Base.{
  ℕ, zero, suc, Bool, true, false, not, ◌&&◌, ◌||◌, List, [], ◌∷◌, ◌++◌, reverse, contains, ◌==◌,
  nat_eq, Result, ok, err, raise_if, ◌>>=◌, ◌>>◌, if◌then◌else◌,
}
use brain_mcp.Base.Text.{Text, text, text_eq, slash, dot, starts_with, replace_char, split, join}
use brain_mcp.Errors.{Error, vault_path}

abbrev pub backslash : ℕ
backslash = 92

abbrev pub dot_name : Text
dot_name = dot ∷ []

abbrev pub dot_dot : Text
dot_dot = dot ∷ dot ∷ []

-- `PureWindowsPath(value).drive`, for a value that has no backslash and no leading slash.
unfoldable pub has_drive : Text → Bool
has_drive (c ∷ d ∷ s) = d == b':'
has_drive _ = false

abbrev pub pop : List Text → List Text
pop [] = []
pop (c ∷ stack) = stack

abbrev pub is_nil {ℓ} : {A : Type ℓ} → List A → Bool
is_nil [] = true
is_nil (x ∷ xs) = false

abbrev top_is_dot_dot : List Text → Bool
top_is_dot_dot [] = false
top_is_dot_dot (c ∷ stack) = c == dot_dot

-- One round of `normpath`'s loop. `new_comps` is kept with its last component first.
unfoldable pub norm_step : Bool → List Text → Text → List Text
norm_step initial stack comp =
    if comp == [] || comp == dot_name
    then stack
    else if not (comp == dot_dot) || (not initial && is_nil stack) || top_is_dot_dot stack
    then comp ∷ stack
    else pop stack

unfoldable pub norm_comps : Bool → List Text → List Text → List Text
unfolding norm_step
norm_comps initial stack [] = stack
norm_comps initial stack (comp ∷ comps) = norm_comps initial (norm_step initial stack comp) comps

-- The leading slashes that `normpath` keeps: exactly two stay two, more become one.
unfoldable pub leading_slashes : Text → Text
unfolding starts_with
leading_slashes path =
    if starts_with path (slash ∷ slash ∷ []) && not (starts_with path (slash ∷ slash ∷ slash ∷ []))
    then slash ∷ slash ∷ []
    else if starts_with path (slash ∷ [])
    then slash ∷ []
    else []

-- `posixpath.normpath`
unfoldable pub normpath : Text → Text
unfolding norm_comps leading_slashes split join
normpath path =
    let initial = leading_slashes path in
    let comps = norm_comps (not (is_nil initial)) [] (split slash path) in
    let full = initial ++ join slash (reverse comps) in
    if path == [] then dot_name else if full == [] then dot_name else full

-- The end of `_normalise_relative`, from the path that `normpath` gave.
unfoldable pub confined : Bool → Text → Result Error Text
unfolding starts_with
confined allow_empty path = do
  let normalised = if path == dot_name then [] else path
  raise_if (not allow_empty && normalised == []) vault_path
  raise_if (normalised == dot_dot || starts_with normalised (dot ∷ dot ∷ slash ∷ [])) vault_path
  ok normalised

-- The paths that are refused before they are normalised. `value` has no backslash any more.
unfoldable pub is_rooted : Text → Bool
unfolding has_drive starts_with
is_rooted value = starts_with value (slash ∷ []) || has_drive value

-- A text that is no `str` cannot be passed, so the first test of the source has no counterpart.
unfoldable pub normalise_relative : Text → Bool → Result Error Text
unfolding is_rooted normpath confined replace_char
normalise_relative raw allow_empty = do
  raise_if (contains raw 0) vault_path
  let value = replace_char backslash slash raw
  raise_if (is_rooted value) vault_path
  confined allow_empty (normpath value)
