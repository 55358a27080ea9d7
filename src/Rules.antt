-- ===== src/Rules.antt =====
-- Path rules and their merging: the functions above `EffectiveAccessPolicy` in
-- src/obsidian_mcp/storage/policy.py, and `path_rules_from_env` at its end.
-- `case_folding` is Unicode's table behind `str.casefold`, which is data of the Python runtime.
pub mod Covers
pub mod Merge
use brain_mcp.Base.{
  ℕ, Bool, true, false, not, ◌&&◌, ◌||◌, Option, none, some, List, [], ◌∷◌, ◌++◌, any, map, keep,
  contains, ◌==◌, nat_eq, Result, ok, err, raise_if, ◌>>=◌, ◌>>◌, if◌then◌else◌,
}
use brain_mcp.Base.Text.{Text, text_eq, slash, starts_with, ends_with, rstrip, strip, split}
use brain_mcp.Errors.{Error, policy_merge}
use brain_mcp.Paths.{backslash, normalise_relative}

abbrev is_slash : ℕ → Bool
is_slash c = c == slash

abbrev is_separator : ℕ → Bool
is_separator c = c == slash || c == backslash

abbrev pub rule_path : Text → Text
rule_path rule = rstrip is_slash rule

abbrev pub is_recursive : Text → Bool
is_recursive rule = ends_with rule (slash ∷ [])

unfoldable pub casefold : (ℕ → Text) → Text → Text
casefold case_folding [] = []
casefold case_folding (c ∷ s) = case_folding c ++ casefold case_folding s

module _ (case_folding : ℕ → Text) where
  unfoldable pub matches_path_rule : Text → Text → Bool → Bool
  matches_path_rule path rule fold =
      let candidate = if fold then casefold case_folding path else path in
      let scope = if fold then casefold case_folding (rule_path rule) else rule_path rule in
      candidate == scope || (is_recursive rule && starts_with candidate (scope ++ (slash ∷ [])))

  unfoldable pub rule_covers_rule : Text → Text → Bool
  rule_covers_rule allow_rule candidate =
      let path = rule_path candidate in
      if is_recursive candidate && not (is_recursive allow_rule)
      then false
      else matches_path_rule path allow_rule false

  -- The loop that raises at the first rule that nothing covers.
  unfoldable pub check_covered : List Text → List Text → Result Error (Unit {0})
  check_covered vault_rules [] = ok tt
  check_covered vault_rules (rule ∷ rules) = do
    raise_if (not (any (λ allowed. rule_covers_rule allowed rule) vault_rules)) policy_merge
    check_covered vault_rules rules

  unfoldable pub merge_allowlist : List Text → Option (List Text) → Result Error (List Text)
  unfolding check_covered
  merge_allowlist vault_rules none = ok vault_rules
  merge_allowlist vault_rules (some []) = ok vault_rules
  merge_allowlist [] (some (rule ∷ rules)) = ok (rule ∷ rules)
  merge_allowlist (allowed ∷ vault_rules) (some (rule ∷ rules)) = do
    check_covered (allowed ∷ vault_rules) (rule ∷ rules)
    ok (rule ∷ rules)

unfoldable pub add_rules : List Text → List Text → List Text
add_rules result [] = result
add_rules result (rule ∷ rules) =
    add_rules (if contains result rule then result else result ++ (rule ∷ [])) rules

unfoldable pub merge_denylist : List Text → Option (List Text) → List Text
unfolding add_rules
merge_denylist vault_rules none = vault_rules
merge_denylist vault_rules (some rules) = add_rules vault_rules rules

unfoldable pub merge_readonly : Bool → Option Bool → Bool
merge_readonly vault_value none = vault_value
merge_readonly vault_value (some override_value) = vault_value || override_value

unfoldable pub normalise_rules_onto : List Text → List Text → Result Error (List Text)
normalise_rules_onto result [] = ok result
normalise_rules_onto result (raw ∷ values) = do
  path ← normalise_relative (rstrip is_separator raw) false
  let item =
      if ends_with raw (slash ∷ []) || ends_with raw (backslash ∷ [])
      then path ++ (slash ∷ [])
      else path
  normalise_rules_onto (if contains result item then result else result ++ (item ∷ [])) values

unfoldable pub normalise_path_rules : List Text → Result Error (List Text)
unfolding normalise_rules_onto
normalise_path_rules values = normalise_rules_onto [] values

-- `str.strip` removes whitespace, `is_space` being Unicode's class of it.
unfoldable pub path_rules_from_env : (ℕ → Bool) → Text → Result Error (List Text)
path_rules_from_env is_space raw =
    normalise_path_rules
      (map (strip is_space) (keep (λ part. not (strip is_space part == [])) (split b',' raw)))
