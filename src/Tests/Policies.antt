-- ===== src/Tests/Policies.antt =====
-- Paths, rules and policies: an identity of one vault, limited to `notes/`.
use brain_mcp.Base.{
  ℕ, ◌≡◌, refl, ◌≢◌, ◌↔◌, Bool, true, false, ◌||◌, none, some, [], ◌∷◌, contains, ◌==◌, nat_eq, ok,
  err, if◌then◌else◌,
}
use brain_mcp.Base.Text.{
  Text, text, text_eq, Text-discrete, slash, starts_with, ends_with, rstrip, replace_char, split,
  join,
}
use brain_mcp.Errors.{vault_path}
use native.Mathlib.Decide.{ℕ_discrete}
use brain_mcp.Paths.{
  norm_comps, norm_step, leading_slashes, normalise_relative, has_drive, is_rooted, normpath,
  confined,
}
use brain_mcp.Paths.Normalise.{normalise_relative-walk, located}
use brain_mcp.Paths.Canonical.{
  IsCanonical, normalise_relative-IsCanonical, normalise_relative-normalise_relative,
}
use brain_mcp.Paths.Walk.{walk}
use brain_mcp.Rules.{
  matches_path_rule, rule_covers_rule, merge_allowlist, merge_denylist, merge_readonly,
  check_covered, add_rules, is_recursive, casefold,
}
use brain_mcp.Rules.Covers.{rule_covers_rule_iff}
use brain_mcp.Rules.Merge.{allowed}
use brain_mcp.Identity.{PolicyOverride, override_eq, Identity, api_key, override_for, find_override}
use brain_mcp.Policy.{
  EffectiveAccessPolicy, World, VaultAccessPolicy, VaultPath, IdentityArgument, given, merged_with,
  lookup_merged, is_relative_to, longest, longest_from,
}
use brain_mcp.Policy.Access.{
  effective, policy_override, may_read, resolve_read, resolve_write, resolve_delete, canonicalize,
  any_symlink, check_write, denied,
}
use brain_mcp.Policy.Scope.{may_write}
use brain_mcp.Policy.Resolve.{
  IsCoherent, IsTransparent, effective-IsTransparent, resolve_read-narrows, resolve_write-narrows,
}
use brain_mcp.Policy.Confined.{
  IsConfined, resolve_read-IsConfined, resolve_write-IsConfined, resolve_delete-IsConfined,
}

abbrev pub letters : ℕ → Text
letters c = c ∷ []

abbrev pub world : World
world = record {
  case_folding = letters;
  is_dir = λ _. true;
  is_symlink = λ _. false;
  resolve = some;
}

abbrev pub base : EffectiveAccessPolicy
base = record {
  read_only = false;
  read_paths = [];
  write_paths = [];
  deny_read_paths = text ".trash/" ∷ [];
  deny_write_paths = text ".trash/" ∷ [];
}

abbrev pub policy : VaultAccessPolicy
policy = record {
  root = text "vault" ∷ [];
  allow_permanent_delete = true;
  vault_name = some (text "main");
  apply_identity_overrides = true;
  base = base;
  merged = [];
}

abbrev pub override : PolicyOverride
override = record {
  write_paths = some (text "notes/" ∷ []);
  read_paths = some (text "notes/" ∷ []);
  deny_read_paths = none;
  deny_write_paths = none;
  read_only = none;
}

abbrev pub narrowed : EffectiveAccessPolicy
narrowed = record base { read_paths = text "notes/" ∷ []; write_paths = text "notes/" ∷ [] }

abbrev pub identity : Identity
identity = record {
  kind = api_key;
  value = text "key";
  vaults = text "main" ∷ [];
  default = some (text "main");
  overrides = (text "main", override) ∷ [];
}

abbrev argument : IdentityArgument
argument = given (some identity)

coherent : IsCoherent world policy
unfolding lookup_merged
coherent = record { cached = λ o e h. cc }

abbrev raw : Text
raw = text "notes/./x/../a.md"

abbrev pub a_md : Text
a_md = text "notes/a.md"

abbrev found : VaultPath
found = record {
  relative = a_md;
  absolute = text "vault" ∷ text "notes" ∷ text "a.md" ∷ [];
  stat_result = none;
}

reads : resolve_read world none policy raw false argument ≡ ok found
unfolding resolve_read canonicalize normalise_relative ◌==◌ nat_eq text_eq any_symlink
    is_relative_to effective policy_override override_for lookup_merged merged_with merge_allowlist
    may_read matches_path_rule rstrip ends_with Text-discrete replace_char split join starts_with
    find_override override_eq confined denied longest longest_from casefold merge_denylist
    merge_readonly ℕ_discrete check_covered rule_covers_rule normpath norm_comps norm_step
    leading_slashes is_rooted has_drive add_rules
reads = refl

writes : (allow_empty : Bool) → resolve_write world none policy raw allow_empty argument ≡ ok found
unfolding resolve_write check_write canonicalize normalise_relative ◌==◌ nat_eq text_eq any_symlink
    is_relative_to effective policy_override override_for lookup_merged merged_with merge_allowlist
    matches_path_rule rstrip ends_with Text-discrete replace_char split join starts_with
    find_override override_eq confined denied longest longest_from casefold merge_denylist
    merge_readonly ℕ_discrete check_covered rule_covers_rule normpath norm_comps norm_step
    leading_slashes is_rooted has_drive add_rules
writes false = refl
writes true = refl

deletes : resolve_delete world none policy raw true argument ≡ ok found
unfolding resolve_delete ◌==◌ nat_eq text_eq Text-discrete ℕ_discrete
deletes = rw (writes true) refl

normalised : normalise_relative raw false ≡ ok a_md
unfolding normalise_relative ◌==◌ nat_eq text_eq rstrip ends_with Text-discrete replace_char split
    join starts_with confined ℕ_discrete normpath norm_comps norm_step leading_slashes is_rooted
    has_drive
normalised = refl

merges : merged_with letters base (some override) ≡ ok narrowed
unfolding merged_with merge_allowlist merge_denylist merge_readonly
merges = refl

permits : may_read world narrowed a_md false ≡ true
unfolding may_read denied longest matches_path_rule casefold rstrip starts_with ends_with ◌==◌
    nat_eq text_eq Text-discrete ℕ_discrete
permits = refl

permits_write : may_write world narrowed a_md ≡ true
unfolding may_write denied longest matches_path_rule casefold rstrip starts_with ends_with ◌==◌
    nat_eq text_eq Text-discrete ℕ_discrete
permits_write = refl

resolve_read-IsConfined_example :
    IsConfined world policy found × (may_read world base a_md false ≡ true)
resolve_read-IsConfined_example =
    resolve_read-IsConfined world policy none coherent raw argument found false reads

resolve_write-IsConfined_example :
    IsConfined world policy found × (may_write world base a_md ≡ true)
resolve_write-IsConfined_example =
    resolve_write-IsConfined world policy none coherent raw argument found false (writes false)

resolve_delete-IsConfined_example :
    IsConfined world policy found
    × (may_write world base a_md ≡ true)
    × (a_md ≢ [])
    × (true ≡ true → policy.allow_permanent_delete ≡ true)
resolve_delete-IsConfined_example =
    resolve_delete-IsConfined world policy none coherent raw argument found true deletes

resolve_read-narrows_example : resolve_read world none policy raw false (given none) ≡ ok found
resolve_read-narrows_example =
    resolve_read-narrows world none policy coherent raw false argument found reads

resolve_write-narrows_example : resolve_write world none policy raw false (given none) ≡ ok found
resolve_write-narrows_example =
    resolve_write-narrows world none policy coherent raw false argument found (writes false)

effective-IsTransparent_example :
    IsTransparent world policy
      (policy_override none policy argument)
      (effective world none policy argument)
effective-IsTransparent_example = effective-IsTransparent world none policy argument coherent

normalise_relative-walk_example : normalise_relative raw false ≡ (
    if contains raw 0 || is_rooted (replace_char 92 slash raw)
    then err vault_path
    else located false (walk [] (split slash (replace_char 92 slash raw))))
normalise_relative-walk_example = normalise_relative-walk raw false

normalise_relative-IsCanonical_example : IsCanonical a_md × (false ≡ false → a_md ≢ [])
normalise_relative-IsCanonical_example = normalise_relative-IsCanonical raw false a_md normalised

normalise_relative-normalise_relative_example :
    normalise_relative a_md false ≡ (if has_drive a_md then err vault_path else ok a_md)
normalise_relative-normalise_relative_example =
    normalise_relative-normalise_relative raw false a_md normalised

rule_covers_rule_iff_example :
    (rule_covers_rule letters (text "notes/") (text "notes/a/") ≡ true) ↔ (
      (path : Text)
      → matches_path_rule letters path (text "notes/a/") false ≡ true
      → matches_path_rule letters path (text "notes/") false ≡ true)
rule_covers_rule_iff_example = rule_covers_rule_iff letters (text "notes/") (text "notes/a/")

-- May `notes/a/b.md` be written by the rules?
abbrev in_notes : Text → Bool
in_notes rule = matches_path_rule letters (text "notes/a/b.md") rule false

merges_allowlist :
    merge_allowlist letters (text "notes/" ∷ []) (some (text "notes/a/" ∷ []))
    ≡ ok (text "notes/a/" ∷ [])
unfolding merge_allowlist check_covered rule_covers_rule matches_path_rule rstrip starts_with
    ends_with ◌==◌ nat_eq text_eq Text-discrete ℕ_discrete
merges_allowlist = refl

permits_notes : allowed in_notes (text "notes/a/" ∷ []) ≡ true
unfolding matches_path_rule rstrip starts_with ends_with ◌==◌ nat_eq text_eq Text-discrete
    ℕ_discrete
permits_notes = refl

recursive : is_recursive (text "notes/") ≡ true
unfolding ends_with ◌==◌ nat_eq text_eq Text-discrete ℕ_discrete
recursive = refl

notes_match : matches_path_rule letters (text "notes") (text "notes/") true ≡ true
unfolding matches_path_rule casefold rstrip starts_with ends_with ◌==◌ nat_eq text_eq Text-discrete
    ℕ_discrete
notes_match = refl
