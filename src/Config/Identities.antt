-- ===== src/Config/Identities.antt =====
-- The identities that `load_vaults_file` of src/obsidian_mcp/config.py accepts: what a request of
-- theirs can rely on.
use mathlib.Core.Option.{some-injective}
use brain_mcp.Base.{
  ◌≡◌, refl, ap, sym, subst, ◌∙◌, inl, inr, Bool, true, false, Option, none, some, List, [], ◌∷◌,
  any, All, contains, ◌==◌, ==_iff, arith, Bool-cases, Result, ok, err, raise_if, ◌>>=◌,
  ok-injective, >>=-eq-ok,
}
use brain_mcp.Base.Text.{Text, text, text_eq}
use brain_mcp.Base.Dict.{Dict, lookup}
use brain_mcp.Errors.{Error, config_error, policy_merge}
use brain_mcp.Paths.{is_nil}
use brain_mcp.Json.{Json, string, object, fields}
use brain_mcp.Identity.{PolicyOverride, Identity, is_none, override_for, find_override}
use brain_mcp.Policy.{EffectiveAccessPolicy, merged_with}
use brain_mcp.Config.{
  Loader, VaultEntry, get, str, entry_policy, merge_as_config_error, validate_entry,
  validate_overrides, identity_type, identity_vaults, default_vault, identity_of, load_identity,
  load_identities, load_vaults_file,
}
use brain_mcp.Config.Vaults.{raise_if-ok, load_vaults_file-inv}

-- The identity names known vaults only, its default is one of its vaults, and each of its
-- overrides narrows a known vault's policy without an error.
pub record IsValid (loader : Loader) (global_read_only : Bool) (vaults : Dict Text VaultEntry)
    (identity : Identity) : Type 0 where
  pub known :
      (name : Text) → contains identity.vaults name ≡ true → is_none (lookup name vaults) ≡ false
  pub own_default :
      (name : Text) → identity.default ≡ some name → contains identity.vaults name ≡ true
  pub narrowing :
      (name : Text) (override : PolicyOverride)
      → override_for identity name ≡ some override
      → (vault : VaultEntry) × (policy : EffectiveAccessPolicy) × (lookup name vaults ≡ some vault)
        × (merged_with loader.case_folding (entry_policy global_read_only vault) (some override)
            ≡ ok policy)

module _ (loader : Loader) (ro : Bool) (vaults : Dict Text VaultEntry) where
  merge_ok :
      (r : Result Error EffectiveAccessPolicy)
      → (merge_as_config_error r >>= λ _. ok tt) ≡ ok (tt {0})
      → (e : EffectiveAccessPolicy) × (r ≡ ok e)
  merge_ok (ok e) h = (e, refl)
  merge_ok (err policy_merge) h = cc
  merge_ok (err _) h = cc

  validate_entry-ok :
      (found : Option VaultEntry) (override : PolicyOverride)
      → validate_entry loader ro vaults found override ≡ ok tt
      → (vault : VaultEntry) × (policy : EffectiveAccessPolicy) × (found ≡ some vault)
        × (merged_with loader.case_folding (entry_policy ro vault) (some override) ≡ ok policy)
  validate_entry-ok none override h = cc
  validate_entry-ok (some vault) override h =
      let (e, p) =
        merge_ok (merged_with loader.case_folding (entry_policy ro vault) (some override)) h in
      (vault, e, refl, p)

  validate_overrides-ok :
      (overrides : List (Text × PolicyOverride)) (name : Text) (override : PolicyOverride)
      → validate_overrides loader ro vaults overrides ≡ ok tt
      → find_override overrides name ≡ some override
      → (vault : VaultEntry) × (policy : EffectiveAccessPolicy) × (lookup name vaults ≡ some vault)
        × (merged_with loader.case_folding (entry_policy ro vault) (some override) ≡ ok policy)
  unfolding validate_overrides find_override
  validate_overrides-ok [] name override h k = cc
  validate_overrides-ok ((first, o) ∷ overrides) name override h k =
      let (tt', p, rest) =
        >>=-eq-ok (validate_entry loader ro vaults (lookup first vaults) o) _ h in
      elim (Bool-cases (first == name)) [
        | inl e ↦
            let same : o ≡ override = some-injective o override (rw e at k) in
            validate_entry-ok (lookup name vaults) override (
              ap (λ n. validate_entry loader ro vaults (lookup n vaults) override)
                (sym ((==_iff first name).0 e))
              ∙ (ap (λ x. validate_entry loader ro vaults (lookup first vaults) x) (sym same) ∙ p))
        | inr e ↦ validate_overrides-ok overrides name override rest (rw e at k)
      ]

  default_vault-own :
      (raw : Option Json) (names : List Text) (default : Option Text) (name : Text)
      → default_vault loader ro vaults raw names ≡ ok default
      → default ≡ some name
      → contains names name ≡ true
  default_vault-own none [] default name h k = cc
  default_vault-own none (a ∷ []) default name h k =
      ground (arith, ==_iff name a, some-injective a name (ok-injective (some a) default h ∙ k))
  default_vault-own none (a ∷ b ∷ names) default name h k = cc
  default_vault-own (some (string s)) names default name h k =
      elim (Bool-cases (contains names s)) [
        | inl e ↦
            subst (λ n. contains names n ≡ true)
              (some-injective s name (ok-injective (some s) default (rw e at h) ∙ k)) e
        | inr e ↦ cc (rw e at h)
      ]
  default_vault-own (some _) names default name h k = cc

  any_unknown :
      (names : List Text) (name : Text)
      → any (λ n. is_none (lookup n vaults)) names ≡ false
      → contains names name ≡ true
      → is_none (lookup name vaults) ≡ false
  any_unknown [] name h k = cc
  any_unknown (n ∷ names) name h k = ground (
    arith,
    ==_iff name n,
    ap (λ m. is_none (lookup m vaults)) {x = name} {y = n},
    any_unknown names name,
  )

  identity_of-IsValid :
      (raw : Dict Text Json) (identity : Identity)
      → identity_of loader ro vaults raw ≡ ok identity
      → IsValid loader ro vaults identity
  unfolding override_for
  identity_of-IsValid raw identity h =
      let (kind, p, h₁) =
        >>=-eq-ok (identity_type loader ro vaults (lookup (text "type") raw)) _ h in
      let (u₁, p₁, h₂) =
        >>=-eq-ok (raise_if (is_nil (str loader (lookup (text "value") raw))) config_error) _ h₁ in
      let (found, p₂, h₃) =
        >>=-eq-ok (identity_vaults loader ro vaults (lookup (text "vaults") raw)) _ h₂ in
      let (u₂, p₃, h₄) = >>=-eq-ok (raise_if (is_nil (found.0)) config_error) _ h₃ in
      let (unknown, h₅) = raise_if-ok (any (λ n. is_none (lookup n vaults)) (found.0)) _ h₄ in
      let (default, p₄, h₆) =
        >>=-eq-ok (default_vault loader ro vaults (get (text "default") raw) (found.0)) _ h₅ in
      let (u₃, p₅, h₇) = >>=-eq-ok (validate_overrides loader ro vaults (found.1)) _ h₆ in
      subst (IsValid loader ro vaults) (ok-injective _ identity h₇) (record {
        known = λ name c. any_unknown (found.0) name unknown c;
        own_default =
            λ name e. default_vault-own (get (text "default") raw) (found.0) default name p₄ e;
        narrowing = λ name override e. validate_overrides-ok (found.1) name override p₅ e;
      })

  load_identity-IsValid :
      (raw : Json) (identity : Identity)
      → load_identity loader ro vaults raw ≡ ok identity
      → IsValid loader ro vaults identity
  load_identity-IsValid (object fs) identity h = identity_of-IsValid (fields fs) identity h
  load_identity-IsValid _ identity h = cc

  load_identities-IsValid :
      (raw : List Json) (identities : List Identity)
      → load_identities loader ro vaults raw ≡ ok identities
      → All (IsValid loader ro vaults) identities
  unfolding load_identities
  load_identities-IsValid [] identities h =
      subst (All (IsValid loader ro vaults)) (ok-injective [] identities h) tt
  load_identities-IsValid (x ∷ raw) identities h =
      let (first, p, h₁) = >>=-eq-ok (load_identity loader ro vaults x) _ h in
      let (rest, q, h₂) = >>=-eq-ok (load_identities loader ro vaults raw) _ h₁ in
      subst (All (IsValid loader ro vaults)) (ok-injective (first ∷ rest) identities h₂)
        (load_identity-IsValid x first p, load_identities-IsValid raw rest q)

-- Every identity of an accepted vaults file names known vaults only, has its default among
-- its own vaults, and each of its overrides merges with the policy of a known vault without
-- an error.
pub load_vaults_file-IsValid :
    (loader : Loader) (global_read_only : Bool) (file : Text) (vaults : Dict Text VaultEntry)
    (identities : List Identity)
    → load_vaults_file loader global_read_only file ≡ ok (vaults, identities)
    → All (IsValid loader global_read_only vaults) identities
unfolding load_vaults_file
load_vaults_file-IsValid loader ro file vaults identities h =
    let (d, (raw, p)) = load_vaults_file-inv loader ro (loader.load file) vaults identities h in
    load_identities-IsValid loader ro vaults raw identities p
