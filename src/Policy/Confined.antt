-- ===== src/Policy/Confined.antt =====
-- What a path that `resolve_read`, `resolve_write` or `resolve_delete` hands out satisfies.
use brain_mcp.Base.{
  ℕ, ◌≡◌, refl, ap, sym, subst, ◌∙◌, ◌≢◌, inr, Bool, true, false, not, ◌&&◌, Option, [], ◌∷◌, ◌++◌,
  append_assoc, ◌==◌, ne_of_==, arith, ok, ok-injective, >>=-eq-ok, raise_if, if◌then◌else◌,
}
use brain_mcp.Base.Text.{Text, text_eq, slash}
use brain_mcp.Paths.{normalise_relative}
use brain_mcp.Paths.Canonical.{IsCanonical, normalise_relative-IsCanonical}
use brain_mcp.Rules.{casefold, matches_path_rule, is_recursive, rule_path}
use brain_mcp.Rules.Covers.{Below, Matches-trans, test_sound, test_complete}
use brain_mcp.Identity.{Identity}
use brain_mcp.Policy.{
  World, VaultAccessPolicy, VaultPath, IdentityArgument, path_parts, is_relative_to, resolved,
}
use brain_mcp.Policy.Access.{
  may_read, resolve_read, resolve_write, resolve_delete, canonicalize, any_symlink,
}
use brain_mcp.Policy.Scope.{may_write}
use brain_mcp.Policy.Resolve.{IsCoherent, override-may, resolve_read_inv, resolve_write_inv}

-- The path is made of names, no directory on the way to it is a symbolic link, and the place that
-- the operating system resolves it to is inside the vault.
pub record IsConfined (world : World) (policy : VaultAccessPolicy) (result : VaultPath)
    : Type 0 where
  pub canonical : IsCanonical result.relative
  pub no_symlink : any_symlink world policy.root (path_parts result.relative) ≡ false
  pub inside : is_relative_to result.absolute policy.root ≡ true

module _ (world : World) (policy : VaultAccessPolicy) where
  canonicalize-IsConfined :
      (path : Text) (b : Bool) (result : VaultPath)
      → canonicalize world policy path b ≡ ok result
      → IsConfined world policy result × (b ≡ false → result.relative ≢ [])
  unfolding canonicalize
  canonicalize-IsConfined path b result h =
      let (relative, p, h₁) = >>=-eq-ok (normalise_relative path b) _ h in
      let (_, q, h₂) =
        >>=-eq-ok (raise_if (any_symlink world policy.root (path_parts relative)) _) _ h₁ in
      let (absolute, r, h₃) =
        >>=-eq-ok (resolved (world.resolve (policy.root ++ path_parts relative))) _ h₂ in
      let (_, s, h₄) = >>=-eq-ok (raise_if (not (is_relative_to absolute policy.root)) _) _ h₃ in
      let (canonical, nonempty) = normalise_relative-IsCanonical path b relative p in
      let e = ok-injective _ result h₄ in
      subst (λ (v : VaultPath). IsConfined world policy v × (b ≡ false → v.relative ≢ [])) e
        (
          record { canonical = canonical; no_symlink = ground arith; inside = ground arith },
          nonempty,
        )

  module _ (current : Option Identity) (c : IsCoherent world policy) (path : Text)
      (identity : IdentityArgument) (result : VaultPath) where
    -- A path that may be read is confined to the vault, and the vault's own lists permit it,
    -- whatever the identity's override is.
    pub resolve_read-IsConfined :
        (b : Bool)
        → resolve_read world current policy path b identity ≡ ok result
        → IsConfined world policy result × (may_read world policy.base result.relative b ≡ true)
    resolve_read-IsConfined b h =
        let (e, p, q, m) = resolve_read_inv world current policy path b identity result h in
        (
          (canonicalize-IsConfined path b result p).0,
          (override-may world current policy identity e c q).0 result.relative b m,
        )

    pub resolve_write-IsConfined :
        (b : Bool)
        → resolve_write world current policy path b identity ≡ ok result
        → IsConfined world policy result × (may_write world policy.base result.relative ≡ true)
    resolve_write-IsConfined b h =
        let (e, p, q, m) = resolve_write_inv world current policy path b identity result h in
        (
          (canonicalize-IsConfined path b result p).0,
          (override-may world current policy identity e c q).1 result.relative m,
        )

    -- A path that may be deleted is confined and writable, it is not the vault itself, and for
    -- good it is deleted only where the configuration allows that.
    pub resolve_delete-IsConfined :
        (permanent : Bool)
        → resolve_delete world current policy path permanent identity ≡ ok result
        → IsConfined world policy result
          × (may_write world policy.base result.relative ≡ true)
          × (result.relative ≢ [])
          × (permanent ≡ true → policy.allow_permanent_delete ≡ true)
    unfolding resolve_delete
    resolve_delete-IsConfined permanent h =
        let (found, p, h₁) =
          >>=-eq-ok (resolve_write world current policy path true identity) _ h in
        let (_, q, h₂) = >>=-eq-ok (raise_if (found.relative == []) _) _ h₁ in
        let (_, r, h₃) =
          >>=-eq-ok (raise_if (permanent && not policy.allow_permanent_delete) _) _ h₂ in
        let e = ok-injective found result h₃ in
        let (confined, may) = resolve_write-IsConfined true (p ∙ ap ok e) in
        (
          confined,
          may,
          subst (λ (v : VaultPath). v.relative ≢ []) e (ne_of_== found.relative [] (ground arith)),
          λ k. ground arith,
        )

casefold-append :
    (fold : ℕ → Text) (s t : Text) → casefold fold (s ++ t) ≡ casefold fold s ++ casefold fold t
unfolding casefold
casefold-append fold [] t = refl
casefold-append fold (c ∷ s) t =
    rw (casefold-append fold s t) (sym (append_assoc (fold c) (casefold fold s) (casefold fold t)))

-- The texts that a match compares.
abbrev folded : (ℕ → Text) → Bool → Text → Text
folded fold b s = if b then casefold fold s else s

folded-Below :
    (fold : ℕ → Text) (path rest : Text) (b : Bool)
    → fold slash ≡ slash ∷ []
    → Below (folded fold b path) (folded fold b (path ++ (slash ∷ rest)))
unfolding casefold
folded-Below fold path rest false s = (rest, refl)
folded-Below fold path rest true s = (
  casefold fold rest,
  casefold-append fold path (slash ∷ rest)
      ∙ ap (λ (t : Text). casefold fold path ++ (t ++ casefold fold rest)) s,
)

-- What lies below a path that a recursive rule matches is matched too, with and without case. Of
-- Unicode's table it is used that a slash folds to itself.
pub matches_path_rule-Below :
    (fold : ℕ → Text) (path rule rest : Text) (b : Bool)
    → fold slash ≡ slash ∷ []
    → is_recursive rule ≡ true
    → matches_path_rule fold path rule b ≡ true
    → matches_path_rule fold (path ++ (slash ∷ rest)) rule b ≡ true
unfolding matches_path_rule
matches_path_rule-Below fold path rule rest b s r m =
    test_complete (folded fold b (path ++ (slash ∷ rest))) (folded fold b (rule_path rule))
      (is_recursive rule)
      (Matches-trans (folded fold b (rule_path rule)) (folded fold b path) _ (is_recursive rule)
        true (λ _. r)
        (test_sound (folded fold b path) (folded fold b (rule_path rule)) (is_recursive rule) m)
        (inr (refl, folded-Below fold path rest b s)))
