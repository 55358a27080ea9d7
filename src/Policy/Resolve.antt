-- ===== src/Policy/Resolve.antt =====
-- The methods of `VaultAccessPolicy`: the cache of merged policies is transparent, an identity
-- resolves only what the vault's own policy resolves, and what a resolved path satisfies.
use mathlib.Core.Option.{some-injective}
use brain_mcp.Base.{
  ◌≡◌, refl, ap, sym, subst, ◌∙◌, inl, inr, Bool, true, Option, none, some, ◌∷◌, ◌==◌, ==_iff,
  Bool-cases, Result, ok, err, ok-injective, >>=-eq-ok,
}
use brain_mcp.Base.Text.{Text}
use brain_mcp.Errors.{Error}
use brain_mcp.Identity.{PolicyOverride, override_eq, Identity}
use brain_mcp.Policy.{
  EffectiveAccessPolicy, World, VaultAccessPolicy, VaultPath, IdentityArgument, given, merged_with,
  lookup_merged,
}
use brain_mcp.Policy.Access.{
  may_read, check_write, effective, policy_override, store_merge, use_cache, effective_of,
  resolve_read, resolve_write, canonicalize,
}
use brain_mcp.Policy.Scope.{may_write, check_write_iff}
use brain_mcp.Policy.Narrowing.{may_read-merged_with, may_write-merged_with}

-- Every cached policy is the merge that its key stands for.
pub record IsCoherent (world : World) (policy : VaultAccessPolicy) : Type 0 where
  pub cached :
      (o : PolicyOverride) (e : EffectiveAccessPolicy)
      → lookup_merged o policy.merged ≡ some e
      → merged_with world.case_folding policy.base (some o) ≡ ok e

-- An answer of `effective` and the object that it leaves: the answer is that of a merge on every
-- call, the cache is coherent again and nothing else has changed.
abbrev pub IsTransparent :
    World
    → VaultAccessPolicy
    → Option PolicyOverride
    → Result Error EffectiveAccessPolicy × VaultAccessPolicy
    → Type 0
IsTransparent world policy o (answer, policy') =
    (answer ≡ merged_with world.case_folding policy.base o)
    × IsCoherent world policy'
    × (policy' ≡ record policy { merged = policy'.merged })

module _ (world : World) (policy : VaultAccessPolicy) (c : IsCoherent world policy) where
  store_merge-IsTransparent :
      (o : PolicyOverride) (r : Result Error EffectiveAccessPolicy)
      → merged_with world.case_folding policy.base (some o) ≡ r
      → IsTransparent world policy (some o) (store_merge world policy o r)
  unfolding lookup_merged
  store_merge-IsTransparent o (err x) p = (sym p, c, refl)
  store_merge-IsTransparent o (ok e) p = (sym p, record { cached = extended }, refl)
    where
      extended :
          (k : PolicyOverride) (v : EffectiveAccessPolicy)
          → lookup_merged k ((o, e) ∷ policy.merged) ≡ some v
          → merged_with world.case_folding policy.base (some k) ≡ ok v
      extended k v h = elim (Bool-cases (o == k)) [
        | inl same ↦ merge_eq ((==_iff o k).0 same) (some-injective e v (rw same at h))
        | inr differ ↦ c.cached k v (rw differ at h)
      ]
        where
          merge_eq : o ≡ k → e ≡ v → merged_with world.case_folding policy.base (some k) ≡ ok v
          merge_eq a b = cc (p, a, b)

  use_cache-IsTransparent :
      (o : PolicyOverride) (found : Option EffectiveAccessPolicy)
      → lookup_merged o policy.merged ≡ found
      → IsTransparent world policy (some o) (use_cache world policy o found)
  use_cache-IsTransparent o (some v) e = (sym (c.cached o v e), c, refl)
  use_cache-IsTransparent o none e =
      store_merge-IsTransparent o (merged_with world.case_folding policy.base (some o)) refl

  effective_of-IsTransparent :
      (o : Option PolicyOverride) → IsTransparent world policy o (effective_of world policy o)
  effective_of-IsTransparent none = (unfold merged_with in refl, c, refl)
  effective_of-IsTransparent (some o) =
      use_cache-IsTransparent o (lookup_merged o policy.merged) refl

module _ (world : World) (current : Option Identity) where
  -- `effective` answers as if it merged on every call, whatever is in its cache, and leaves a
  -- cache of which that is true again; no other field of the object changes.
  pub effective-IsTransparent :
      (policy : VaultAccessPolicy) (identity : IdentityArgument)
      → IsCoherent world policy
      → IsTransparent world policy
          (policy_override current policy identity)
          (effective world current policy identity)
  unfolding effective
  effective-IsTransparent policy identity c =
      effective_of-IsTransparent world policy c (policy_override current policy identity)

  effective-none :
      (policy : VaultAccessPolicy)
      → (effective world current policy (given none)).0 ≡ ok policy.base
  unfolding effective policy_override
  effective-none policy = refl

  pub override-may :
      (policy : VaultAccessPolicy) (identity : IdentityArgument) (e : EffectiveAccessPolicy)
      → IsCoherent world policy
      → (effective world current policy identity).0 ≡ ok e
      → ((path : Text) (b : Bool)
          → may_read world e path b ≡ true
          → may_read world policy.base path b ≡ true)
        × ((path : Text) → may_write world e path ≡ true → may_write world policy.base path ≡ true)
  override-may policy identity e c h =
      by_override (policy_override current policy identity)
        (sym (effective-IsTransparent policy identity c).0 ∙ h)
    where
      by_override :
          (o : Option PolicyOverride)
          → merged_with world.case_folding policy.base o ≡ ok e
          → ((path : Text) (b : Bool)
              → may_read world e path b ≡ true
              → may_read world policy.base path b ≡ true)
            × ((path : Text)
                → may_write world e path ≡ true
                → may_write world policy.base path ≡ true)
      by_override none p =
          let q : policy.base ≡ e =
            ok-injective {E = Error} policy.base e (unfold merged_with in p) in
          (λ path b m. rw q m, λ path m. rw q m)
      by_override (some o) p = (
        may_read-merged_with world policy.base e o p,
        may_write-merged_with world policy.base e o p,
      )

  pub resolve_read_inv :
      (policy : VaultAccessPolicy) (path : Text) (b : Bool) (identity : IdentityArgument)
      (result : VaultPath)
      → resolve_read world current policy path b identity ≡ ok result
      → (e : EffectiveAccessPolicy) × (canonicalize world policy path b ≡ ok result)
        × ((effective world current policy identity).0 ≡ ok e)
        × (may_read world e result.relative b ≡ true)
  unfolding resolve_read
  resolve_read_inv policy path b identity result h =
      let (found, p, h₁) = >>=-eq-ok (canonicalize world policy path b) _ h in
      let (e, q, h₂) = >>=-eq-ok (effective world current policy identity).0 _ h₁ in
      elim (Bool-cases (may_read world e found.relative b)) [
        | inl m ↦
            let same : found ≡ result = ok-injective found result (rw m at h₂) in
            (
              e,
              p ∙ ap ok same,
              q,
              subst (λ (r : VaultPath). may_read world e r.relative b ≡ true) same m,
            )
        | inr m ↦ cc (rw m at h₂)
      ]

  pub resolve_write_inv :
      (policy : VaultAccessPolicy) (path : Text) (b : Bool) (identity : IdentityArgument)
      (result : VaultPath)
      → resolve_write world current policy path b identity ≡ ok result
      → (e : EffectiveAccessPolicy) × (canonicalize world policy path b ≡ ok result)
        × ((effective world current policy identity).0 ≡ ok e)
        × (may_write world e result.relative ≡ true)
  unfolding resolve_write
  resolve_write_inv policy path b identity result h =
      let (found, p, h₁) = >>=-eq-ok (canonicalize world policy path b) _ h in
      let (e, q, h₂) = >>=-eq-ok (effective world current policy identity).0 _ h₁ in
      let (tt', m, h₃) = >>=-eq-ok (check_write world e found.relative) _ h₂ in
      let same : found ≡ result = ok-injective found result h₃ in
      (
        e,
        p ∙ ap ok same,
        q,
        subst (λ (r : VaultPath). may_write world e r.relative ≡ true) same
            ((check_write_iff world e found.relative).0 m),
      )

  module _ (policy : VaultAccessPolicy) (c : IsCoherent world policy) (path : Text) (b : Bool)
      (identity : IdentityArgument) (result : VaultPath) where
    -- What an identity's override lets it read, an identity with no override reads too, with the
    -- same result.
    pub resolve_read-narrows :
        resolve_read world current policy path b identity ≡ ok result
        → resolve_read world current policy path b (given none) ≡ ok result
    resolve_read-narrows h =
        let (e, p, q, m) = resolve_read_inv policy path b identity result h in
        let may = (override-may policy identity e c q).0 result.relative b m in
        unfold resolve_read in rw (p, effective-none policy, may)

    pub resolve_write-narrows :
        resolve_write world current policy path b identity ≡ ok result
        → resolve_write world current policy path b (given none) ≡ ok result
    resolve_write-narrows h =
        let (e, p, q, m) = resolve_write_inv policy path b identity result h in
        let may = (override-may policy identity e c q).1 result.relative m in
        unfold resolve_write in
        rw (p, effective-none policy, (check_write_iff world policy.base result.relative).1 may)
