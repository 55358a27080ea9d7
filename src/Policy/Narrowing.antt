-- ===== src/Policy/Narrowing.antt =====
-- An identity's override only ever narrows what a vault's policy permits, and the cache of merged
-- policies changes no answer.
use brain_mcp.Base.{
  ℕ, ◌≡◌, refl, ap, sym, ◌∙◌, Bool, true, false, not, ◌&&◌, Option, none, some, arith, ok,
  ok-injective, >>=-eq-ok,
}
use brain_mcp.Base.Text.{Text}
use brain_mcp.Rules.{merge_readonly, merge_allowlist, merge_denylist}
use brain_mcp.Rules.Merge.{allowed, merge_allowlist-allowed}
use brain_mcp.Rules.Covers.{covers_sound}
use brain_mcp.Identity.{PolicyOverride, override_eq, is_none}
use brain_mcp.Policy.{EffectiveAccessPolicy, World, merged_with}
use brain_mcp.Policy.Access.{denied, in_scope, may_read}
use brain_mcp.Policy.Scope.{
  in_scope_sound, may_read-allowed, denied-narrows, in_write_scope, may_write,
}

-- The fields of a merged policy.
record IsMerge (fold : ℕ → Text) (base : EffectiveAccessPolicy) (o : PolicyOverride)
    (e : EffectiveAccessPolicy) : Type 0 where
  read_only : e.read_only ≡ merge_readonly base.read_only o.read_only
  read_paths : merge_allowlist fold base.read_paths o.read_paths ≡ ok e.read_paths
  write_paths : merge_allowlist fold base.write_paths o.write_paths ≡ ok e.write_paths
  deny_read_paths : e.deny_read_paths ≡ merge_denylist base.deny_read_paths o.deny_read_paths
  deny_write_paths : e.deny_write_paths ≡ merge_denylist base.deny_write_paths o.deny_write_paths

merged_with-IsMerge :
    (fold : ℕ → Text) (base : EffectiveAccessPolicy) (o : PolicyOverride)
    (e : EffectiveAccessPolicy)
    → merged_with fold base (some o) ≡ ok e
    → IsMerge fold base o e
unfolding merged_with
merged_with-IsMerge fold base o e h =
    let (reads, p, h₁) = >>=-eq-ok (merge_allowlist fold base.read_paths o.read_paths) _ h in
    let (writes, q, h₂) = >>=-eq-ok (merge_allowlist fold base.write_paths o.write_paths) _ h₁ in
    let r = ok-injective _ e h₂ in
    record {
      read_only = sym (ap (λ (x : EffectiveAccessPolicy). x.read_only) r);
      read_paths = p ∙ ap (λ (x : EffectiveAccessPolicy). ok x.read_paths) r;
      write_paths = q ∙ ap (λ (x : EffectiveAccessPolicy). ok x.write_paths) r;
      deny_read_paths = sym (ap (λ (x : EffectiveAccessPolicy). x.deny_read_paths) r);
      deny_write_paths = sym (ap (λ (x : EffectiveAccessPolicy). x.deny_write_paths) r);
    }

and-split : (b c : Bool) → (b && c) ≡ true → (b ≡ true) × (c ≡ true)
and-split b c h = ground arith

module _ (world : World) (base e : EffectiveAccessPolicy) (o : PolicyOverride)
    (h : merged_with world.case_folding base (some o) ≡ ok e) where
  -- What a merged policy lets an identity read, the vault's own policy lets everybody read.
  pub may_read-merged_with :
      (path : Text) (allow_ancestor : Bool)
      → may_read world e path allow_ancestor ≡ true
      → may_read world base path allow_ancestor ≡ true
  may_read-merged_with path b m =
      let merge = merged_with-IsMerge world.case_folding base o e h in
      let (scoped, free) = and-split _ _ (rw may_read-allowed at m) in
      rw
        (
          may_read-allowed,
          merge_allowlist-allowed world.case_folding (in_scope world path b)
              (in_scope_sound world path b) base.read_paths o.read_paths e.read_paths
              merge.read_paths scoped,
        )
        (denied-narrows world path base.deny_read_paths o.deny_read_paths
          (rw merge.deny_read_paths at free))

  -- What a merged policy lets an identity write, the vault's own policy lets everybody write.
  pub may_write-merged_with :
      (path : Text) → may_write world e path ≡ true → may_write world base path ≡ true
  unfolding may_write
  may_write-merged_with path m =
      let merge = merged_with-IsMerge world.case_folding base o e h in
      let (open_scoped, free) = and-split _ (is_none (denied world path e.deny_write_paths)) m in
      let (open_, scoped) =
        and-split (not e.read_only) (allowed (in_write_scope world path) e.write_paths)
          open_scoped in
      rw
        (
          writable base.read_only o.read_only (rw merge.read_only at open_),
          merge_allowlist-allowed world.case_folding (in_write_scope world path)
              (λ a c. covers_sound world.case_folding a c path) base.write_paths o.write_paths
              e.write_paths merge.write_paths scoped,
        )
        (denied-narrows world path base.deny_write_paths o.deny_write_paths
          (rw merge.deny_write_paths at free))
    where
      writable : (b : Bool) (c : Option Bool) → not (merge_readonly b c) ≡ true → not b ≡ true
      writable b none k = unfold merge_readonly in k
      writable true (some c) k = unfold merge_readonly in k
      writable false (some c) k = refl
