-- ===== src/Policy/Scope.antt =====
-- What the read and write tests of a policy say of its lists, and how a merge changes them.
use brain_mcp.Base.{
  ℕ, ◌≡◌, refl, ap, sym, ◌∙◌, ◌↔◌, ◌⊎◌, inl, inr, Bool, true, false, not, ◌&&◌, ◌||◌, Option, none,
  some, List, [], ◌∷◌, ◌++◌, append_assoc, append-nil, any, keep, nat_eq, arith, Bool-cases, ok,
  ◌>>◌, raise_if,
}
use brain_mcp.Base.Text.{Text, text_eq, slash, starts_with}
use brain_mcp.Base.Text.Laws.{prefixes_comparable, append_cancel}
use brain_mcp.Errors.{write_permission, protected_path}
use brain_mcp.Paths.{is_nil}
use brain_mcp.Rules.{rule_path, is_recursive, matches_path_rule, rule_covers_rule, merge_denylist}
use brain_mcp.Rules.Covers.{
  Below, Matches, matches_path_rule_iff, covers_sound, starts_with-Below, Below-starts_with,
  covers_parts,
}
use brain_mcp.Rules.Merge.{allowed, merge_denylist-any}
use brain_mcp.Identity.{is_none}
use brain_mcp.Policy.{EffectiveAccessPolicy, World, longest}
use brain_mcp.Policy.Access.{denied, in_scope, may_read, check_write}

-- A directory above a scope is above or inside every scope that holds it.
Below-split :
    (path sa r q : Text)
    → path ++ (slash ∷ r) ≡ sa ++ (slash ∷ q)
    → (path ≡ sa) ⊎ (Below path sa ⊎ Below sa path)
Below-split path sa r q h = elim (prefixes_comparable path sa (slash ∷ r) (slash ∷ q) h) [
  | inl (t, e) ↦ longer t e
  | inr (t, e) ↦ shorter t e
]
  where
    longer : (t : Text) → sa ≡ path ++ t → (path ≡ sa) ⊎ (Below path sa ⊎ Below sa path)
    longer [] e = inl (sym (e ∙ append-nil path))
    longer (d ∷ t) e = inr (
        inl (
          t,
          e
              ∙ ap (λ (x : ℕ). path ++ (x ∷ t))
                  (cc (
                    append_cancel path (slash ∷ r) ((d ∷ t) ++ (slash ∷ q)) (
                      h
                      ∙ ap (λ (u : Text). u ++ (slash ∷ q)) e
                      ∙ append_assoc path (d ∷ t) (slash ∷ q)))),
        ))

    shorter : (t : Text) → path ≡ sa ++ t → (path ≡ sa) ⊎ (Below path sa ⊎ Below sa path)
    shorter [] e = inl (e ∙ append-nil sa)
    shorter (d ∷ t) e = inr (
        inr (
          t,
          e
              ∙ ap (λ (x : ℕ). sa ++ (x ∷ t))
                  (cc (
                    append_cancel sa ((d ∷ t) ++ (slash ∷ r)) (slash ∷ q) (
                      sym (append_assoc sa (d ∷ t) (slash ∷ r))
                      ∙ ap (λ (u : Text). u ++ (slash ∷ r)) (sym e)
                      ∙ h))),
        ))

module _ (world : World) where
  ancestor_sound :
      (path a c : Text)
      → rule_covers_rule world.case_folding a c ≡ true
      → Below path (rule_path c)
      → in_scope world path true a ≡ true
  ancestor_sound path a c h (r, e) =
      placed ((matches_path_rule_iff fold (rule_path c) a).0 (covers_parts fold a c h).1)
    where
      fold : ℕ → Text
      fold = world.case_folding

      above : Below path (rule_path a) → in_scope world path true a ≡ true
      above b = ground (arith, Below-starts_with (rule_path a) path b)

      matched : Matches (rule_path a) (is_recursive a) path → in_scope world path true a ≡ true
      matched m = ground (arith, (matches_path_rule_iff fold path a).1 m)

      placed :
          Matches (rule_path a) (is_recursive a) (rule_path c) → in_scope world path true a ≡ true
      placed (inl p) = above (r, sym p ∙ e)
      placed (inr (k, (q, p))) = elim (Below-split path (rule_path a) r q (sym e ∙ p)) [
        | inl same ↦ matched (inl same)
        | inr (inl b) ↦ above b
        | inr (inr b) ↦ matched (inr (k, b))
      ]

  ancestor_inv :
      (path rule : Text)
      → starts_with (rule_path rule) (path ++ (slash ∷ [])) ≡ true
      → Below path (rule_path rule)
  ancestor_inv path rule h = starts_with-Below (rule_path rule) path h

  -- A path in the scope of a rule is in the scope of any rule that covers it.
  pub in_scope_sound :
      (path : Text) (allow_ancestor : Bool) (a c : Text)
      → rule_covers_rule world.case_folding a c ≡ true
      → in_scope world path allow_ancestor c ≡ true
      → in_scope world path allow_ancestor a ≡ true
  in_scope_sound path allow_ancestor a c h m =
      elim (Bool-cases (matches_path_rule world.case_folding path c false)) [
        | inl e ↦ ground (arith, covers_sound world.case_folding a c path h e)
        | inr e ↦ as_ancestor path allow_ancestor (rw e at m)
      ]
    where
      as_ancestor :
          (path : Text) (b : Bool)
          → (b && (is_nil path || starts_with (rule_path c) (path ++ (slash ∷ [])))) ≡ true
          → in_scope world path b a ≡ true
      as_ancestor path false n = cc
      as_ancestor [] true n = ground arith
      as_ancestor (d ∷ path) true n = ancestor_sound (d ∷ path) a c h (ancestor_inv (d ∷ path) c n)

  longest-keep :
      (p : Text → Bool) (rules : List Text) → is_none (longest (keep p rules)) ≡ not (any p rules)
  unfolding longest
  longest-keep p [] = refl
  longest-keep p (rule ∷ rules) = elim (Bool-cases (p rule)) [
    | inl e ↦ rw e
    | inr e ↦ rw e (longest-keep p rules)
  ]

  -- `_denied` answers exactly when a rule matches, the letters' case put aside.
  pub denied-any :
      (path : Text) (rules : List Text)
      → is_none (denied world path rules)
        ≡ not (any (λ rule. matches_path_rule world.case_folding path rule true) rules)
  unfolding denied
  denied-any path rules =
      longest-keep (λ rule. matches_path_rule world.case_folding path rule true) rules

  pub may_read-allowed :
      (policy : EffectiveAccessPolicy) (path : Text) (b : Bool)
      → may_read world policy path b ≡ (
          allowed (in_scope world path b) policy.read_paths
          && is_none (denied world path policy.deny_read_paths))
  unfolding may_read
  may_read-allowed policy path b = by_list policy.read_paths
    where
      by_list :
          (rules : List Text)
          → ((is_nil rules || any (in_scope world path b) rules)
              && is_none (denied world path policy.deny_read_paths))
            ≡ (allowed (in_scope world path b) rules
                && is_none (denied world path policy.deny_read_paths))
      by_list [] = refl
      by_list (rule ∷ rules) = refl

  pub denied-narrows :
      (path : Text) (rules : List Text) (override : Option (List Text))
      → is_none (denied world path (merge_denylist rules override)) ≡ true
      → is_none (denied world path rules) ≡ true
  denied-narrows path rules none h = unfold merge_denylist in h
  denied-narrows path rules (some added) h =
      rw denied-any
        (not_or (any test rules) (any test added) (rw (denied-any, merge_denylist-any) at h))
    where
      test : Text → Bool
      test rule = matches_path_rule world.case_folding path rule true

      not_or : (b c : Bool) → not (b || c) ≡ true → not b ≡ true
      not_or true c k = k
      not_or false c k = refl

  abbrev pub in_write_scope : Text → Text → Bool
  in_write_scope path rule = matches_path_rule world.case_folding path rule false

  -- The write check as one condition: the vault is writable, the path is in the write scope and
  -- no deny rule matches it.
  unfoldable pub may_write : EffectiveAccessPolicy → Text → Bool
  may_write policy path =
      not policy.read_only
      && allowed (in_write_scope path) policy.write_paths
      && is_none (denied world path policy.deny_write_paths)

  pub check_write_iff :
      (policy : EffectiveAccessPolicy) (path : Text)
      → (check_write world policy path ≡ ok tt) ↔ (may_write policy path ≡ true)
  unfolding check_write may_write
  check_write_iff policy path = by_list policy.write_paths
    where
      by_list :
          (rules : List Text)
          → ((do
            raise_if policy.read_only write_permission
            raise_if (not (is_nil rules) && not (any (in_write_scope path) rules)) write_permission
            raise_if (not (is_none (denied world path policy.deny_write_paths))) protected_path)
              ≡ ok tt)
            ↔ ((not policy.read_only
                  && allowed (in_write_scope path) rules
                  && is_none (denied world path policy.deny_write_paths))
                ≡ true)
      by_list [] = ground arith
      by_list (rule ∷ rules) = ground arith
