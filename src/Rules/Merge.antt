-- ===== src/Rules/Merge.antt =====
-- An identity's override can only narrow a vault's lists: a merged allowlist allows nothing that
-- the vault's own does not, and a merged denylist denies what either list denies.
use brain_mcp.Base.{
  ℕ, ◌≡◌, refl, ap, sym, subst, inl, inr, Bool, true, ◌||◌, Option, none, some, List, [], ◌∷◌, ◌++◌,
  any, contains, nat_eq, ==_iff, arith, Bool-cases, ok, ok-injective, >>=-eq-ok, if◌then◌else◌,
}
use brain_mcp.Base.Text.{Text, text_eq}
use brain_mcp.Rules.{rule_covers_rule, check_covered, merge_allowlist, add_rules, merge_denylist}

-- An allowlist that is empty stands for the whole vault.
abbrev pub allowed {ℓ} : {A : Type ℓ} → (A → Bool) → List A → Bool
allowed test [] = true
allowed test (rule ∷ rules) = any test (rule ∷ rules)

-- Each rule of an override that a vault accepts is covered by a rule of the vault.
module _ (case_folding : ℕ → Text) (test : Text → Bool)
    (sound : (a c : Text)
      → rule_covers_rule case_folding a c ≡ true
      → test c ≡ true
      → test a ≡ true) where
  any-covered :
      (vault_rules : List Text) (rule : Text)
      → any (λ a. rule_covers_rule case_folding a rule) vault_rules ≡ true
      → test rule ≡ true
      → any test vault_rules ≡ true
  any-covered [] rule h t = cc
  any-covered (a ∷ vault_rules) rule h t =
      elim (Bool-cases (rule_covers_rule case_folding a rule)) [
        | inl e ↦ ground (arith, sound a rule)
        | inr e ↦ ground (arith, any-covered vault_rules rule)
      ]

  check_covered-any :
      (vault_rules rules : List Text)
      → check_covered case_folding vault_rules rules ≡ ok tt
      → any test rules ≡ true
      → any test vault_rules ≡ true
  unfolding check_covered
  check_covered-any vault_rules [] h t = cc
  check_covered-any vault_rules (rule ∷ rules) h t =
      elim (Bool-cases (any (λ a. rule_covers_rule case_folding a rule) vault_rules)) [
        | inl e ↦ elim (Bool-cases (test rule)) [
          | inl f ↦ any-covered vault_rules rule e f
          | inr f ↦ check_covered-any vault_rules rules (rw e at h) (rw f at t)
        ]
        | inr e ↦ cc (rw e at h)
      ]

  -- A test that covering rules pass on holds of the vault's list if it holds of the merged one.
  pub merge_allowlist-allowed :
      (vault_rules : List Text) (override : Option (List Text)) (merged : List Text)
      → merge_allowlist case_folding vault_rules override ≡ ok merged
      → allowed test merged ≡ true
      → allowed test vault_rules ≡ true
  unfolding merge_allowlist
  merge_allowlist-allowed vault_rules none merged h t =
      subst (λ r. allowed test r ≡ true) (sym (ok-injective vault_rules merged h)) t
  merge_allowlist-allowed vault_rules (some []) merged h t =
      subst (λ r. allowed test r ≡ true) (sym (ok-injective vault_rules merged h)) t
  merge_allowlist-allowed [] (some (rule ∷ rules)) merged h t = refl
  merge_allowlist-allowed (a ∷ vault_rules) (some (rule ∷ rules)) merged h t =
      let (_, covered, e) =
        >>=-eq-ok (check_covered case_folding (a ∷ vault_rules) (rule ∷ rules))
          (λ _. ok (rule ∷ rules)) h in
      check_covered-any (a ∷ vault_rules) (rule ∷ rules) covered
        (subst (λ r. allowed test r ≡ true) (sym (ok-injective (rule ∷ rules) merged e)) t)

any-append : (p : Text → Bool) (xs ys : List Text) → any p (xs ++ ys) ≡ (any p xs || any p ys)
any-append p [] ys = refl
any-append p (x ∷ xs) ys = ground (arith, any-append p xs ys)

contains-any :
    (p : Text → Bool) (xs : List Text) (x : Text)
    → contains xs x ≡ true
    → p x ≡ true
    → any p xs ≡ true
contains-any p [] x h t = cc
contains-any p (y ∷ xs) x h t =
    ground (arith, ==_iff x y, ap p {x = x} {y = y}, contains-any p xs x)

add_one-any :
    (p : Text → Bool) (result : List Text) (rule : Text)
    → any p (if contains result rule then result else result ++ (rule ∷ []))
      ≡ (any p result || p rule)
add_one-any p result rule = elim (Bool-cases (contains result rule)) [
  | inl e ↦ rw e (ground (arith, contains-any p result rule e))
  | inr e ↦ rw (e, any-append p result (rule ∷ [])) (ground arith)
]

add_rules-any :
    (p : Text → Bool) (result rules : List Text)
    → any p (add_rules result rules) ≡ (any p result || any p rules)
unfolding add_rules
add_rules-any p result [] = ground arith
add_rules-any p result (rule ∷ rules) =
    rw
      (
        add_rules-any p (if contains result rule then result else result ++ (rule ∷ [])) rules,
        add_one-any p result rule,
      )
      (ground arith)

-- A test passes on a rule of the merged denylist exactly when it passes on one of either list.
pub merge_denylist-any :
    (p : Text → Bool) (vault_rules rules : List Text)
    → any p (merge_denylist vault_rules (some rules)) ≡ (any p vault_rules || any p rules)
unfolding merge_denylist
merge_denylist-any p vault_rules rules = add_rules-any p vault_rules rules
