-- ===== src/Rules/Covers.antt =====
-- What a rule matches, and that `rule_covers_rule` decides inclusion between rules.
use brain_mcp.Base.{
  ℕ, ◌≡◌, refl, ap, sym, ◌∙◌, ◌≢◌, ◌↔◌, ◌⊎◌, inl, inr, Bool, true, false, not, ◌&&◌, ◌||◌, [], ◌∷◌,
  ◌++◌, append_assoc, ◌==◌, nat_eq, ==_iff, ==_refl, arith, Bool-cases,
}
use brain_mcp.Base.Text.{Text, text_eq, slash, starts_with, rstrip, rstrip_step}
use brain_mcp.Base.Text.Laws.{starts_with_inv, starts_with-append}
use brain_mcp.Rules.{rule_path, is_recursive, matches_path_rule, rule_covers_rule}

-- The path lies below the scope.
abbrev pub Below : Text → Text → Type 0
Below scope path = (rest : Text) × (path ≡ scope ++ (slash ∷ rest))

-- The paths that a rule stands for: its own, and for a recursive rule all below it.
abbrev pub Matches : Text → Bool → Text → Type 0
Matches scope recursive path = (path ≡ scope) ⊎ ((recursive ≡ true) × Below scope path)

pub starts_with-Below :
    (path scope : Text) → starts_with path (scope ++ (slash ∷ [])) ≡ true → Below scope path
starts_with-Below path scope h =
    let (r, e) = starts_with_inv path (scope ++ (slash ∷ [])) h in
    (r, e ∙ append_assoc scope (slash ∷ []) r)

pub Below-starts_with :
    (path scope : Text) → Below scope path → starts_with path (scope ++ (slash ∷ [])) ≡ true
Below-starts_with path scope (r, e) =
    rw (e, ← append_assoc scope (slash ∷ []) r) (starts_with-append (scope ++ (slash ∷ [])) r)

-- The test of `matches_path_rule`, from the scope that it compares with.
abbrev pub test : Text → Text → Bool → Bool
test candidate scope recursive =
    candidate == scope || (recursive && starts_with candidate (scope ++ (slash ∷ [])))

pub test_sound :
    (candidate scope : Text) (recursive : Bool)
    → test candidate scope recursive ≡ true
    → Matches scope recursive candidate
test_sound candidate scope recursive h = elim (Bool-cases (candidate == scope)) [
  | inl e ↦ inl ((==_iff candidate scope).0 e)
  | inr e ↦ inr (ground arith, starts_with-Below candidate scope (ground arith))
]

pub test_complete :
    (candidate scope : Text) (recursive : Bool)
    → Matches scope recursive candidate
    → test candidate scope recursive ≡ true
test_complete candidate scope recursive (inl e) = ground (arith, (==_iff candidate scope).1 e)
test_complete candidate scope recursive (inr (r, b)) =
    ground (arith, Below-starts_with candidate scope b)

module _ (case_folding : ℕ → Text) where
  -- Matching with case: the path of the rule, or for a rule that ends in a slash all below it.
  pub matches_path_rule_iff :
      (path rule : Text)
      → (matches_path_rule case_folding path rule false ≡ true)
        ↔ Matches (rule_path rule) (is_recursive rule) path
  unfolding matches_path_rule
  matches_path_rule_iff path rule = (
    test_sound path (rule_path rule) (is_recursive rule),
    test_complete path (rule_path rule) (is_recursive rule),
  )

-- Stripped text ends in no character that was to be stripped.
rstrip_step-kept :
    (p : ℕ → Bool) (d : ℕ) (r x : Text) (c : ℕ)
    → ((y : Text) → r ≡ y ++ (c ∷ []) → p c ≡ false)
    → rstrip_step p d r ≡ x ++ (c ∷ [])
    → p c ≡ false
rstrip_step-kept p d [] x c ih h = elim (Bool-cases (p d)) [
  | inl e ↦ absurd (append_ne x (rw e at h))
  | inr e ↦ rw (← single x (rw e at h)) e
]
  where
    append_ne : (x : Text) → [] ≢ x ++ (c ∷ [])
    append_ne [] q = cc
    append_ne (y ∷ x) q = cc

    single : (x : Text) → d ∷ [] ≡ x ++ (c ∷ []) → d ≡ c
    single [] q = cc
    single (y ∷ x) q = absurd (append_ne x (ground arith))
rstrip_step-kept p d (e ∷ r) [] c ih h = cc
rstrip_step-kept p d (e ∷ r) (y ∷ x) c ih h = ih x (ground arith)

pub rstrip-kept : (p : ℕ → Bool) (s x : Text) (c : ℕ) → rstrip p s ≡ x ++ (c ∷ []) → p c ≡ false
unfolding rstrip
rstrip-kept p [] [] c h = cc
rstrip-kept p [] (y ∷ x) c h = cc
rstrip-kept p (d ∷ s) x c h = rstrip_step-kept p d (rstrip p s) x c (λ y. rstrip-kept p s y c) h

rule_path-ne-slash : (rule x : Text) → rule_path rule ≢ x ++ (slash ∷ [])
rule_path-ne-slash rule x e = cc (rstrip-kept (λ c. c == slash) rule x slash e, ==_refl slash)

-- Inclusion between the scopes of two rules.
pub Matches-trans :
    (s t path : Text) (b c : Bool)
    → (c ≡ true → b ≡ true)
    → Matches s b t
    → Matches t c path
    → Matches s b path
Matches-trans s t path b c f (inl e) (inl g) = inl (g ∙ e)
Matches-trans s t path b c f (inl e) (inr (h, (r, g))) =
    inr (f h, (r, g ∙ ap (λ (u : Text). u ++ (slash ∷ r)) e))
Matches-trans s t path b c f (inr (h, (r, e))) (inl g) = inr (h, (r, g ∙ e))
Matches-trans s t path b c f (inr (h, (r, e))) (inr (k, (q, g))) = inr (
  h,
  (
    r ++ (slash ∷ q),
    g ∙ ap (λ (u : Text). u ++ (slash ∷ q)) e ∙ append_assoc s (slash ∷ r) (slash ∷ q),
  ),
)

module _ (case_folding : ℕ → Text) where
  pub covers_parts :
      (allow_rule candidate : Text)
      → rule_covers_rule case_folding allow_rule candidate ≡ true
      → (is_recursive candidate ≡ true → is_recursive allow_rule ≡ true)
        × (matches_path_rule case_folding (rule_path candidate) allow_rule false ≡ true)
  unfolding rule_covers_rule
  covers_parts allow_rule candidate h = (λ r. ground arith, ground arith)

  pub covers_sound :
      (allow_rule candidate path : Text)
      → rule_covers_rule case_folding allow_rule candidate ≡ true
      → matches_path_rule case_folding path candidate false ≡ true
      → matches_path_rule case_folding path allow_rule false ≡ true
  covers_sound allow_rule candidate path h m =
      let (recursive, covered) = covers_parts allow_rule candidate h in
      (matches_path_rule_iff case_folding path allow_rule).1 (
        Matches-trans (rule_path allow_rule) (rule_path candidate) path (is_recursive allow_rule)
          (is_recursive candidate) recursive
          ((matches_path_rule_iff case_folding (rule_path candidate) allow_rule).0 covered)
          ((matches_path_rule_iff case_folding path candidate).0 m))

  covers_complete :
      (allow_rule candidate : Text)
      → ((path : Text)
          → matches_path_rule case_folding path candidate false ≡ true
          → matches_path_rule case_folding path allow_rule false ≡ true)
      → rule_covers_rule case_folding allow_rule candidate ≡ true
  unfolding rule_covers_rule
  covers_complete allow_rule candidate h =
      elim (Bool-cases (is_recursive candidate && not (is_recursive allow_rule))) [
        | inl e ↦ absurd (
            refuted (ground arith) (ground arith) (
              (matches_path_rule_iff case_folding below allow_rule).0 (
                h below (
                  (matches_path_rule_iff case_folding below candidate).1
                    (inr (ground arith, ([], refl)))))))
        | inr e ↦ rw e (
            h (rule_path candidate)
              ((matches_path_rule_iff case_folding (rule_path candidate) candidate).1 (inl refl)))
      ]
    where
      below : Text
      below = rule_path candidate ++ (slash ∷ [])

      refuted :
          is_recursive candidate ≡ true
          → is_recursive allow_rule ≡ false
          → ¬ Matches (rule_path allow_rule) (is_recursive allow_rule) below
      refuted r a (inl q) = rule_path-ne-slash allow_rule (rule_path candidate) (sym q)
      refuted r a (inr (q, _)) = cc

  -- `rule_covers_rule` decides the inclusion of the two rules' paths: it answers yes exactly when
  -- every path that the candidate matches is matched by the covering rule.
  pub rule_covers_rule_iff :
      (allow_rule candidate : Text)
      → (rule_covers_rule case_folding allow_rule candidate ≡ true) ↔ (
          (path : Text)
          → matches_path_rule case_folding path candidate false ≡ true
          → matches_path_rule case_folding path allow_rule false ≡ true)
  rule_covers_rule_iff allow_rule candidate =
      (λ h path. covers_sound allow_rule candidate path h, covers_complete allow_rule candidate)
