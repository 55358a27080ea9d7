-- ===== src/Paths/Canonical.antt =====
-- What an accepted path looks like, and what a second call of `_normalise_relative` makes of it.
use mathlib.Core.List.{reverse_aux, reverse-reverse}
use mathlib.Core.Option.{some-injective, none-ne-some}
use brain_mcp.Base.{
  ℕ, ◌≡◌, refl, ap, sym, subst, ◌∙◌, ◌≢◌, ◌⊎◌, inl, inr, Bool, true, false, ◌||◌, Option, none,
  some, List, [], ◌∷◌, reverse, All, All-append, All-reverse, contains, ◌==◌, nat_eq, ==_iff,
  ==_of_ne, ne_of_==, arith, Bool-cases, Option-cases, ok-injective, ok, err, if◌then◌else◌,
}
use brain_mcp.Base.Text.{Text, text_eq, slash, push, starts_with, split, join, replace_char}
use brain_mcp.Base.Text.Laws.{
  Free, split-Free, starts_with_inv, join-split, split-ne-nil, push-split-append,
}
use brain_mcp.Errors.{vault_path}
use brain_mcp.Paths.{
  dot_name, dot_dot, backslash, has_drive, is_rooted, norm_comps, normalise_relative,
}
use brain_mcp.Paths.Walk.{walk, walk_step, up, IsName, Related, norm_comps-walk}
use brain_mcp.Paths.Normalise.{
  located, normalise_relative-walk, split-names, names-ne-nil, reverse-ne-nil,
}

-- The root, or names joined by slashes.
abbrev pub IsCanonical : Text → Type 0
IsCanonical path = (path ≡ []) ⊎ All IsName (split slash path)

-- A property of characters goes from a path through its components to the result.
module _ (P : ℕ → Type 0) where
  push-All : (c : ℕ) (ws : List Text) → P c → All (All P) ws → All (All P) (push c ws)
  push-All c [] h a = ((h, tt), tt)
  push-All c (w ∷ ws) h a = ((h, a.0), a.1)

  split-All : (s : Text) → All P s → All (All P) (split slash s)
  unfolding split
  split-All [] a = (tt, tt)
  split-All (c ∷ s) a = elim (Bool-cases (c == slash)) [
    | inl e ↦ rw e (tt, split-All s a.1)
    | inr e ↦ rw e (push-All c (split slash s) a.0 (split-All s a.1))
  ]

  join-All : P slash → (ws : List Text) → All (All P) ws → All P (join slash ws)
  unfolding join
  join-All h [] a = tt
  join-All h (w ∷ []) a = a.0
  join-All h (w ∷ v ∷ ws) a =
      All-append P w (slash ∷ join slash (v ∷ ws)) a.0 (h, join-All h (v ∷ ws) a.1)

  walk_step-All :
      (stack : List Text) (comp : Text) (s : List Text)
      → walk_step stack comp ≡ some s
      → All (All P) stack
      → All P comp
      → All (All P) s
  unfolding walk_step
  walk_step-All stack comp s h a b = elim (Bool-cases (comp == [] || comp == dot_name)) [
    | inl e ↦ subst (All (All P)) (some-injective _ _ (rw e at h)) a
    | inr e ↦ elim (Bool-cases (comp == dot_dot)) [
      | inl f ↦ above stack a (rw (e, f) at h)
      | inr f ↦ subst (All (All P)) (some-injective _ _ (rw (e, f) at h)) (b, a)
    ]
  ]
    where
      above : (t : List Text) → All (All P) t → up t ≡ some s → All (All P) s
      above [] c p = absurd (none-ne-some s p)
      above (x ∷ t) c p = subst (All (All P)) (some-injective t s p) c.1

  walk-All :
      (comps stack : List Text) (s : List Text)
      → walk stack comps ≡ some s
      → All (All P) stack
      → All (All P) comps
      → All (All P) s
  unfolding walk
  walk-All [] stack s h a b = subst (All (All P)) (some-injective stack s h) a
  walk-All (comp ∷ comps) stack s h a b = elim (Option-cases (walk_step stack comp)) [
    | inl e ↦ absurd (none-ne-some s (rw (e, walk) at h))
    | inr (t, e) ↦ walk-All comps t s (rw (e, walk) at h) (walk_step-All stack comp t e a b.0) b.1
  ]

  located-All :
      P slash
      → (allow_empty : Bool) (o : Option (List Text)) (path : Text)
      → ((s : List Text) → o ≡ some s → All (All P) s)
      → located allow_empty o ≡ ok path
      → All P path
  located-All h b none path a e = cc
  located-All h true (some []) path a e = rw (← ok-injective [] path e) tt
  located-All h false (some []) path a e = cc
  located-All h b (some (c ∷ s)) path a e =
      rw (← ok-injective (join slash (reverse (c ∷ s))) path e)
        (join-All h (reverse (c ∷ s)) (All-reverse (All P) (c ∷ s) (a (c ∷ s) refl)))

accepted :
    (raw : Text) (allow_empty : Bool) (path : Text)
    → normalise_relative raw allow_empty ≡ ok path
    → (contains raw 0 ≡ false)
      × (is_rooted (replace_char backslash slash raw) ≡ false)
      × (located allow_empty (walk [] (split slash (replace_char backslash slash raw))) ≡ ok path)
accepted raw b path h = ground (arith, normalise_relative-walk raw b)

replaced-All :
    (raw : Text)
    → contains raw 0 ≡ false
    → All (λ c. (c ≢ 0) × (c ≢ backslash)) (replace_char backslash slash raw)
unfolding replace_char
replaced-All [] h = tt
replaced-All (c ∷ raw) h = (
  elim (Bool-cases (c == backslash)) [
    | inl e ↦ rw e (omega arith, omega arith)
    | inr e ↦ rw e (λ p. cc ((==_iff 0 c).1 (sym p), h), ne_of_== c backslash e)
  ],
  replaced-All raw (ground arith),
)

names_of :
    (allow_empty : Bool) (o : Option (List Text)) (path : Text)
    → ((s : List Text) → o ≡ some s → All IsName s)
    → located allow_empty o ≡ ok path
    → IsCanonical path × (allow_empty ≡ false → path ≢ [])
names_of b none path a e = cc
names_of true (some []) path a e = (inl (sym (ok-injective [] path e)), λ p. cc)
names_of false (some []) path a e = cc
names_of b (some (c ∷ s)) path a e =
    names_joined (reverse (c ∷ s)) (reverse-ne-nil c s)
      (All-reverse IsName (c ∷ s) (a (c ∷ s) refl))
      (ok-injective (join slash (reverse (c ∷ s))) path e)
  where
    names_joined :
        (ws : List Text)
        → ws ≢ []
        → All IsName ws
        → join slash ws ≡ path
        → IsCanonical path × (b ≡ false → path ≢ [])
    names_joined [] n d p = absurd (n refl)
    names_joined (w ∷ ws) n d p =
        (inr (rw (← p, split-names w ws d) d), λ _ q. names-ne-nil w ws d (p ∙ q))

walk-IsName : (comps s : List Text) → All (Free slash) comps → walk [] comps ≡ some s → All IsName s
walk-IsName comps s f e =
    (subst (λ o. Related o (norm_comps false [] comps)) e (norm_comps-walk comps [] f tt)).1

-- An accepted path is the root or is made of names: no component is empty, "." or "..", so that
-- it cannot lead out of the vault. Only where that is allowed is it the root.
pub normalise_relative-IsCanonical :
    (raw : Text) (allow_empty : Bool) (path : Text)
    → normalise_relative raw allow_empty ≡ ok path
    → IsCanonical path × (allow_empty ≡ false → path ≢ [])
normalise_relative-IsCanonical raw b path h =
    let value : Text = replace_char backslash slash raw in
    names_of b (walk [] (split slash value)) path
      (λ s e. walk-IsName (split slash value) s (split-Free slash value) e)
      (accepted raw b path h).2

walk_step-name : (stack : List Text) (w : Text) → IsName w → walk_step stack w ≡ some (w ∷ stack)
unfolding walk_step
walk_step-name stack w n =
    ground
      (arith, ==_of_ne w [] n.ne_nil, ==_of_ne w dot_name n.ne_dot, ==_of_ne w dot_dot n.ne_dot_dot)

-- A second walk along names changes nothing.
walk-names : (ws stack : List Text) → All IsName ws → walk stack ws ≡ some (reverse_aux ws stack)
unfolding walk
walk-names [] stack a = refl
walk-names (w ∷ ws) stack a = rw (walk_step-name stack w a.0, walk) (walk-names ws (w ∷ stack) a.1)

located-names :
    (allow_empty : Bool) (s : List Text)
    → s ≢ []
    → located allow_empty (some s) ≡ ok (join slash (reverse s))
located-names b [] n = absurd (n refl)
located-names b (c ∷ s) n = refl

reversed-ne-nil : (ws : List Text) → ws ≢ [] → reverse ws ≢ []
reversed-ne-nil [] n = n
reversed-ne-nil (w ∷ ws) n = reverse-ne-nil w ws

canonical_walk :
    (allow_empty : Bool) (path : Text)
    → IsCanonical path
    → (allow_empty ≡ false → path ≢ [])
    → located allow_empty (walk [] (split slash path)) ≡ ok path
canonical_walk false path (inl e) n = absurd (n refl e)
canonical_walk true path (inl e) n = rw e (unfold split walk walk_step ◌==◌ text_eq in refl)
canonical_walk b path (inr a) n = rw (walk-names (split slash path) [] a) (
    rw
      (located-names b (reverse (split slash path))
        (reversed-ne-nil (split slash path) (split-ne-nil slash path)))
      (rw (reverse-reverse, join-split)))

not_absolute : (path : Text) → IsCanonical path → starts_with path (slash ∷ []) ≡ false
not_absolute path c = elim (Bool-cases (starts_with path (slash ∷ []))) [
  | inl e ↦ let (r, p) = starts_with_inv path (slash ∷ []) e in absurd (leads r p c)
  | inr e ↦ e
]
  where
    leads : (r : Text) → path ≡ slash ∷ r → IsCanonical path → ⊥
    leads r p (inl e) = cc
    leads r p (inr a) =
        (subst (All IsName) (ap (split slash) p ∙ push-split-append slash [] r tt) a).0.ne_nil refl

kept :
    (path : Text)
    → All (λ c. (c ≢ 0) × (c ≢ backslash)) path
    → (contains path 0 ≡ false) × (replace_char backslash slash path ≡ path)
unfolding replace_char
kept [] a = (refl, refl)
kept (c ∷ path) a =
    ground (arith, ==_of_ne 0 c (λ p. a.0.0 (sym p)), ==_of_ne c backslash a.0.1, kept path a.1)

accepted-clean :
    (raw : Text) (allow_empty : Bool) (path : Text)
    → normalise_relative raw allow_empty ≡ ok path
    → All (λ c. (c ≢ 0) × (c ≢ backslash)) path
accepted-clean raw b path h =
    let value : Text = replace_char backslash slash raw in
    let (clean, _, e) = accepted raw b path h in
    located-All (λ c. (c ≢ 0) × (c ≢ backslash)) (omega arith, omega arith) b
      (walk [] (split slash value)) path
      (λ s p. walk-All _ (split slash value) [] s p tt (split-All _ value (replaced-All raw clean)))
      e

-- Normalising an accepted path again gives that path, unless it now begins like a drive.
pub normalise_relative-normalise_relative :
    (raw : Text) (allow_empty : Bool) (path : Text)
    → normalise_relative raw allow_empty ≡ ok path
    → normalise_relative path allow_empty ≡ (if has_drive path then err vault_path else ok path)
normalise_relative-normalise_relative raw b path h =
    let (c, n) = normalise_relative-IsCanonical raw b path h in
    let (clean, same) = kept path (accepted-clean raw b path h) in
    rw (normalise_relative-walk path b, clean, same)
      (unfold is_rooted in rw (not_absolute path c, canonical_walk b path c n))
