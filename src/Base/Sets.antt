-- ===== src/Base/Sets.antt =====
-- Python's `set` as a list of its members, and a `defaultdict(set)`. What is said of a set is
-- which members it has.
use mathlib.Core.Path.{◌≡◌, refl, ap, ◌∙◌}
use mathlib.Core.Logic.{inl, inr}
use mathlib.Core.Bool.{true, not, ◌&&◌, ◌||◌}
use mathlib.Core.Option.{Option, none, some}
use mathlib.Core.List.{List, [], ◌∷◌}
use native.Mathlib.Omega.{arith}
use brain_mcp.Base.Tests.{Eq, ◌==◌, ==_iff, Bool-cases, if◌then◌else◌}
use brain_mcp.Base.Lists.{contains}
use brain_mcp.Base.Dict.{
  Dict, lookup, insert, map_values, map_option, lookup-insert, lookup-map_values,
}

abbrev pub get_or_empty {ℓ} : {A : Type ℓ} → Option (List A) → List A
get_or_empty none = []
get_or_empty (some xs) = xs

module _ {ℓ} {A : Type ℓ} ⦃e : Eq A⦄ where
  -- `s.add(x)`
  unfoldable pub add : A → List A → List A
  add x [] = x ∷ []
  add x (y ∷ s) = if y == x then y ∷ s else y ∷ add x s

  -- `s.discard(x)`
  unfoldable pub discard : A → List A → List A
  discard x [] = []
  discard x (y ∷ s) = let rest = discard x s in if y == x then rest else y ∷ rest

  -- `{f(x) for x in xs}`, from a list of the images.
  unfoldable pub to_set : List A → List A
  unfolding add
  to_set [] = []
  to_set (x ∷ xs) = add x (to_set xs)

  pub contains-add : (x y : A) (s : List A) → contains (add x s) y ≡ (y == x || contains s y)
  unfolding add
  contains-add x y [] = ground arith
  contains-add x y (z ∷ s) = ground (arith, ==_iff z x, ==_iff y z, ==_iff y x, contains-add x y s)

  pub contains-discard :
      (x y : A) (s : List A) → contains (discard x s) y ≡ (not (y == x) && contains s y)
  unfolding discard
  contains-discard x y [] = ground arith
  contains-discard x y (z ∷ s) =
      ground (arith, ==_iff z x, ==_iff y z, ==_iff y x, contains-discard x y s)

  pub contains-to_set : (y : A) (xs : List A) → contains (to_set xs) y ≡ contains xs y
  unfolding to_set
  contains-to_set y [] = refl
  contains-to_set y (x ∷ xs) = ground (arith, contains-add x y (to_set xs), contains-to_set y xs)

module _ {ℓ κ} {K : Type ℓ} {A : Type κ} ⦃e : Eq K⦄ ⦃f : Eq A⦄ where
  -- `d[k]` and `d.get(k, set())`
  abbrev pub members : K → Dict K (List A) → List A
  members k d = get_or_empty (lookup k d)

  -- `for k in keys: d[k].add(x)`
  unfoldable pub add_at : A → List K → Dict K (List A) → Dict K (List A)
  add_at x [] d = d
  add_at x (k ∷ keys) d = add_at x keys (insert k (add x (members k d)) d)

  -- `for k in keys: d[k].discard(x)`
  unfoldable pub discard_at : A → List K → Dict K (List A) → Dict K (List A)
  discard_at x [] d = d
  discard_at x (k ∷ keys) d = discard_at x keys (insert k (discard x (members k d)) d)

  contains-insert :
      (j k : K) (s : List A) (y : A) (d : Dict K (List A))
      → contains (members k (insert j s d)) y
        ≡ (if j == k then contains s y else contains (members k d) y)
  contains-insert j k s y d = elim (Bool-cases (j == k)) [
    | inl e ↦ rw (lookup-insert, e)
    | inr e ↦ rw (lookup-insert, e)
  ]

  members_eq : (j k : K) (d : Dict K (List A)) → (j == k) ≡ true → members j d ≡ members k d
  members_eq j k d e = ap (λ (i : K). members i d) ((==_iff j k).0 e)

  pub contains-add_at :
      (x y : A) (keys : List K) (k : K) (d : Dict K (List A))
      → contains (members k (add_at x keys d)) y
        ≡ ((contains keys k && y == x) || contains (members k d) y)
  unfolding add_at
  contains-add_at x y [] k d = refl
  contains-add_at x y (j ∷ keys) k d =
      contains-add_at x y keys k (insert j (add x (members j d)) d)
      ∙ (rw (contains-insert j k (add x (members j d)) y d, contains-add x y (members j d))
          (elim (Bool-cases (j == k)) [
            | inl e ↦ rw (members_eq j k d e) (ground (arith, ==_iff j k, ==_iff k j))
            | inr e ↦ ground (arith, ==_iff j k, ==_iff k j)
          ]))

  pub contains-discard_at :
      (x y : A) (keys : List K) (k : K) (d : Dict K (List A))
      → contains (members k (discard_at x keys d)) y
        ≡ (not (contains keys k && y == x) && contains (members k d) y)
  unfolding discard_at
  contains-discard_at x y [] k d = ground arith
  contains-discard_at x y (j ∷ keys) k d =
      contains-discard_at x y keys k (insert j (discard x (members j d)) d)
      ∙ (rw (contains-insert j k (discard x (members j d)) y d, contains-discard x y (members j d))
          (elim (Bool-cases (j == k)) [
            | inl e ↦ rw (members_eq j k d e) (ground (arith, ==_iff j k, ==_iff k j))
            | inr e ↦ ground (arith, ==_iff j k, ==_iff k j)
          ]))

  -- A discard in every set of the dictionary.
  pub contains-map_values-discard :
      (x y : A) (k : K) (d : Dict K (List A))
      → contains (members k (map_values (discard x) d)) y
        ≡ (not (y == x) && contains (members k d) y)
  contains-map_values-discard x y k d = rw lookup-map_values (by_value (lookup k d))
    where
      by_value :
          (o : Option (List A))
          → contains (get_or_empty (map_option (discard x) o)) y
            ≡ (not (y == x) && contains (get_or_empty o) y)
      by_value none = ground arith
      by_value (some s) = contains-discard x y s
