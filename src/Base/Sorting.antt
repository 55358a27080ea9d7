-- ===== src/Base/Sorting.antt =====
-- Python's `sorted` on strings: the order of code points, letter by letter.
use mathlib.Core.Path.{◌≡◌, refl}
use mathlib.Core.Bool.{Bool, true, false, ◌&&◌, ◌||◌}
use mathlib.Core.List.{List, [], ◌∷◌}
use native.Mathlib.Omega.{arith}
use brain_mcp.Base.Tests.{◌==◌, nat_eq, ltb, if◌then◌else◌}
use brain_mcp.Base.Lists.{contains}
use brain_mcp.Base.Text.{Text, text_eq}

-- `s <= t`
unfoldable pub text_leb : Text → Text → Bool
text_leb [] t = true
text_leb (c ∷ s) [] = false
text_leb (c ∷ s) (d ∷ t) = ltb c d || (c == d && text_leb s t)

unfoldable pub insert_sorted : Text → List Text → List Text
insert_sorted x [] = x ∷ []
insert_sorted x (y ∷ ys) = if text_leb x y then x ∷ y ∷ ys else y ∷ insert_sorted x ys

unfoldable pub sorted : List Text → List Text
unfolding insert_sorted
sorted [] = []
sorted (x ∷ xs) = insert_sorted x (sorted xs)

contains-insert_sorted :
    (x y : Text) (ys : List Text) → contains (insert_sorted x ys) y ≡ (y == x || contains ys y)
unfolding insert_sorted
contains-insert_sorted x y [] = refl
contains-insert_sorted x y (z ∷ ys) = ground (arith, contains-insert_sorted x y ys)

pub contains-sorted : (y : Text) (xs : List Text) → contains (sorted xs) y ≡ contains xs y
unfolding sorted
contains-sorted y [] = refl
contains-sorted y (x ∷ xs) =
    ground (arith, contains-insert_sorted x y (sorted xs), contains-sorted y xs)
