-- ===== src/Paths/Normalise.antt =====
-- `_normalise_relative` is a walk from the vault's root: it accepts a path exactly when the walk
-- stays inside, and returns the names on the way. What follows for its results: they are made of
-- names alone.
use mathlib.Core.List.{reverse-append, reverse-reverse}
use brain_mcp.Base.{
  ◌≡◌, refl, ap, subst, ◌∙◌, ◌≢◌, inl, inr, Bool, true, false, ◌||◌, Option, none, some, List, [],
  ◌∷◌, reverse, All, All-reverse, contains, ◌==◌, nat_eq, ==_refl, ==_of_ne, arith, Bool-cases,
  Result, ok, err, if◌then◌else◌,
}
use brain_mcp.Base.Text.{Text, text_eq, slash, dot, starts_with, split, join, replace_char}
use brain_mcp.Base.Text.Laws.{
  Free, split-join, split-Free, starts_with_inv, starts_with-append, push-split-append, split-Free',
}
use brain_mcp.Errors.{Error, vault_path}
use brain_mcp.Paths.{
  dot_name, dot_dot, backslash, is_rooted, norm_comps, leading_slashes, normpath, confined,
  normalise_relative,
}
use brain_mcp.Paths.Walk.{walk, IsName, Related, norm_comps-walk}

-- What the end of a walk means: no path outside, the root only where that is allowed, and else
-- the names from the root down.
abbrev pub located : Bool → Option (List Text) → Result Error Text
located allow_empty none = err vault_path
located true (some []) = ok []
located false (some []) = err vault_path
located allow_empty (some (c ∷ stack)) = ok (join slash (reverse (c ∷ stack)))

-- The text that `normpath` makes of its components.
abbrev named : List Text → Text
named stack = let path = join slash (reverse stack) in if path == [] then dot_name else path

leading_slashes-nil :
    (value : Text) → starts_with value (slash ∷ []) ≡ false → leading_slashes value ≡ []
unfolding leading_slashes
leading_slashes-nil [] h = refl
leading_slashes-nil (c ∷ value) h = ground arith

normpath-named :
    (value : Text)
    → starts_with value (slash ∷ []) ≡ false
    → normpath value ≡ named (norm_comps false [] (split slash value))
unfolding normpath
normpath-named [] h = ground (arith, ==_refl {A = Text} [])
normpath-named (c ∷ value) h =
    rw (leading_slashes-nil (c ∷ value) h, ==_of_ne (c ∷ value) [] (λ p. cc)) refl

Free-dots : Free slash dot_dot
Free-dots = (omega arith, (omega arith, tt))

-- Names that are joined are no path that `_normalise_relative` rewrites or refuses.
module _ (w : Text) (ws : List Text) (a : All IsName (w ∷ ws)) where
  Free-names : (vs : List Text) → All IsName vs → All (Free slash) vs
  Free-names [] b = tt
  Free-names (v ∷ vs) b = (b.0.free, Free-names vs b.1)

  pub split-names : split slash (join slash (w ∷ ws)) ≡ w ∷ ws
  split-names = split-join slash w ws (Free-names (w ∷ ws) a)

  head-IsName : (v : Text) (vs : List Text) → split slash (join slash (w ∷ ws)) ≡ v ∷ vs → IsName v
  head-IsName v vs p = subst IsName (cc (p, split-names)) a.0

  names-ne-Free : (v : Text) → Free slash v → ¬ IsName v → join slash (w ∷ ws) ≢ v
  names-ne-Free v f n p = n (head-IsName v [] (ap (split slash) p ∙ split-Free' slash v f))

  pub names-ne-nil : join slash (w ∷ ws) ≢ []
  names-ne-nil = names-ne-Free [] tt (λ n. n.ne_nil refl)

  names-ne-dot : join slash (w ∷ ws) ≢ dot_name
  names-ne-dot = names-ne-Free dot_name (omega arith, tt) (λ n. n.ne_dot refl)

  names-ne-dot_dot : join slash (w ∷ ws) ≢ dot_dot
  names-ne-dot_dot = names-ne-Free dot_dot Free-dots (λ n. n.ne_dot_dot refl)

  names-inside : starts_with (join slash (w ∷ ws)) (dot ∷ dot ∷ slash ∷ []) ≡ false
  names-inside = elim (Bool-cases (starts_with (join slash (w ∷ ws)) (dot ∷ dot ∷ slash ∷ []))) [
    | inl e ↦
        let (r, p) = starts_with_inv (join slash (w ∷ ws)) (dot ∷ dot ∷ slash ∷ []) e in
        absurd (
          (head-IsName dot_dot (split slash r)
              (ap (split slash) p ∙ push-split-append slash dot_dot r Free-dots)).ne_dot_dot
            refl)
    | inr e ↦ e
  ]

  confined-names :
      (allow_empty : Bool) → confined allow_empty (join slash (w ∷ ws)) ≡ ok (join slash (w ∷ ws))
  unfolding confined
  confined-names allow_empty =
      rw
        (
          ==_of_ne (join slash (w ∷ ws)) dot_name names-ne-dot,
          ==_of_ne (join slash (w ∷ ws)) [] names-ne-nil,
          ==_of_ne (join slash (w ∷ ws)) dot_dot names-ne-dot_dot,
          names-inside,
        )
        (ground arith)

confined-escaped :
    (allow_empty : Bool) (ws : List Text)
    → confined allow_empty (join slash (dot_dot ∷ ws)) ≡ err vault_path
unfolding confined join
confined-escaped allow_empty [] =
    ground
      (arith, ==_of_ne dot_dot dot_name (λ p. cc), ==_of_ne dot_dot [] (λ p. cc), ==_refl dot_dot)
confined-escaped allow_empty (w ∷ ws) =
    let path : Text = dot ∷ dot ∷ slash ∷ join slash (w ∷ ws) in
    ground (
      arith,
      ==_of_ne path dot_name (λ p. cc),
      ==_of_ne path [] (λ p. cc),
      starts_with-append (dot ∷ dot ∷ slash ∷ []) (join slash (w ∷ ws)),
    )

join-dot_dot-ne-nil : (ws : List Text) → join slash (dot_dot ∷ ws) ≢ []
unfolding join
join-dot_dot-ne-nil [] p = cc
join-dot_dot-ne-nil (w ∷ ws) p = cc

names-Related :
    (allow_empty : Bool) (ws : List Text)
    → ws ≢ []
    → All IsName ws
    → confined allow_empty (if join slash ws == [] then dot_name else join slash ws)
      ≡ ok (join slash ws)
names-Related allow_empty [] n a = absurd (n refl)
names-Related allow_empty (w ∷ ws) n a =
    rw (==_of_ne (join slash (w ∷ ws)) [] (names-ne-nil w ws a)) (confined-names w ws a allow_empty)

pub reverse-ne-nil : (c : Text) (t : List Text) → reverse (c ∷ t) ≢ []
reverse-ne-nil c t p = cc (ap reverse p, reverse-reverse (c ∷ t))

confined-root :
    (allow_empty : Bool) → confined allow_empty (named []) ≡ located allow_empty (some [])
unfolding confined join text_eq ◌==◌
confined-root true = refl
confined-root false = refl

confined-named :
    (allow_empty : Bool) (o : Option (List Text)) (stack : List Text)
    → Related o stack
    → confined allow_empty (named stack) ≡ located allow_empty o
confined-named allow_empty none stack (s, e) =
    rw
      (
        e,
        reverse-append s (dot_dot ∷ []),
        ==_of_ne (join slash (dot_dot ∷ reverse s)) [] (join-dot_dot-ne-nil (reverse s)),
      )
      (confined-escaped allow_empty (reverse s))
confined-named allow_empty (some []) stack (e, a) = rw e (confined-root allow_empty)
confined-named allow_empty (some (c ∷ t)) stack (e, a) = rw e (
    names-Related allow_empty (reverse (c ∷ t)) (reverse-ne-nil c t) (All-reverse IsName (c ∷ t) a))

not_slash : (value : Text) → is_rooted value ≡ false → starts_with value (slash ∷ []) ≡ false
unfolding is_rooted
not_slash value h = ground arith

-- `_normalise_relative` as a whole: a path is refused if it holds a NUL, is absolute or names a
-- drive, and otherwise it is what the walk along its components gives.
pub normalise_relative-walk :
    (raw : Text) (allow_empty : Bool)
    → normalise_relative raw allow_empty ≡ (
        let value = replace_char backslash slash raw in
        if contains raw 0 || is_rooted value
        then err vault_path
        else located allow_empty (walk [] (split slash value)))
unfolding normalise_relative
normalise_relative-walk raw allow_empty = elim (Bool-cases (contains raw 0)) [
  | inl e ↦ rw e
  | inr e ↦ elim (Bool-cases (is_rooted (replace_char backslash slash raw))) [
    | inl f ↦ rw (e, f)
    | inr f ↦
        rw
          (
            e,
            f,
            normpath-named (replace_char backslash slash raw)
                (not_slash (replace_char backslash slash raw) f),
          )
          (confined-named allow_empty (walk [] (split slash (replace_char backslash slash raw))) _ (
            norm_comps-walk (split slash (replace_char backslash slash raw)) []
              (split-Free slash (replace_char backslash slash raw)) tt))
  ]
]
