-- ===== src/Paths/Walk.antt =====
-- The independent description of a relative path: a walk down the vault from its root, one
-- component at a time, which fails as soon as it would leave the root. `normpath` computes it.
use brain_mcp.Base.{
  ◌≡◌, refl, ap, ◌≢◌, inl, inr, false, not, ◌||◌, Option, none, some, List, [], ◌∷◌, ◌++◌, All,
  ◌==◌, nat_eq, ==_iff, ==_refl, ==_of_ne, ne_of_==, arith, Bool-cases, if◌then◌else◌,
}
use brain_mcp.Base.Text.{Text, text_eq, slash}
use brain_mcp.Base.Text.Laws.{Free}
use brain_mcp.Paths.{dot_name, dot_dot, norm_step, is_nil, pop, top_is_dot_dot, norm_comps}

abbrev pub up : List Text → Option (List Text)
up [] = none
up (c ∷ stack) = some stack

-- The stack holds the names from the root, the last one first.
unfoldable pub walk_step : List Text → Text → Option (List Text)
walk_step stack comp =
    if comp == [] || comp == dot_name
    then some stack
    else if comp == dot_dot
    then up stack
    else some (comp ∷ stack)

unfoldable pub walk : List Text → List Text → Option (List Text)
unfolding walk_step
walk stack [] = some stack
walk stack (comp ∷ comps) = elim (walk_step stack comp) [ none ↦ none | some s ↦ walk s comps ]

-- A component that names an entry of a directory.
pub record IsName (w : Text) : Type 0 where
  pub free : Free slash w
  pub ne_nil : w ≢ []
  pub ne_dot : w ≢ dot_name
  pub ne_dot_dot : w ≢ dot_dot

-- `new_comps` begins with "..", which no later component removes.
abbrev pub Escaped : List Text → Type 0
Escaped stack = (s : List Text) × (stack ≡ s ++ (dot_dot ∷ []))

abbrev pub Related : Option (List Text) → List Text → Type 0
Related none stack = Escaped stack
Related (some s) stack = (stack ≡ s) × All IsName s

norm_step-Escaped :
    (s : List Text) (comp : Text) → Escaped (norm_step false (s ++ (dot_dot ∷ [])) comp)
unfolding norm_step
norm_step-Escaped [] comp = elim (Bool-cases (comp == [] || comp == dot_name)) [
  | inl e ↦ ([], rw e)
  | inr e ↦ (comp ∷ [], ground (arith, ==_refl dot_dot))
]
norm_step-Escaped (x ∷ s) comp = elim (Bool-cases (comp == [] || comp == dot_name)) [
  | inl e ↦ (x ∷ s, rw e)
  | inr e ↦ elim (Bool-cases (not (comp == dot_dot) || x == dot_dot)) [
    | inl f ↦ (comp ∷ x ∷ s, ground arith)
    | inr f ↦ (s, ground arith)
  ]
]

norm_comps-Escaped :
    (comps stack : List Text) → Escaped stack → Escaped (norm_comps false stack comps)
unfolding norm_comps
norm_comps-Escaped [] stack h = h
norm_comps-Escaped (comp ∷ comps) stack (s, e) =
    norm_comps-Escaped comps (norm_step false stack comp) (rw e (norm_step-Escaped s comp))

norm_step-walk_step :
    (stack : List Text) (comp : Text)
    → All IsName stack
    → Free slash comp
    → Related (walk_step stack comp) (norm_step false stack comp)
unfolding walk_step norm_step
norm_step-walk_step stack comp a f = elim (Bool-cases (comp == [])) [
  | inl e ↦ rw e (refl, a)
  | inr e ↦ elim (Bool-cases (comp == dot_name)) [
    | inl g ↦ rw (e, g) (refl, a)
    | inr g ↦ elim (Bool-cases (comp == dot_dot)) [
      | inl h ↦ rw (e, g, h) (at_dot_dot stack a ((==_iff comp dot_dot).0 h))
      | inr h ↦ rw (e, g, h) (refl, (name e g h, a))
    ]
  ]
]
  where
    name :
        (comp == []) ≡ false → (comp == dot_name) ≡ false → (comp == dot_dot) ≡ false → IsName comp
    name e g h = record {
      free = f;
      ne_nil = ne_of_== comp [] e;
      ne_dot = ne_of_== comp dot_name g;
      ne_dot_dot = ne_of_== comp dot_dot h;
    }

    at_dot_dot :
        (s : List Text)
        → All IsName s
        → comp ≡ dot_dot
        → Related (up s) (if is_nil s || top_is_dot_dot s then comp ∷ s else pop s)
    at_dot_dot [] b p = ([], ap (λ (c : Text). c ∷ []) p)
    at_dot_dot (x ∷ s) b p = rw (==_of_ne x dot_dot b.0.ne_dot_dot) (refl, b.1)

norm_comps-step :
    (comps : List Text) (o : Option (List Text)) (stack : List Text)
    → Related o stack
    → ((s : List Text) → All IsName s → Related (walk s comps) (norm_comps false s comps))
    → Related (elim o [ none ↦ none | some s ↦ walk s comps ]) (norm_comps false stack comps)
norm_comps-step comps none stack r go = norm_comps-Escaped comps stack r
norm_comps-step comps (some s) stack r go = rw (r.0) (go s r.1)

pub norm_comps-walk :
    (comps stack : List Text)
    → All (Free slash) comps
    → All IsName stack
    → Related (walk stack comps) (norm_comps false stack comps)
unfolding walk norm_comps
norm_comps-walk [] stack f a = (refl, a)
norm_comps-walk (comp ∷ comps) stack f a =
    norm_comps-step comps (walk_step stack comp) (norm_step false stack comp)
      (norm_step-walk_step stack comp a f.0) (λ s b. norm_comps-walk comps s f.1 b)
