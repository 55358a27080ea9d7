-- ===== src/Base/Text/Laws.antt =====
-- Laws of the string methods: prefixes, and the round trip of `split` and `join`.
use Prim.Native.Nat.{ℕ}
use mathlib.Core.Path.{◌≡◌, refl, ap, sym, ◌∙◌}
use mathlib.Core.Logic.{◌⊎◌, inl, inr, ◌≢◌}
use mathlib.Core.Bool.{Bool, true, false}
use mathlib.Core.List.{List, [], ◌∷◌, ◌++◌}
use native.Mathlib.Omega.{arith}
use brain_mcp.Base.Tests.{
  ◌==◌, nat_eq, ==_iff, ==_refl, ==_of_ne, ne_of_==, Bool-cases, if◌then◌else◌,
}
use brain_mcp.Base.Lists.{All}
use brain_mcp.Base.Text.{Text, text_eq, starts_with, split, join, push}

pub starts_with-append : (p r : Text) → starts_with (p ++ r) p ≡ true
unfolding starts_with
starts_with-append [] r = refl
starts_with-append (c ∷ p) r = ground (arith, ==_refl c, starts_with-append p r)

pub starts_with_inv : (s p : Text) → starts_with s p ≡ true → (r : Text) × (s ≡ p ++ r)
unfolding starts_with
starts_with_inv s [] h = (s, refl)
starts_with_inv [] (c ∷ p) h = cc
starts_with_inv (d ∷ s) (c ∷ p) h =
    let (r, e) = starts_with_inv s p (ground arith) in (r, ground (arith, ==_iff d c))

-- Of two prefixes of one text the one is a prefix of the other.
pub prefixes_comparable :
    (a b x y : Text) → a ++ x ≡ b ++ y → ((r : Text) × (b ≡ a ++ r)) ⊎ ((r : Text) × (a ≡ b ++ r))
prefixes_comparable [] b x y h = inl (b, refl)
prefixes_comparable (c ∷ a) [] x y h = inr (c ∷ a, refl)
prefixes_comparable (c ∷ a) (d ∷ b) x y h = elim (prefixes_comparable a b x y (ground arith)) [
  | inl (r, e) ↦ inl (r, ground arith)
  | inr (r, e) ↦ inr (r, ground arith)
]

pub append_cancel : (p a b : Text) → p ++ a ≡ p ++ b → a ≡ b
append_cancel [] a b h = h
append_cancel (c ∷ p) a b h = append_cancel p a b (ground arith)

-- A list that ends in a character: either nothing follows that, or a list that ends so too.
pub append_end_cases :
    (c : ℕ) (a b r : Text)
    → a ++ (c ∷ []) ≡ b ++ r
    → ((r ≡ []) × (b ≡ a ++ (c ∷ []))) ⊎ ((t : Text) × (r ≡ t ++ (c ∷ [])) × (a ≡ b ++ t))
append_end_cases c a [] r h = inr (a, sym h, refl)
append_end_cases c [] (d ∷ []) [] h = inl (refl, sym h)
append_end_cases c [] (d ∷ []) (e ∷ r) h = ground arith
append_end_cases c [] (d ∷ e ∷ b) r h = ground arith
append_end_cases c (x ∷ a) (d ∷ b) r h = elim (append_end_cases c a b r (ground arith)) [
  | inl (e, f) ↦ inl (e, ground arith)
  | inr (t, e, f) ↦ inr (t, e, ground arith)
]

-- A word that does not hold the separator.
abbrev pub Free : ℕ → Text → Type 0
Free sep w = All (λ c. c ≢ sep) w

pub push-split-append :
    (sep : ℕ) (w s : Text) → Free sep w → split sep (w ++ (sep ∷ s)) ≡ w ∷ split sep s
unfolding split
push-split-append sep [] s h = ground (arith, ==_refl sep)
push-split-append sep (c ∷ w) s h =
    ground (arith, ==_of_ne c sep h.0, push-split-append sep w s h.1)

pub split-Free' : (sep : ℕ) (w : Text) → Free sep w → split sep w ≡ w ∷ []
unfolding split
split-Free' sep [] h = refl
split-Free' sep (c ∷ w) h = ground (arith, ==_of_ne c sep h.0, split-Free' sep w h.1)

pub split-join :
    (sep : ℕ) (w : Text) (ws : List Text)
    → All (Free sep) (w ∷ ws)
    → split sep (join sep (w ∷ ws)) ≡ w ∷ ws
unfolding join
split-join sep w [] h = split-Free' sep w h.0
split-join sep w (v ∷ ws) h =
    push-split-append sep w (join sep (v ∷ ws)) h.0
    ∙ ap (λ (t : List Text). w ∷ t) (split-join sep v ws h.1)

push-Free : (sep c : ℕ) (ws : List Text) → c ≢ sep → All (Free sep) ws → All (Free sep) (push c ws)
push-Free sep c [] h a = ((h, tt), tt)
push-Free sep c (w ∷ ws) h a = ((h, a.0), a.1)

pub split-Free : (sep : ℕ) (s : Text) → All (Free sep) (split sep s)
unfolding split
split-Free sep [] = (tt, tt)
split-Free sep (c ∷ s) = elim (Bool-cases (c == sep)) [
  | inl e ↦ rw e (tt, split-Free sep s)
  | inr e ↦ rw e (push-Free sep c (split sep s) (ne_of_== c sep e) (split-Free sep s))
]

join-push : (sep c : ℕ) (ws : List Text) → ws ≢ [] → join sep (push c ws) ≡ c ∷ join sep ws
unfolding join
join-push sep c [] n = absurd (n refl)
join-push sep c (w ∷ []) n = refl
join-push sep c (w ∷ v ∷ ws) n = refl

pub split-ne-nil : (sep : ℕ) (s : Text) → split sep s ≢ []
unfolding split
split-ne-nil sep [] p = cc
split-ne-nil sep (c ∷ s) p = absurd (push_ne (split sep s) (c == sep) p)
  where
    push_ne : (ws : List Text) (b : Bool) → (if b then [] ∷ ws else push c ws) ≢ []
    push_ne ws true q = cc
    push_ne [] false q = cc
    push_ne (w ∷ ws) false q = cc

join-cons_nil : (sep : ℕ) (ws : List Text) → ws ≢ [] → join sep ([] ∷ ws) ≡ sep ∷ join sep ws
unfolding join
join-cons_nil sep [] n = absurd (n refl)
join-cons_nil sep (w ∷ ws) n = refl

pub join-split : (sep : ℕ) (s : Text) → join sep (split sep s) ≡ s
unfolding split
join-split sep [] = unfold join in refl
join-split sep (c ∷ s) = elim (Bool-cases (c == sep)) [
  | inl e ↦
      rw (e, join-cons_nil sep (split sep s) (split-ne-nil sep s), join-split sep s)
        (ap (λ (x : ℕ). x ∷ s) (sym ((==_iff c sep).0 e)))
  | inr e ↦ rw (e, join-push sep c (split sep s) (split-ne-nil sep s), join-split sep s)
]
