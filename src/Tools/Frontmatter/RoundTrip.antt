-- ===== src/Tools/Frontmatter/RoundTrip.antt =====
-- What `_serialize_frontmatter` of src/obsidian_mcp/tools/write.py writes,
-- `_parse_frontmatter` reads.
use brain_mcp.Base.{
  ℕ, ◌≡◌, refl, false, Bool-cases, inl, inr, Option, none, some, [], ◌∷◌, ◌++◌, contains, ◌==◌,
  nat_eq, arith,
}
use native.Mathlib.Decide.{ℕ_discrete}
use brain_mcp.Base.Text.{Text, text_eq}
use brain_mcp.Revisions.{after_prefix}
use brain_mcp.Tools.Frontmatter.{
  Frontmatter, Yaml, opening, fence, newline, closed, closing, match_frontmatter, parse_frontmatter,
  serialize_frontmatter,
}

-- A line of dashes does not occur below the first line.
abbrev pub HasNoFence : Text → Type 0
HasNoFence [] = Unit
HasNoFence (c ∷ s) = (after_prefix (c ∷ s) fence ≡ none) × HasNoFence s

abbrev dashes : Text
dashes = b'-' ∷ b'-' ∷ b'-' ∷ []

-- A prefix without a line feed is not completed by one.
after_prefix-append :
    (s p t : Text)
    → contains p b'\n' ≡ false
    → after_prefix s p ≡ none
    → after_prefix (s ++ (b'\n' ∷ t)) p ≡ none
unfolding after_prefix
after_prefix-append [] [] t n h = cc
after_prefix-append (d ∷ s) [] t n h = cc
after_prefix-append [] (c ∷ p) t n h = ground arith
after_prefix-append (d ∷ s) (c ∷ p) t n h = elim (Bool-cases (d == c)) [
  | inl e ↦ rw e (after_prefix-append s p t (ground arith) (rw e at h))
  | inr e ↦ rw e refl
]

dashes_free : contains dashes b'\n' ≡ false
unfolding ◌==◌ nat_eq ℕ_discrete
dashes_free = refl

fence-append :
    (c : ℕ) (s t : Text)
    → after_prefix (c ∷ s) fence ≡ none
    → after_prefix ((c ∷ s) ++ (b'\n' ∷ t)) fence ≡ none
unfolding after_prefix
fence-append c s t h = elim (Bool-cases (c == b'\n')) [
  | inl e ↦ rw e (after_prefix-append s dashes t dashes_free (rw e at h))
  | inr e ↦ rw e refl
]

closing-opened : (body : Text) → closing (fence ++ (newline ++ body)) ≡ some ([], body)
unfolding closing after_prefix ◌==◌ nat_eq ℕ_discrete
closing-opened body = refl

closed-none :
    (c : ℕ) (s before after : Text) (found : Option Text) (later : Option (Text × Text))
    → found ≡ none
    → later ≡ some (before, after)
    → closed c s found later ≡ some (c ∷ before, after)
closed-none c s before after found later f l = rw (f, l) refl

closing-fence :
    (yaml_text body : Text)
    → HasNoFence yaml_text
    → closing (yaml_text ++ (fence ++ (newline ++ body))) ≡ some (yaml_text, body)
unfolding closing
closing-fence [] body n = closing-opened body
closing-fence (c ∷ s) body n =
    closed-none c (s ++ (fence ++ (newline ++ body))) s body _ _
      (fence-append c s (dashes ++ (newline ++ body)) n.0) (closing-fence s body n.1)

opened-text : (s : Text) → after_prefix (opening ++ s) opening ≡ some s
unfolding after_prefix ◌==◌ nat_eq ℕ_discrete
opened-text s = refl

-- A frontmatter and a body are read back from the text that they are written to, if the
-- YAML library reads back what it wrote and wrote no line of dashes.
pub parse_frontmatter-serialize_frontmatter :
    {V : Type 0} (yaml : Yaml V) (fm : Frontmatter V) (body : Text)
    → yaml.load (yaml.dump fm) ≡ some fm
    → HasNoFence (yaml.dump fm)
    → parse_frontmatter yaml (serialize_frontmatter yaml fm body) ≡ (fm, body)
unfolding parse_frontmatter serialize_frontmatter match_frontmatter
parse_frontmatter-serialize_frontmatter yaml fm body loads n =
    rw
      (
        opened-text (yaml.dump fm ++ (fence ++ (newline ++ body))),
        closing-fence (yaml.dump fm) body n,
        loads,
      )
      refl
