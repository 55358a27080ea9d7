-- ===== src/Scoping/Agreement.antt =====
-- A tool's read scope is the scope of a direct read.
use brain_mcp.Base.{
  ◌≡◌, refl, ap, sym, ◌∙◌, inl, inr, Bool, true, false, ◌&&◌, Option, List, [], ◌∷◌, Bool-cases,
  ◌==◌, nat_eq, ok, ok-injective, >>=-eq-ok,
}
use brain_mcp.Base.Text.{Text, text_eq, slash, strip, replace_char}
use brain_mcp.Paths.{is_nil, backslash}
use brain_mcp.Identity.{Identity}
use brain_mcp.Policy.{EffectiveAccessPolicy, World, VaultAccessPolicy, inherit, longest}
use brain_mcp.Policy.Access.{effective, permits_read, may_read, denied}
use brain_mcp.Scoping.{ReadScope, current, ask, allows}

may_read-nil :
    (world : World) (e : EffectiveAccessPolicy) (path : Text)
    → (is_nil e.read_paths && is_nil e.deny_read_paths) ≡ true
    → may_read world e path false ≡ true
unfolding may_read denied longest
may_read-nil world e path h = by_rules e.read_paths e.deny_read_paths h
  where
    by_rules :
        (read_paths deny_read_paths : List Text)
        → (is_nil read_paths && is_nil deny_read_paths) ≡ true
        → may_read world
            (record e { read_paths = read_paths; deny_read_paths = deny_read_paths })
            path
            false
          ≡ true
    by_rules [] [] h = refl
    by_rules [] (r ∷ rules) h = cc
    by_rules (r ∷ rules) rules' h = cc

-- The scope that a request gets allows a path exactly as `permits_read` does, whether or not it
-- takes the short cut for a policy without read rules; neither raises.
pub allows-permits_read :
    (world : World) (current_identity : Option Identity) (policy : VaultAccessPolicy)
    (scope : ReadScope)
    → current world current_identity policy ≡ ok scope
    → (path : Text)
    → (answer : Bool) × (allows scope path ≡ ok answer)
      × (permits_read world current_identity policy path false inherit ≡ ok answer)
unfolding current allows permits_read
allows-permits_read world current_identity policy scope h path =
    let (e, p, q) = >>=-eq-ok (effective world current_identity policy inherit).0 _ h in
    let name = strip (λ c. c == slash) (replace_char backslash slash path) in
    let same = ok-injective _ scope q in
    (
      may_read world e name false,
      elim (Bool-cases (is_nil e.read_paths && is_nil e.deny_read_paths)) [
        | inl n ↦
            ap (λ (s : ReadScope). ask s.predicate path) (sym same)
            ∙ rw n (ap ok (sym (may_read-nil world e name n)))
        | inr n ↦ ap (λ (s : ReadScope). ask s.predicate path) (sym same) ∙ rw (n, p)
      ],
      rw p,
    )
