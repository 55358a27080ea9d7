-- ===== src/Query/Visible.antt =====
-- What a query returns, its caller may read.
use brain_mcp.Base.{
  ◌≡◌, ap, sym, subst, ◌∙◌, ◌⊎◌, inl, inr, Bool, true, false, Option, none, some, List, [], ◌∷◌,
  contains, ◌==◌, ==_iff, Bool-cases, Result, ok, ok-injective, >>=-eq-ok, if◌then◌else◌,
}
use brain_mcp.Base.Text.{Text, text_eq}
use brain_mcp.Errors.{Error}
use brain_mcp.Identity.{Identity}
use brain_mcp.Policy.{World, VaultAccessPolicy, inherit}
use brain_mcp.Policy.Access.{permits_read}
use brain_mcp.Index.{VaultIndex}
use brain_mcp.Index.Queries as Queries
use brain_mcp.Scoping.{ReadScope, current, ask, allows, filter_by, filter_with, filter}
use brain_mcp.Scoping.Agreement.{allows-permits_read}
use brain_mcp.Query.{get_backlinks}

pub filter_by-allowed :
    (predicate : Text → Result Error Bool) (paths found : List Text) (path : Text)
    → filter_by predicate paths ≡ ok found
    → contains found path ≡ true
    → predicate path ≡ ok true
unfolding filter_by
filter_by-allowed predicate [] found path h k = cc (ok-injective [] found h, k)
filter_by-allowed predicate (p ∷ paths) found path h k =
    let (allowed, a, h₁) = >>=-eq-ok (predicate p) _ h in
    let (rest, b, h₂) = >>=-eq-ok (filter_by predicate paths) _ h₁ in
    after rest (Bool-cases allowed) a (λ m. filter_by-allowed predicate paths rest path b m)
      (subst (λ xs. contains xs path ≡ true) (sym (ok-injective _ found h₂)) k)
  where
    after :
        {allowed : Bool} (rest : List Text)
        → ((allowed ≡ true) ⊎ (allowed ≡ false))
        → predicate p ≡ ok allowed
        → (contains rest path ≡ true → predicate path ≡ ok true)
        → contains (if allowed then p ∷ rest else rest) path ≡ true
        → predicate path ≡ ok true
    after rest (inl e) a later m = elim (Bool-cases (path == p)) [
      | inl same ↦ ap predicate ((==_iff path p).0 same) ∙ (a ∙ ap ok e)
      | inr differ ↦ later (rw (e, differ) at m)
    ]
    after rest (inr e) a later m = later (rw e at m)

-- Every path that `get_backlinks` returns in the scope of a request is one that the request may
-- read: `permits_read` answers yes.
pub get_backlinks-permits_read :
    (world : World) (current_identity : Option Identity) (policy : VaultAccessPolicy)
    (scope : ReadScope)
    → current world current_identity policy ≡ ok scope
    → (lower : Text → Text) (path : Text) (index : VaultIndex) (found : List Text)
    → get_backlinks lower scope path index ≡ ok found
    → (source : Text) → contains found source ≡ true
    → permits_read world current_identity policy source false inherit ≡ ok true
unfolding get_backlinks filter allows
get_backlinks-permits_read world current_identity policy scope h lower path index found k source m =
    let (all_of, p, q) = >>=-eq-ok (Queries.get_backlinks lower index path) _ k in
    let (answer, a, b) = allows-permits_read world current_identity policy scope h source in
    by_predicate scope.predicate all_of q answer a b
  where
    by_predicate :
        (predicate : Option (Text → Result Error Bool)) (all_of : List Text)
        → filter_with predicate all_of ≡ ok found
        → (answer : Bool) → ask predicate source ≡ ok answer
        → permits_read world current_identity policy source false inherit ≡ ok answer
        → permits_read world current_identity policy source false inherit ≡ ok true
    by_predicate none all_of q answer a b = b ∙ sym a
    by_predicate (some predicate) all_of q answer a b =
        b ∙ (sym a ∙ filter_by-allowed predicate all_of found source q m)
