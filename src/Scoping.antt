-- ===== src/Scoping.antt =====
-- `ReadScope` of src/obsidian_mcp/tools/scoping.py, for the policy of a request.
pub mod Agreement
use brain_mcp.Base.{
  Bool, true, false, not, ◌&&◌, ◌||◌, Option, none, some, List, [], ◌∷◌, keep, Result, ok, err,
  ◌>>=◌, if◌then◌else◌,
}
use brain_mcp.Base.Text.{Text}
use brain_mcp.Errors.{Error}
use brain_mcp.Paths.{is_nil}
use brain_mcp.Identity.{Identity}
use brain_mcp.Policy.{World, VaultAccessPolicy, inherit}
use brain_mcp.Policy.Access.{effective, permits_read}

-- The predicate is `policy.permits_read`, which may raise.
pub record ReadScope : Type 0 where
  pub predicate : Option (Text → Result Error Bool)

module _ (world : World) (current_identity : Option Identity) (policy : VaultAccessPolicy) where
  unfoldable pub current : Result Error ReadScope
  current = do
    e ← (effective world current_identity policy inherit).0
    ok (record {
      predicate =
          if is_nil e.read_paths && is_nil e.deny_read_paths
          then none
          else some (λ path. permits_read world current_identity policy path false inherit);
    })

unfoldable pub unrestricted : ReadScope → Bool
unrestricted scope = elim scope.predicate [ none ↦ true | some p ↦ false ]

abbrev pub ask : Option (Text → Result Error Bool) → Text → Result Error Bool
ask none path = ok true
ask (some predicate) path = predicate path

unfoldable pub allows : ReadScope → Text → Result Error Bool
allows scope path = ask scope.predicate path

unfoldable pub filter_by : (Text → Result Error Bool) → List Text → Result Error (List Text)
filter_by predicate [] = ok []
filter_by predicate (path ∷ paths) = do
  allowed ← predicate path
  rest ← filter_by predicate paths
  ok (if allowed then path ∷ rest else rest)

abbrev pub filter_with : Option (Text → Result Error Bool) → List Text → Result Error (List Text)
filter_with none paths = ok paths
filter_with (some predicate) paths = filter_by predicate paths

unfoldable pub filter : ReadScope → List Text → Result Error (List Text)
unfolding filter_by
filter scope paths = filter_with scope.predicate paths
