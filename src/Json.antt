-- ===== src/Json.antt =====
-- JSON values as `json.loads` gives them: an object keeps the last value of each key.
use brain_mcp.Base.{ℕ, Bool, Option, none, some, List, [], ◌∷◌}
use brain_mcp.Base.Text.{Text}
use brain_mcp.Base.Dict.{Dict}

mutual
  pub data Json : Type 0 where
    null : Json
    bool : Bool → Json
    number : ℕ → Json
    string : Text → Json
    array : Items → Json
    object : Fields → Json

  pub data Items : Type 0 where
    no_items : Items
    item : Json → Items → Items

  pub data Fields : Type 0 where
    no_fields : Fields
    field : Text → Json → Fields → Fields

unfoldable pub items : Items → List Json
items no_items = []
items (item x xs) = x ∷ items xs

unfoldable pub fields : Fields → Dict Text Json
fields no_fields = []
fields (field k v fs) = (k, v) ∷ fields fs

-- The strings of a list, if every item `isinstance(item, str)`.
abbrev cons_string : Json → Option (List Text) → Option (List Text)
cons_string (string s) (some rest) = some (s ∷ rest)
cons_string _ _ = none

unfoldable pub strings : Items → Option (List Text)
strings no_items = some []
strings (item x xs) = cons_string x (strings xs)
