-- ===== src/Json/Values.antt =====
-- JSON values as `json` reads and writes them.
use native.Mathlib.Decide.{ℕ_discrete}
use agent_workspace_guard.Base.{
  Bool, Option, none, some, List, [], ◌∷◌, Text, ◌==◌, Eq, nat_eq, list_eq, if◌then◌else◌, ℤ,
}

-- A float is kept as its `repr`.
mutual
  pub data Json : Type 0 where
    null : Json
    boolean : Bool → Json
    number : ℤ → Json
    float : Text → Json
    string : Text → Json
    array : Items → Json
    object : Fields → Json

  pub data Items : Type 0 where
    nil : Items
    cons : Json → Items → Items

  -- A Python `dict` with text keys, in insertion order. A key occurs once.
  pub data Fields : Type 0 where
    end : Fields
    field : Text → Json → Fields → Fields

Json-discrete : Discrete Json
Json-discrete = hlevel ℕ_discrete

instance unfoldable pub json_eq : Eq Json
unfolding Json-discrete ℕ_discrete
json_eq = record { dec = Json-discrete }

-- `data.get(key)`
unfoldable pub get : Text → Fields → Option Json
unfolding list_eq nat_eq
get key end = none
get key (field k value fields) = if k == key then some value else get key fields

abbrev pub items_of : List Json → Items
items_of [] = nil
items_of (x ∷ xs) = cons x (items_of xs)

abbrev pub list_of : Items → List Json
list_of nil = []
list_of (cons x xs) = x ∷ list_of xs

abbrev pub fields_of : List (Text × Json) → Fields
fields_of [] = end
fields_of ((k, v) ∷ rest) = field k v (fields_of rest)

abbrev pub pairs_of : Fields → List (Text × Json)
pairs_of end = []
pairs_of (field k v rest) = (k, v) ∷ pairs_of rest
