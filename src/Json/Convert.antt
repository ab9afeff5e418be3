-- ===== src/Json/Convert.antt =====
-- How the `from_dict` methods of src/agent_workspace_guard/models.py read a loaded value: `data[key]`,
-- `str`, `int`, `bool`, `dict` and the constructors of the string enumerations.
use agent_workspace_guard.Base.{
  ◌≡◌, refl, map, Bool, true, false, not, Option, none, some, List, [], ◌∷◌, Text, codes, ◌==◌,
  nat_eq, list_eq, int_eq, ℤ, pos, Result, ok, err, builtin, ◌>>=◌, show_int, ◌||◌, traverse,
}
use agent_workspace_guard.Json.Values.{
  Json, null, boolean, number, float, string, array, object, Items, nil, cons, Fields, end, field,
  get, items_of, list_of, fields_of, pairs_of,
}

-- The conversions that well-formed state never reaches: `str` of a list or a dict, `int` of a text
-- or of a float, and `dict` of a list.
pub record Builtins : Type 0 where
  pub repr : Json → Text
  pub int_of_text : Text → Result ℤ
  pub int_of_float : Text → Result ℤ
  pub dict_of_items : Items → Result Fields

-- `data[key]`
unfoldable pub get_item : Json → Text → Result Json
unfolding get
get_item (object fields) key = elim (get key fields) [ none ↦ err builtin | some value ↦ ok value ]
get_item _ key = err builtin

-- `data.get(key)` with `None` for a missing key.
unfoldable pub get_or_null : Json → Text → Result Json
unfolding get
get_or_null (object fields) key = elim (get key fields) [ none ↦ ok null | some value ↦ ok value ]
get_or_null _ key = err builtin

-- `data.get(key, default)`
unfoldable pub get_or : Json → Text → Json → Result Json
unfolding get
get_or (object fields) key default = elim (get key fields) [
  | none ↦ ok default
  | some value ↦ ok value
]
get_or _ key default = err builtin

-- `bool(value)`
unfoldable pub is_truthy : Json → Bool
unfolding list_eq nat_eq int_eq
is_truthy null = false
is_truthy (boolean b) = b
is_truthy (number n) = not (n == pos 0)
is_truthy (float repr) = not (repr == codes "0.0" || repr == codes "-0.0")
is_truthy (string text) = not (text == [])
is_truthy (array nil) = false
is_truthy (array (cons x xs)) = true
is_truthy (object end) = false
is_truthy (object (field k v rest)) = true

-- An optional text, which the code stores as it is loaded. Another value than a text or null is
-- refused here.
unfoldable pub as_optional_text : Json → Result (Option Text)
as_optional_text null = ok none
as_optional_text (string text) = ok (some text)
as_optional_text _ = err builtin

-- The items that a `for` loop over a loaded value visits: the items of a list, the keys of a dict, the
-- characters of a text.
unfoldable pub as_items : Json → Result (List Json)
as_items (array items) = ok (list_of items)
as_items (object fields) = ok (map (λ pair. string pair.0) (pairs_of fields))
as_items (string text) = ok (map (λ c. string (c ∷ [])) text)
as_items _ = err builtin

abbrev pub optional_text : Option Text → Json
optional_text none = null
optional_text (some text) = string text

module _ (py : Builtins) where
  -- `str(value)`
  unfoldable pub as_text : Json → Text
  unfolding show_int
  as_text null = codes "None"
  as_text (boolean true) = codes "True"
  as_text (boolean false) = codes "False"
  as_text (number n) = show_int n
  as_text (float repr) = repr
  as_text (string text) = text
  as_text value = py.repr value

  -- `int(value)`
  unfoldable pub as_int : Json → Result ℤ
  as_int (boolean true) = ok (pos 1)
  as_int (boolean false) = ok (pos 0)
  as_int (number n) = ok n
  as_int (float repr) = py.int_of_float repr
  as_int (string text) = py.int_of_text text
  as_int _ = err builtin

  -- `dict(value).items()`
  unfoldable pub as_pairs : Json → Result (List (Text × Json))
  as_pairs (object fields) = ok (pairs_of fields)
  as_pairs (array items) = do fields ← py.dict_of_items items; ok (pairs_of fields)
  as_pairs _ = err builtin

  -- `str(data[key])` and `int(data[key])`
  unfoldable pub text_item : Json → Text → Result Text
  unfolding get_item as_text
  text_item value key = do item ← get_item value key; ok (as_text item)

  unfoldable pub int_item : Json → Text → Result ℤ
  unfolding get_item as_int
  int_item value key = do item ← get_item value key; as_int item

-- A list that was written item by item is read back item by item.
pub traverse-items_of {ℓ} :
    {A : Type ℓ} (to : A → Json) (from : Json → Result A)
    → ((a : A) → from (to a) ≡ ok a)
    → (xs : List A) → traverse from (list_of (items_of (map to xs))) ≡ ok xs
traverse-items_of to from h [] = refl
traverse-items_of to from h (x ∷ xs) = rw (h x, traverse-items_of to from h xs)

-- The same for a dictionary and its values.
abbrev pub values_to {ℓ} : {A : Type ℓ} → (A → Json) → List (Text × A) → List (Text × Json)
values_to to [] = []
values_to to ((k, v) ∷ rest) = (k, to v) ∷ values_to to rest

abbrev pub values_from {ℓ} :
    {A : Type ℓ} → (Json → Result A) → List (Text × Json) → Result (List (Text × A))
values_from from [] = ok []
values_from from ((k, v) ∷ rest) = do a ← from v; more ← values_from from rest; ok ((k, a) ∷ more)

pub values_from-values_to {ℓ} :
    {A : Type ℓ} (to : A → Json) (from : Json → Result A)
    → ((a : A) → from (to a) ≡ ok a)
    → (xs : List (Text × A)) → values_from from (pairs_of (fields_of (values_to to xs))) ≡ ok xs
values_from-values_to to from h [] = refl
values_from-values_to to from h ((k, v) ∷ xs) = rw (h v, values_from-values_to to from h xs)
