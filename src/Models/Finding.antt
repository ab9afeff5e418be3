-- ===== src/Models/Finding.antt =====
-- Finding of src/agent_workspace_guard/models.py, with its conversions.
use agent_workspace_guard.Base.{
  ◌≡◌, refl, Option, none, some, [], ◌∷◌, Text, codes, Result, ok, ◌>>=◌,
}
use agent_workspace_guard.Json.Values.{Json, string, object, fields_of}
use agent_workspace_guard.Json.Convert.{
  Builtins, get_item, get_or_null, optional_text, as_optional_text, text_item, int_item,
}

pub record Finding : Type 0 where
  pub code : Text
  pub severity : Text
  pub message : Text
  pub path : Option Text

unfoldable pub to_dict : Finding → Json
to_dict r = object (
    fields_of (
      (codes "code", string r.code)
      ∷ (codes "severity", string r.severity)
      ∷ (codes "message", string r.message)
      ∷ (codes "path", optional_text r.path)
      ∷ []))

module _ (py : Builtins) where
  unfoldable pub from_dict : Json → Result Finding
  unfolding get_item get_or_null text_item int_item as_optional_text
  from_dict value = do
    code ← text_item py value (codes "code")
    severity ← text_item py value (codes "severity")
    message ← text_item py value (codes "message")
    path ← as_optional_text (← get_or_null value (codes "path"))
    ok (record { code = code; severity = severity; message = message; path = path })

  pub from_dict-to_dict : (r : Finding) → from_dict (to_dict r) ≡ ok r
  unfolding from_dict to_dict
  from_dict-to_dict r = last_field r.path
    where
      last_field :
          (path : Option Text)
          → (as_optional_text (optional_text path) >>= λ t. ok (record r { path = t }))
            ≡ ok (record r { path = path })
      last_field none = refl
      last_field (some text) = refl
