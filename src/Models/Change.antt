-- ===== src/Models/Change.antt =====
-- Change of src/agent_workspace_guard/models.py, with its conversions.
use agent_workspace_guard.Base.{
  ◌≡◌, refl, Option, none, some, [], ◌∷◌, Text, codes, Result, ok, ◌>>=◌, if◌then◌else◌,
}
use agent_workspace_guard.Json.Values.{Json, string, object, null, fields_of}
use agent_workspace_guard.Json.Convert.{
  Builtins, get_item, get_or_null, get_or, is_truthy, as_optional_text, as_text, as_items, as_pairs,
  text_item, int_item,
}
use agent_workspace_guard.Models.ManifestEntry
use agent_workspace_guard.Models.ManifestEntry.{ManifestEntry}
use agent_workspace_guard.Models.Enums.{
  ChangeKind, change_kind_value, change_kind_of, change_kind_of-value,
}

pub record Change : Type 0 where
  pub path : Text
  pub kind : ChangeKind
  pub before : Option ManifestEntry
  pub after : Option ManifestEntry

unfoldable pub optional_entry : Option ManifestEntry → Json
optional_entry none = null
optional_entry (some entry) = ManifestEntry.to_dict entry

-- `ManifestEntry.from_dict(data[key]) if data.get(key) else None`
unfoldable pub as_optional_entry : Builtins → Json → Result (Option ManifestEntry)
unfolding is_truthy
as_optional_entry py value =
    if is_truthy value
    then (do entry ← ManifestEntry.from_dict py value; ok (some entry))
    else ok none

as_optional_entry_lem :
    (py : Builtins) (entry : Option ManifestEntry)
    → as_optional_entry py (optional_entry entry) ≡ ok entry
unfolding as_optional_entry optional_entry ManifestEntry.to_dict
as_optional_entry_lem py none = refl
as_optional_entry_lem py (some entry) = rw (ManifestEntry.from_dict-to_dict py entry)

unfoldable pub to_dict : Change → Json
unfolding optional_entry
to_dict r = object (
    fields_of (
      (codes "path", string r.path)
      ∷ (codes "kind", string (change_kind_value r.kind))
      ∷ (codes "before", optional_entry r.before)
      ∷ (codes "after", optional_entry r.after)
      ∷ []))

module _ (py : Builtins) where
  unfoldable pub from_dict : Json → Result Change
  unfolding get_item get_or_null get_or text_item int_item as_optional_text as_pairs as_items
      is_truthy as_text
  from_dict value = do
    path ← text_item py value (codes "path")
    kind ← change_kind_of (← get_item value (codes "kind"))
    before ← as_optional_entry py (← get_or_null value (codes "before"))
    after ← as_optional_entry py (← get_or_null value (codes "after"))
    ok (record { path = path; kind = kind; before = before; after = after })

  pub from_dict-to_dict : (r : Change) → from_dict (to_dict r) ≡ ok r
  unfolding from_dict to_dict
  from_dict-to_dict r = rw (
    change_kind_of-value r.kind,
    as_optional_entry_lem py r.before,
    as_optional_entry_lem py r.after,
  )
