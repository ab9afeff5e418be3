-- ===== src/Models/ManifestEntry.antt =====
-- ManifestEntry of src/agent_workspace_guard/models.py, with its conversions.
use agent_workspace_guard.Base.{
  ◌≡◌, refl, Option, none, some, [], ◌∷◌, Text, codes, ℤ, Result, ok, ◌>>=◌,
}
use agent_workspace_guard.Json.Values.{Json, string, number, object, fields_of}
use agent_workspace_guard.Json.Convert.{
  Builtins, get_item, get_or_null, optional_text, as_optional_text, text_item, int_item,
}
use agent_workspace_guard.Models.Enums.{
  EntryKind, entry_kind_value, entry_kind_of, entry_kind_of-value,
}

pub record ManifestEntry : Type 0 where
  pub path : Text
  pub kind : EntryKind
  pub mode : ℤ
  pub size : ℤ
  pub digest : Text
  pub link_target : Option Text

unfoldable pub to_dict : ManifestEntry → Json
to_dict r = object (
    fields_of (
      (codes "path", string r.path)
      ∷ (codes "kind", string (entry_kind_value r.kind))
      ∷ (codes "mode", number r.mode)
      ∷ (codes "size", number r.size)
      ∷ (codes "digest", string r.digest)
      ∷ (codes "link_target", optional_text r.link_target)
      ∷ []))

module _ (py : Builtins) where
  unfoldable pub from_dict : Json → Result ManifestEntry
  unfolding get_item get_or_null text_item int_item as_optional_text
  from_dict value = do
    path ← text_item py value (codes "path")
    kind ← entry_kind_of (← get_item value (codes "kind"))
    mode ← int_item py value (codes "mode")
    size ← int_item py value (codes "size")
    digest ← text_item py value (codes "digest")
    link_target ← as_optional_text (← get_or_null value (codes "link_target"))
    ok (record {
      path = path;
      kind = kind;
      mode = mode;
      size = size;
      digest = digest;
      link_target = link_target;
    })

  -- A loaded entry is the entry that was written.
  pub from_dict-to_dict : (r : ManifestEntry) → from_dict (to_dict r) ≡ ok r
  unfolding from_dict to_dict
  from_dict-to_dict r = rw (entry_kind_of-value r.kind) (last_field r.link_target)
    where
      last_field :
          (target : Option Text)
          → (as_optional_text (optional_text target) >>= λ t. ok (record r { link_target = t }))
            ≡ ok (record r { link_target = target })
      last_field none = refl
      last_field (some text) = refl
