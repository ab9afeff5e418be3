-- ===== src/Models/TreeManifest.antt =====
-- TreeManifest of src/agent_workspace_guard/models.py, with its conversions.
use agent_workspace_guard.Base.{◌≡◌, List, [], ◌∷◌, Text, codes, ℤ, Result, ok, ◌>>=◌}
use agent_workspace_guard.Json.Values.{Json, string, number, object, fields_of}
use agent_workspace_guard.Json.Convert.{
  Builtins, get_item, get_or_null, get_or, values_to, values_from, values_from-values_to, is_truthy,
  as_optional_text, as_text, as_items, as_pairs, text_item, int_item,
}
use agent_workspace_guard.Models.ManifestEntry
use agent_workspace_guard.Models.ManifestEntry.{ManifestEntry}

pub record TreeManifest : Type 0 where
  pub root : Text
  pub entries : List (Text × ManifestEntry)
  pub digest : Text
  pub total_files : ℤ
  pub total_bytes : ℤ

unfoldable pub to_dict : TreeManifest → Json
to_dict r = object (
    fields_of (
      (codes "root", string r.root)
      ∷ (codes "entries", object (fields_of (values_to ManifestEntry.to_dict r.entries)))
      ∷ (codes "digest", string r.digest)
      ∷ (codes "total_files", number r.total_files)
      ∷ (codes "total_bytes", number r.total_bytes)
      ∷ []))

module _ (py : Builtins) where
  unfoldable pub from_dict : Json → Result TreeManifest
  unfolding get_item get_or_null get_or text_item int_item as_optional_text as_pairs as_items
      is_truthy as_text
  from_dict value = do
    root ← text_item py value (codes "root")
    entries ←
        values_from (ManifestEntry.from_dict py)
          (← as_pairs py (← get_item value (codes "entries")))
    digest ← text_item py value (codes "digest")
    total_files ← int_item py value (codes "total_files")
    total_bytes ← int_item py value (codes "total_bytes")
    ok (record {
      root = root;
      entries = entries;
      digest = digest;
      total_files = total_files;
      total_bytes = total_bytes;
    })

  -- A loaded manifest is the manifest that was written, with its entries.
  pub manifest_round_trip : (r : TreeManifest) → from_dict (to_dict r) ≡ ok r
  unfolding from_dict to_dict
  manifest_round_trip r = rw (
      values_from-values_to ManifestEntry.to_dict (ManifestEntry.from_dict py)
        (ManifestEntry.from_dict-to_dict py) r.entries)
