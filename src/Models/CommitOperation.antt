-- ===== src/Models/CommitOperation.antt =====
-- CommitOperation of src/agent_workspace_guard/models.py, with its conversions.
use agent_workspace_guard.Base.{
  ◌≡◌, refl, Bool, false, Option, none, some, [], ◌∷◌, Text, codes, Result, ok, ◌>>=◌,
  if◌then◌else◌,
}
use agent_workspace_guard.Json.Values.{Json, string, object, boolean, null, fields_of}
use agent_workspace_guard.Json.Convert.{
  Builtins, get_item, get_or_null, get_or, is_truthy, optional_text, as_optional_text, as_text,
  as_items, as_pairs, text_item, int_item,
}
use agent_workspace_guard.Models.Enums.{
  ChangeKind, change_kind_value, change_kind_of, change_kind_of-value,
}
use agent_workspace_guard.Models.Enums.{EntryKind, entry_kind_value, entry_kind_of}

pub record CommitOperation : Type 0 where
  pub path : Text
  pub change_kind : ChangeKind
  pub before_kind : Option EntryKind
  pub after_kind : Option EntryKind
  pub backup_path : Option Text
  pub installed : Bool
  pub backup_moved : Bool
  pub phase : Text

unfoldable pub optional_kind : Option EntryKind → Json
optional_kind none = null
optional_kind (some kind) = string (entry_kind_value kind)

-- `EntryKind(data[key]) if data.get(key) else None`
unfoldable pub as_optional_kind : Json → Result (Option EntryKind)
unfolding is_truthy
as_optional_kind value =
    if is_truthy value then (do kind ← entry_kind_of value; ok (some kind)) else ok none

as_optional_kind_lem : (kind : Option EntryKind) → as_optional_kind (optional_kind kind) ≡ ok kind
unfolding as_optional_kind optional_kind entry_kind_value entry_kind_of
as_optional_kind_lem none = refl
as_optional_kind_lem (some EntryKind.file) = refl
as_optional_kind_lem (some EntryKind.directory) = refl
as_optional_kind_lem (some EntryKind.symlink) = refl
as_optional_kind_lem (some EntryKind.special) = refl

as_optional_text_lem : (text : Option Text) → as_optional_text (optional_text text) ≡ ok text
unfolding as_optional_text
as_optional_text_lem none = refl
as_optional_text_lem (some text) = refl

unfoldable pub to_dict : CommitOperation → Json
unfolding optional_kind
to_dict r = object (
    fields_of (
      (codes "path", string r.path)
      ∷ (codes "change_kind", string (change_kind_value r.change_kind))
      ∷ (codes "before_kind", optional_kind r.before_kind)
      ∷ (codes "after_kind", optional_kind r.after_kind)
      ∷ (codes "backup_path", optional_text r.backup_path)
      ∷ (codes "installed", boolean r.installed)
      ∷ (codes "backup_moved", boolean r.backup_moved)
      ∷ (codes "phase", string r.phase)
      ∷ []))

module _ (py : Builtins) where
  unfoldable pub from_dict : Json → Result CommitOperation
  unfolding get_item get_or_null get_or text_item int_item as_pairs as_items is_truthy as_text
  from_dict value = do
    path ← text_item py value (codes "path")
    change_kind ← change_kind_of (← get_item value (codes "change_kind"))
    before_kind ← as_optional_kind (← get_or_null value (codes "before_kind"))
    after_kind ← as_optional_kind (← get_or_null value (codes "after_kind"))
    backup_path ← as_optional_text (← get_or_null value (codes "backup_path"))
    installed ← ok (is_truthy (← get_or value (codes "installed") (boolean false)))
    backup_moved ← ok (is_truthy (← get_or value (codes "backup_moved") (boolean false)))
    phase ← ok (as_text py (← get_or value (codes "phase") (string (codes "pending"))))
    ok (record {
      path = path;
      change_kind = change_kind;
      before_kind = before_kind;
      after_kind = after_kind;
      backup_path = backup_path;
      installed = installed;
      backup_moved = backup_moved;
      phase = phase;
    })

  pub from_dict-to_dict : (r : CommitOperation) → from_dict (to_dict r) ≡ ok r
  unfolding from_dict to_dict
  from_dict-to_dict r = rw (
    change_kind_of-value r.change_kind,
    as_optional_kind_lem r.before_kind,
    as_optional_kind_lem r.after_kind,
    as_optional_text_lem r.backup_path,
  )
