-- ===== src/Manifest.antt =====
-- Scanning, comparing and verifying the manifests of src/agent_workspace_guard/manifest.py. The dictionary
-- of entries is a list of keys and values in insertion order. `sha256` is `hashlib.sha256(…).hexdigest()`.
pub mod Diff
pub mod Roots
pub mod Verify
pub mod Scan
use agent_workspace_guard.Base.{
  ℕ, Bool, true, false, not, ◌&&◌, ◌||◌, Option, none, some, List, [], ◌∷◌, ◌++◌, map, Text, codes,
  ◌==◌, Eq, nat_eq, list_eq, int_eq, option_eq, any, take, length, ltb, text_ltb, sorted_by,
  sorted_set, if◌then◌else◌, ℤ, pos, ltb_ℤ, ◌+ℤ◌, Result, ok, err, builtin, integrity_error, refuse,
  recast, traverse, ◌>>=◌, ◌>>◌,
}
use agent_workspace_guard.Paths.{FilePath, parse, validate_relative_path}
use agent_workspace_guard.Json.Values.{Json, array, items_of}
use agent_workspace_guard.Json.Dump.{canonical_json}
use agent_workspace_guard.Models.Enums.{
  EntryKind, directory, file, symlink, special, entry_kind_eq, ChangeKind, add, modify, delete,
  type_change,
}
use agent_workspace_guard.Models.ManifestEntry
use agent_workspace_guard.Models.ManifestEntry.{ManifestEntry}
use agent_workspace_guard.Models.TreeManifest.{TreeManifest}
use agent_workspace_guard.Models.Change.{Change}
use agent_workspace_guard.Validate.{validate_sha256}

abbrev pub Entries : Type 0
Entries = List (Text × ManifestEntry)

-- `entries.get(path)`
unfoldable pub get_entry : Text → Entries → Option ManifestEntry
get_entry path [] = none
get_entry path ((key, entry) ∷ entries) = if key == path then some entry else get_entry path entries

abbrev pub keys : Entries → List Text
keys [] = []
keys ((key, entry) ∷ entries) = key ∷ keys entries

unfoldable pub entry_changed : ManifestEntry → ManifestEntry → Bool
unfolding entry_kind_eq int_eq list_eq nat_eq option_eq
entry_changed before after =
    if before.kind == directory
    then not (before.mode == after.mode)
    else not (before.mode == after.mode)
      || not (before.size == after.size)
      || not (before.digest == after.digest)
      || not (before.link_target == after.link_target)

-- The body of the loop of `diff_manifests`, for one path. A path of neither manifest is not visited.
unfoldable pub classify : Text → Option ManifestEntry → Option ManifestEntry → Option Change
unfolding entry_changed entry_kind_eq
classify path none none = none
classify path none (some new) =
    some (record { path = path; kind = add; before = none; after = some new })
classify path (some old) none =
    some (record { path = path; kind = delete; before = some old; after = none })
classify path (some old) (some new) =
    if not (old.kind == new.kind)
    then some (record { path = path; kind = type_change; before = some old; after = some new })
    else if entry_changed old new
    then some (record { path = path; kind = modify; before = some old; after = some new })
    else none

abbrev pub prepend_change : Option Change → List Change → List Change
prepend_change none changes = changes
prepend_change (some change) changes = change ∷ changes

unfoldable pub diff_paths : Entries → Entries → List Text → List Change
unfolding classify get_entry
diff_paths before after [] = []
diff_paths before after (path ∷ paths) =
    prepend_change (classify path (get_entry path before) (get_entry path after))
      (diff_paths before after paths)

unfoldable pub diff_manifests : TreeManifest → TreeManifest → List Change
unfolding diff_paths sorted_set
diff_manifests before after =
    diff_paths before.entries after.entries (sorted_set (keys before.entries ++ keys after.entries))

-- The sort key of `operation_roots`: `(len(Path(path).parts), path)`.
unfoldable pub smaller_change : Change → Change → Bool
unfolding parse text_ltb nat_eq
smaller_change c d =
    ltb (length (parse c.path)) (length (parse d.path))
    || (length (parse c.path) == length (parse d.path) && text_ltb c.path d.path)

abbrev pub is_directory : Option ManifestEntry → Bool
is_directory none = false
is_directory (some entry) = entry.kind == directory

-- `parts[: len(root)] == root`
unfoldable pub is_under : FilePath → FilePath → Bool
unfolding list_eq nat_eq
is_under parts root = take (length root) parts == root

unfoldable pub replaces_tree : Change → Bool
unfolding entry_kind_eq
replaces_tree change = is_directory change.before || is_directory change.after

-- The loop over the sorted changes. `selected_parts` holds the roots that replace whole trees.
unfoldable pub select_roots : List FilePath → List Change → List Change
unfolding is_under replaces_tree parse
select_roots selected_parts [] = []
select_roots selected_parts (change ∷ changes) =
    let parts = parse change.path in
    let skipped = select_roots selected_parts changes in
    let grown = select_roots (selected_parts ++ (parts ∷ [])) changes in
    if any (is_under parts) selected_parts
    then skipped
    else if replaces_tree change
    then change ∷ grown
    else change ∷ skipped

unfoldable pub operation_roots : List Change → List Change
unfolding select_roots sorted_by smaller_change
operation_roots changes = select_roots [] (sorted_by smaller_change changes)

module _ (sha256 : List ℕ → Text) where
  -- `hashlib.sha256(canonical_json(data)).hexdigest()`
  unfoldable pub digest_json : Json → Result Text
  unfolding canonical_json
  digest_json value = do bytes ← canonical_json value; ok (sha256 bytes)

  -- `entries[key].to_dict()`
  unfoldable pub entry_dict : Entries → Text → Result Json
  unfolding get_entry
  entry_dict entries key = elim (get_entry key entries) [
    | none ↦ err builtin
    | some entry ↦ ok (ManifestEntry.to_dict entry)
  ]

  unfoldable pub tree_digest : Entries → Result Text
  unfolding digest_json entry_dict sorted_set
  tree_digest entries = do
    payload ← traverse (entry_dict entries) (sorted_set (keys entries))
    digest_json (array (items_of payload))
