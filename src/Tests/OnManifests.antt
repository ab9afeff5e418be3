-- ===== src/Tests/OnManifests.antt =====
-- Diffs, operation roots and verified manifests.
use agent_workspace_guard.Base.{
  ◌≡◌, ◌⊎◌, ◌↔◌, refl, none, some, List, [], ◌∷◌, codes, ◌+ℤ◌, ok, In, IsAscending,
}
use agent_workspace_guard.Paths.{parse, validate_relative_path}
use agent_workspace_guard.Models.Enums.{add, delete, entry_kind_value}
use agent_workspace_guard.Models.Change.{Change}
use agent_workspace_guard.Models.ManifestEntry
use agent_workspace_guard.Validate.{validate_sha256}
use agent_workspace_guard.Manifest.{get_entry, diff_manifests, operation_roots, tree_digest}
use agent_workspace_guard.Manifest.Diff.{
  find_change, SameAt, Fits, paths_of, diff_manifests_exact, diff_manifests-IsAscending,
}
use agent_workspace_guard.Manifest.Roots.{
  Covered, Apart, operation_roots-Covered, operation_roots-Apart,
}
use agent_workspace_guard.Manifest.Verify.{
  AllSound, count_files, count_bytes, verify_entries, verify_manifest, verify_manifest_iff,
}
use agent_workspace_guard.Tests.Hosts.{checksum}
use agent_workspace_guard.Tests.Samples.{here, tree, baseline, staged, folder_entry, file_entry}

changed_paths :
    paths_of (diff_manifests baseline staged)
    ≡ codes "old.txt" ∷ codes "out" ∷ codes "src/a.py" ∷ []
unfolding paths_of diff_manifests
changed_paths = refl

diff_manifests_exact_example :
    let path = codes "src/a.py" in
    let old = get_entry path baseline.entries in
    let new = get_entry path staged.entries in
    ((find_change path (diff_manifests baseline staged) ≡ none) ↔ SameAt old new)
    × ((change : Change)
        → find_change path (diff_manifests baseline staged) ≡ some change
        → (change.path ≡ path)
          × (change.before ≡ old)
          × (change.after ≡ new)
          × Fits change.kind old new)
diff_manifests_exact_example = diff_manifests_exact (codes "src/a.py") baseline staged

diff_manifests-IsAscending_example : IsAscending (paths_of (diff_manifests baseline staged))
diff_manifests-IsAscending_example = diff_manifests-IsAscending baseline staged

-- A folder that goes with its file, and another file.
abbrev folder_gone : Change
folder_gone = record {
  path = codes "src";
  kind = delete;
  before = some (folder_entry (codes "src"));
  after = none;
}

abbrev inner_gone : Change
inner_gone = record {
  path = codes "src/a.py";
  kind = delete;
  before = some (file_entry (codes "src/a.py") 5);
  after = none;
}

abbrev file_new : Change
file_new = record {
  path = codes "new.txt";
  kind = add;
  before = none;
  after = some (file_entry (codes "new.txt") 1);
}

abbrev three : List Change
three = inner_gone ∷ folder_gone ∷ file_new ∷ []

two_roots : operation_roots three ≡ file_new ∷ folder_gone ∷ []
unfolding operation_roots
two_roots = refl

operation_roots-Covered_example :
    (In inner_gone (operation_roots three) → In inner_gone three)
    × (In inner_gone three
        → In inner_gone (operation_roots three) ⊎ Covered inner_gone (operation_roots three))
operation_roots-Covered_example = operation_roots-Covered three inner_gone

operation_roots-Apart_example : Apart (operation_roots three)
operation_roots-Apart_example = operation_roots-Apart three

tree_verified : verify_manifest here checksum tree (some (codes "/" ∷ codes "w" ∷ [])) ≡ ok tt
unfolding verify_manifest tree_digest verify_entries validate_relative_path validate_sha256 ◌+ℤ◌
    ManifestEntry.to_dict entry_kind_value
tree_verified = refl

verify_manifest_iff_example :
    (verify_manifest here checksum tree (some (codes "/" ∷ codes "w" ∷ [])) ≡ ok tt) ↔ (
      (here (parse tree.root) ≡ here (codes "/" ∷ codes "w" ∷ []))
      × AllSound tree.entries
      × (tree.total_files ≡ count_files tree.entries)
      × (tree.total_bytes ≡ count_bytes tree.entries)
      × (tree_digest checksum tree.entries ≡ ok tree.digest))
verify_manifest_iff_example = verify_manifest_iff here checksum tree (codes "/" ∷ codes "w" ∷ [])
