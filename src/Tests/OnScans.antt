-- ===== src/Tests/OnScans.antt =====
-- A scan of a directory with a file, a folder and an excluded name.
use agent_workspace_guard.Base.{
  ◌≡◌, inl, refl, ℕ, ◌≤◌, true, none, some, List, [], ◌∷◌, length, Text, codes, nat_eq, list_eq,
  arith, pos, ◌≤ℤ◌, ◌+ℤ◌, Result, ok, err,
}
use agent_workspace_guard.Paths.{FilePath, validate_relative_path}
use agent_workspace_guard.Paths.Safe.Printed.{IsPath}
use agent_workspace_guard.Models.TreeManifest.{TreeManifest}
use agent_workspace_guard.Models.ManifestEntry
use agent_workspace_guard.Models.Enums.{entry_kind_value}
use agent_workspace_guard.Validate.{validate_sha256}
use agent_workspace_guard.Manifest.{tree_digest}
use agent_workspace_guard.Manifest.Verify.{verify_manifest}
use agent_workspace_guard.Manifest.Scan.{
  Stat, Found, Trees, child, nil, cons, default_max_entries, default_max_bytes, scan_tree, earlier,
  entry_of, record_entry,
}
use agent_workspace_guard.Manifest.Scan.Named.{AreNamed}
use agent_workspace_guard.Manifest.Scan.Sound.{verify_manifest-scan_tree}
use agent_workspace_guard.Tests.Hosts.{checksum}

abbrev info : ℕ → ℕ → Stat
info mode size = record { st_mode = mode; st_size = size; st_dev = 7; st_rdev = 0 }

abbrev a_file : List ℕ → Found
a_file content = record {
  info = some (info 0o100644 (length content));
  content = some content;
  target = none;
}

abbrev a_folder : Found
a_folder = record { info = some (info 0o40755 4096); content = none; target = none }

abbrev children : Trees
children =
    cons (child (codes "src") a_folder (cons (child (codes "a") (a_file (1 ∷ 2 ∷ [])) nil) nil)) (
      cons (child (codes ".git") a_folder nil) (cons (child (codes "b") (a_file (3 ∷ [])) nil) nil))

abbrev root : FilePath
root = codes "/" ∷ codes "w" ∷ []

abbrev bytes_of : Text → List ℕ
bytes_of text = text

abbrev scanned : Result TreeManifest
scanned =
    scan_tree checksum bytes_of (codes ".git" ∷ []) default_max_entries default_max_bytes
      (ok (some (info 0o40755 4096))) root true children

abbrev empty : TreeManifest
empty = record { root = []; entries = []; digest = []; total_files = pos 0; total_bytes = pos 0 }

abbrev manifest_of : Result TreeManifest → TreeManifest
manifest_of (ok m) = m
manifest_of (err e) = empty

scanned_ok : scanned ≡ ok (manifest_of scanned)
unfolding scan_tree tree_digest earlier entry_of validate_relative_path record_entry ◌+ℤ◌
    ManifestEntry.to_dict entry_kind_value
scanned_ok = refl

three_entries : length (manifest_of scanned).entries ≡ 3
unfolding scan_tree tree_digest earlier entry_of validate_relative_path record_entry ◌+ℤ◌
    ManifestEntry.to_dict entry_kind_value
three_entries = refl

checksum-hex : (bytes : List ℕ) → validate_sha256 (checksum bytes) ≡ ok (checksum bytes)
unfolding validate_sha256
checksum-hex bytes = ground arith

names-AreNamed : AreNamed children
unfolding AreNamed list_eq nat_eq
names-AreNamed = (
  (λ e. cc, λ e. cc, refl),
  (((λ e. cc, λ e. cc, refl), tt, tt, tt)),
  (λ e. cc, (λ e. cc, tt)),
  ((λ e. cc, λ e. cc, refl), tt, (λ e. cc, tt), ((λ e. cc, λ e. cc, refl), tt, tt, tt)),
)

root-IsPath : IsPath root
unfolding nat_eq
root-IsPath = (inl refl, ((λ e. cc, λ e. cc, refl), tt))

verify_manifest-scan_tree_example :
    (verify_manifest (λ path. path) checksum (manifest_of scanned) (some root) ≡ ok tt)
    × (length (manifest_of scanned).entries ≤ default_max_entries)
    × ((manifest_of scanned).total_bytes ≤ℤ default_max_bytes)
verify_manifest-scan_tree_example =
    verify_manifest-scan_tree checksum bytes_of checksum-hex (λ path. path) (codes ".git" ∷ [])
      default_max_entries default_max_bytes (ok (some (info 0o40755 4096))) root root true children
      (manifest_of scanned) names-AreNamed root-IsPath refl (omega arith) scanned_ok
