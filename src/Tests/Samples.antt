-- ===== src/Tests/Samples.antt =====
-- Sample manifests and changes.
use agent_workspace_guard.Base.{Result, ok, err, ℕ, none, some, [], ◌∷◌, Text, codes, pos}
use agent_workspace_guard.Models.Enums.{file, directory, symlink}
use agent_workspace_guard.Models.ManifestEntry.{ManifestEntry}
use agent_workspace_guard.Models.TreeManifest.{TreeManifest}
use agent_workspace_guard.Policy.Config.{GuardPolicy, default_policy}
use agent_workspace_guard.Audit.{zero_hash}
use agent_workspace_guard.Paths.{FilePath}
use agent_workspace_guard.Manifest.{tree_digest}
use agent_workspace_guard.Tests.Hosts.{millionths, checksum}

abbrev pub file_entry : Text → ℕ → ManifestEntry
file_entry path size = record {
  path = path;
  kind = file;
  mode = pos 0o644;
  size = pos size;
  digest = zero_hash;
  link_target = none;
}

abbrev pub folder_entry : Text → ManifestEntry
folder_entry path = record {
  path = path;
  kind = directory;
  mode = pos 0o755;
  size = pos 0;
  digest = [];
  link_target = none;
}

abbrev pub link_entry : Text → Text → ManifestEntry
link_entry path target = record {
  path = path;
  kind = symlink;
  mode = pos 0o777;
  size = pos 0;
  digest = zero_hash;
  link_target = some target;
}

abbrev pub baseline : TreeManifest
baseline = record {
  root = codes "/w";
  entries =
      (codes "old.txt", file_entry (codes "old.txt") 3)
      ∷ (codes "src", folder_entry (codes "src"))
      ∷ (codes "src/a.py", file_entry (codes "src/a.py") 5)
      ∷ [];
  digest = codes "0";
  total_files = pos 2;
  total_bytes = pos 8;
}

-- `old.txt` is gone, `src/a.py` has grown, and a link leaves the workspace.
abbrev pub staged : TreeManifest
staged = record {
  root = codes "/w";
  entries =
      (codes "out", link_entry (codes "out") (codes "../secret"))
      ∷ (codes "src", folder_entry (codes "src"))
      ∷ (codes "src/a.py", file_entry (codes "src/a.py") 7)
      ∷ [];
  digest = codes "0";
  total_files = pos 1;
  total_bytes = pos 7;
}

abbrev pub guard_policy : GuardPolicy millionths
guard_policy = default_policy millionths 500_000

abbrev pub here : FilePath → FilePath
here path = path

abbrev pub or_nil : Result Text → Text
or_nil (ok text) = text
or_nil (err e) = []

abbrev pub tree : TreeManifest
tree = record baseline { digest = or_nil (tree_digest checksum baseline.entries) }
