-- ===== src/Manifest/Scan.antt =====
-- `scan_tree` of src/agent_workspace_guard/manifest.py, over a directory as the host shows it: what
-- `os.scandir`, `lstat`, `readlink` and the bytes of a file give, each of which may be an `OSError`.
pub mod Named
pub mod Recorded
pub mod Extends
pub mod Walked
pub mod Sound
use agent_workspace_guard.Base.{
  ℕ, ℤ, ◌+ℤ◌, ltb_ℤ, ◌+◌, ◌*◌, ◌/◌, ◌%◌, Bool, true, false, not, ◌&&◌, Option, none, some, List, [],
  ◌∷◌, ◌++◌, length, Text, codes, ◌==◌, contains, nat_eq, list_eq, ltb, text_ltb, sorted_by,
  show_nat, if◌then◌else◌, pos, Result, ok, err, Error, builtin, guard_error, unsafe_path, refuse,
  ◌>>=◌, ◌>>◌,
}
use agent_workspace_guard.Paths.{FilePath, render, validate_relative_path}
use agent_workspace_guard.Models.Enums.{EntryKind, directory, file, symlink, special, entry_kind_eq}
use agent_workspace_guard.Models.ManifestEntry.{ManifestEntry}
use agent_workspace_guard.Models.TreeManifest.{TreeManifest}
use agent_workspace_guard.Manifest.{Entries, tree_digest}

abbrev pub default_max_entries : ℕ
default_max_entries = 200000

abbrev pub default_max_bytes : ℤ
default_max_bytes = pos (20 * 1024 * 1024 * 1024)

-- The fields of `os.stat_result` that the scan reads; a device of 0 has been looked up once more.
pub record Stat : Type 0 where
  pub st_mode : ℕ
  pub st_size : ℕ
  pub st_dev : ℕ
  pub st_rdev : ℕ

-- What the host says of one entry, if it says it: its status, its bytes, and its target.
pub record Found : Type 0 where
  pub info : Option Stat
  pub content : Option (List ℕ)
  pub target : Option Text

-- A directory entry with what lies below it. `unreadable` stands where the listing raises.
mutual
  pub data Tree : Type 0 where
    child : Text → Found → Trees → Tree

  pub data Trees : Type 0 where
    unreadable : Trees
    nil : Trees
    cons : Tree → Trees → Trees

-- `stat.S_IFMT`, and `stat.S_IMODE`.
abbrev pub file_type : ℕ → ℕ
file_type mode = mode / 0o10000 % 16

abbrev pub mode_bits : ℕ → ℕ
mode_bits mode = mode % 0o10000

unfoldable pub entry_kind : ℕ → EntryKind
unfolding nat_eq
entry_kind mode =
    if file_type mode == 0o10
    then file
    else if file_type mode == 0o4
    then directory
    else if file_type mode == 0o12
    then symlink
    else special

abbrev pub found_or : {A : Type 0} → Error → Option A → Result A
found_or error none = err error
found_or error (some value) = ok value

-- `entries[key] = entry`
unfoldable pub set_entry : Text → ManifestEntry → Entries → Entries
unfolding list_eq nat_eq
set_entry key entry [] = (key, entry) ∷ []
set_entry key entry ((k, e) ∷ entries) =
    let rest = set_entry key entry entries in
    if k == key then (key, entry) ∷ entries else (k, e) ∷ rest

-- The variables of the scan.
pub record Scan : Type 0 where
  pub entries : Entries
  pub total_files : ℤ
  pub total_bytes : ℤ

abbrev pub Visit : Type 0
Visit = Scan → Result Scan

-- `sorted(..., key=lambda item: item.name)`
unfoldable pub earlier : Text × Visit → Text × Visit → Bool
unfolding text_ltb
earlier (name, visit) (other, visit') = text_ltb name other

-- A loop over the children.
abbrev pub run : List (Text × Visit) → Visit
run [] st = ok st
run ((name, visit) ∷ visits) st = do st ← visit st; run visits st

-- The loop of `walk`, unless the directory cannot be listed.
abbrev pub walked : Option (List (Text × Visit)) → Visit
walked none st = err guard_error
walked (some visits) st = run (sorted_by earlier visits) st

-- What a scan is called with: the excluded names, the device of the root, and the two limits.
pub record Limits : Type 0 where
  pub excluded : List Text
  pub root_device : ℕ
  pub max_entries : ℕ
  pub max_bytes : ℤ

-- `sha256` is `hashlib.sha256(…).hexdigest()`, `fsencode` is `encode("utf-8", "surrogateescape")`.
module _ (sha256 : List ℕ → Text) (fsencode : Text → List ℕ) (limits : Limits) where
  -- The digest and the link target of an entry.
  unfoldable pub describe : EntryKind → Stat → Found → Result (Text × Option Text)
  describe EntryKind.file info found = do
    content ← found_or builtin found.content
    ok (sha256 content, none)
  describe EntryKind.symlink info found = do
    target ← found_or guard_error found.target
    ok (sha256 (fsencode target), some target)
  describe EntryKind.directory info found = ok ([], none)
  describe EntryKind.special info found = ok (
    sha256 (codes "special:" ++ show_nat info.st_mode ++ codes ":" ++ show_nat info.st_rdev),
    none,
  )

  -- The entry of one child, with its kind.
  unfoldable pub entry_of : Text → Found → Result ManifestEntry
  unfolding describe entry_kind entry_kind_eq nat_eq
  entry_of relative_text found = do
    _ ← validate_relative_path relative_text
    info ← found_or guard_error found.info
    let kind = entry_kind info.st_mode
    refuse (not (kind == symlink) && not (info.st_dev == limits.root_device)) guard_error
    described ← describe kind info found
    ok (record {
      path = relative_text;
      kind = kind;
      mode = pos (mode_bits info.st_mode);
      size = if kind == file then pos info.st_size else pos 0;
      digest = described.0;
      link_target = described.1;
    })

  -- The entry is counted and stored, within the limits.
  unfoldable pub record_entry : Text → ManifestEntry → Visit
  unfolding set_entry entry_kind_eq
  record_entry relative_text entry st = do
    let is_file = entry.kind == file
    let entries = set_entry relative_text entry st.entries
    let total_files = if is_file then st.total_files +ℤ pos 1 else st.total_files
    let total_bytes = if is_file then st.total_bytes +ℤ entry.size else st.total_bytes
    refuse (ltb limits.max_entries (length entries)) guard_error
    refuse (ltb_ℤ limits.max_bytes total_bytes) guard_error
    ok (record { entries = entries; total_files = total_files; total_bytes = total_bytes })

  -- `not relative_directory.parts and child.name in excluded`
  abbrev pub is_skipped : FilePath → Text → Bool
  is_skipped [] name = contains limits.excluded name
  is_skipped (part ∷ parts) name = false

  unfoldable mutual
    -- The body of the loop of `walk`, for one child of a directory.
    pub visit : FilePath → Tree → Visit
    visit relative_directory (child name found children) st =
        let relative = relative_directory ++ (name ∷ []) in
        if is_skipped relative_directory name then ok st else (do
          entry ← entry_of (render relative) found
          st ← record_entry (render relative) entry st
          if entry.kind == directory then walked (listing relative children) st else ok st)

    -- `os.scandir(directory)`, each child with its visit.
    pub listing : FilePath → Trees → Option (List (Text × Visit))
    listing relative_directory unreadable = none
    listing relative_directory nil = some []
    listing relative_directory (cons (child name found children) trees) =
        elim (listing relative_directory trees) [
          | none ↦ none
          | some visits ↦
              some ((name, visit relative_directory (child name found children)) ∷ visits)
        ]

  -- `walk`
  unfoldable pub walk : FilePath → Trees → Visit
  unfolding listing
  walk relative_directory children = walked (listing relative_directory children)

abbrev pub start : Scan
start = record { entries = []; total_files = pos 0; total_bytes = pos 0 }

-- The whole scan. `info` is `os.lstat(root)`, which is `none` for `FileNotFoundError` and an error for
-- any other `OSError`; `root_path` is the resolved root.
unfoldable pub scan_tree :
    (List ℕ → Text)
    → (Text → List ℕ)
    → List Text
    → ℕ
    → ℤ
    → Result (Option Stat)
    → FilePath
    → Bool
    → Trees
    → Result TreeManifest
unfolding walk entry_kind nat_eq entry_kind_eq render
scan_tree sha256 fsencode excluded max_entries max_bytes info root_path is_dir children = do
  found ← info
  root_info ← found_or guard_error found
  refuse (entry_kind root_info.st_mode == symlink) unsafe_path
  refuse (not is_dir) guard_error
  let limits : Limits = record {
    excluded = excluded;
    root_device = root_info.st_dev;
    max_entries = max_entries;
    max_bytes = max_bytes;
  }
  st ← walk sha256 fsencode limits [] children start
  digest ← tree_digest sha256 st.entries
  ok (record {
    root = render root_path;
    entries = st.entries;
    digest = digest;
    total_files = st.total_files;
    total_bytes = st.total_bytes;
  })
