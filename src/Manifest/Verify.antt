-- ===== src/Manifest/Verify.antt =====
-- `verify_manifest` of src/agent_workspace_guard/manifest.py, and what it establishes. `resolve`
-- is `Path.resolve(strict=False)`, which asks the file system.
use agent_workspace_guard.Base.{
  ◌≡◌, ◌≢◌, ◌⊎◌, ◌↔◌, ◌∙◌, ap, sym, ℕ, Bool, true, false, not, ◌&&◌, ◌||◌, Option, none, some, List,
  [], ◌∷◌, Text, ◌==◌, nat_eq, list_eq, int_eq, arith, if◌then◌else◌, ℤ, pos, ltb_ℤ, ◌≤ℤ◌, ◌+ℤ◌,
  +ℤ_assoc, zero_add_ℤ, add_zero_ℤ, Result, ok, err, integrity_error, guard_error, refuse, recast,
  ◌>>=◌, ◌>>◌, Succeeds, >>=-eq-ok,
}
use agent_workspace_guard.Paths.{FilePath, parse, validate_relative_path}
use agent_workspace_guard.Models.Enums.{file, directory, symlink, entry_kind_eq}
use agent_workspace_guard.Models.ManifestEntry.{ManifestEntry}
use agent_workspace_guard.Models.TreeManifest.{TreeManifest}
use agent_workspace_guard.Validate.{validate_sha256}
use agent_workspace_guard.Manifest.{Entries, tree_digest}

abbrev is_missing : Option Text → Bool
is_missing none = true
is_missing (some text) = false

-- The checks of one entry, in the loop of `verify_manifest`.
unfoldable pub verify_entry : Text → ManifestEntry → Result (Unit {0})
unfolding entry_kind_eq int_eq list_eq nat_eq
verify_entry key entry = do
  _ ← validate_relative_path key
  refuse (not (entry.path == key)) integrity_error
  refuse (ltb_ℤ entry.size (pos 0) || ltb_ℤ entry.mode (pos 0)) integrity_error
  refuse (not (entry.kind == file) && not (entry.size == pos 0)) integrity_error
  refuse
      (if entry.kind == symlink
        then is_missing entry.link_target
        else not (is_missing entry.link_target))
      integrity_error
  recast integrity_error (
      if entry.kind == directory
      then refuse (not (entry.digest == [])) integrity_error
      else do _ ← validate_sha256 entry.digest; ok tt)

-- The loop, which counts the files and their bytes.
unfoldable pub verify_entries : Entries → ℤ → ℤ → Result (ℤ × ℤ)
unfolding verify_entry
verify_entries [] total_files total_bytes = ok (total_files, total_bytes)
verify_entries ((key, entry) ∷ entries) total_files total_bytes = verify_entry key entry >>= λ _.
    verify_entries entries (if entry.kind == file then total_files +ℤ pos 1 else total_files)
      (if entry.kind == file then total_bytes +ℤ entry.size else total_bytes)

module _ (resolve : FilePath → FilePath) (sha256 : List ℕ → Text) where
  unfoldable pub verify_root : TreeManifest → Option FilePath → Result (Unit {0})
  unfolding parse list_eq nat_eq
  verify_root manifest none = ok tt
  verify_root manifest (some expected_root) =
      refuse (not (resolve (parse manifest.root) == resolve expected_root)) integrity_error

  unfoldable pub verify_manifest : TreeManifest → Option FilePath → Result (Unit {0})
  unfolding verify_root int_eq list_eq nat_eq
  verify_manifest manifest expected_root = do
    verify_root manifest expected_root
    (total_files, total_bytes) ← verify_entries manifest.entries (pos 0) (pos 0)
    refuse (not (total_files == manifest.total_files) || not (total_bytes == manifest.total_bytes))
        integrity_error
    expected_digest ← tree_digest sha256 manifest.entries
    refuse (not (expected_digest == manifest.digest)) integrity_error

-- What a sound entry is.
pub record IsSound (key : Text) (entry : ManifestEntry) : Type 0 where
  pub valid_key : Succeeds (validate_relative_path key)
  pub same_path : entry.path ≡ key
  pub size_nonneg : pos 0 ≤ℤ entry.size
  pub mode_nonneg : pos 0 ≤ℤ entry.mode
  pub no_size : entry.kind ≢ file → entry.size ≡ pos 0
  pub target : entry.kind ≡ symlink → entry.link_target ≢ none
  pub no_target : entry.kind ≢ symlink → entry.link_target ≡ none
  pub no_digest : entry.kind ≡ directory → entry.digest ≡ []
  pub digest_form : entry.kind ≢ directory → validate_sha256 entry.digest ≡ ok entry.digest

abbrev pub AllSound : Entries → Type 0
AllSound [] = Unit
AllSound ((key, entry) ∷ entries) = IsSound key entry × AllSound entries

-- The number of files, and of their bytes.
abbrev pub count_files : Entries → ℤ
count_files [] = pos 0
count_files ((key, entry) ∷ entries) =
    (if entry.kind == file then pos 1 else pos 0) +ℤ count_files entries

abbrev pub count_bytes : Entries → ℤ
count_bytes [] = pos 0
count_bytes ((key, entry) ∷ entries) =
    (if entry.kind == file then entry.size else pos 0) +ℤ count_bytes entries

-- The two ends of the loop's checks, apart from the key.
digest_check : ManifestEntry → Result (Unit {0})
digest_check entry = recast integrity_error (
    if entry.kind == directory
    then refuse (not (entry.digest == [])) integrity_error
    else do _ ← validate_sha256 entry.digest; ok tt)

validate_sha256_cases :
    (value : Text) → (validate_sha256 value ≡ ok value) ⊎ (validate_sha256 value ≡ err guard_error)
unfolding validate_sha256
validate_sha256_cases value = ground arith

digest_check_directory :
    (entry : ManifestEntry)
    → digest_check entry ≡ ok tt
    → entry.kind ≡ directory
    → entry.digest ≡ []
unfolding digest_check
digest_check_directory entry h k = ground arith

digest_check_file :
    (entry : ManifestEntry)
    → digest_check entry ≡ ok tt
    → entry.kind ≢ directory
    → validate_sha256 entry.digest ≡ ok entry.digest
unfolding digest_check
digest_check_file entry h k = ground (arith, validate_sha256_cases entry.digest)

verify_entry-IsSound :
    (key : Text) (entry : ManifestEntry) → verify_entry key entry ≡ ok tt → IsSound key entry
unfolding verify_entry
verify_entry-IsSound key entry h = record {
  valid_key = ground arith;
  same_path = ground arith;
  size_nonneg = ground arith;
  mode_nonneg = ground arith;
  no_size = ground arith;
  target = ground arith;
  no_target = ground arith;
  no_digest = digest_check_directory entry (unfold digest_check in ground arith);
  digest_form = digest_check_file entry (unfold digest_check in ground arith);
}

IsSound-verify_entry :
    (key : Text) (entry : ManifestEntry) → IsSound key entry → verify_entry key entry ≡ ok tt
unfolding verify_entry
IsSound-verify_entry key entry h =
    ground (arith, h.target, h.no_target, h.no_size, h.no_digest, h.digest_form)

add_if :
    (b : Bool) (total n more : ℤ)
    → (if b then total +ℤ n else total) +ℤ more ≡ total +ℤ ((if b then n else pos 0) +ℤ more)
add_if true total n more = +ℤ_assoc total n more
add_if false total n more = ap (λ z. total +ℤ z) (sym (zero_add_ℤ more))

verify_entries_sound :
    (entries : Entries) (f b x y : ℤ)
    → verify_entries entries f b ≡ ok (x, y)
    → AllSound entries × (x ≡ f +ℤ count_files entries) × (y ≡ b +ℤ count_bytes entries)
unfolding verify_entries
verify_entries_sound [] f b x y h = ground (arith, add_zero_ℤ f, add_zero_ℤ b)
verify_entries_sound ((key, entry) ∷ entries) f b x y h =
    let (u, e, rest) = >>=-eq-ok (verify_entry key entry) _ h in
    let (sound, files, bytes) = verify_entries_sound entries _ _ x y rest in
    (
      (verify_entry-IsSound key entry e, sound),
      files ∙ add_if (entry.kind == file) f (pos 1) (count_files entries),
      bytes ∙ add_if (entry.kind == file) b entry.size (count_bytes entries),
    )

verify_entries_complete :
    (entries : Entries) (f b : ℤ)
    → AllSound entries
    → verify_entries entries f b ≡ ok (f +ℤ count_files entries, b +ℤ count_bytes entries)
unfolding verify_entries
verify_entries_complete [] f b h = rw (add_zero_ℤ f, add_zero_ℤ b)
verify_entries_complete ((key, entry) ∷ entries) f b (h, hs) =
    rw (IsSound-verify_entry key entry h, verify_entries_complete entries _ _ hs)
      (rw (
        add_if (entry.kind == file) f (pos 1) (count_files entries),
        add_if (entry.kind == file) b entry.size (count_bytes entries),
      ))

module _ (resolve : FilePath → FilePath) (sha256 : List ℕ → Text) where
  -- The checks behind the root, read off a success.
  verify_manifest_inv :
      (manifest : TreeManifest) (expected_root : FilePath)
      → verify_manifest resolve sha256 manifest (some expected_root) ≡ ok tt
      → (resolve (parse manifest.root) ≡ resolve expected_root)
        × (verify_entries manifest.entries (pos 0) (pos 0)
            ≡ ok (manifest.total_files, manifest.total_bytes))
        × (tree_digest sha256 manifest.entries ≡ ok manifest.digest)
  unfolding verify_manifest
  verify_manifest_inv manifest expected_root h = (ground arith, ground arith, ground arith)

  -- A manifest is accepted exactly when its root is the expected one, each entry is sound, the two
  -- totals are those of its entries, and its digest is the digest of its entries.
  pub verify_manifest_iff :
      (manifest : TreeManifest) (expected_root : FilePath)
      → (verify_manifest resolve sha256 manifest (some expected_root) ≡ ok tt) ↔ (
          (resolve (parse manifest.root) ≡ resolve expected_root)
          × AllSound manifest.entries
          × (manifest.total_files ≡ count_files manifest.entries)
          × (manifest.total_bytes ≡ count_bytes manifest.entries)
          × (tree_digest sha256 manifest.entries ≡ ok manifest.digest))
  unfolding verify_manifest
  verify_manifest_iff manifest expected_root = (
    λ h.
        let (root, counted, digest) = verify_manifest_inv manifest expected_root h in
        let (sound, files, bytes) = verify_entries_sound manifest.entries _ _ _ _ counted in
        (root, sound, files ∙ zero_add_ℤ _, bytes ∙ zero_add_ℤ _, digest),
    λ h.
        let complete = verify_entries_complete manifest.entries (pos 0) (pos 0) h.1 in
        ground (
          arith,
          complete,
          zero_add_ℤ (count_files manifest.entries),
          zero_add_ℤ (count_bytes manifest.entries),
        ),
  )
