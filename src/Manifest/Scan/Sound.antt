-- ===== src/Manifest/Scan/Sound.antt =====
-- A scan that returns gives a manifest that `verify_manifest` accepts.
use agent_workspace_guard.Base.{
  ◌≡◌, refl, sym, ap, ◌∙◌, subst, ℕ, ◌≤◌, Bool, not, Option, none, some, List, [], ◌∷◌, length,
  All-sorted_by, Pairwise-sorted_by, sorted_by, Text, ◌==◌, arith, ℤ, pos, ◌≤ℤ◌, Result, ok,
  guard_error, refuse-eq-ok, >>=-eq-ok, ok-injective,
}
use agent_workspace_guard.Paths.{FilePath}
use agent_workspace_guard.Paths.Safe.Printed.{IsPath, parse-render}
use agent_workspace_guard.Models.Enums.{symlink, entry_kind_eq}
use agent_workspace_guard.Models.TreeManifest.{TreeManifest}
use agent_workspace_guard.Validate.{validate_sha256}
use agent_workspace_guard.Manifest.{tree_digest}
use agent_workspace_guard.Manifest.Verify.{verify_manifest, verify_manifest_iff}
use agent_workspace_guard.Manifest.Scan.{
  Stat, Trees, Scan, Visit, earlier, walked, walk, Limits, start, entry_kind, found_or, listing,
  scan_tree,
}
use agent_workspace_guard.Manifest.Scan.Named.{AreNamed}
use agent_workspace_guard.Manifest.Scan.Recorded.{IsScan}
use agent_workspace_guard.Manifest.Scan.Extends.{Extends, IsOther, AreFresh, KeepsScan, run-Extends}
use agent_workspace_guard.Manifest.Scan.Walked.{AreGood, listing-AreGood}

start-IsScan : (limits : Limits) → pos 0 ≤ℤ limits.max_bytes → IsScan limits [] start
start-IsScan limits h = record {
  same_keys = refl;
  below = tt;
  sound = tt;
  files = refl;
  bytes = refl;
  few = omega arith;
  small = h;
}

all_fresh : (limits : Limits) (visits : List (Text × Visit)) → AreFresh limits [] [] visits
all_fresh limits [] = tt
all_fresh limits (v ∷ visits) = (tt, all_fresh limits visits)

module _ (sha256 : List ℕ → Text) (fsencode : Text → List ℕ)
    (hex : (bytes : List ℕ) → validate_sha256 (sha256 bytes) ≡ ok (sha256 bytes)) where
  walked_root :
      (limits : Limits) (listed : Option (List (Text × Visit))) (after : Scan)
      → pos 0 ≤ℤ limits.max_bytes
      → ((visits : List (Text × Visit))
          → listed ≡ some visits
          → AreGood sha256 fsencode limits hex [] visits)
      → walked listed start ≡ ok after
      → Extends limits [] [] after
  walked_root limits none after h good e = cc
  walked_root limits (some visits) after h good e =
      let g = good visits refl in
      run-Extends limits [] (sorted_by earlier visits) [] start after
        (All-sorted_by earlier (KeepsScan limits []) visits g.keep)
        (Pairwise-sorted_by earlier IsOther (λ v w differs same. differs (sym same)) visits
          g.differ)
        (all_fresh limits (sorted_by earlier visits)) (start-IsScan limits h) e

  -- A scan that returns has found no more entries and no more bytes than its limits allow, and
  -- `verify_manifest` accepts its manifest for every root that resolves as the scanned one; for names as a
  -- file system keeps them, a root that can be printed, a limit that is not negative, and a hash in
  -- lowercase hexadecimal.
  pub verify_manifest-scan_tree :
      (resolve : FilePath → FilePath) (excluded : List Text) (max_entries : ℕ) (max_bytes : ℤ)
      (info : Result (Option Stat)) (root_path expected_root : FilePath) (is_dir : Bool)
      (children : Trees) (manifest : TreeManifest)
      → AreNamed children
      → IsPath root_path
      → resolve root_path ≡ resolve expected_root
      → pos 0 ≤ℤ max_bytes
      → scan_tree sha256 fsencode excluded max_entries max_bytes info root_path is_dir children
        ≡ ok manifest
      → (verify_manifest resolve sha256 manifest (some expected_root) ≡ ok tt)
        × (length manifest.entries ≤ max_entries)
        × (manifest.total_bytes ≤ℤ max_bytes)
  unfolding scan_tree walk
  verify_manifest-scan_tree resolve excluded max_entries max_bytes info root_path expected_root
        is_dir children manifest named printed resolved nonneg h =
      let (found, e0, h0) = >>=-eq-ok info _ h in
      let (root_info, e1, h1) = >>=-eq-ok (found_or guard_error found) _ h0 in
      let (e2, h2) = refuse-eq-ok (entry_kind root_info.st_mode == symlink) _ _ h1 in
      let (e3, h3) = refuse-eq-ok (not is_dir) _ _ h2 in
      let limits : Limits = record {
        excluded = excluded;
        root_device = root_info.st_dev;
        max_entries = max_entries;
        max_bytes = max_bytes;
      } in
      let (st, e4, h4) = >>=-eq-ok (walk sha256 fsencode limits [] children start) _ h3 in
      let (digest, e5, h5) = >>=-eq-ok (tree_digest sha256 st.entries) _ h4 in
      let x =
        walked_root limits (listing sha256 fsencode limits [] children) st nonneg
          (λ visits listed.
            (listing-AreGood sha256 fsencode limits hex [] children visits tt named listed).0)
          e4 in
      let scan : IsScan limits x.more st = x.scan in
      subst
        (λ m.
          (verify_manifest resolve sha256 m (some expected_root) ≡ ok tt)
          × (length m.entries ≤ max_entries)
          × (m.total_bytes ≤ℤ max_bytes))
        (ok-injective h5)
        (
          (verify_manifest_iff resolve sha256 _ expected_root).1 (
            ap resolve (parse-render root_path printed) ∙ resolved,
            scan.sound,
            scan.files,
            scan.bytes,
            e5,
          ),
          scan.few,
          scan.small,
        )
