-- ===== src/Manifest/Scan/Recorded.antt =====
-- What the scan stores: sound entries, each under a new key, within the limits.
use agent_workspace_guard.Base.{
  ◌≡◌, refl, sym, ap, ◌∙◌, subst, ℕ, ◌≤◌, Bool, true, false, not, ◌&&◌, Option, List, [], ◌∷◌, ◌++◌,
  map, length, All, Text, ◌==◌, contains, nat_eq, list_eq, ltb, arith, ℤ, pos, ◌+ℤ◌, ◌≤ℤ◌, ltb_ℤ,
  +ℤ_assoc, add_zero_ℤ, zero_add_ℤ, ok, guard_error, builtin, codes, show_nat, refuse, refuse-eq-ok,
  >>=-eq-ok, ok-injective, Succeeds, if◌then◌else◌, ◌>>=◌,
}
use agent_workspace_guard.Paths.{FilePath, render, validate_relative_path}
use agent_workspace_guard.Models.Enums.{EntryKind, directory, file, symlink, special, entry_kind_eq}
use agent_workspace_guard.Models.ManifestEntry.{ManifestEntry}
use agent_workspace_guard.Validate.{validate_sha256}
use agent_workspace_guard.Manifest.{Entries, keys}
use agent_workspace_guard.Manifest.Verify.{IsSound, AllSound, count_files, count_bytes}
use agent_workspace_guard.Manifest.Scan.{
  Stat, Found, entry_kind, found_or, set_entry, Scan, Limits, describe, entry_of, record_entry,
  mode_bits,
}
use agent_workspace_guard.Manifest.Scan.Named.{IsBelow, IsFresh, contains-IsFresh}

set_entry_new :
    (key : Text) (entry : ManifestEntry) (entries : Entries)
    → contains (keys entries) key ≡ false
    → set_entry key entry entries ≡ entries ++ ((key, entry) ∷ [])
unfolding set_entry
set_entry_new key entry [] h = refl
set_entry_new key entry ((k, e) ∷ entries) h = ground (arith, set_entry_new key entry entries)

keys-append : (a b : Entries) → keys (a ++ b) ≡ keys a ++ keys b
keys-append [] b = refl
keys-append ((k, e) ∷ a) b = ap (λ x. k ∷ x) (keys-append a b)

AllSound-append : (a b : Entries) → AllSound a → AllSound b → AllSound (a ++ b)
AllSound-append [] b h k = k
AllSound-append ((key, e) ∷ a) b (h, hs) k = (h, AllSound-append a b hs k)

count_files-append : (a b : Entries) → count_files (a ++ b) ≡ count_files a +ℤ count_files b
count_files-append [] b = sym (zero_add_ℤ (count_files b))
count_files-append ((k, e) ∷ a) b =
    ap (λ n. (if e.kind == file then pos 1 else pos 0) +ℤ n) (count_files-append a b)
    ∙ sym (+ℤ_assoc (if e.kind == file then pos 1 else pos 0) (count_files a) (count_files b))

count_bytes-append : (a b : Entries) → count_bytes (a ++ b) ≡ count_bytes a +ℤ count_bytes b
count_bytes-append [] b = sym (zero_add_ℤ (count_bytes b))
count_bytes-append ((k, e) ∷ a) b =
    ap (λ n. (if e.kind == file then e.size else pos 0) +ℤ n) (count_bytes-append a b)
    ∙ sym (+ℤ_assoc (if e.kind == file then e.size else pos 0) (count_bytes a) (count_bytes b))

map-append : (a b : List FilePath) → map render (a ++ b) ≡ map render a ++ map render b
map-append [] b = refl
map-append (x ∷ a) b = ap (λ y. render x ∷ y) (map-append a b)

pub All-append : (P : FilePath → Type 0) (a b : List FilePath) → All P a → All P b → All P (a ++ b)
All-append P [] b h k = k
All-append P (x ∷ a) b (h, hs) k = (h, All-append P a b hs k)

-- The state of a scan that has visited these paths.
pub record IsScan (limits : Limits) (visited : List FilePath) (st : Scan) : Type 0 where
  pub same_keys : keys st.entries ≡ map render visited
  pub below : All IsBelow visited
  pub sound : AllSound st.entries
  pub files : st.total_files ≡ count_files st.entries
  pub bytes : st.total_bytes ≡ count_bytes st.entries
  pub few : length st.entries ≤ limits.max_entries
  pub small : st.total_bytes ≤ℤ limits.max_bytes

plus_if :
    (b : Bool) (total n : ℤ) → (if b then total +ℤ n else total) ≡ total +ℤ (if b then n else pos 0)
plus_if true total n = refl
plus_if false total n = sym (add_zero_ℤ total)

module _ (sha256 : List ℕ → Text) (fsencode : Text → List ℕ) (limits : Limits) where
  abbrev recorded : FilePath → ManifestEntry → Scan → Scan
  recorded path entry st = record {
    entries = st.entries ++ ((render path, entry) ∷ []);
    total_files = if entry.kind == file then st.total_files +ℤ pos 1 else st.total_files;
    total_bytes = if entry.kind == file then st.total_bytes +ℤ entry.size else st.total_bytes;
  }

  record_entry_inv :
      (path : FilePath) (entry : ManifestEntry) (st after : Scan)
      → contains (keys st.entries) (render path) ≡ false
      → record_entry sha256 fsencode limits (render path) entry st ≡ ok after
      → (recorded path entry st ≡ after)
        × (length (recorded path entry st).entries ≤ limits.max_entries)
        × ((recorded path entry st).total_bytes ≤ℤ limits.max_bytes)
  unfolding record_entry
  record_entry_inv path entry st after new h =
      let e = set_entry_new (render path) entry st.entries new in
      let k =
        subst
          (λ es.
            (refuse (ltb limits.max_entries (length es)) guard_error >>= λ _.
            refuse (ltb_ℤ limits.max_bytes (recorded path entry st).total_bytes) guard_error
            >>= λ _. ok (record (recorded path entry st) { entries = es }))
            ≡ ok after)
          e h in
      let (few, k1) =
        refuse-eq-ok (ltb limits.max_entries (length (recorded path entry st).entries)) _ _ k in
      let (small, k2) =
        refuse-eq-ok (ltb_ℤ limits.max_bytes (recorded path entry st).total_bytes) _ _ k1 in
      (ok-injective k2, ground (arith, few), ground (arith, small))

  pub record_entry-IsScan :
      (path : FilePath) (entry : ManifestEntry) (visited : List FilePath) (st after : Scan)
      → IsScan limits visited st
      → IsBelow path
      → IsFresh path visited
      → IsSound (render path) entry
      → record_entry sha256 fsencode limits (render path) entry st ≡ ok after
      → IsScan limits (visited ++ (path ∷ [])) after
  record_entry-IsScan path entry visited st after scan below fresh sound h =
      let new =
        subst (λ ks. contains ks (render path) ≡ false) (sym scan.same_keys)
          (contains-IsFresh path visited below scan.below fresh) in
      let (same, few, small) = record_entry_inv path entry st after new h in
      let one : Entries = (render path, entry) ∷ [] in
      let is_file = entry.kind == file in
      subst (IsScan limits (visited ++ (path ∷ []))) same (record {
        same_keys =
            keys-append st.entries one
            ∙ ap (λ ks. ks ++ (render path ∷ [])) scan.same_keys
            ∙ sym (map-append visited (path ∷ []));
        below = All-append IsBelow visited (path ∷ []) scan.below (below, tt);
        sound = AllSound-append st.entries one scan.sound (sound, tt);
        files =
            plus_if is_file st.total_files (pos 1)
            ∙ ap (λ n. n +ℤ (if is_file then pos 1 else pos 0)) scan.files
            ∙ ap (λ n. count_files st.entries +ℤ n)
                (sym (add_zero_ℤ (if is_file then pos 1 else pos 0)))
            ∙ sym (count_files-append st.entries one);
        bytes =
            plus_if is_file st.total_bytes entry.size
            ∙ ap (λ n. n +ℤ (if is_file then entry.size else pos 0)) scan.bytes
            ∙ ap (λ n. count_bytes st.entries +ℤ n)
                (sym (add_zero_ℤ (if is_file then entry.size else pos 0)))
            ∙ sym (count_bytes-append st.entries one);
        few = few;
        small = small;
      })

  module _ (hex : (bytes : List ℕ) → validate_sha256 (sha256 bytes) ≡ ok (sha256 bytes)) where
    abbrev made : Text → EntryKind → Stat → Text × Option Text → ManifestEntry
    made key kind info described = record {
      path = key;
      kind = kind;
      mode = pos (mode_bits info.st_mode);
      size = if kind == file then pos info.st_size else pos 0;
      digest = described.0;
      link_target = described.1;
    }

    -- By the kind of the entry.
    made-IsSound :
        (key : Text) (kind : EntryKind) (info : Stat) (found : Found)
        (described : Text × Option Text)
        → Succeeds (validate_relative_path key)
        → describe sha256 fsencode limits kind info found ≡ ok described
        → IsSound key (made key kind info described)
    unfolding describe entry_kind_eq
    made-IsSound key EntryKind.file info found described valid h =
        let (content, e, k) = >>=-eq-ok (found_or builtin found.content) _ h in
        subst (λ d. IsSound key (made key file info d)) (ok-injective k)
          (record {
            valid_key = valid;
            same_path = refl;
            size_nonneg = omega arith;
            mode_nonneg = omega arith;
            no_size = λ n. absurd (n refl);
            target = λ n. cc;
            no_target = λ n. refl;
            no_digest = λ n. cc;
            digest_form = λ n. hex content;
          })
    made-IsSound key EntryKind.symlink info found described valid h =
        let (target, e, k) = >>=-eq-ok (found_or guard_error found.target) _ h in
        subst (λ d. IsSound key (made key symlink info d)) (ok-injective k)
          (record {
            valid_key = valid;
            same_path = refl;
            size_nonneg = omega arith;
            mode_nonneg = omega arith;
            no_size = λ n. refl;
            target = λ n. cc;
            no_target = λ n. absurd (n refl);
            no_digest = λ n. cc;
            digest_form = λ n. hex (fsencode target);
          })
    made-IsSound key EntryKind.directory info found described valid h =
        subst (λ d. IsSound key (made key directory info d)) (ok-injective h)
          (record {
            valid_key = valid;
            same_path = refl;
            size_nonneg = omega arith;
            mode_nonneg = omega arith;
            no_size = λ n. refl;
            target = λ n. cc;
            no_target = λ n. refl;
            no_digest = λ n. refl;
            digest_form = λ n. absurd (n refl);
          })
    made-IsSound key EntryKind.special info found described valid h =
        subst (λ d. IsSound key (made key special info d)) (ok-injective h)
          (record {
            valid_key = valid;
            same_path = refl;
            size_nonneg = omega arith;
            mode_nonneg = omega arith;
            no_size = λ n. refl;
            target = λ n. cc;
            no_target = λ n. refl;
            no_digest = λ n. cc;
            digest_form = λ n.
                hex
                  (codes "special:" ++ show_nat info.st_mode ++ codes ":" ++ show_nat info.st_rdev);
          })

    pub entry_of-IsSound :
        (key : Text) (found : Found) (entry : ManifestEntry)
        → entry_of sha256 fsencode limits key found ≡ ok entry
        → IsSound key entry
    unfolding entry_of
    entry_of-IsSound key found entry h =
        let (path, valid, h1) = >>=-eq-ok (validate_relative_path key) _ h in
        let (info, there, h2) = >>=-eq-ok (found_or guard_error found.info) _ h1 in
        let kind = entry_kind info.st_mode in
        let (same_device, h3) =
          refuse-eq-ok (not (kind == symlink) && not (info.st_dev == limits.root_device)) _ _ h2 in
        let (described, e, h4) = >>=-eq-ok (describe sha256 fsencode limits kind info found) _ h3 in
        subst (IsSound key) (ok-injective h4)
          (made-IsSound key kind info found described (path, valid) e)
