-- ===== src/Manifest/Diff.antt =====
-- The changes that `diff_manifests` of src/agent_workspace_guard/manifest.py reports.
use agent_workspace_guard.Base.{
  ◌≡◌, ◌≢◌, ◌↔◌, refl, ◌∙◌, Bool-cases, Option-cases, inl, inr, true, false, ◌||◌, Option, none,
  some, List, [], ◌∷◌, ◌++◌, Text, ◌==◌, nat_eq, list_eq, int_eq, option_eq, contains,
  contains-append, text_ltb, text_ltb_irrefl, sorted_set, sorted_set-IsAscending,
  contains-sorted_set, IsAscending, All, arith, if◌then◌else◌,
}
use agent_workspace_guard.Models.Enums.{
  directory, entry_kind_eq, ChangeKind, add, modify, delete, type_change,
}
use agent_workspace_guard.Models.ManifestEntry.{ManifestEntry}
use agent_workspace_guard.Models.TreeManifest.{TreeManifest}
use agent_workspace_guard.Models.Change.{Change}
use agent_workspace_guard.Manifest.{
  Entries, get_entry, keys, entry_changed, classify, prepend_change, diff_paths, diff_manifests,
}

-- Two entries that a plan need not mention. Of directories only the mode counts.
abbrev pub Same : ManifestEntry → ManifestEntry → Type 0
Same old new =
    (old.kind ≡ new.kind)
    × (old.mode ≡ new.mode)
    × (old.kind ≢ directory
        → (old.size ≡ new.size) × (old.digest ≡ new.digest) × (old.link_target ≡ new.link_target))

abbrev pub SameAt : Option ManifestEntry → Option ManifestEntry → Type 0
SameAt none none = Unit
SameAt (some old) (some new) = Same old new
SameAt _ _ = ⊥

-- The kind of change that two different entries at one path make.
abbrev pub Fits : ChangeKind → Option ManifestEntry → Option ManifestEntry → Type 0
Fits add none (some new) = Unit
Fits delete (some old) none = Unit
Fits type_change (some old) (some new) = old.kind ≢ new.kind
Fits modify (some old) (some new) = old.kind ≡ new.kind
Fits _ _ _ = ⊥

-- The first change at a path.
unfoldable pub find_change : Text → List Change → Option Change
find_change path [] = none
find_change path (change ∷ changes) =
    if change.path == path then some change else find_change path changes

classify_path :
    (path : Text) (old new : Option ManifestEntry) (c : Change)
    → classify path old new ≡ some c
    → (c.path ≡ path) × (c.before ≡ old) × (c.after ≡ new) × Fits c.kind old new
unfolding classify
classify_path path none none c h = cc
classify_path path none (some new) c h = ground arith
classify_path path (some old) none c h = ground arith
classify_path path (some old) (some new) c h = ground arith

entry_changed_iff :
    (old new : ManifestEntry) → old.kind ≡ new.kind → (entry_changed old new ≡ false) ↔ Same old new
unfolding entry_changed
entry_changed_iff old new e = (λ h. ground arith, λ h. ground (arith, h.2))

classify-none :
    (path : Text) (old new : Option ManifestEntry) → (classify path old new ≡ none) ↔ SameAt old new
unfolding classify
classify-none path none none = (λ h. tt, λ h. refl)
classify-none path none (some new) = (λ h. cc, λ h. absurd h)
classify-none path (some old) none = (λ h. cc, λ h. absurd h)
classify-none path (some old) (some new) = (
  λ h. ground (arith, entry_changed_iff old new),
  λ h. ground (arith, entry_changed_iff old new h.0),
)

not_contained :
    (path : Text) (paths : List Text)
    → All (λ q. text_ltb path q ≡ true) paths
    → contains paths path ≡ false
not_contained path [] h = refl
not_contained path (q ∷ paths) (h, hs) =
    ground (arith, not_contained path paths hs, text_ltb_irrefl path)

find_change-prepend :
    (p path : Text) (old new : Option ManifestEntry) (changes : List Change)
    → find_change p (prepend_change (classify path old new) changes) ≡ (
        if path == p
        then elim (classify path old new) [ none ↦ find_change p changes | some c ↦ some c ]
        else find_change p changes)
unfolding find_change
find_change-prepend p path old new changes = elim (Option-cases (classify path old new)) [
  | inl e ↦ rw e (ground arith)
  | inr (c, e) ↦ rw e (ground (arith, (classify_path path old new c e).0))
]

find_change-diff_paths :
    (p : Text) (before after : Entries) (paths : List Text)
    → IsAscending paths
    → find_change p (diff_paths before after paths)
      ≡ (if contains paths p then classify p (get_entry p before) (get_entry p after) else none)
unfolding diff_paths find_change
find_change-diff_paths p before after [] h = refl
find_change-diff_paths p before after (path ∷ paths) (h, hs) =
    find_change-prepend p path (get_entry path before) (get_entry path after) _
    ∙ ground (arith, find_change-diff_paths p before after paths hs, not_contained path paths h)

get_entry-keys :
    (p : Text) (entries : Entries) → contains (keys entries) p ≡ false → get_entry p entries ≡ none
unfolding get_entry
get_entry-keys p [] h = refl
get_entry-keys p ((key, entry) ∷ entries) h = ground (arith, get_entry-keys p entries)

find_change-diff_manifests :
    (p : Text) (before after : TreeManifest)
    → find_change p (diff_manifests before after)
      ≡ classify p (get_entry p before.entries) (get_entry p after.entries)
unfolding diff_manifests
find_change-diff_manifests p before after =
    find_change-diff_paths p before.entries after.entries _
      (sorted_set-IsAscending (keys before.entries ++ keys after.entries))
    ∙ rw (contains-sorted_set, contains-append) (split p before.entries after.entries)
  where
    split :
        (p : Text) (b a : Entries)
        → (if contains (keys b) p || contains (keys a) p
            then classify p (get_entry p b) (get_entry p a)
            else none)
          ≡ classify p (get_entry p b) (get_entry p a)
    split p b a = elim (Bool-cases (contains (keys b) p || contains (keys a) p)) [
      | inl e ↦ rw e
      | inr e ↦
          rw (e, get_entry-keys p b (ground arith), get_entry-keys p a (ground arith))
            (unfold classify in refl)
    ]

-- At every path the diff is silent exactly when both manifests hold the same there. A change that
-- it reports has that path, the two entries of the manifests, and the kind that fits them.
pub diff_manifests_exact :
    (path : Text) (before after : TreeManifest)
    → let old = get_entry path before.entries in
      let new = get_entry path after.entries in
      ((find_change path (diff_manifests before after) ≡ none) ↔ SameAt old new)
      × ((change : Change)
          → find_change path (diff_manifests before after) ≡ some change
          → (change.path ≡ path)
            × (change.before ≡ old)
            × (change.after ≡ new)
            × Fits change.kind old new)
diff_manifests_exact path before after =
    rw (find_change-diff_manifests path before after)
      (classify-none path _ _, λ change h. classify_path path _ _ change h)

unfoldable pub paths_of : List Change → List Text
paths_of [] = []
paths_of (change ∷ changes) = change.path ∷ paths_of changes

All-paths_of :
    (path : Text) (before after : Entries) (paths : List Text)
    → All (λ q. text_ltb path q ≡ true) paths
    → All (λ q. text_ltb path q ≡ true) (paths_of (diff_paths before after paths))
unfolding paths_of diff_paths
All-paths_of path before after [] h = tt
All-paths_of path before after (q ∷ paths) (h, hs) =
    elim (Option-cases (classify q (get_entry q before) (get_entry q after))) [
      | inl e ↦ rw e (All-paths_of path before after paths hs)
      | inr (c, e) ↦
          rw (e, (classify_path q _ _ c e).0) (h, All-paths_of path before after paths hs)
    ]

diff_paths-IsAscending :
    (before after : Entries) (paths : List Text)
    → IsAscending paths
    → IsAscending (paths_of (diff_paths before after paths))
unfolding paths_of diff_paths
diff_paths-IsAscending before after [] h = tt
diff_paths-IsAscending before after (q ∷ paths) (h, hs) =
    elim (Option-cases (classify q (get_entry q before) (get_entry q after))) [
      | inl e ↦ rw e (diff_paths-IsAscending before after paths hs)
      | inr (c, e) ↦
          rw (e, (classify_path q _ _ c e).0)
            (All-paths_of q before after paths h, diff_paths-IsAscending before after paths hs)
    ]

-- The changes stand in strictly ascending order of their paths, so no path is reported twice.
pub diff_manifests-IsAscending :
    (before after : TreeManifest) → IsAscending (paths_of (diff_manifests before after))
unfolding diff_manifests
diff_manifests-IsAscending before after =
    let paths = keys before.entries ++ keys after.entries in
    diff_paths-IsAscending before.entries after.entries (sorted_set paths)
      (sorted_set-IsAscending paths)
