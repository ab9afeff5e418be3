-- ===== src/Manifest/Scan/Walked.antt =====
-- The walk of a scan: each entry is stored once, and is sound.
use agent_workspace_guard.Base.{
  ◌≡◌, ◌≢◌, inl, inr, refl, sym, subst, ℕ, Bool-cases, true, false, Option, none, some, List, [],
  ◌∷◌, ◌++◌, append-nil, append_assoc, All, Pairwise, All-sorted_by, Pairwise-sorted_by, sorted_by,
  Text, ◌==◌, nat_eq, list_eq, starts_with, starts_with-append, arith, Result, ok, >>=-eq-ok,
  ok-injective, if◌then◌else◌, ◌>>=◌,
}
use agent_workspace_guard.Paths.{FilePath, render}
use agent_workspace_guard.Paths.Names.{IsRelative}
use agent_workspace_guard.Models.Enums.{EntryKind, directory, entry_kind_eq}
use agent_workspace_guard.Validate.{validate_sha256}
use agent_workspace_guard.Manifest.Scan.{
  Tree, Trees, child, unreadable, nil, cons, Found, Scan, Visit, earlier, walked, Limits, entry_of,
  record_entry, is_skipped, visit, listing,
}
use agent_workspace_guard.Manifest.Scan.Named.{
  name_of, IsUnused, IsNamed, AreNamed, IsBelow, IsRelative-append, append-nonempty, IsFresh,
}
use agent_workspace_guard.Manifest.Scan.Recorded.{IsScan, record_entry-IsScan, entry_of-IsSound}
use agent_workspace_guard.Manifest.Scan.Extends.{Extends, IsOther, KeepsScan, AreFresh, run-Extends}

not_longer :
    (path above : FilePath) (name : Text)
    → starts_with path above ≡ false
    → starts_with path (above ++ (name ∷ [])) ≡ false
unfolding starts_with
not_longer path [] name h = cc
not_longer [] (x ∷ above) name h = refl
not_longer (y ∷ path) (x ∷ above) name h = ground (arith, not_longer path above name)

not_below_itself : (path : FilePath) (name : Text) → starts_with path (path ++ (name ∷ [])) ≡ false
unfolding starts_with
not_below_itself [] name = refl
not_below_itself (x ∷ path) name = ground (arith, not_below_itself path name)

below_itself : (path : FilePath) → starts_with path path ≡ true
below_itself path =
    subst (λ x. starts_with x path ≡ true) (append-nil path) (starts_with-append path [])

longer-IsFresh :
    (path : FilePath) (name : Text) (visited : List FilePath)
    → IsFresh path visited
    → IsFresh (path ++ (name ∷ [])) (visited ++ (path ∷ []))
longer-IsFresh path name [] h = (not_below_itself path name, tt)
longer-IsFresh path name (v ∷ visited) (h, hs) =
    (not_longer v path name h, longer-IsFresh path name visited hs)

some-injective : {A : Type 0} {a b : A} → some a ≡ some b → a ≡ b
some-injective h = cc

listed_cons :
    (v : Text × Visit) (rest : Option (List (Text × Visit))) (visits : List (Text × Visit))
    → (elim rest [ none ↦ none | some later ↦ some (v ∷ later) ]) ≡ some visits
    → (later : List (Text × Visit)) × (rest ≡ some later) × ((v ∷ later) ≡ visits)
listed_cons v none visits h = cc
listed_cons v (some later) visits h = (later, refl, some-injective h)

module _ (sha256 : List ℕ → Text) (fsencode : Text → List ℕ) (limits : Limits)
    (hex : (bytes : List ℕ) → validate_sha256 (sha256 bytes) ≡ ok (sha256 bytes)) where
  children_fresh :
      (path : FilePath) (visited : List FilePath) (visits : List (Text × Visit))
      → IsFresh path visited
      → AreFresh limits path (visited ++ (path ∷ [])) visits
  children_fresh path visited [] h = tt
  children_fresh path visited (v ∷ visits) h =
      (longer-IsFresh path v.0 visited h, children_fresh path visited visits h)

  -- What the visits of a listing keep.
  pub record AreGood (folder : FilePath) (visits : List (Text × Visit)) : Type 0 where
    pub keep : All (KeepsScan limits folder) visits
    pub differ : Pairwise IsOther visits

  just_entry :
      (path : FilePath) (visited : List FilePath) (after : Scan)
      → IsScan limits (visited ++ (path ∷ [])) after
      → Extends limits path visited after
  just_entry path visited after scan = record {
    more = path ∷ [];
    inside = (below_itself path, tt);
    scan = scan;
  }

  walked_children :
      (path : FilePath) (listed : Option (List (Text × Visit))) (visited : List FilePath)
      (st after : Scan)
      → ((visits : List (Text × Visit)) → listed ≡ some visits → AreGood path visits)
      → IsFresh path visited
      → IsScan limits (visited ++ (path ∷ [])) st
      → walked listed st ≡ ok after
      → Extends limits path visited after
  walked_children path none visited st after good fresh scan e = cc
  walked_children path (some visits) visited st after good fresh scan e =
      let g = good visits refl in
      let sorted = sorted_by earlier visits in
      let y =
        run-Extends limits path sorted (visited ++ (path ∷ [])) st after
          (All-sorted_by earlier (KeepsScan limits path) visits g.keep)
          (Pairwise-sorted_by earlier IsOther (λ v w differs same. differs (sym same)) visits
            g.differ)
          (children_fresh path visited sorted fresh) scan e in
      record {
        more = path ∷ y.more;
        inside = (below_itself path, y.inside);
        scan = subst (λ v. IsScan limits v after) (append_assoc visited (path ∷ []) y.more) y.scan;
      }

  -- Below one stored entry: its children, if it is a directory.
  descend :
      (path : FilePath) (kind : EntryKind) (listed : Option (List (Text × Visit)))
      (visited : List FilePath) (st after : Scan)
      → ((visits : List (Text × Visit)) → listed ≡ some visits → AreGood path visits)
      → IsFresh path visited
      → IsScan limits (visited ++ (path ∷ [])) st
      → (if kind == directory then walked listed st else ok st) ≡ ok after
      → Extends limits path visited after
  descend path kind listed visited st after good fresh scan e =
      elim (Bool-cases (kind == directory)) [
        | inl down ↦
            walked_children path listed visited st after good fresh scan
              (subst (λ b. (if b then walked listed st else ok st) ≡ ok after) down e)
        | inr leaf ↦ just_entry path visited after (
            subst (IsScan limits (visited ++ (path ∷ [])))
              (ok-injective
                (subst (λ b. (if b then walked listed st else ok st) ≡ ok after) leaf e))
              scan)
      ]

  -- A child that is skipped, or stored with what lies below it.
  visited_child :
      (folder : FilePath) (name : Text) (found : Found) (listed : Option (List (Text × Visit)))
      (visited : List FilePath) (st after : Scan)
      → IsBelow (folder ++ (name ∷ []))
      → ((visits : List (Text × Visit))
          → listed ≡ some visits
          → AreGood (folder ++ (name ∷ [])) visits)
      → IsScan limits visited st
      → IsFresh (folder ++ (name ∷ [])) visited
      → (if is_skipped sha256 fsencode limits folder name
          then ok st
          else (entry_of sha256 fsencode limits (render (folder ++ (name ∷ []))) found >>= λ entry.
              record_entry sha256 fsencode limits (render (folder ++ (name ∷ []))) entry st
              >>= λ st. if entry.kind == directory then walked listed st else ok st))
        ≡ ok after
      → Extends limits (folder ++ (name ∷ [])) visited after
  visited_child folder name found listed visited st after below good scan fresh e =
      let path = folder ++ (name ∷ []) in
      let stored : Result Scan = entry_of sha256 fsencode limits (render path) found >>= λ entry.
      record_entry sha256 fsencode limits (render path) entry st >>= λ st.
      if entry.kind == directory then walked listed st else ok st in
      elim (Bool-cases (is_skipped sha256 fsencode limits folder name)) [
        | inl skipped ↦ record {
          more = [];
          inside = tt;
          scan =
              subst (λ v. IsScan limits v after) (sym (append-nil visited))
                (subst (IsScan limits visited)
                  (ok-injective (subst (λ b. (if b then ok st else stored) ≡ ok after) skipped e))
                  scan);
        }
        | inr kept ↦
            let e0 = subst (λ b. (if b then ok st else stored) ≡ ok after) kept e in
            let (entry, e1, e2) =
              >>=-eq-ok (entry_of sha256 fsencode limits (render path) found) _ e0 in
            let (st1, e3, e4) =
              >>=-eq-ok (record_entry sha256 fsencode limits (render path) entry st) _ e2 in
            descend path entry.kind listed visited st1 after good fresh
              (record_entry-IsScan sha256 fsencode limits path entry visited st st1 scan below fresh
                (entry_of-IsSound sha256 fsencode limits hex (render path) found entry e1) e3)
              e4
      ]

  mutual
    unfolding visit IsNamed

    visit-KeepsScan :
        (folder : FilePath) (tree : Tree)
        → IsRelative folder
        → IsNamed tree
        → KeepsScan limits folder (name_of tree, visit sha256 fsencode limits folder tree)
    visit-KeepsScan folder (child name found children) rel (n, ns) visited st after scan fresh e =
        let path = folder ++ (name ∷ []) in
        let path_rel = IsRelative-append folder (name ∷ []) rel (n, tt) in
        visited_child folder name found (listing sha256 fsencode limits path children) visited st
          after (path_rel, append-nonempty folder name)
          (λ visits listed. (listing-AreGood path children visits path_rel ns listed).0) scan fresh
          e

    pub listing-AreGood :
        (folder : FilePath) (trees : Trees) (visits : List (Text × Visit))
        → IsRelative folder
        → AreNamed trees
        → listing sha256 fsencode limits folder trees ≡ some visits
        → AreGood folder visits
          × ((name : Text) → IsUnused name trees → All (λ v. name ≢ v.0) visits)
    listing-AreGood folder unreadable visits rel ns e = cc
    listing-AreGood folder nil visits rel ns e =
        subst
          (λ v. AreGood folder v × ((name : Text) → IsUnused name nil → All (λ w. name ≢ w.0) v))
          (some-injective e) (record { keep = tt; differ = tt }, λ name u. tt)
    listing-AreGood folder (cons (child name found children) trees) visits rel (n, cs, unused, ns)
          e =
        let v : Text × Visit =
          (name, visit sha256 fsencode limits folder (child name found children)) in
        let (rest, e1, e2) = listed_cons v (listing sha256 fsencode limits folder trees) visits e in
        let (good, others) = listing-AreGood folder trees rest rel ns e1 in
        subst
          (λ w.
            AreGood folder w
            × ((other : Text)
                → IsUnused other (cons (child name found children) trees)
                → All (λ x. other ≢ x.0) w))
          e2
          (
            record {
              keep = (visit-KeepsScan folder (child name found children) rel (n, cs), good.keep);
              differ = (others name unused, good.differ);
            },
            λ other u. (u.0, others other u.1),
          )
