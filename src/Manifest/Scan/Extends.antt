-- ===== src/Manifest/Scan/Extends.antt =====
-- A loop over the children of a folder adds paths below the folder, each once.
use agent_workspace_guard.Base.{
  ◌≡◌, ◌≢◌, inl, inr, refl, sym, ◌∙◌, subst, Bool-cases, true, false, List, [], ◌∷◌, ◌++◌,
  append-nil, append_assoc, All, Pairwise, Text, ◌==◌, eq_sound, eq_refl, nat_eq, list_eq,
  starts_with, starts_with-append, arith, ok, >>=-eq-ok, ok-injective,
}
use agent_workspace_guard.Paths.{FilePath}
use agent_workspace_guard.Models.Enums.{entry_kind_eq}
use agent_workspace_guard.FileSystem.Moves.{
  Separate, starts_with_split, starts_with-Separate, Separate-prefix,
}
use agent_workspace_guard.Manifest.Scan.{Scan, Visit, run, Limits}
use agent_workspace_guard.Manifest.Scan.Named.{IsFresh}
use agent_workspace_guard.Manifest.Scan.Recorded.{All-append, IsScan}

-- A visit has added paths at or below `root`.
pub record Extends (limits : Limits) (root : FilePath) (visited : List FilePath) (after : Scan)
    : Type 0 where
  pub more : List FilePath
  pub inside : All (λ path. starts_with path root ≡ true) more
  pub scan : IsScan limits (visited ++ more) after

-- Visits of distinct names.
abbrev pub IsOther : Text × Visit → Text × Visit → Type 0
IsOther v w = v.0 ≢ w.0

names-Separate : (name other : Text) → name ≢ other → Separate (name ∷ []) (other ∷ [])
unfolding starts_with
names-Separate name other differs = elim (Bool-cases (name == other)) [
  | inl same ↦ absurd (differs (eq_sound name other same))
  | inr c ↦ record {
    not_below = rw c refl;
    not_above = ground (arith, eq_sound other name, eq_refl name);
  }
]

siblings :
    (folder : FilePath) (name other : Text)
    → name ≢ other
    → Separate (folder ++ (name ∷ [])) (folder ++ (other ∷ []))
siblings folder name other differs =
    Separate-prefix folder (name ∷ []) (other ∷ []) (names-Separate name other differs)

IsFresh-beside :
    (root path : FilePath) (more : List FilePath)
    → Separate root path
    → All (λ p. starts_with p root ≡ true) more
    → IsFresh path more
IsFresh-beside root path [] h hs = tt
IsFresh-beside root path (p ∷ more) h (k, ks) =
    let (rest, e) = starts_with_split p root k in
    (
      subst (λ x. starts_with x path ≡ false) (sym e) (starts_with-Separate root path rest h),
      IsFresh-beside root path more h ks,
    )

module _ (limits : Limits) (folder : FilePath) where
  -- What a visit of a child keeps.
  abbrev pub KeepsScan : Text × Visit → Type 0
  KeepsScan (name, go) =
      (visited : List FilePath) (st after : Scan)
      → IsScan limits visited st
      → IsFresh (folder ++ (name ∷ [])) visited
      → go st ≡ ok after
      → Extends limits (folder ++ (name ∷ [])) visited after

  abbrev pub AreFresh : List FilePath → List (Text × Visit) → Type 0
  AreFresh visited visits = All (λ v. IsFresh (folder ++ (v.0 ∷ [])) visited) visits

  stay_fresh :
      (v : Text × Visit) (visited more : List FilePath) (visits : List (Text × Visit))
      → All (IsOther v) visits
      → All (λ p. starts_with p (folder ++ (v.0 ∷ [])) ≡ true) more
      → AreFresh visited visits
      → AreFresh (visited ++ more) visits
  stay_fresh v visited more [] h k fs = tt
  stay_fresh v visited more (w ∷ visits) (h, hs) k (f, fs) = (
    All-append (λ p. starts_with p (folder ++ (w.0 ∷ [])) ≡ false) visited more f
        (IsFresh-beside (folder ++ (v.0 ∷ [])) (folder ++ (w.0 ∷ [])) more
          (siblings folder v.0 w.0 h) k),
    stay_fresh v visited more visits hs k fs,
  )

  within_directory :
      (name : Text) (more : List FilePath)
      → All (λ p. starts_with p (folder ++ (name ∷ [])) ≡ true) more
      → All (λ p. starts_with p folder ≡ true) more
  within_directory name [] h = tt
  within_directory name (p ∷ more) (h, hs) =
      let (rest, e) = starts_with_split p (folder ++ (name ∷ [])) h in
      (
        subst (λ x. starts_with x folder ≡ true) (sym (e ∙ append_assoc folder (name ∷ []) rest))
            (starts_with-append folder (name ∷ rest)),
        within_directory name more hs,
      )

  pub run-Extends :
      (visits : List (Text × Visit)) (visited : List FilePath) (st after : Scan)
      → All KeepsScan visits
      → Pairwise IsOther visits
      → AreFresh visited visits
      → IsScan limits visited st
      → run visits st ≡ ok after
      → Extends limits folder visited after
  run-Extends [] visited st after h k f scan e = record {
    more = [];
    inside = tt;
    scan =
        subst (λ v. IsScan limits v after) (sym (append-nil visited))
          (subst (IsScan limits visited) (ok-injective e) scan);
  }
  run-Extends ((name, go) ∷ visits) visited st after (h, hs) (k, ks) (f, fs) scan e =
      let (next, e1, e2) = >>=-eq-ok (go st) _ e in
      let x = h visited st next scan f e1 in
      let y =
        run-Extends visits (visited ++ x.more) next after hs ks
          (stay_fresh (name, go) visited x.more visits k x.inside fs) x.scan e2 in
      record {
        more = x.more ++ y.more;
        inside =
            All-append (λ p. starts_with p folder ≡ true) x.more y.more
              (within_directory name x.more x.inside) y.inside;
        scan = subst (λ v. IsScan limits v after) (append_assoc visited x.more y.more) y.scan;
      }
