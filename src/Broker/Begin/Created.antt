-- ===== src/Broker/Begin/Created.antt =====
-- The `try` block of `begin`.
use agent_workspace_guard.Base.{
  sym, ap, ◌≡◌, refl, ℕ, Bool, true, false, not, some, List, [], ◌∷◌, Text, codes, eq_sound,
  list_eq, nat_eq, int_eq, Result, ok, err, Error, stale_plan, integrity_error, refuse, subst,
  ok-injective,
}
use agent_workspace_guard.Paths.{FilePath, parse, join_path, parent}
use agent_workspace_guard.Json.Values.{Json}
use agent_workspace_guard.Models.TreeManifest.{TreeManifest}
use agent_workspace_guard.Models.Transaction.{Transaction}
use agent_workspace_guard.FileSystem.{placed, grown, Action, continue, ◌>>=◌, Files, World}
use agent_workspace_guard.FileSystem.Triples.{
  Triple-given, Triple-effect, Triple-make_directory, Triple-make_directories, Triple-weaken, Ends,
  Triple, Stable, Triple->>=, Triple-lift, Triple-remember, Triple-call,
}
use agent_workspace_guard.Broker.StatePaths.{state_path}
use agent_workspace_guard.Broker.Begin.{
  root_of, Written, write, save_baseline, save_begun, save_receipt, home_folders, make_folders,
  below_root, unsigned_transaction, Beginning, scan_of, signed_transaction, signed_receipt, store,
  create,
}

-- Nothing is said of a begin that raises.
abbrev pub Anything : World Written → Type 0
Anything w = Unit {0}

pub refused : (test : Bool) (e : Error) → refuse (not test) e ≡ ok tt → test ≡ true
refused true e h = refl
refused false e h = cc

-- The files are known, and `pre` holds.
abbrev pub At : Type 0 → Files → World Written → Type 0
At pre files w = pre × (w.files ≡ files)

-- The effect of `make_folders`.
unfoldable pub made_folders : FilePath → List Text → Files → Files
unfolding placed grown parse join_path parent
made_folders home_root [] files = files
made_folders home_root (relative ∷ folders) files = made_folders home_root folders (
    placed (join_path home_root (parse relative))
      (grown (parent (join_path home_root (parse relative))) files))

module _ (hmac : List ℕ → Text) (resolve : FilePath → FilePath) (state_root : FilePath)
    (view : Beginning) where
  -- The files after the copy and the new directories, from those before.
  abbrev pub copied_files : Files → Files
  copied_files before =
      let home = below_root state_root view.transaction_id (codes "home") in
      let temp = below_root state_root view.transaction_id (codes "tmp") in
      placed (join_path temp (parse (codes "runtime"))) (
        made_folders home home_folders (
          placed temp
            (placed home (view.copied (placed (root_of state_root view.transaction_id) before)))))

  -- A scan of the workspace among the files before the copy has found the baseline; scans of the
  -- workspace and of the worktree among the files after it have found trees with the same digest.
  pub record IsCopied (before : Files) (workspace : FilePath) (baseline : TreeManifest)
      : Type 0 where
    pub current : TreeManifest
    pub staged : TreeManifest
    pub found_before : view.scan workspace before ≡ ok baseline
    pub found_after : view.scan workspace (copied_files before) ≡ ok current
    pub found_staged :
        view.scan
          (below_root state_root view.transaction_id (codes "worktree"))
          (copied_files before)
        ≡ ok staged
    pub same_after : current.digest ≡ baseline.digest
    pub same_staged : staged.digest ≡ baseline.digest

  Triple-write :
      {pre post : World Written → Type 0} (change : Written → Written)
      → Stable pre
      → Stable post
      → ((w : World Written) → pre w → post (record w { memory = change w.memory }))
      → Triple pre (write change) (λ u. post) Anything
  unfolding write
  Triple-write {pre = pre} {post = post} change before after step =
      Triple->>= (λ u. pre) _ _ (Triple-call (λ files. files) before (λ w p. tt))
        (λ u.
          Triple->>= (λ u. post) _ _ (Triple-remember change step)
            (λ u. Triple-call (λ files. files) after (λ w p. tt)))

  Triple-make_folders :
      {pre : Type 0} (home_root : FilePath) (folders : List Text) (files : Files)
      → Triple
          (At pre files)
          (make_folders home_root folders)
          (λ u. At pre (made_folders home_root folders files))
          Anything
  unfolding make_folders made_folders
  Triple-make_folders home_root [] files = Triple-lift (ok tt) (λ u w e p. p) (λ w p. tt)
  Triple-make_folders {pre} home_root (relative ∷ folders) files =
      Triple->>=
        (λ u. At pre (
          placed (join_path home_root (parse relative))
            (grown (parent (join_path home_root (parse relative))) files)))
        _ _
        (Triple-make_directories _
          (λ w faults p. (
            p.0,
            ap
                (λ f.
                  placed (join_path home_root (parse relative))
                    (grown (parent (join_path home_root (parse relative))) f))
                p.1,
          ))
          (λ w faults p. tt))
        (λ u. Triple-make_folders home_root folders (
          placed (join_path home_root (parse relative))
            (grown (parent (join_path home_root (parse relative))) files)))

  -- A scan among known files.
  pub Triple-scan :
      {B pre : Type 0} {post : B → World Written → Type 0} (files : Files) (root : FilePath)
      (rest : TreeManifest → Action Written B)
      → ((m : TreeManifest)
          → view.scan root files ≡ ok m
          → Triple (At pre files) (rest m) post Anything)
      → Triple (At pre files) (scan_of hmac resolve state_root view root >>= rest) post Anything
  unfolding Ends
  Triple-scan {pre = pre} {post = post} files root rest good = record {
    ends = λ w p. follow w p (view.scan root w.files) (ap (view.scan root) (sym p.1));
  }
    where
      follow :
          (w : World Written)
          → At pre files w
          → (r : Result TreeManifest) → view.scan root files ≡ r
          → Ends post Anything (continue (r, w) rest)
      follow w p (ok m) e = (good m e).ends w p
      follow w p (err x) e = tt

  module _ (name : Text) (workspace : FilePath) (baseline : TreeManifest) where
    abbrev pub unsigned : Transaction
    unsigned =
        unsigned_transaction state_root view.transaction_id name workspace baseline.digest
          view.created_at view.workspace_device

    pub record IsStored (transaction : Transaction) (w : World Written) : Type 0 where
      pub baseline_there : w.memory.baseline ≡ some baseline
      pub sealed : signed_transaction hmac resolve state_root view unsigned ≡ ok transaction
      pub transaction_there : w.memory.transaction ≡ some transaction

    -- The files of the transaction are written.
    store_triple :
        {pre : Type 0}
        → Triple
            (λ w. pre)
            (store hmac resolve state_root view name workspace baseline)
            (λ t w.
              pre
              × IsStored t w
              × ((receipt : Json) × (signed_receipt hmac resolve state_root view t ≡ ok receipt)
                  × (w.memory.receipt ≡ some receipt)))
            Anything
    unfolding store Stable
    store_triple {pre} =
        Triple->>= (λ u w. pre × (w.memory.baseline ≡ some baseline)) _ _
          (Triple-write (save_baseline baseline) (λ w files faults p. p) (λ w files faults p. p)
            (λ w p. (p, refl)))
          (λ u.
            Triple->>=
              (λ t w.
                (pre × (w.memory.baseline ≡ some baseline))
                × (signed_transaction hmac resolve state_root view unsigned ≡ ok t))
              _ _ (Triple-lift _ (λ t w e p. (p, e)) (λ w p. tt))
              (λ t.
                Triple->>= (λ u w. pre × IsStored t w) _ _
                  (Triple-write (save_begun t) (λ w files faults p. p)
                    (λ w files faults p. (
                      p.0,
                      record {
                        baseline_there = p.1.baseline_there;
                        sealed = p.1.sealed;
                        transaction_there = p.1.transaction_there;
                      },
                    ))
                    (λ w p. (
                      p.0.0,
                      record { baseline_there = p.0.1; sealed = p.1; transaction_there = refl },
                    )))
                  (λ u.
                    Triple->>=
                      (λ receipt w.
                        (pre × IsStored t w)
                        × (signed_receipt hmac resolve state_root view t ≡ ok receipt))
                      _ _ (Triple-lift _ (λ receipt w e p. (p, e)) (λ w p. tt))
                      (λ receipt.
                        Triple->>=
                          (λ u w.
                            pre
                            × IsStored t w
                            × ((receipt : Json) × (signed_receipt hmac resolve state_root view t
                                  ≡ ok receipt)
                                × (w.memory.receipt ≡ some receipt)))
                          _ _
                          (Triple-write (save_receipt receipt)
                            (λ w files faults p. (
                              (
                                p.0.0,
                                record {
                                  baseline_there = p.0.1.baseline_there;
                                  sealed = p.0.1.sealed;
                                  transaction_there = p.0.1.transaction_there;
                                },
                              ),
                              p.1,
                            ))
                            (λ w files faults p. (
                              p.0,
                              record {
                                baseline_there = p.1.baseline_there;
                                sealed = p.1.sealed;
                                transaction_there = p.1.transaction_there;
                              },
                              p.2,
                            ))
                            (λ w p. (
                              p.0.0,
                              record {
                                baseline_there = p.0.1.baseline_there;
                                sealed = p.0.1.sealed;
                                transaction_there = p.0.1.transaction_there;
                              },
                              (receipt, p.1, refl),
                            )))
                          (λ u.
                            Triple-lift (ok t)
                              (λ t' w e p.
                                subst
                                  (λ x.
                                    pre
                                    × IsStored x w
                                    × ((receipt : Json) × (signed_receipt hmac resolve state_root
                                            view x
                                          ≡ ok receipt)
                                        × (w.memory.receipt ≡ some receipt)))
                                  (ok-injective e) p)
                              (λ w p. tt))))))

    pub create_triple :
        {pre : Type 0} (before : Files)
        → view.scan workspace before ≡ ok baseline
        → Triple
            (At pre (placed (root_of state_root view.transaction_id) before))
            (create hmac resolve state_root view name workspace baseline)
            (λ t w.
              (pre × IsCopied before workspace baseline)
              × IsStored t w
              × ((receipt : Json) × (signed_receipt hmac resolve state_root view t ≡ ok receipt)
                  × (w.memory.receipt ≡ some receipt)))
            Anything
    unfolding create state_path parse join_path
    create_triple {pre} before found =
        let root = root_of state_root view.transaction_id in
        let home = below_root state_root view.transaction_id (codes "home") in
        let temp = below_root state_root view.transaction_id (codes "tmp") in
        let worktree = below_root state_root view.transaction_id (codes "worktree") in
        Triple->>= (λ u. At pre (view.copied (placed root before))) _ _
          (Triple-effect view.copied (λ w faults p. (p.0, ap view.copied p.1)) (λ w faults p. tt))
          (λ u.
            Triple->>= (λ u. At pre (placed home (view.copied (placed root before)))) _ _
              (Triple-make_directory home (λ w faults p. (p.0, ap (placed home) p.1))
                (λ w faults p. tt))
              (λ u.
                Triple->>=
                  (λ u. At pre (placed temp (placed home (view.copied (placed root before))))) _ _
                  (Triple-make_directory temp (λ w faults p. (p.0, ap (placed temp) p.1))
                    (λ w faults p. tt))
                  (λ u.
                    Triple->>=
                      (λ u. At pre (
                        made_folders home home_folders
                          (placed temp (placed home (view.copied (placed root before))))))
                      _ _ (Triple-make_folders home home_folders _)
                      (λ u.
                        Triple->>= (λ u. At pre (copied_files before)) _ _
                          (Triple-make_directory (join_path temp (parse (codes "runtime")))
                            (λ w faults p.
                              (p.0, ap (placed (join_path temp (parse (codes "runtime")))) p.1))
                            (λ w faults p. tt))
                          (λ u.
                            Triple-scan (copied_files before) workspace _ (λ current found_after.
                              Triple-scan (copied_files before) worktree _ (λ staged found_staged.
                                Triple-given _ _
                                  (λ u e.
                                    Triple-given _ _
                                      (λ u e'.
                                        Triple-weaken _ _
                                          (λ w p. (
                                            p.0,
                                            record {
                                              current = current;
                                              staged = staged;
                                              found_before = found;
                                              found_after = found_after;
                                              found_staged = found_staged;
                                              same_after =
                                                  eq_sound current.digest baseline.digest
                                                    (refused _ stale_plan e);
                                              same_staged =
                                                  eq_sound staged.digest baseline.digest
                                                    (refused _ integrity_error e');
                                            },
                                          ))
                                          store_triple)
                                      (λ w p. tt))
                                  (λ w p. tt))))))))
