-- ===== src/Broker/Begin/Begun.antt =====
-- What a begin has checked and written when it returns.
use agent_workspace_guard.Base.{
  ◌≢◌, refl, sym, ap, ◌∙◌, false, ◌==◌, eq_refl, arith, ◌≡◌, ℕ, some, List, Text, eq_sound, list_eq,
  nat_eq, int_eq, Result, ok, err, guard_error, subst, ok-injective,
}
use agent_workspace_guard.Paths.{FilePath, assert_disjoint, is_relative_to, parse, join_path}
use agent_workspace_guard.Broker.StatePaths.{state_path}
use agent_workspace_guard.Json.Values.{Json}
use agent_workspace_guard.Models.TreeManifest.{TreeManifest}
use agent_workspace_guard.Models.Transaction.{Transaction}
use agent_workspace_guard.Validate.{validate_text_field}
use agent_workspace_guard.FileSystem.{placed, Files, World}
use agent_workspace_guard.FileSystem.Triples.{
  Triple-make_directory, Triple-given, Ends, Triple, Stable, Triple->>=, Triple-lift, Triple-call,
}
use agent_workspace_guard.Broker.Records.{max_task_id_length}
use agent_workspace_guard.Broker.Held.Triples.{Triple-on_error}
use agent_workspace_guard.Broker.Lock.{on_error}
use agent_workspace_guard.Broker.Begin.{
  anchor_of, root_of, begin_accepted, Written, unsigned_transaction, Beginning, signed_transaction,
  signed_receipt, create, take_down, begin, reject_dangerous_workspace_root,
}
use agent_workspace_guard.Broker.Begin.Created.{
  Anything, refused, IsCopied, At, Triple-scan, IsStored, create_triple,
}

module _ (hmac : List ℕ → Text) (resolve : FilePath → FilePath) (state_root : FilePath)
    (view : Beginning) (task_id : Text) where
  -- The workspace has been accepted.
  pub record IsAccepted (name : Text) (workspace : FilePath) : Type 0 where
    pub task : validate_text_field task_id max_task_id_length ≡ ok name
    pub found : view.workspace ≡ ok workspace
    pub no_root : workspace ≢ anchor_of workspace
    pub no_home : workspace ≢ view.home
    pub no_ancestor : is_relative_to view.home workspace ≡ false
    pub outside_state : is_relative_to workspace state_root ≡ false
    pub state_outside : is_relative_to state_root workspace ≡ false
    pub same_device : view.workspace_device ≡ view.state_device

  -- The three files of the transaction hold the baseline, the signed transaction and its receipt.
  pub record IsBegun (before : Files) (transaction : Transaction) (w : World Written) : Type 0 where
    pub name : Text
    pub workspace : FilePath
    pub baseline : TreeManifest
    pub receipt : Json
    pub accepted : IsAccepted name workspace
    pub is_copied : (IsCopied hmac resolve state_root view) before workspace baseline
    pub sealed :
        signed_transaction hmac resolve state_root view (
          unsigned_transaction state_root view.transaction_id name workspace baseline.digest
            view.created_at view.workspace_device)
        ≡ ok transaction
    pub receipted : signed_receipt hmac resolve state_root view transaction ≡ ok receipt
    pub saved_baseline : w.memory.baseline ≡ some baseline
    pub saved_transaction : w.memory.transaction ≡ some transaction
    pub saved_receipt : w.memory.receipt ≡ some receipt

  begun :
      {before : Files} {name : Text} {workspace : FilePath} {baseline : TreeManifest}
      (t : Transaction) (w : World Written)
      → (IsAccepted name workspace
          × (IsCopied hmac resolve state_root view) before workspace baseline)
        × (IsStored hmac resolve state_root view) name workspace baseline t w
        × ((receipt : Json) × (signed_receipt hmac resolve state_root view t ≡ ok receipt)
            × (w.memory.receipt ≡ some receipt))
      → IsBegun before t w
  begun {before} {name} {workspace} {baseline} t w p = record {
    name = name;
    workspace = workspace;
    baseline = baseline;
    receipt = p.2.0;
    accepted = p.0.0;
    is_copied = p.0.1;
    sealed = p.1.sealed;
    receipted = p.2.1;
    saved_baseline = p.1.baseline_there;
    saved_transaction = p.1.transaction_there;
    saved_receipt = p.2.2;
  }

  IsBegun-Stable : (before : Files) (t : Transaction) → Stable (IsBegun before t)
  unfolding Stable
  IsBegun-Stable before t w files faults b = record {
    name = b.name;
    workspace = b.workspace;
    baseline = b.baseline;
    receipt = b.receipt;
    accepted = b.accepted;
    is_copied = b.is_copied;
    sealed = b.sealed;
    receipted = b.receipted;
    saved_baseline = b.saved_baseline;
    saved_transaction = b.saved_transaction;
    saved_receipt = b.saved_receipt;
  }

  not_same : {left right : FilePath} → (left == right) ≡ false → left ≢ right
  not_same {left} h e = absurd (cc (sym h ∙ ap (λ x. left == x) (sym e) ∙ eq_refl left))

  -- What the tests refuse.
  accepted :
      (name : Text) (workspace : FilePath)
      → validate_text_field task_id max_task_id_length ≡ ok name
      → view.workspace ≡ ok workspace
      → reject_dangerous_workspace_root view.home workspace ≡ ok tt
      → assert_disjoint workspace state_root ≡ ok tt
      → view.workspace_device ≡ view.state_device
      → IsAccepted name workspace
  unfolding reject_dangerous_workspace_root assert_disjoint
  accepted name workspace task found harmless apart device = record {
    task = task;
    found = found;
    no_root = not_same (ground arith);
    no_home = not_same (ground arith);
    no_ancestor = ground arith;
    outside_state = ground arith;
    state_outside = ground arith;
    same_device = device;
  }

  -- The `try` statement, for an accepted workspace.
  guarded :
      (name : Text) (workspace : FilePath) (baseline : TreeManifest) (before : Files)
      → view.scan workspace before ≡ ok baseline
      → Triple
          (At (IsAccepted name workspace) (placed (root_of state_root view.transaction_id) before))
          (on_error
            (create hmac resolve state_root view name workspace baseline)
            (take_down hmac resolve state_root view))
          (IsBegun before)
          Anything
  unfolding Ends
  guarded name workspace baseline before found =
      Triple-on_error Anything _ _
        (record {
          ends = λ w p. follow _ (
              ((create_triple hmac resolve state_root view) name workspace baseline before
                  found).ends
                w p);
        })
        (record { ends = λ w p. done _ })
    where
      follow :
          (r : Result Transaction × World Written)
          → Ends
              (λ t w.
                (IsAccepted name workspace
                  × (IsCopied hmac resolve state_root view) before workspace baseline)
                × (IsStored hmac resolve state_root view) name workspace baseline t w
                × ((receipt : Json) × (signed_receipt hmac resolve state_root view t ≡ ok receipt)
                    × (w.memory.receipt ≡ some receipt)))
              Anything
              r
          → Ends (IsBegun before) Anything r
      follow (ok t, w) h = begun t w h
      follow (err e, w) h = tt

      done : (r : Result (Unit {0}) × World Written) → Ends (λ u. Anything) Anything r
      done (ok u, w) = tt
      done (err e, w) = tt

  -- From the first scan on.
  started :
      (before : Files) (name : Text) (workspace : FilePath)
      → IsAccepted name workspace
      → Triple
          (At Unit before)
          (begin_accepted hmac resolve state_root view name workspace)
          (IsBegun before)
          Anything
  unfolding begin_accepted state_path parse join_path
  started before name workspace accepted =
      Triple-scan hmac resolve state_root view before workspace _ (λ baseline found.
        Triple->>=
          (λ u.
            At (IsAccepted name workspace) (placed (root_of state_root view.transaction_id) before))
          _ _
          (Triple-make_directory (root_of state_root view.transaction_id)
            (λ w faults p. (accepted, ap (placed (root_of state_root view.transaction_id)) p.1))
            (λ w faults p. tt))
          (λ u. Triple->>= (IsBegun before) _ _ (guarded name workspace baseline before found) (λ t.
            Triple->>= (λ u. IsBegun before t) _ _
              (Triple-call (λ files. files) (IsBegun-Stable before t) (λ w p. tt))
              (λ u.
                Triple-lift (ok t) (λ t' w e p. subst (λ x. IsBegun before x w) (ok-injective e) p)
                  (λ w p. tt)))))

  begin_triple :
      (before : Files)
      → Triple
          (At Unit before)
          (begin hmac resolve state_root view task_id)
          (IsBegun before)
          Anything
  unfolding begin
  begin_triple before =
      Triple-given _ _
        (λ name task.
          Triple-given _ _
            (λ workspace found.
              Triple-given _ _
                (λ u harmless.
                  Triple-given _ _
                    (λ u apart.
                      Triple-given _ _
                        (λ u device. started before name workspace (
                          accepted name workspace task found harmless apart (
                            eq_sound view.workspace_device view.state_device
                              (refused _ guard_error device))))
                        (λ w p. tt))
                    (λ w p. tt))
                (λ w p. tt))
            (λ w p. tt))
        (λ w p. tt)

  -- A begin that returns has been given a workspace that is no root, neither the home nor an ancestor of
  -- it, neither inside the state root nor around it, and on its device. A scan of the workspace before
  -- the copy, and scans of the workspace and of the worktree among the files after the copy and the new
  -- directories, have found the same digest. The three files of the transaction hold the baseline, the
  -- transaction that is returned, signed, and its signed receipt. For any faults.
  pub begin-IsBegun :
      (w : World Written) (transaction : Transaction)
      → (begin hmac resolve state_root view task_id w).0 ≡ ok transaction
      → IsBegun w.files transaction (begin hmac resolve state_root view task_id w).1
  unfolding Ends
  begin-IsBegun w transaction e = follow _ ((begin_triple w.files).ends w (tt, refl)) e
    where
      follow :
          (r : Result Transaction × World Written)
          → Ends (IsBegun w.files) Anything r
          → r.0 ≡ ok transaction
          → IsBegun w.files transaction r.1
      follow (ok t, v) h e = subst (λ x. IsBegun w.files x v) (ok-injective e) h
      follow (err x, v) h e = cc
