-- ===== src/Broker/Apply/Backwards.antt =====
-- A loop that takes the operations of a commit back, the last one first: what one of its steps owes.
use agent_workspace_guard.Base.{
  ◌≡◌, refl, sym, ap, ◌∙◌, subst, Bool, false, Option, none, List, [], ◌∷◌, ◌++◌, All, Result, ok,
  err, list_eq, nat_eq,
}
use agent_workspace_guard.Paths.{FilePath, parent, safe_join}
use agent_workspace_guard.Models.Enums.{EntryKind}
use agent_workspace_guard.Models.CommitOperation.{CommitOperation}
use agent_workspace_guard.FileSystem.{Files, World, continue, lift, ◌>>=◌}
use agent_workspace_guard.FileSystem.Moves.{Separate, starts_with-Separate, Like-refl}
use agent_workspace_guard.Broker.Apply.{
  apply_parts, apply_operation, start, applied_next, apply_operations,
}
use agent_workspace_guard.Broker.Apply.Ends.{Ends, After, Raised}
use agent_workspace_guard.Broker.Apply.Outcomes.{Outcome, untouched, IsBackup}
use agent_workspace_guard.Broker.Apply.Parts.{apply_parts-Outcome}
use agent_workspace_guard.Broker.Apply.Places.{Places, Apart, Aside}
use agent_workspace_guard.Broker.Apply.Elsewhere.{Outcome-none}

-- The places of one operation lie beside those of a later one.
pub record Beside (p q : Places) : Type 0 where
  pub d_d : Separate p.d q.d
  pub d_b : Separate p.d q.b
  pub d_s : Separate p.d q.s
  pub d_x : Separate p.d q.x
  pub b_d : Separate p.b q.d
  pub b_b : Separate p.b q.b
  pub b_s : Separate p.b q.s
  pub b_x : Separate p.b q.x
  pub s_d : Separate p.s q.d

module _ (workspace apply_root aside : FilePath) where
  -- The places of an operation that has not begun.
  pub record Planned (operation : CommitOperation) (p : Places) : Type 0 where
    pub target : safe_join workspace operation.path ≡ ok p.d
    pub payload : safe_join apply_root operation.path ≡ ok p.s
    pub displaced : safe_join aside operation.path ≡ ok p.x
    pub backup : IsBackup operation.before_kind operation.backup_path p.b
    pub apart : Apart p
    pub not_moved : operation.backup_moved ≡ false
    pub not_installed : operation.installed ≡ false

  abbrev pub Arranged : List CommitOperation → List Places → Type 0
  Arranged [] [] = Unit
  Arranged [] (p ∷ places) = ⊥
  Arranged (operation ∷ operations) [] = ⊥
  Arranged (operation ∷ operations) (p ∷ places) =
      Planned operation p × All (Beside p) places × Arranged operations places

-- Nothing lies at a target that the plan says is new.
abbrev pub NewAreAbsent : Files → List CommitOperation → List Places → Type 0
NewAreAbsent files [] places = Unit
NewAreAbsent files (operation ∷ operations) [] = Unit
NewAreAbsent files (operation ∷ operations) (p ∷ places) =
    (operation.before_kind ≡ none → (rest : FilePath) → files (p.d ++ rest) ≡ none)
    × NewAreAbsent files operations places

abbrev pub AllAside : List Places → FilePath → Type 0
AllAside places path = All (λ p. Aside p path) places

pub below_d :
    (p : Places) (rest : FilePath) (places : List Places)
    → All (Beside p) places
    → AllAside places (p.d ++ rest)
below_d p rest [] h = tt
below_d p rest (q ∷ places) (h, hs) = (
  record {
    from_b = starts_with-Separate p.d q.b rest h.d_b;
    from_s = starts_with-Separate p.d q.s rest h.d_s;
    from_x = starts_with-Separate p.d q.x rest h.d_x;
  },
  below_d p rest places hs,
)

pub below_b :
    (p : Places) (rest : FilePath) (places : List Places)
    → All (Beside p) places
    → AllAside places (p.b ++ rest)
below_b p rest [] h = tt
below_b p rest (q ∷ places) (h, hs) = (
  record {
    from_b = starts_with-Separate p.b q.b rest h.b_b;
    from_s = starts_with-Separate p.b q.s rest h.b_s;
    from_x = starts_with-Separate p.b q.x rest h.b_x;
  },
  below_b p rest places hs,
)

absent_later :
    (files now : Files) (operation : CommitOperation) (p : Places) (before_kind : Option EntryKind)
    (op : CommitOperation)
    → Outcome files operation p.d p.b p.s before_kind now op
    → (operations : List CommitOperation) (places : List Places) → All (Beside p) places
    → NewAreAbsent files operations places
    → NewAreAbsent now operations places
absent_later files now operation p before_kind op o [] places h k = tt
absent_later files now operation p before_kind op o (x ∷ operations) [] h k = tt
absent_later files now operation p before_kind op o (x ∷ operations) (q ∷ places) (h, hs) (k, ks) =
    (
      λ new rest.
          Outcome-none files operation p.d p.b p.s q.d rest h.d_d h.b_d h.s_d before_kind now op o
            (k new rest),
      absent_later files now operation p before_kind op o operations places hs ks,
    )

module _ (workspace apply_root aside : FilePath) where
  apply_operation_lem :
      (operation : CommitOperation) (d s : FilePath) (w : World CommitOperation)
      → safe_join workspace operation.path ≡ ok d
      → safe_join apply_root operation.path ≡ ok s
      → apply_operation workspace apply_root operation w
        ≡ apply_parts d s operation.before_kind operation.backup_path operation.after_kind w
  unfolding apply_operation
  apply_operation_lem operation d s w e f =
      ap
        (λ j. continue (lift j w) λ x. lift (safe_join apply_root operation.path) >>= λ y.
          apply_parts x y operation.before_kind operation.backup_path operation.after_kind)
        e
      ∙ ap
          (λ j.
            continue (lift j w)
              λ y. apply_parts d y operation.before_kind operation.backup_path operation.after_kind)
          f

  apply_operation-Outcome :
      (files : Files) (faults : List Bool) (operation : CommitOperation) (p : Places)
      → Planned workspace apply_root aside operation p
      → Ends
          (After (Outcome files operation p.d p.b p.s operation.before_kind))
          (Raised (Outcome files operation p.d p.b p.s operation.before_kind))
          (apply_operation workspace apply_root operation (start operation files faults))
  apply_operation-Outcome files faults operation p h =
      subst
        (Ends (After (Outcome files operation p.d p.b p.s operation.before_kind))
          (Raised (Outcome files operation p.d p.b p.s operation.before_kind)))
        (sym
          (apply_operation_lem operation p.d p.s (start operation files faults) h.target h.payload))
        (apply_parts-Outcome files operation p.d p.b p.s operation.before_kind operation.after_kind
          operation.backup_path faults h.backup h.not_moved h.not_installed)

-- A loop over the reversed operations, and what is wanted of its result.
module _ (workspace apply_root aside : FilePath) (R : Type 0)
    (loop : List CommitOperation → Files → R) (Good : Files → List Places → R → Type 0) where
  -- One step back, from an outcome of the operation, after the later operations.
  abbrev pub StepsBack : Type 0
  StepsBack =
      (files now end : Files) (operation op : CommitOperation) (p : Places) (places : List Places)
      (operations : List CommitOperation)
      → Planned workspace apply_root aside operation p
      → All (Beside p) places
      → (operation.before_kind ≡ none → (rest : FilePath) → files (p.d ++ rest) ≡ none)
      → Outcome files operation p.d p.b p.s operation.before_kind now op
      → Good now places (loop operations end)
      → Good files (p ∷ places) (loop (op ∷ operations) end)

  module _ (empty : (files : Files) → Good files [] (loop [] files)) (step : StepsBack) where
    -- Operations that have not begun.
    idle :
        (files : Files) (operations : List CommitOperation) (places : List Places)
        → Arranged workspace apply_root aside operations places
        → NewAreAbsent files operations places
        → Good files places (loop operations files)
    idle files [] [] h k = empty files
    idle files [] (p ∷ places) h k = elim h [ ]
    idle files (x ∷ operations) [] h k = elim h [ ]
    idle files (operation ∷ operations) (p ∷ places) (h, beside, hs) (k, ks) =
        step files files files operation operation p places operations h beside k
          (untouched (record {
            same = record { path = refl; backup_path = refl };
            like = Like-refl (parent p.b ∷ parent p.d ∷ []) files;
            not_moved = h.not_moved;
            not_installed = h.not_installed;
          }))
          (idle files operations places hs ks)

    -- After one operation, if the later ones are taken back from there.
    after :
        (files : Files) (operation : CommitOperation) (p : Places)
        (operations : List CommitOperation) (places : List Places)
        (r : Result (Unit {0}) × World CommitOperation)
        → Planned workspace apply_root aside operation p
        → All (Beside p) places
        → (operation.before_kind ≡ none → (rest : FilePath) → files (p.d ++ rest) ≡ none)
        → Arranged workspace apply_root aside operations places
        → NewAreAbsent files operations places
        → ((now : Files) (faults : List Bool)
            → NewAreAbsent now operations places
            → Good now places (
                let a = apply_operations workspace apply_root operations now faults in
                loop a.operations a.files))
        → Ends
            (After (Outcome files operation p.d p.b p.s operation.before_kind))
            (Raised (Outcome files operation p.d p.b p.s operation.before_kind))
            r
        → Good files (p ∷ places) (
            let a = applied_next operations (apply_operations workspace apply_root operations) r in
            loop a.operations a.files)
    after files operation p operations places (ok u, w) h beside k hs ks later o =
        step files w.files _ operation w.memory p places _ h beside k o (
          later w.files w.faults (
            absent_later files w.files operation p operation.before_kind w.memory o operations
              places beside ks))
    after files operation p operations places (err e, w) h beside k hs ks later o =
        step files w.files w.files operation w.memory p places operations h beside k o (
          idle w.files operations places hs (
            absent_later files w.files operation p operation.before_kind w.memory o operations
              places beside ks))

    pub backwards-apply :
        (operations : List CommitOperation) (places : List Places) (files : Files)
        (faults : List Bool)
        → Arranged workspace apply_root aside operations places
        → NewAreAbsent files operations places
        → Good files places (
            let a = apply_operations workspace apply_root operations files faults in
            loop a.operations a.files)
    unfolding apply_operations
    backwards-apply [] [] files faults h k = empty files
    backwards-apply [] (p ∷ places) files faults h k = elim h [ ]
    backwards-apply (x ∷ operations) [] files faults h k = elim h [ ]
    backwards-apply (operation ∷ operations) (p ∷ places) files faults (h, beside, hs) (k, ks) =
        after files operation p operations places _ h beside k hs ks
          (λ now f absent. backwards-apply operations places now f hs absent)
          (apply_operation-Outcome workspace apply_root aside files faults operation p h)
