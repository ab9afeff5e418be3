-- ===== src/Broker/Rollback/Undone.antt =====
-- What the loop of `_rollback_failed_commit` of src/agent_workspace_guard/broker.py leaves of the files.
use agent_workspace_guard.Base.{
  ◌≡◌, ◌≢◌, refl, sym, ap, ◌∙◌, Bool, subst, Option, none, some, List, [], ◌∷◌, ◌++◌, Text, Result,
  ok, err, Error, builtin,
}
use agent_workspace_guard.Paths.{FilePath, safe_join}
use agent_workspace_guard.Models.CommitOperation.{CommitOperation}
use agent_workspace_guard.FileSystem.{Files, World}
use agent_workspace_guard.FileSystem.Triples.{Ends}
use agent_workspace_guard.Broker.Apply.{start}
use agent_workspace_guard.Broker.Rollback.{
  Rollback, roll_back_operation, settle, roll_back_next, roll_back_operations,
}
use agent_workspace_guard.Broker.Rollback.Effects.{
  set_aside, set_back, Memory, Have, Raises, roll_back_operation-Leaves,
}

-- One operation is undone: the files before, and the files after.
pub record IsUndone (workspace aside_root : FilePath) (op : CommitOperation) (before after : Files)
    : Type 0 where
  pub destination : FilePath
  pub joined : safe_join workspace op.path ≡ ok destination
  pub undone :
      after
      ≡ set_back destination op.backup_moved op.backup_path
          (set_aside destination aside_root op.path op.installed before)

-- The operations are undone, the last one first.
pub data AreUndone (workspace aside_root : FilePath)
    : List CommitOperation → Files → Files → Type 0 where
  no_operation : (files : Files) → AreUndone workspace aside_root [] files files
  and_first :
      {op : CommitOperation} {operations : List CommitOperation} {before between after : Files}
      → AreUndone workspace aside_root operations before between
      → IsUndone workspace aside_root op between after
      → AreUndone workspace aside_root (op ∷ operations) before after

returned_files :
    (files : Files) (r : Result (Unit {0}) × World Memory)
    → Ends (λ u. Have files) Raises r
    → r.0 ≡ ok tt
    → r.1.files ≡ files
unfolding Ends
returned_files files (ok u, w) p h = p
returned_files files (err e, w) p h = cc

nonempty_end : (errors : List Text) (path : Text) → errors ++ (path ∷ []) ≢ []
nonempty_end [] path h = cc
nonempty_end (error ∷ errors) path h = cc

-- What a step back that leaves no failure and no error has done.
settle-returned :
    (path : Text) (later : Rollback) (r : Result (Unit {0}) × World Memory)
    → (settle path later r).failure ≡ none
    → (settle path later r).errors ≡ []
    → (r.0 ≡ ok tt)
      × (later.failure ≡ none)
      × (later.errors ≡ [])
      × ((settle path later r).files ≡ r.1.files)
settle-returned path later (ok tt, w) h k = (refl, h, k, refl)
settle-returned path later (err builtin, w) h k = absurd (nonempty_end later.errors path k)
settle-returned path later (err _, w) h k = cc

module _ (workspace aside_root : FilePath) where
  joined_lem :
      (op : CommitOperation) (later : Rollback) (d : FilePath)
      → safe_join workspace op.path ≡ ok d
      → roll_back_next workspace aside_root op later
        ≡ settle op.path later
            (roll_back_operation d aside_root op (start op later.files later.faults))
  unfolding roll_back_next
  joined_lem op later d e =
      ap
        (λ j. elim j [
          | err x ↦ record later { operations = op ∷ later.operations; failure = some x }
          | ok destination ↦
              settle op.path later
                (roll_back_operation destination aside_root op (start op later.files later.faults))
        ])
        e

  not_joined_lem :
      (op : CommitOperation) (later : Rollback) (x : Error)
      → safe_join workspace op.path ≡ err x
      → roll_back_next workspace aside_root op later
        ≡ record later { operations = op ∷ later.operations; failure = some x }
  unfolding roll_back_next
  not_joined_lem op later x e =
      ap
        (λ j. elim j [
          | err y ↦ record later { operations = op ∷ later.operations; failure = some y }
          | ok destination ↦
              settle op.path later
                (roll_back_operation destination aside_root op (start op later.files later.faults))
        ])
        e

  next-IsUndone :
      (op : CommitOperation) (later : Rollback)
      → (roll_back_next workspace aside_root op later).failure ≡ none
      → (roll_back_next workspace aside_root op later).errors ≡ []
      → (later.errors ≡ [])
        × IsUndone workspace aside_root op later.files
            (roll_back_next workspace aside_root op later).files
  next-IsUndone op later h k = follow (safe_join workspace op.path) refl
    where
      result : FilePath → Result (Unit {0}) × World Memory
      result d = roll_back_operation d aside_root op (start op later.files later.faults)

      follow :
          (r : Result FilePath)
          → safe_join workspace op.path ≡ r
          → (later.errors ≡ [])
            × IsUndone workspace aside_root op later.files
                (roll_back_next workspace aside_root op later).files
      follow (ok d) e =
          let same : roll_back_next workspace aside_root op later
              ≡ settle op.path later (result d) =
            joined_lem op later d e in
          let (returned, before, clean, kept) =
            settle-returned op.path later (result d) (ap (λ x. x.failure) (sym same) ∙ h)
              (ap (λ x. x.errors) (sym same) ∙ k) in
          let left =
            returned_files _ (result d)
              ((roll_back_operation-Leaves d aside_root op later.files).ends
                (start op later.files later.faults) refl)
              returned in
          (
            clean,
            record { destination = d; joined = e; undone = ap (λ x. x.files) same ∙ kept ∙ left },
          )
      follow (err x) e =
          let bad : none ≡ some x = sym h ∙ ap (λ y. y.failure) (not_joined_lem op later x e) in
          absurd (cc)

  went_on_lem :
      (op : CommitOperation) (operations : List CommitOperation) (files : Files)
      (faults : List Bool)
      → (roll_back_operations workspace aside_root operations files faults).failure ≡ none
      → roll_back_operations workspace aside_root (op ∷ operations) files faults
        ≡ roll_back_next workspace aside_root op
            (roll_back_operations workspace aside_root operations files faults)
  unfolding roll_back_operations
  went_on_lem op operations files faults e = rw e refl

  stopped_lem :
      (op : CommitOperation) (operations : List CommitOperation) (files : Files)
      (faults : List Bool) (x : Error)
      → (roll_back_operations workspace aside_root operations files faults).failure ≡ some x
      → (roll_back_operations workspace aside_root (op ∷ operations) files faults).failure ≡ some x
  unfolding roll_back_operations
  stopped_lem op operations files faults x e =
      let later = roll_back_operations workspace aside_root operations files faults in
      let same : roll_back_operations workspace aside_root (op ∷ operations) files faults
          ≡ record later { operations = op ∷ later.operations; failure = some x } =
        rw e (ap (λ f. record later { operations = op ∷ later.operations; failure = f }) e) in
      ap (λ y. y.failure) same

  -- A loop without a failure and without an error has undone every operation.
  pub roll_back_operations-AreUndone :
      (operations : List CommitOperation) (files : Files) (faults : List Bool)
      → (roll_back_operations workspace aside_root operations files faults).failure ≡ none
      → (roll_back_operations workspace aside_root operations files faults).errors ≡ []
      → AreUndone workspace aside_root operations files
          (roll_back_operations workspace aside_root operations files faults).files
  unfolding roll_back_operations
  roll_back_operations-AreUndone [] files faults h k = no_operation files
  roll_back_operations-AreUndone (op ∷ operations) files faults h k =
      follow later.failure refl (roll_back_operations-AreUndone operations files faults)
    where
      later : Rollback
      later = roll_back_operations workspace aside_root operations files faults

      whole : Rollback
      whole = roll_back_operations workspace aside_root (op ∷ operations) files faults

      follow :
          (f : Option Error)
          → later.failure ≡ f
          → (later.failure ≡ none
              → later.errors ≡ []
              → AreUndone workspace aside_root operations files later.files)
          → AreUndone workspace aside_root (op ∷ operations) files whole.files
      follow none e inner =
          let same = went_on_lem op operations files faults e in
          let (clean, undone) =
            next-IsUndone op later (ap (λ x. x.failure) (sym same) ∙ h)
              (ap (λ x. x.errors) (sym same) ∙ k) in
          and_first (inner e clean)
            (subst (λ x. IsUndone workspace aside_root op later.files x.files) (sym same) undone)
      follow (some x) e inner =
          let bad : none ≡ some x = sym h ∙ stopped_lem op operations files faults x e in
          absurd (cc)
