-- ===== src/Tests/OnRestores.antt =====
-- The commit of OnPerforms is turned back, and a lock that is taken twice.
use agent_workspace_guard.Base.{
  Bool, none, true, false, Option, ◌≡◌, refl, [], ◌∷◌, ◌++◌, codes, Result, ok, err, guard_error,
  builtin, some, list_eq, nat_eq,
}
use agent_workspace_guard.Paths.{FilePath, render}
use agent_workspace_guard.Json.Values.{Json}
use agent_workspace_guard.Json.Dump.{canonical_json}
use agent_workspace_guard.Models.CommitRecord
use agent_workspace_guard.Models.CommitOperation
use agent_workspace_guard.Models.CommitRecord.{CommitRecord}
use agent_workspace_guard.Models.CommitPlan
use agent_workspace_guard.Models.CommitPlan.{CommitPlan}
use agent_workspace_guard.Models.Enums.{PlanState, entry_kind_value, change_kind_value}
use agent_workspace_guard.Manifest.{diff_manifests, tree_digest}
use agent_workspace_guard.Signer.{sign}
use agent_workspace_guard.FileSystem.{
  next_fault, mkdir, grown, Files, Node, call_with, ◌>>◌, World, Action, lexists, lift,
}
use agent_workspace_guard.FileSystem.Triples.{Ends}
use agent_workspace_guard.Broker.Load.{plan_payload}
use agent_workspace_guard.Broker.Held.{Held}
use agent_workspace_guard.Broker.Lock.{with_workspace_lock}
use agent_workspace_guard.Broker.Lock.Released.{reached, with_workspace_lock-released}
use agent_workspace_guard.Broker.Perform.{perform}
use agent_workspace_guard.Broker.Restore.{restore_parts}
use agent_workspace_guard.Broker.Restore.Whole.{restore, restore_files}
use agent_workspace_guard.Broker.Restore.Concluded.{IsUndone, Raised, restore-IsUndone}
use agent_workspace_guard.Tests.Hosts.{checksum, builtins}
use agent_workspace_guard.Tests.Samples.{or_nil}
use agent_workspace_guard.Tests.OnRecords
use agent_workspace_guard.Tests.OnPerforms.{
  at, stored, commit_id, plan, digest_of, performed, world,
}

abbrev or_record : Result CommitRecord → CommitRecord
or_record (ok stored) = stored
or_record (err e) = OnRecords.commit

abbrev the_commit : CommitRecord
the_commit = or_record performed.0

abbrev unsigned_plan : CommitPlan
unsigned_plan = record plan { state = PlanState.committed }

abbrev committed_plan : CommitPlan
committed_plan = record unsigned_plan {
  signature = or_nil (sign checksum (plan_payload unsigned_plan));
}

abbrev store : FilePath → Result Json
store path = stored path (
    (at (codes "commits" ∷ (commit_id ++ codes ".json") ∷ []), CommitRecord.to_dict the_commit)
    ∷ (
      at (codes "plans" ∷ codes "plan_0123456789abcdef.json" ∷ []),
      CommitPlan.to_dict committed_plan,
    )
    ∷ [])

abbrev turned_back : Result CommitRecord × World Held
turned_back = restore builtins checksum checksum (at []) store digest_of commit_id performed.1

saved : performed.1.memory.commit_status ≡ some (codes "committed")
unfolding perform diff_manifests canonical_json CommitRecord.core_dict render tree_digest
    CommitOperation.to_dict entry_kind_value change_kind_value
saved = refl

restored :
    (restore_files checksum digest_of the_commit performed.1).1.memory.commit_status
    ≡ some (codes "restored")
unfolding restore_files restore_parts perform diff_manifests canonical_json CommitRecord.core_dict
    render tree_digest CommitOperation.to_dict entry_kind_value change_kind_value
restored = refl

restore-IsUndone_example :
    Ends
      (IsUndone builtins checksum checksum (at []) store digest_of commit_id)
      (Raised builtins checksum checksum (at []) store digest_of commit_id)
      turned_back
restore-IsUndone_example =
    restore-IsUndone builtins checksum checksum (at []) store digest_of commit_id performed.1 saved

abbrev lock_path : FilePath
lock_path = at (codes "locks" ∷ codes "0.lock" ∷ [])

-- A block that makes a directory and then raises.
abbrev first_part : Action Held (Unit {0})
first_part = mkdir (at (codes "new" ∷ []))

abbrev last_part : Action Held (Unit {0})
last_part = lift (err builtin)

grown_keeps :
    (path folder : FilePath) (files : Files)
    → lexists path files ≡ true
    → lexists path (grown folder files) ≡ true
unfolding grown
grown_keeps path folder files h = follow (files path) h
  where
    follow :
        (node : Option Node)
        → lexists path (λ q. node) ≡ true
        → lexists path (grown folder (λ q. node)) ≡ true
    follow none e = cc
    follow (some n) e = refl

first_part-keeps :
    (v : World Held)
    → lexists lock_path v.files ≡ true
    → lexists lock_path (first_part v).1.files ≡ true
unfolding mkdir
first_part-keeps v h = follow (next_fault v.faults).0
  where
    follow :
        (fault : Bool)
        → lexists lock_path
            (call_with fault
              (grown (at (codes "new" ∷ [])))
              (record v { faults = (next_fault v.faults).1 })).1.files
          ≡ true
    follow true = h
    follow false = grown_keeps lock_path (at (codes "new" ∷ [])) v.files h

with_workspace_lock-released_example :
    (with_workspace_lock lock_path last_part (reached first_part lock_path world)
      ≡ (err guard_error, reached first_part lock_path world))
    × (lexists lock_path (with_workspace_lock lock_path (first_part >> last_part) world).1.files
        ≡ false)
unfolding mkdir
with_workspace_lock-released_example =
    with_workspace_lock-released lock_path first_part last_part last_part world refl
      first_part-keeps refl
