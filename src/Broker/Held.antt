-- ===== src/Broker/Held.antt =====
-- What `commit` and `restore` of src/agent_workspace_guard/broker.py have in hand, and the steps that
-- they share.
pub mod Triples
use agent_workspace_guard.Base.{
  Bool, not, Option, none, some, List, Text, codes, ◌==◌, list_eq, nat_eq, Result, ok, err, Error,
  refuse,
}
use agent_workspace_guard.Paths.{FilePath}
use agent_workspace_guard.Models.Enums.{PlanState, TransactionState}
use agent_workspace_guard.Models.CommitOperation.{CommitOperation}
use agent_workspace_guard.FileSystem.{Files, World, Action, ◌>>=◌, ◌>>◌, lift, remember, other_call}
use agent_workspace_guard.Broker.Apply.{Progress}

-- The operations and the signature of the record in hand; and of the files that the commit saves, the
-- status of its record, if it has been saved, and the states of its plan and of its transaction.
pub record Held : Type 0 where
  pub operations : List CommitOperation
  pub signature : Text
  pub commit_status : Option Text
  pub plan_state : PlanState
  pub transaction_state : TransactionState

abbrev pub Step : Type 0 → Type 0
Step = Action Held

-- `atomic_write_json`: it may raise before the file is replaced, and after.
unfoldable pub save : (Held → Held) → Step (Unit {0})
save change = do other_call; remember change; other_call

abbrev pub set_status : Text → Held → Held
set_status status held = record held { commit_status = some status }

abbrev pub sign_with : Result Text → Step (Unit {0})
sign_with signed w = elim signed [
  | ok signature ↦ (ok tt, record w { memory = record w.memory { signature = signature } })
  | err e ↦ (err e, w)
]

abbrev pub ended : Option Error → Result (Unit {0})
ended none = ok tt
ended (some e) = err e

-- What the loop leaves.
abbrev pub after_loop : Progress → World Held → Result (Unit {0}) × World Held
after_loop p w = (
  ended p.failure,
  record {
    files = p.files;
    faults = p.faults;
    memory = record w.memory { operations = p.operations };
  },
)

-- `digest_of root` is the digest that a scan of that tree finds.
module _ (digest_of : FilePath → Files → Result Text) where
  abbrev pub scan : FilePath → Step Text
  scan root w = (digest_of root w.files, w)

  unfoldable pub expect : FilePath → Text → Error → Step (Unit {0})
  unfolding list_eq nat_eq
  expect root digest error = do found ← scan root; lift (refuse (not (found == digest)) error)
