-- ===== src/Broker/Begin.antt =====
-- The start and the end of a transaction in src/agent_workspace_guard/broker.py: `begin`, `environment` and
-- `discard`, and `reject_dangerous_workspace_root` of util.py.
pub mod Ending
pub mod Created
pub mod Begun
pub mod Reloaded
use agent_workspace_guard.Base.{
  ℕ, Bool, not, ◌||◌, Option, none, some, List, [], ◌∷◌, ◌++◌, Text, codes, ◌==◌, list_eq, nat_eq,
  int_eq, ℤ, pos, if◌then◌else◌, Result, ok, err, guard_error, integrity_error, stale_plan,
  unsafe_path, refuse,
}
use agent_workspace_guard.Paths.{
  FilePath, parse, render, join_path, is_absolute, is_relative_to, assert_disjoint,
}
use agent_workspace_guard.Json.Values.{Json, object, fields_of, string, number}
use agent_workspace_guard.Json.Convert.{Builtins}
use agent_workspace_guard.Models.Enums.{opened, planned, committed, discarded, transaction_state_eq}
use agent_workspace_guard.Models.TreeManifest.{TreeManifest}
use agent_workspace_guard.Models.Transaction.{Transaction}
use agent_workspace_guard.Validate.{validate_text_field}
use agent_workspace_guard.Signer.{sign}
use agent_workspace_guard.FileSystem.{
  Files, lexists, World, Action, ◌>>=◌, ◌>>◌, lift, remember, when, call, make_directory,
  make_directories, other_call,
}
use agent_workspace_guard.Broker.StatePaths.{state_path}
use agent_workspace_guard.Broker.Records.{max_task_id_length}
use agent_workspace_guard.Broker.Load.{labelled, transaction_payload, load_transaction}
use agent_workspace_guard.Broker.Held.{Held, Step, save}
use agent_workspace_guard.Broker.Lock.{on_error, remove_state_tree}

-- `Path(path.anchor)`
abbrev pub anchor_of : FilePath → FilePath
anchor_of [] = []
anchor_of (part ∷ parts) = if is_absolute (part ∷ parts) then part ∷ [] else []

-- `home` is the resolved home directory.
unfoldable pub reject_dangerous_workspace_root : FilePath → FilePath → Result (Unit {0})
unfolding is_relative_to is_absolute list_eq nat_eq
reject_dangerous_workspace_root home path =
    if path == anchor_of path
    then err unsafe_path
    else refuse (path == home || is_relative_to home path) unsafe_path

-- What the directory of a transaction holds besides its trees, as far as it has been written: the
-- baseline, the transaction, and the signed receipt.
pub record Written : Type 0 where
  pub baseline : Option TreeManifest
  pub transaction : Option Transaction
  pub receipt : Option Json

-- `atomic_write_json`: it may raise before the file is replaced, and after.
unfoldable pub write : (Written → Written) → Action Written (Unit {0})
write change = do other_call; remember change; other_call

abbrev pub save_baseline : TreeManifest → Written → Written
save_baseline baseline written = record written { baseline = some baseline }

abbrev pub save_begun : Transaction → Written → Written
save_begun transaction written = record written { transaction = some transaction }

abbrev pub save_receipt : Json → Written → Written
save_receipt receipt written = record written { receipt = some receipt }

-- The directories of the home.
abbrev pub home_folders : List Text
home_folders =
    codes ".codex"
    ∷ codes ".config"
    ∷ codes ".cache"
    ∷ codes ".local/share"
    ∷ codes ".local/state"
    ∷ codes "AppData/Roaming"
    ∷ codes "AppData/Local"
    ∷ []

unfoldable pub make_folders : FilePath → List Text → Action Written (Unit {0})
unfolding make_directories parse join_path
make_folders home_root [] = lift (ok tt)
make_folders home_root (relative ∷ folders) = do
  make_directories (join_path home_root (parse relative))
  make_folders home_root folders

-- The paths of a transaction.
module _ (state_root : FilePath) (transaction_id : Text) where
  abbrev pub root_of : FilePath
  root_of = state_path state_root (codes "transactions") transaction_id

  abbrev pub below_root : Text → FilePath
  below_root name = join_path root_of (parse name)

  -- The transaction before its signature. `device` is `os.stat(workspace).st_dev`.
  unfoldable pub unsigned_transaction : Text → FilePath → Text → ℤ → ℤ → Transaction
  unsigned_transaction task_id workspace baseline_digest created_at device = record {
    transaction_id = transaction_id;
    task_id = task_id;
    workspace_root = render workspace;
    transaction_root = render root_of;
    worktree_root = render (below_root (codes "worktree"));
    home_root = render (below_root (codes "home"));
    temp_root = render (below_root (codes "tmp"));
    baseline_path = render (below_root (codes "baseline.json"));
    baseline_digest = baseline_digest;
    created_at = created_at;
    workspace_device = device;
    state = opened;
    signature = [];
  }

-- The capability receipt, without its signature.
unfoldable pub receipt_core : Transaction → List (Text × Json)
receipt_core t =
    (codes "transaction_id", string t.transaction_id)
    ∷ (codes "task_id", string t.task_id)
    ∷ (codes "worktree_root", string t.worktree_root)
    ∷ (codes "home_root", string t.home_root)
    ∷ (codes "temp_root", string t.temp_root)
    ∷ (codes "baseline_digest", string t.baseline_digest)
    ∷ (codes "issued_at", number t.created_at)
    ∷ (codes "issued_by", string (codes "agent-workspace-guard"))
    ∷ []

-- What a begin sees of the world: the workspace as `ensure_absolute_directory` gives it, the home, the two
-- devices, the clock, and the identifier that `random_id` makes. `scan` is `_scan`, and `copied` the effect
-- of `shutil.copytree`.
pub record Beginning : Type 0 where
  pub workspace : Result FilePath
  pub home : FilePath
  pub workspace_device : ℤ
  pub state_device : ℤ
  pub created_at : ℤ
  pub transaction_id : Text
  pub scan : FilePath → Files → Result TreeManifest
  pub copied : Files → Files

module _ (hmac : List ℕ → Text) (resolve : FilePath → FilePath) (state_root : FilePath)
    (view : Beginning) where
  abbrev pub scan_of : FilePath → Action Written TreeManifest
  scan_of root w = (view.scan root w.files, w)

  -- `replace(unsigned, signature=self.signer.sign(…))`
  unfoldable pub signed_transaction : Transaction → Result Transaction
  unfolding sign
  signed_transaction unsigned = elim (sign hmac (transaction_payload unsigned)) [
    | ok signature ↦ ok (record unsigned { signature = signature })
    | err e ↦ err e
  ]

  unfoldable pub signed_receipt : Transaction → Result Json
  unfolding sign receipt_core
  signed_receipt transaction =
      let core = object (fields_of (receipt_core transaction)) in
      elim (sign hmac (labelled (codes "capability_receipt") (codes "core") core)) [
        | ok signature ↦ ok (
            object (
              fields_of (receipt_core transaction ++ ((codes "signature", string signature) ∷ []))))
        | err e ↦ err e
      ]

  -- The files of the transaction. `_save_transaction` signs once more, with the same signature.
  unfoldable pub store : Text → FilePath → TreeManifest → Action Written Transaction
  unfolding write signed_transaction signed_receipt unsigned_transaction
  store task_id workspace baseline_before = do
    write (save_baseline baseline_before)
    transaction ← lift (
        signed_transaction (
          unsigned_transaction state_root view.transaction_id task_id workspace
            baseline_before.digest view.created_at view.workspace_device))
    write (save_begun transaction)
    receipt ← lift (signed_receipt transaction)
    write (save_receipt receipt)
    lift (ok transaction)

  -- The `try` block.
  unfoldable pub create : Text → FilePath → TreeManifest → Action Written Transaction
  unfolding call make_directory make_folders store state_path parse join_path list_eq nat_eq
  create task_id workspace baseline_before = do
    let below = below_root state_root view.transaction_id
    call view.copied
    make_directory (below (codes "home"))
    make_directory (below (codes "tmp"))
    make_folders (below (codes "home")) home_folders
    make_directory (join_path (below (codes "tmp")) (parse (codes "runtime")))
    baseline_after ← scan_of workspace
    staged ← scan_of (below (codes "worktree"))
    lift (refuse (not (baseline_after.digest == baseline_before.digest)) stale_plan)
    lift (refuse (not (staged.digest == baseline_before.digest)) integrity_error)
    store task_id workspace baseline_before

  -- The handler of an exception.
  unfoldable pub take_down : Action Written (Unit {0})
  unfolding remove_state_tree state_path parse join_path
  take_down w =
      when (lexists (root_of state_root view.transaction_id) w.files)
        (remove_state_tree resolve state_root (root_of state_root view.transaction_id)) w

  -- `begin`, once the workspace is accepted. The last call appends the event.
  unfoldable pub begin_accepted : Text → FilePath → Action Written Transaction
  unfolding create take_down make_directory state_path parse join_path
  begin_accepted task_id workspace = do
    baseline_before ← scan_of workspace
    make_directory (root_of state_root view.transaction_id)
    transaction ← on_error (create task_id workspace baseline_before) take_down
    other_call
    lift (ok transaction)

  unfoldable pub begin : Text → Action Written Transaction
  unfolding reject_dangerous_workspace_root assert_disjoint begin_accepted int_eq
  begin task_id = do
    task_id ← lift (validate_text_field task_id max_task_id_length)
    workspace ← lift view.workspace
    lift (reject_dangerous_workspace_root view.home workspace)
    lift (assert_disjoint workspace state_root)
    lift (refuse (not (view.workspace_device == view.state_device)) guard_error)
    begin_accepted task_id workspace
