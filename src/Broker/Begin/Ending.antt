-- ===== src/Broker/Begin/Ending.antt =====
-- `environment` and `discard` of src/agent_workspace_guard/broker.py.
use agent_workspace_guard.Base.{
  ℕ, ◌||◌, List, [], ◌∷◌, Text, codes, ◌==◌, Result, ok, err, if◌then◌else◌, guard_error, refuse,
}
use agent_workspace_guard.Paths.{FilePath, parse, render, join_path}
use agent_workspace_guard.Json.Values.{Json}
use agent_workspace_guard.Json.Convert.{Builtins}
use agent_workspace_guard.Models.Enums.{opened, planned, committed, discarded, transaction_state_eq}
use agent_workspace_guard.Models.Transaction.{Transaction}
use agent_workspace_guard.FileSystem.{◌>>=◌, ◌>>◌, lift, other_call}
use agent_workspace_guard.Broker.Load.{load_transaction}
use agent_workspace_guard.Broker.Held.{Held, Step, save}
use agent_workspace_guard.Broker.Lock.{remove_state_tree}

abbrev join_all : FilePath → List Text → FilePath
join_all path [] = path
join_all path (part ∷ parts) = join_all (join_path path (parse part)) parts

-- `str(Path(root) / part / …)`
unfoldable pub below : Text → List Text → Text
unfolding join_path parse render
below root parts = render (join_all (parse root) parts)

-- The variables that the process of an agent is given.
unfoldable pub variables : Transaction → List (Text × Text)
unfolding below
variables t =
    (codes "AWG_TRANSACTION_ID", t.transaction_id)
    ∷ (codes "AWG_WORKTREE", t.worktree_root)
    ∷ (codes "HOME", t.home_root)
    ∷ (codes "USERPROFILE", t.home_root)
    ∷ (codes "TMPDIR", t.temp_root)
    ∷ (codes "TMP", t.temp_root)
    ∷ (codes "TEMP", t.temp_root)
    ∷ (codes "CODEX_HOME", below t.home_root (codes ".codex" ∷ []))
    ∷ (codes "XDG_CONFIG_HOME", below t.home_root (codes ".config" ∷ []))
    ∷ (codes "XDG_CACHE_HOME", below t.home_root (codes ".cache" ∷ []))
    ∷ (codes "XDG_DATA_HOME", below t.home_root (codes ".local" ∷ codes "share" ∷ []))
    ∷ (codes "XDG_STATE_HOME", below t.home_root (codes ".local" ∷ codes "state" ∷ []))
    ∷ (codes "XDG_RUNTIME_DIR", below t.temp_root (codes "runtime" ∷ []))
    ∷ (codes "APPDATA", below t.home_root (codes "AppData" ∷ codes "Roaming" ∷ []))
    ∷ (codes "LOCALAPPDATA", below t.home_root (codes "AppData" ∷ codes "Local" ∷ []))
    ∷ []

module _ (py : Builtins) (sha256 hmac : List ℕ → Text) (state_root : FilePath)
    (read_json : FilePath → Result Json) where
  unfoldable pub environment : Text → Result (List (Text × Text))
  unfolding load_transaction variables transaction_state_eq
  environment transaction_id =
      elim (load_transaction py sha256 hmac state_root read_json transaction_id) [
        | err e ↦ err e
        | ok t ↦
            if t.state == opened || t.state == planned then ok (variables t) else err guard_error
      ]

  abbrev pub discard_transaction : Held → Held
  discard_transaction held = record held { transaction_state = discarded }

  -- The event is appended before the tree of the transaction is removed.
  unfoldable pub discard : (FilePath → FilePath) → Text → Step (Unit {0})
  unfolding load_transaction transaction_state_eq save remove_state_tree parse
  discard resolve transaction_id = do
    transaction ← lift (load_transaction py sha256 hmac state_root read_json transaction_id)
    lift (refuse (transaction.state == committed) guard_error)
    save discard_transaction
    other_call
    remove_state_tree resolve state_root (parse transaction.transaction_root)
