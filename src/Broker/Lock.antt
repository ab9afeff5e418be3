-- ===== src/Broker/Lock.antt =====
-- `_workspace_lock` of src/agent_workspace_guard/broker.py, `remove_state_tree` of util.py, and the two
-- ways in which the broker leaves a block that raises.
pub mod Released
pub mod Triples
use agent_workspace_guard.Base.{
  ℕ, ◌∷◌, ◌++◌, take, codes, Bool, true, false, not, ◌||◌, Option, none, some, List, [], Text, ◌==◌,
  list_eq, nat_eq, starts_with, if◌then◌else◌, pos, Result, ok, err, Error, guard_error,
  unsafe_path, refuse,
}
use agent_workspace_guard.Paths.{FilePath, is_relative_to}
use agent_workspace_guard.Models.Enums.{EntryKind, file}
use agent_workspace_guard.Json.Values.{object, field, end, string}
use agent_workspace_guard.Manifest.{digest_json}
use agent_workspace_guard.FileSystem.{
  Files, Node, lexists, World, Action, ◌>>=◌, ◌>>◌, lift, when, call, other_call,
}

abbrev pub new_file : Node
new_file = record { kind = EntryKind.file; mode = pos 0o600; content = [] }

-- The effect of `os.open` with `O_CREAT`, of `Path.unlink`, and of `shutil.rmtree`.
unfoldable pub created : FilePath → Files → Files
unfolding list_eq nat_eq
created path files other = if other == path then some new_file else files other

unfoldable pub unlinked : FilePath → Files → Files
unfolding list_eq nat_eq
unlinked path files other = if other == path then none else files other

unfoldable pub removed : FilePath → Files → Files
unfolding starts_with list_eq nat_eq
removed path files other = if starts_with other path then none else files other

module _ (sha256 : List ℕ → Text) (state_root : FilePath) where
  -- The lock file of a workspace.
  unfoldable pub lock_path_of : Text → Result FilePath
  unfolding digest_json
  lock_path_of workspace_root =
      elim (digest_json sha256 (object (field (codes "workspace") (string workspace_root) end))) [
        | ok digest ↦ ok (state_root ++ (codes "locks" ∷ (take 32 digest ++ codes ".lock") ∷ []))
        | err e ↦ err e
      ]

module _ {M : Type 0} where
  -- `except Exception: handler; raise`, for what the block has left.
  abbrev pub raise_after : Error → Result (Unit {0}) × World M → {A : Type 0} → Result A × World M
  raise_after e (ok u, w) = (err e, w)
  raise_after e (err e', w) = (err e', w)

  abbrev pub handled : {A : Type 0} → Result A × World M → Action M (Unit {0}) → Result A × World M
  handled (ok a, w) handler = (ok a, w)
  handled (err e, w) handler = raise_after e (handler w)

  abbrev pub on_error : {A : Type 0} → Action M A → Action M (Unit {0}) → Action M A
  on_error body handler w = handled (body w) handler

  -- `finally: last`
  abbrev pub concluded_by :
      {A : Type 0} → Result A → Result (Unit {0}) × World M → Result A × World M
  concluded_by r (ok u, w) = (r, w)
  concluded_by r (err e, w) = (err e, w)

  abbrev pub finally_do : {A : Type 0} → Action M A → Action M (Unit {0}) → Action M A
  finally_do body last w = concluded_by (body w).0 (last (body w).1)

  -- The lock file is removed; one that is missing is no error.
  unfoldable pub release : FilePath → Action M (Unit {0})
  unfolding call unlinked
  release lock_path w = when (lexists lock_path w.files) (call (unlinked lock_path)) w

  -- The block under the lock. The process identifier is written to the new lock file first.
  unfoldable pub with_workspace_lock : {A : Type 0} → FilePath → Action M A → Action M A
  unfolding call created release
  with_workspace_lock lock_path body w =
      if lexists lock_path w.files
      then (err guard_error, w)
      else (call (created lock_path) >> finally_do (other_call >> body) (release lock_path)) w

  -- `resolve` is `Path.resolve`; the removal of the tree counts as one call.
  unfoldable pub remove_state_tree :
      (FilePath → FilePath) → FilePath → FilePath → Action M (Unit {0})
  unfolding call removed is_relative_to list_eq nat_eq
  remove_state_tree resolve state_root path = do
    let root = resolve state_root
    let candidate = resolve path
    lift (refuse (candidate == root || not (is_relative_to candidate root)) unsafe_path)
    call (removed candidate)
