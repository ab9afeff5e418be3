-- ===== src/Broker.antt =====
-- `WorkspaceGuard` of src/agent_workspace_guard/broker.py: its stored records, their checks, and the
-- operations that begin a transaction, make a plan and an approval, commit with a rollback, and
-- restore. What `read_json`, `_scan`, `utc_epoch` and `random_id` return are arguments; the files that
-- `plan` and `approve` write are part of their results. Of the events only that their append may raise
-- is modelled, in the operations on files.
pub mod StatePaths
pub mod Records
pub mod Load
pub mod Approval
pub mod Commit
pub mod Plan
pub mod Prepare
pub mod Apply
pub mod Rollback
pub mod Restore
pub mod Held
pub mod Lock
pub mod Begin
pub mod Perform
