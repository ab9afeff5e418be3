-- ===== src/Policy.antt =====
-- `GuardPolicy` of src/agent_workspace_guard/policy.py.
pub mod Symlink
pub mod Config
pub mod Tally
pub mod Evaluate
