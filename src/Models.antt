-- ===== src/Models.antt =====
-- The records of src/agent_workspace_guard/models.py, one module to a class.
pub mod Enums
pub mod ManifestEntry
pub mod Finding
pub mod ApprovalToken
pub mod Transaction
pub mod TreeManifest
pub mod Change
pub mod CommitPlan
pub mod CommitOperation
pub mod CommitRecord
pub mod Signing
