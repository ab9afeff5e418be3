-- ===== src/Tests.antt =====
-- The theorems at concrete inputs, and the data for them.
pub mod Hosts
pub mod Samples
mod OnPaths
mod OnManifests
mod OnPlans
mod OnPerforms
mod OnBegins
mod OnRestores
mod OnLogs
mod OnRecords
mod OnCommits
mod OnResults
mod OnRollbacks
mod OnShells
mod OnScans
