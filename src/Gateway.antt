-- ===== src/Gateway.antt =====
-- src/modules/gateway: synchronisation runs with their write fences, and the reconciliation of single groups.
pub mod SyncRun
pub mod Running
pub mod Fencing
pub mod Exclusive
pub mod Capability
pub mod RateLimit
pub mod GroupIntent
pub mod Groups
pub mod Permissions
pub mod Mirror
pub mod SyncItem
pub mod Discovery
pub mod Coherence
pub mod Refreshing
pub mod Working
pub mod Publishing
pub mod Progress
pub mod Pending
pub mod NoLoss
mod Examples
mod SyncExamples
