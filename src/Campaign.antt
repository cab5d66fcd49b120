-- ===== src/Campaign.antt =====
-- src/modules/campaigns: campaigns, their runs and deliveries, and the preflight policy.
pub mod Tables
pub mod Launch
pub mod Drafts
pub mod Preparation
pub mod Lifecycle
pub mod Delivery
pub mod Step
pub mod Drafting
pub mod Targets
pub mod Deleting
pub mod Keeping
pub mod RunKeeping
pub mod Keyed
pub mod Service
pub mod Refusals
pub mod RunService
pub mod RunRefusals
pub mod Preflight
pub mod Verdict
pub mod Coupling
pub mod Transitions
pub mod Launching
pub mod Preflighting
pub mod Finalizing
pub mod Materializing
pub mod Audit
pub mod Snapshots
pub mod Replays
pub mod Buffering
mod Examples
mod DraftExamples
