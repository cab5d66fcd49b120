-- ===== src/Message.antt =====
-- src/modules/messages: message jobs, their repository, the outbound session lease, the send policy
-- and the worker that sends. The theorems stand in the children behind the definitions.
pub mod Job
pub mod Repository
pub mod Step
pub mod Evolution
pub mod History
pub mod Following
pub mod Idempotency
pub mod Lease
pub mod Exclusion
pub mod Holding
pub mod Policy
pub mod Processor
pub mod Service
pub mod Sending
pub mod Guards
mod Examples
