-- ===== src/Webhook.antt =====
-- src/modules/webhooks: the inbox of webhook events, the processor, and what they promise.
pub mod Event
pub mod Processing
pub mod Inbox
pub mod Once
mod Examples
