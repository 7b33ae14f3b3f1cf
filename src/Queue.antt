-- ===== src/Queue.antt =====
-- src/agents/queue: the durable task queue, the worker that drains it, and the approval webhook.
pub mod Envelope
pub mod Store
pub mod Worker
pub mod ApprovalPost
pub mod Migrate
