-- ===== src/Events.antt =====
-- Events and the resources that they take: src/event.
pub mod Batch
pub mod Invitations
