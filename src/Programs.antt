-- ===== src/Programs.antt =====
-- Programs: the progress of a member, the merging of plans, and packages with their delivery.
pub mod Progress
pub mod Plans
pub mod Package
