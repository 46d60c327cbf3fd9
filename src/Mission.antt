-- ===== src/Mission.antt =====
-- The missions of pkg/extension/mission: their acceptance criteria, the hand-offs of their workers, and
-- the waves of workers.
pub mod Approval
pub mod Criteria
pub mod Handoffs
pub mod Waves
