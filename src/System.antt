-- ===== src/System.antt =====
-- The system as steps on the tables of Work execution, and its histories.
pub mod Step
pub mod Safety
pub mod Fencing
