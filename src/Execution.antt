-- ===== src/Execution.antt =====
-- internal/postgres/run.go: the transactions of Work execution, and what holds of them.
pub mod Claim
pub mod Claiming
pub mod Granting
pub mod Attempt
pub mod Retry
pub mod History
pub mod Evolution
pub mod Input
pub mod Consistent
pub mod Preservation
pub mod Invariant
pub mod Committing
pub mod Committed
pub mod Steps
pub mod Completion
pub mod Replay
pub mod Lease
