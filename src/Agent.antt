-- ===== src/Agent.antt =====
-- internal/agent/agent.go: the keys and names of native agents, and the vocabulary of them.
pub mod Keys
pub mod Vocabulary
pub mod Sound
