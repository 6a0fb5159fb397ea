-- ===== src/Examples.antt =====
-- The theorems at concrete inputs: one Work from its creation to its review, a
-- conversation, and machines that are connected.
pub mod Scene
pub mod Runs
pub mod Texts
pub mod Again
pub mod Leases
pub mod Conversations
pub mod Agents
pub mod Chats
pub mod Talks
pub mod Networks
pub mod Second
