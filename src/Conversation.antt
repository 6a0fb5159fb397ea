-- ===== src/Conversation.antt =====
-- internal/conversation/conversation.go: private messages, replies and the context of a reply.
pub mod Message
pub mod Context
pub mod Suffix
pub mod Refix
pub mod Tables
pub mod Posts
pub mod Claims
pub mod Send
pub mod Reply
pub mod Commit
pub mod Numbered
pub mod Alternates
pub mod Bumps
pub mod Asking
pub mod Turns
pub mod Sending
pub mod Replying
pub mod Committing
pub mod Talk
pub mod Forward
pub mod Changes
pub mod Joins
pub mod Replied
pub mod Progress
pub mod Moves
pub mod Histories
pub mod Claiming
pub mod Fixed
pub mod Entered
pub mod Once
pub mod Answer
pub mod Sent
pub mod Pages
pub mod Shown
