-- ===== src/Conversation/Tables.antt =====
-- The rows of internal/postgres/migrations/0007_private_conversation.sql, beside the tables of Work
-- execution. Columns with a constant value and the time of a conversation are left out.
use carry.Prelude.{ℕ, Bool, true, false, ◌&&◌, List, Option, none, some, ◌==◌}
use carry.Text.{Text}
use carry.Store.Tables.{Db, is_null}
use carry.Conversation.Context.{Author, author_member}

pub record Conversation : Type 0 where
  pub conversation_id : ℕ
  pub space_id : ℕ
  pub member_user_id : ℕ
  pub message_head_seq : ℕ

-- A row of `conversation_messages`.
pub record Post : Type 0 where
  pub message_id : ℕ
  pub conversation_id : ℕ
  pub message_seq : ℕ
  pub author : Author
  pub author_user_id : Option ℕ
  pub text : Text
  pub member_request_id : Option Text
  pub request_digest : Option Text
  pub reply_to_member_message_id : Option ℕ
  pub created_at : ℕ

-- A row of `conversation_reply_claims`.
pub record ReplyRow : Type 0 where
  pub source_message_id : ℕ
  pub conversation_id : ℕ
  pub current_machine_id : Option ℕ
  pub current_fence : ℕ
  pub lease_expires_at : Option ℕ
  pub context_start_seq : Option ℕ
  pub context_end_seq : Option ℕ
  pub output_digest : Option Text
  pub committed_reply_message_id : Option ℕ
  pub created_work_id : Option ℕ

pub record Chat : Type 0 where
  pub db : Db
  pub conversations : List Conversation
  pub posts : List Post
  pub replies : List ReplyRow

-- The rows with a given primary key.
abbrev pub conversation_with : ℕ → Conversation → Bool
conversation_with id k = k.conversation_id == id

abbrev pub post_with : ℕ → Post → Bool
post_with id p = p.message_id == id

abbrev pub reply_with : ℕ → ReplyRow → Bool
reply_with id c = c.source_message_id == id

abbrev pub by_member : Author → Bool
by_member author_member = true
by_member _ = false

abbrev pub is_some : ℕ → Option ℕ → Bool
is_some n none = false
is_some n (some k) = k == n

-- The partial index `conversation_reply_claims_unresolved_idx`.
abbrev pub unresolved : ℕ → ReplyRow → Bool
unresolved id c = c.conversation_id == id && is_null c.committed_reply_message_id
