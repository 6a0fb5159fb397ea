-- ===== src/Conversation/Send.antt =====
-- SendConversationMessage and ListConversationMessages of internal/postgres/conversation.go.
use carry.Prelude.{not, ◌||◌, ℕ, ◌&&◌, List, [], ◌∷◌, Option, none, some, if◌then◌else◌, map}
use carry.Result.{
  fail_if, Result, ok, err, ◌>>=◌, ◌>>◌, or_fail, identity_required, idempotency_conflict,
  invalid_cursor, reply_pending, database,
}
use carry.Text.{Text, text_eq, trim_space}
use carry.Digest.{encode_fields}
use carry.Work.{normalize_idempotency_key}
use carry.Execution.Claim.{text_value}
use carry.Execution.Retry.{
  Identifier, Principal, nobody, principal, is_blank, is_valid, column, text_of, name_of,
  require_membership,
}
use carry.Conversation.Message.{normalize_text}
use carry.Conversation.Context.{Author}
use carry.Conversation.Tables.{Chat, Post}
use carry.Conversation.Posts.{
  find_conversation, ensure_conversation, lock_conversation, find_member_request,
  has_unresolved_reply, advance_message_head, create_member_message, create_reply_claim,
  cursor_sequence, list_newest_messages, list_messages_before, list_messages_after,
}

-- `SendCommand`.
pub record SendCommand : Type 0 where
  pub space_id : Identifier
  pub member_user_id : Principal
  pub text : Text
  pub idempotency_key : Text

-- `conversation.Message`; a missing uuid is no Work.
pub record Message : Type 0 where
  pub message_id : ℕ
  pub author : Author
  pub text : Text
  pub request_id : Text
  pub created_work_id : Option ℕ
  pub sequence : ℕ
  pub created_at : ℕ

-- `restoreConversationMessage`, with `stringValue`.
abbrev pub restore_message : Post × Option ℕ → Message
restore_message (p, work_id) = record {
  message_id = p.message_id;
  author = p.author;
  text = p.text;
  request_id = trim_space (text_value p.member_request_id);
  created_work_id = work_id;
  sequence = p.message_seq;
  created_at = p.created_at;
}

-- `uuid.Validate` of the identities.
abbrev pub valid_space : Identifier → Result (Unit {0})
valid_space space_id = fail_if (not (is_valid space_id)) identity_required

abbrev pub identity : Principal → Result ℕ
identity (principal n) = ok n
identity nobody = err identity_required

-- A new message, and the reply that it asks for.
unfoldable pub admit_message : ℕ → ℕ → ℕ → ℕ → Text → Text → Text → Chat → Result (Message × Chat)
admit_message now message_id id user_id text key digest d = do
  (seq, d1) ← or_fail (advance_message_head id d) database
  (p, d2) ← create_member_message now message_id id seq user_id text key digest d1
  d3 ← create_reply_claim p.message_id id d2
  ok (restore_message (p, none), d3)

-- The rest of the transaction, once the conversation is locked.
unfoldable pub send_locked : ℕ → ℕ → ℕ → ℕ → Text → Text → Text → Chat → Result (Message × Chat)
send_locked now message_id id user_id text key digest d = elim (find_member_request id key d) [
  | some p ↦
      if text_eq (text_value p.request_digest) digest
      then ok (restore_message (p, none), d)
      else err idempotency_conflict
  | none ↦
      if has_unresolved_reply id d
      then err reply_pending
      else admit_message now message_id id user_id text key digest d
]

module _ (sha256 : Text → Text) (spell : ℕ → Text) where
  -- `MessageDigest`, of the identifiers as they are spelled.
  abbrev pub private_digest : Identifier → Principal → Text → Text
  private_digest space_id user_id text =
      sha256 (encode_fields (text_of spell space_id ∷ name_of spell user_id ∷ text ∷ []))

  -- SendConversationMessage.
  unfoldable pub send_conversation_message :
      ℕ → ℕ → ℕ → SendCommand → Chat → Result (Message × Chat)
  send_conversation_message now new_id message_id c d = do
    valid_space c.space_id
    user_id ← identity c.member_user_id
    text ← normalize_text c.text
    key ← normalize_idempotency_key c.idempotency_key
    space_id ← column c.space_id
    require_membership space_id user_id d.db
    (k, d1) ← ensure_conversation new_id space_id user_id d
    locked ← or_fail (lock_conversation k.conversation_id d1) database
    send_locked now message_id k.conversation_id user_id text key
        (private_digest c.space_id c.member_user_id text) d1

-- `ListCommand`.
pub record ListCommand : Type 0 where
  pub space_id : Identifier
  pub member_user_id : Principal
  pub before : Identifier
  pub after : Identifier

-- `ValidateCursors`, and a cursor that is no uuid.
abbrev pub check_cursors : Identifier → Identifier → Result (Unit {0})
check_cursors before after =
    fail_if
      (not (is_blank before) && not (is_blank after)
        || not (is_blank before) && not (is_valid before)
        || not (is_blank after) && not (is_valid after))
      invalid_cursor

-- The number of the message of a cursor.
abbrev pub cursor_of : ℕ → Identifier → Chat → Result ℕ
cursor_of id cursor d =
    column cursor >>= λ message_id. or_fail (cursor_sequence id message_id d) invalid_cursor

-- The page of a conversation that is there.
unfoldable pub list_page : ℕ → Identifier → Identifier → Chat → Result (List (Post × Option ℕ))
list_page id before after d =
    if not (is_blank before)
    then (cursor_of id before d >>= λ n. ok (list_messages_before id n d))
    else if not (is_blank after)
    then (cursor_of id after d >>= λ n. ok (list_messages_after id n d))
    else ok (list_newest_messages id d)

-- The rows that ListConversationMessages reads.
unfoldable pub list_message_rows : ListCommand → Chat → Result (List (Post × Option ℕ))
list_message_rows c d = do
  valid_space c.space_id
  user_id ← identity c.member_user_id
  check_cursors c.before c.after
  space_id ← column c.space_id
  require_membership space_id user_id d.db
  elim (find_conversation space_id user_id d) [
    | none ↦ if is_blank c.before && is_blank c.after then ok [] else err invalid_cursor
    | some k ↦ list_page k.conversation_id c.before c.after d
  ]

-- ListConversationMessages.
unfoldable pub list_conversation_messages : ListCommand → Chat → Result (List Message)
list_conversation_messages c d = list_message_rows c d >>= λ rows. ok (map restore_message rows)
