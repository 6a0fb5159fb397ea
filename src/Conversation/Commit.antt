-- ===== src/Conversation/Commit.antt =====
-- CommitConversationReply of internal/postgres/conversation_reply.go.
use carry.Prelude.{ℕ, ◌+◌, ◌||◌, not, Option, none, some, ◌==◌, if◌then◌else◌}
use carry.Result.{
  Result, ok, err, ◌>>=◌, ◌>>◌, fail_if, or_fail, stale_reply_claim, reply_conflict, database,
}
use carry.Text.{Text, text_eq}
use carry.Store.Tables.{Work}
use carry.Store.Works.{insert_work}
use carry.Execution.Claim.{text_value}
use carry.Execution.Retry.{Identifier, Principal, uuid, principal, column, text_of}
use carry.Works.Create.{create_digest}
use carry.Conversation.Message.{ReplyCandidate, normalize_reply_candidate}
use carry.Conversation.Tables.{Chat, is_some}
use carry.Conversation.Posts.{advance_message_head}
use carry.Conversation.Claims.{
  Joined, lock_reply_for_commit, reply_lease_is_current, create_carry_reply, complete_reply,
}
use carry.Conversation.Reply.{exact, valid_source, lock_active_reply_machine}

-- `CommitReplyCommand`.
pub record CommitReplyCommand : Type 0 where
  pub machine_id : Principal
  pub source_message_id : Identifier
  pub fence : ℕ
  pub candidate : ReplyCandidate

-- `CommitReplyResult`.
pub record CommitReplyResult : Type 0 where
  pub reply_message_id : ℕ
  pub created_work_id : Option ℕ

-- The uuids that one commit makes: of the Work, its key as a text, and of the reply.
pub record NewIds : Type 0 where
  pub work_id : ℕ
  pub work_key : Text
  pub reply_id : ℕ

-- The readings of the clock in one commit: the start of the transaction, which is the time of new
-- rows, the test of the lease, and the end of the claim.
pub record CommitClock : Type 0 where
  pub began : ℕ
  pub checked : ℕ
  pub finished : ℕ

-- A row has to be inserted: the key is new, so that no row is an error.
abbrev pub delegated : ℕ → Option Work × Chat → Result (Option ℕ × Chat)
delegated work_id (none, d) = err database
delegated work_id (some w, d) = ok (some work_id, d)

module _ (sha256 : Text → Text) (spell : ℕ → Text) where
  -- `createDelegatedWork`.
  unfoldable pub create_delegated_work :
      CommitClock → NewIds → ℕ → ℕ → Text → Chat → Result (Option ℕ × Chat)
  create_delegated_work clock ids space_id user_id goal d = do
    (row, db') ←
        insert_work clock.began ids.work_id space_id goal user_id ids.work_key
          (create_digest sha256 spell (uuid space_id) (principal user_id) goal) d.db
    delegated ids.work_id (row, record d { db = db' })

  -- The Work of a candidate that delegates one.
  unfoldable pub delegate :
      CommitClock → NewIds → Joined → Option Text → Chat → Result (Option ℕ × Chat)
  delegate clock ids j none d = ok (none, d)
  delegate clock ids j (some goal) d =
      create_delegated_work clock ids j.conversation.space_id j.conversation.member_user_id goal d

  -- The reply at the number after its source, and the end of its claim.
  unfoldable pub write_reply :
      CommitClock
      → NewIds
      → ℕ
      → ℕ
      → Joined
      → Text
      → Text
      → Option ℕ
      → Chat
      → Result (CommitReplyResult × Chat)
  write_reply clock ids machine_id fence j reply digest work_id d = do
    let source_id = j.reply.source_message_id
    let id = j.reply.conversation_id
    (seq, d1) ← or_fail (advance_message_head id d) database
    fail_if (not (seq == j.source.message_seq + 1)) stale_reply_claim
    d2 ← create_carry_reply clock.began ids.reply_id id seq reply source_id d1
    let (rows, d3) =
        complete_reply clock.finished digest ids.reply_id work_id source_id machine_id fence d2
    fail_if (not (rows == 1)) stale_reply_claim
    ok (record { reply_message_id = ids.reply_id; created_work_id = work_id }, d3)

  -- A commit of a reply that nobody committed.
  unfoldable pub commit_new :
      CommitClock
      → NewIds
      → ℕ
      → ℕ
      → Joined
      → ReplyCandidate
      → Text
      → Chat
      → Result (CommitReplyResult × Chat)
  commit_new clock ids machine_id fence j candidate digest d = do
    fail_if (not (j.conversation.message_head_seq == j.source.message_seq)) stale_reply_claim
    current ←
        or_fail (reply_lease_is_current clock.checked j.reply.source_message_id d) stale_reply_claim
    fail_if (not current) stale_reply_claim
    (work_id, d1) ← delegate clock ids j candidate.delegation_goal d
    write_reply clock ids machine_id fence j candidate.reply digest work_id d1

  -- The rest of a commit, once the reply is locked.
  unfoldable pub commit_locked :
      CommitClock
      → NewIds
      → ℕ
      → ℕ
      → Joined
      → ReplyCandidate
      → Text
      → Chat
      → Result (CommitReplyResult × Chat)
  commit_locked clock ids machine_id fence j candidate digest d = do
    fail_if
        (not (is_some machine_id j.reply.current_machine_id)
          || not (j.reply.current_fence == fence))
        stale_reply_claim
    elim j.reply.committed_reply_message_id [
      | some reply_id ↦
          if text_eq (text_value j.reply.output_digest) digest
          then ok
              (record { reply_message_id = reply_id; created_work_id = j.reply.created_work_id }, d)
          else err reply_conflict
      | none ↦ commit_new clock ids machine_id fence j candidate digest d
    ]

  -- CommitConversationReply.
  unfoldable pub commit_conversation_reply :
      CommitClock → NewIds → CommitReplyCommand → Chat → Result (CommitReplyResult × Chat)
  commit_conversation_reply clock ids c d = do
    machine_id ← exact c.machine_id
    valid_source c.source_message_id
    fail_if (c.fence == 0) stale_reply_claim
    (candidate, digest) ←
        normalize_reply_candidate sha256 (text_of spell c.source_message_id) c.candidate
    space_id ← lock_active_reply_machine machine_id d
    source_id ← column c.source_message_id
    j ← or_fail (lock_reply_for_commit source_id space_id d) stale_reply_claim
    commit_locked clock ids machine_id c.fence j candidate digest d
