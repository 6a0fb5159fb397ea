-- ===== src/Conversation/Reply.antt =====
-- ClaimConversationReply and RenewConversationReply of internal/postgres/conversation_reply.go.
use carry.Prelude.{
  ℕ, ◌-◌, Bool, not, List, [], ◌∷◌, Option, none, some, ◌==◌, if◌then◌else◌, map, drop, length,
}
use carry.Result.{
  Result, ok, err, ◌>>=◌, ◌>>◌, fail_if, or_fail, machine_not_found, machine_revoked,
  no_reply_available, stale_reply_claim, invalid_context, database,
}
use carry.Store.Tables.{is_null}
use carry.Store.Claims.{lock_claiming_machine}
use carry.Execution.Retry.{Identifier, Principal, nobody, principal, is_valid, column}
use carry.Conversation.Context.{ContextMessage, fixed_context_suffix}
use carry.Conversation.Tables.{Chat, Post}
use carry.Conversation.Claims.{
  Joined, lock_reply_for_claim, list_context_candidates, assign_reply, list_fixed_context,
  lock_reply_for_renew, extend_reply_lease,
}

-- `ReplyClaim`.
pub record ReplyClaim : Type 0 where
  pub source_message_id : ℕ
  pub fence : ℕ
  pub lease_expires_at : ℕ
  pub messages : List ContextMessage

-- `RenewReplyCommand`; a fence that is negative in the source is refused like 0.
pub record RenewReplyCommand : Type 0 where
  pub machine_id : Principal
  pub source_message_id : Identifier
  pub fence : ℕ

abbrev pub context_message : Post → ContextMessage
context_message p = record { author = p.author; text = p.text }

-- `uuid.Validate` of the machine of a claim, and of the parts of another command.
abbrev pub machine_identity : Principal → Result ℕ
machine_identity (principal n) = ok n
machine_identity nobody = err machine_not_found

abbrev pub exact : Principal → Result ℕ
exact (principal n) = ok n
exact nobody = err stale_reply_claim

abbrev pub valid_source : Identifier → Result (Unit {0})
valid_source source_message_id = fail_if (not (is_valid source_message_id)) stale_reply_claim

-- `lockActiveReplyMachine`: the space of the machine.
unfoldable pub lock_active_reply_machine : ℕ → Chat → Result ℕ
lock_active_reply_machine machine_id d = do
  m ← or_fail (lock_claiming_machine machine_id d.db) machine_not_found
  fail_if (not (is_null m.revoked_at)) machine_revoked
  ok m.space_id

-- `rows[startIndex].MessageSeq`; there is such a row.
abbrev pub first_seq : List Post → Result ℕ
first_seq [] = err database
first_seq (p ∷ ps) = ok p.message_seq

-- A context that an earlier claim recorded, or the newest messages up to the source.
abbrev pub recorded_or_new : Joined → Chat → Option ℕ → Option ℕ → Result (ℕ × ℕ)
recorded_or_new j d none none =
    let rows = list_context_candidates j.reply.conversation_id j.source.message_seq d in
    do
      fixed ← fixed_context_suffix (map context_message rows)
      start_seq ← first_seq (drop (length rows - length fixed) rows)
      ok (start_seq, j.source.message_seq)
recorded_or_new j d (some start_seq) (some end_seq) =
    if end_seq == j.source.message_seq then ok (start_seq, end_seq) else err invalid_context
recorded_or_new j d _ _ = err invalid_context

-- `fixedReplyContextRange`.
unfoldable pub fixed_reply_context_range : Joined → Chat → Result (ℕ × ℕ)
fixed_reply_context_range j d =
    recorded_or_new j d j.reply.context_start_seq j.reply.context_end_seq

-- Any error of the selection is an invalid context.
abbrev pub whole : List ContextMessage → Result (List ContextMessage) → Result (List ContextMessage)
whole messages (err e) = err invalid_context
whole messages (ok fixed) =
    if length fixed == length messages then ok messages else err invalid_context

-- `loadFixedReplyContext`.
unfoldable pub load_fixed_reply_context : ℕ → ℕ → ℕ → Chat → Result (List ContextMessage)
load_fixed_reply_context id start_seq end_seq d =
    let messages = map context_message (list_fixed_context id start_seq end_seq d) in
    whole messages (fixed_context_suffix messages)

-- The rest of a claim, once a reply is locked: `assigned_at` is the clock of the assignment.
unfoldable pub claim_locked : ℕ → ℕ → Joined → Chat → Result (ReplyClaim × Chat)
claim_locked assigned_at machine_id j d = do
  (start_seq, end_seq) ← fixed_reply_context_range j d
  (fence, lease, d1) ←
      or_fail
        (assign_reply assigned_at machine_id start_seq end_seq j.reply.source_message_id
          j.reply.current_fence d)
        no_reply_available
  messages ← load_fixed_reply_context j.reply.conversation_id start_seq end_seq d1
  ok (
    record {
      source_message_id = j.reply.source_message_id;
      fence = fence;
      lease_expires_at = lease;
      messages = messages;
    },
    d1,
  )

-- ClaimConversationReply.
unfoldable pub claim_conversation_reply :
    ℕ → ℕ → (ℕ → Bool) → Principal → Chat → Result (ReplyClaim × Chat)
claim_conversation_reply now assigned_at locked machine d = do
  machine_id ← machine_identity machine
  space_id ← lock_active_reply_machine machine_id d
  j ← or_fail (lock_reply_for_claim now locked space_id d) no_reply_available
  claim_locked assigned_at machine_id j d

-- RenewConversationReply: the new end of the lease.
unfoldable pub renew_conversation_reply : ℕ → RenewReplyCommand → Chat → Result (ℕ × Chat)
renew_conversation_reply now c d = do
  machine_id ← exact c.machine_id
  valid_source c.source_message_id
  fail_if (c.fence == 0) stale_reply_claim
  space_id ← lock_active_reply_machine machine_id d
  source_id ← column c.source_message_id
  id ← or_fail (lock_reply_for_renew now source_id space_id machine_id c.fence d) stale_reply_claim
  or_fail (extend_reply_lease now source_id machine_id c.fence d) stale_reply_claim
