-- ===== src/Conversation/Replying.antt =====
-- ClaimConversationReply, RenewConversationReply and CommitConversationReply of
-- internal/postgres/conversation_reply.go keep a conversation in turn.
use carry.Prelude.{ℕ, ◌+◌, Bool, some, ◌≡◌, refl, subst, arith, ◌==◌}
use carry.Result.{
  ok, or_fail, fail_if, >>=-eq-ok, or_fail-some, stale_reply_claim, no_reply_available,
}
use carry.Store.Tables.{lease_interval}
use carry.Execution.Retry.{column, Principal}
use carry.Conversation.Tables.{Chat}
use carry.Conversation.Claims.{
  Joined, lock_reply_for_claim, assign_reply, assignable, assigned, lock_reply_for_renew,
  extend_reply_lease, is_held,
}
use carry.Conversation.Reply.{
  ReplyClaim, RenewReplyCommand, machine_identity, exact, valid_source, lock_active_reply_machine,
  fixed_reply_context_range, load_fixed_reply_context, claim_locked, claim_conversation_reply,
  renew_conversation_reply,
}
use carry.Conversation.Alternates.{Alternates, keep_replies}

assign_reply-Alternates :
    (now machine_id start_seq end_seq source_id fence : ℕ) (d : Chat) {f lease : ℕ} {d' : Chat}
    → assign_reply now machine_id start_seq end_seq source_id fence d ≡ some (f, lease, d')
    → Alternates d
    → Alternates d'
unfolding assign_reply
assign_reply-Alternates now machine_id start_seq end_seq source_id fence d h v =
    subst Alternates (ground arith) (
      keep_replies d v (assignable now source_id fence) (assigned now machine_id start_seq end_seq)
        (λ c. refl) (λ c. refl) (λ c. refl))

claim_locked-Alternates :
    (now machine_id : ℕ) (j : Joined) (d : Chat) {c : ReplyClaim} {d' : Chat}
    → claim_locked now machine_id j d ≡ ok (c, d')
    → Alternates d
    → Alternates d'
unfolding claim_locked
claim_locked-Alternates now machine_id j d h v =
    let ((start_seq, end_seq), e1, h1) = >>=-eq-ok (fixed_reply_context_range j d) _ h in
    let assign =
      assign_reply now machine_id start_seq end_seq j.reply.source_message_id j.reply.current_fence
        d in
    let ((fence, lease, d1), e2, h2) = >>=-eq-ok (or_fail assign no_reply_available) _ h1 in
    let (messages, e3, h3) =
      >>=-eq-ok (load_fixed_reply_context j.reply.conversation_id start_seq end_seq d1) _ h2 in
    subst Alternates (ground arith) (
      assign_reply-Alternates now machine_id start_seq end_seq j.reply.source_message_id
        j.reply.current_fence d (or_fail-some assign no_reply_available e2) v)

pub claim_conversation_reply-Alternates :
    (now assigned_at : ℕ) (locked : ℕ → Bool) (machine : Principal) (d : Chat) {c : ReplyClaim}
    {d' : Chat}
    → claim_conversation_reply now assigned_at locked machine d ≡ ok (c, d')
    → Alternates d
    → Alternates d'
unfolding claim_conversation_reply
claim_conversation_reply-Alternates now assigned_at locked machine d h v =
    let (machine_id, e1, h1) = >>=-eq-ok (machine_identity machine) _ h in
    let (space_id, e2, h2) = >>=-eq-ok (lock_active_reply_machine machine_id d) _ h1 in
    let (j, e3, h3) =
      >>=-eq-ok (or_fail (lock_reply_for_claim now locked space_id d) no_reply_available) _ h2 in
    claim_locked-Alternates assigned_at machine_id j d h3 v

extend_reply_lease-Alternates :
    (now source_id machine_id fence : ℕ) (d : Chat) {lease : ℕ} {d' : Chat}
    → extend_reply_lease now source_id machine_id fence d ≡ some (lease, d')
    → Alternates d
    → Alternates d'
unfolding extend_reply_lease
extend_reply_lease-Alternates now source_id machine_id fence d h v =
    subst Alternates (ground arith) (
      keep_replies d v (is_held now source_id machine_id fence)
        (λ c. record c { lease_expires_at = some (now + lease_interval) }) (λ c. refl) (λ c. refl)
        (λ c. refl))

pub renew_conversation_reply-Alternates :
    (now : ℕ) (c : RenewReplyCommand) (d : Chat) {lease : ℕ} {d' : Chat}
    → renew_conversation_reply now c d ≡ ok (lease, d')
    → Alternates d
    → Alternates d'
unfolding renew_conversation_reply
renew_conversation_reply-Alternates now c d h v =
    let (machine_id, e1, h1) = >>=-eq-ok (exact c.machine_id) _ h in
    let (u2, e2, h2) = >>=-eq-ok (valid_source c.source_message_id) _ h1 in
    let (u, e3, h3) = >>=-eq-ok (fail_if (c.fence == 0) stale_reply_claim) _ h2 in
    let (space_id, e4, h4) = >>=-eq-ok (lock_active_reply_machine machine_id d) _ h3 in
    let (source_id, es, hs) = >>=-eq-ok (column c.source_message_id) _ h4 in
    let (id, e5, h5) =
      >>=-eq-ok
        (or_fail (lock_reply_for_renew now source_id space_id machine_id c.fence d)
          stale_reply_claim)
        _ hs in
    extend_reply_lease-Alternates now source_id machine_id c.fence d
      (or_fail-some (extend_reply_lease now source_id machine_id c.fence d) stale_reply_claim h5) v
