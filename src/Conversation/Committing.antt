-- ===== src/Conversation/Committing.antt =====
-- CommitConversationReply of internal/postgres/conversation_reply.go keeps a conversation in turn.
use carry.Execution.Retry.{column, text_of}
use carry.Prelude.{
  ℕ, ◌||◌, not, none, ◌≡◌, inl, inr, ◌==◌, subst, sym, arith, Bool-cases, Option-cases,
}
use carry.Result.{ok, or_fail, fail_if, >>=-eq-ok, or_fail-some, stale_reply_claim}
use carry.Text.{Text, text_eq}
use carry.Execution.Claim.{text_value}
use carry.Conversation.Message.{ReplyCandidate, normalize_reply_candidate}
use carry.Conversation.Tables.{Chat, is_some}
use carry.Conversation.Claims.{Joined, lock_reply_for_commit, reply_lease_is_current}
use carry.Conversation.Reply.{exact, valid_source, lock_active_reply_machine}
use carry.Conversation.Commit.{
  CommitReplyCommand, CommitReplyResult, NewIds, CommitClock, delegate, commit_new, commit_locked,
  commit_conversation_reply,
}
use carry.Conversation.Alternates.{Alternates, change_db}
use carry.Conversation.Joins.{Stands, Stands-key, lock_reply_for_commit_inv}
use carry.Conversation.Replied.{delegate_inv, write_reply-Alternates}

module _ (sha256 : Text → Text) (spell : ℕ → Text) where
  commit_new-Alternates :
      (clock : CommitClock) (ids : NewIds) (machine_id fence : ℕ) (j : Joined)
      (candidate : ReplyCandidate) (digest : Text) (d : Chat) {r : CommitReplyResult} {d' : Chat}
      → commit_new sha256 spell clock ids machine_id fence j candidate digest d ≡ ok (r, d')
      → Stands j.reply.source_message_id d j
      → j.reply.committed_reply_message_id ≡ none
      → Alternates d
      → Alternates d'
  unfolding commit_new
  commit_new-Alternates clock ids machine_id fence j candidate digest d h s still v =
      let newest = j.conversation.message_head_seq == j.source.message_seq in
      let (u, e1, h1) = >>=-eq-ok (fail_if (not newest) stale_reply_claim) _ h in
      let current = reply_lease_is_current clock.checked j.reply.source_message_id d in
      let (b, e2, h2) = >>=-eq-ok (or_fail current stale_reply_claim) _ h1 in
      let (w, e3, h3) = >>=-eq-ok (fail_if (not b) stale_reply_claim) _ h2 in
      let ((work_id, d1), e4, h4) =
        >>=-eq-ok (delegate sha256 spell clock ids j candidate.delegation_goal d) _ h3 in
      let same = delegate_inv sha256 spell clock ids j candidate.delegation_goal d e4 in
      write_reply-Alternates sha256 spell clock ids machine_id fence j candidate.reply digest
        work_id d1 h4
        (subst (λ x. Stands j.reply.source_message_id x j) (sym same)
          (record {
            of_reply = s.of_reply;
            of_conversation = s.of_conversation;
            of_source = s.of_source;
          }))
        still (subst Alternates (sym same) (change_db d v d1.db))

  commit_locked-Alternates :
      (clock : CommitClock) (ids : NewIds) (machine_id fence : ℕ) (j : Joined)
      (candidate : ReplyCandidate) (digest : Text) (d : Chat) {r : CommitReplyResult} {d' : Chat}
      → commit_locked sha256 spell clock ids machine_id fence j candidate digest d ≡ ok (r, d')
      → Stands j.reply.source_message_id d j
      → Alternates d
      → Alternates d'
  unfolding commit_locked
  commit_locked-Alternates clock ids machine_id fence j candidate digest d h s v =
      let mine =
        not (is_some machine_id j.reply.current_machine_id)
        || not (j.reply.current_fence == fence) in
      let (u, e1, h1) = >>=-eq-ok (fail_if mine stale_reply_claim) _ h in
      elim (Option-cases j.reply.committed_reply_message_id) [
        | inl n ↦
            commit_new-Alternates clock ids machine_id fence j candidate digest d (rw n at h1) s n v
        | inr (reply_id, n) ↦
            elim (Bool-cases (text_eq (text_value j.reply.output_digest) digest)) [
              | inl e ↦ subst Alternates (ground arith) v
              | inr e ↦ absurd (ground arith)
            ]
      ]

  pub commit_conversation_reply-Alternates :
      (clock : CommitClock) (ids : NewIds) (c : CommitReplyCommand) (d : Chat)
      {r : CommitReplyResult} {d' : Chat}
      → commit_conversation_reply sha256 spell clock ids c d ≡ ok (r, d')
      → Alternates d
      → Alternates d'
  unfolding commit_conversation_reply
  commit_conversation_reply-Alternates clock ids c d h v =
      let (machine_id, e1, h1) = >>=-eq-ok (exact c.machine_id) _ h in
      let (u2, e2, h2) = >>=-eq-ok (valid_source c.source_message_id) _ h1 in
      let (u, e3, h3) = >>=-eq-ok (fail_if (c.fence == 0) stale_reply_claim) _ h2 in
      let ((candidate, digest), e4, h4) =
        >>=-eq-ok (normalize_reply_candidate sha256 (text_of spell c.source_message_id) c.candidate)
          _ h3 in
      let (space_id, e5, h5) = >>=-eq-ok (lock_active_reply_machine machine_id d) _ h4 in
      let (source_id, es, hs) = >>=-eq-ok (column c.source_message_id) _ h5 in
      let (j, e6, h6) =
        >>=-eq-ok (or_fail (lock_reply_for_commit source_id space_id d) stale_reply_claim) _ hs in
      let found = or_fail-some (lock_reply_for_commit source_id space_id d) stale_reply_claim e6 in
      commit_locked-Alternates clock ids machine_id c.fence j candidate digest d h6
        (Stands-key source_id d j (lock_reply_for_commit_inv source_id space_id d found)) v
