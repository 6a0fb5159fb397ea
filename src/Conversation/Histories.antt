-- ===== src/Conversation/Histories.antt =====
-- CommitConversationReply of internal/postgres/conversation_reply.go, and every history, move a
-- private conversation forward.
use carry.Execution.Retry.{column, text_of}
use carry.Prelude.{
  ℕ, ◌+◌, ◌||◌, not, Option, ◌≡◌, inl, inr, refl, subst, sym, arith, ◌==◌, Bool-cases, Option-cases,
}
use carry.Result.{ok, or_fail, fail_if, >>=-eq-ok, stale_reply_claim}
use carry.Text.{Text, text_eq}
use carry.Execution.Claim.{text_value}
use carry.Conversation.Message.{ReplyCandidate, normalize_reply_candidate}
use carry.Conversation.Tables.{Chat, is_some}
use carry.Conversation.Claims.{
  Joined, is_held, lock_reply_for_commit, carry_reply, completed, reply_lease_is_current,
}
use carry.Conversation.Reply.{exact, valid_source, lock_active_reply_machine}
use carry.Conversation.Alternates.{Alternates}
use carry.Conversation.Commit.{
  CommitReplyCommand, CommitReplyResult, NewIds, CommitClock, delegate, write_reply, commit_new,
  commit_locked, commit_conversation_reply,
}
use carry.Conversation.Replied.{delegate_inv, write_reply_inv}
use carry.Conversation.Talk.{
  Turn, Talk, sends, claims, renews, commits, elsewhere, here, next, Talk-Alternates,
}
use carry.Conversation.Forward.{Forward, Forward-refl, Forward-trans}
use carry.Conversation.Changes.{reply-Forward}
use carry.Conversation.Moves.{
  change_db-Forward, held-Onward, claim_conversation_reply-Forward,
  renew_conversation_reply-Forward, send_conversation_message-Forward,
}

module _ (sha256 : Text → Text) (spell : ℕ → Text) where
  write_reply-Forward :
      (clock : CommitClock) (ids : NewIds) (machine_id fence : ℕ) (j : Joined) (text digest : Text)
      (work_id : Option ℕ) (d : Chat) {r : CommitReplyResult} {d' : Chat}
      → write_reply sha256 spell clock ids machine_id fence j text digest work_id d ≡ ok (r, d')
      → Forward d d'
  write_reply-Forward clock ids machine_id fence j text digest work_id d h =
      let a = write_reply_inv sha256 spell clock ids machine_id fence j text digest work_id d h in
      let source_id = j.reply.source_message_id in
      subst (Forward d) (sym a.after) (
        reply-Forward d a.conversation
          (carry_reply clock.began ids.reply_id j.reply.conversation_id
            (a.conversation.message_head_seq + 1) text source_id)
          (is_held clock.finished source_id machine_id fence)
          (completed digest ids.reply_id work_id) a.found refl (λ i t e. absurd (ground arith))
          (λ c. refl)
          (λ c e found.
            held-Onward clock.finished source_id machine_id fence c _ e refl refl refl refl refl))

  commit_new-Forward :
      (clock : CommitClock) (ids : NewIds) (machine_id fence : ℕ) (j : Joined)
      (candidate : ReplyCandidate) (digest : Text) (d : Chat) {r : CommitReplyResult} {d' : Chat}
      → commit_new sha256 spell clock ids machine_id fence j candidate digest d ≡ ok (r, d')
      → Forward d d'
  unfolding commit_new
  commit_new-Forward clock ids machine_id fence j candidate digest d h =
      let newest = j.conversation.message_head_seq == j.source.message_seq in
      let (u, e1, h1) = >>=-eq-ok (fail_if (not newest) stale_reply_claim) _ h in
      let current = reply_lease_is_current clock.checked j.reply.source_message_id d in
      let (b, e2, h2) = >>=-eq-ok (or_fail current stale_reply_claim) _ h1 in
      let (w, e3, h3) = >>=-eq-ok (fail_if (not b) stale_reply_claim) _ h2 in
      let ((work_id, d1), e4, h4) =
        >>=-eq-ok (delegate sha256 spell clock ids j candidate.delegation_goal d) _ h3 in
      let same = delegate_inv sha256 spell clock ids j candidate.delegation_goal d e4 in
      Forward-trans (subst (Forward d) (sym same) (change_db-Forward d d1.db))
        (write_reply-Forward clock ids machine_id fence j candidate.reply digest work_id d1 h4)

  commit_locked-Forward :
      (clock : CommitClock) (ids : NewIds) (machine_id fence : ℕ) (j : Joined)
      (candidate : ReplyCandidate) (digest : Text) (d : Chat) {r : CommitReplyResult} {d' : Chat}
      → commit_locked sha256 spell clock ids machine_id fence j candidate digest d ≡ ok (r, d')
      → Forward d d'
  unfolding commit_locked
  commit_locked-Forward clock ids machine_id fence j candidate digest d h =
      let other =
        not (is_some machine_id j.reply.current_machine_id)
        || not (j.reply.current_fence == fence) in
      let (u, e1, h1) = >>=-eq-ok (fail_if other stale_reply_claim) _ h in
      elim (Option-cases j.reply.committed_reply_message_id) [
        | inl n ↦ commit_new-Forward clock ids machine_id fence j candidate digest d (rw n at h1)
        | inr (reply_id, n) ↦
            elim (Bool-cases (text_eq (text_value j.reply.output_digest) digest)) [
              | inl e ↦ subst (Forward d) (ground arith) (Forward-refl d)
              | inr e ↦ absurd (ground arith)
            ]
      ]

  commit_conversation_reply-Forward :
      (clock : CommitClock) (ids : NewIds) (c : CommitReplyCommand) (d : Chat)
      {r : CommitReplyResult} {d' : Chat}
      → commit_conversation_reply sha256 spell clock ids c d ≡ ok (r, d')
      → Forward d d'
  unfolding commit_conversation_reply
  commit_conversation_reply-Forward clock ids c d h =
      let (machine_id, e1, h1) = >>=-eq-ok (exact c.machine_id) _ h in
      let (u2, e2, h2) = >>=-eq-ok (valid_source c.source_message_id) _ h1 in
      let (u, e3, h3) = >>=-eq-ok (fail_if (c.fence == 0) stale_reply_claim) _ h2 in
      let ((candidate, digest), e4, h4) =
        >>=-eq-ok (normalize_reply_candidate sha256 (text_of spell c.source_message_id) c.candidate)
          _ h3 in
      let (space_id, e5, h5) = >>=-eq-ok (lock_active_reply_machine machine_id d) _ h4 in
      let (source_id, es, hs) = >>=-eq-ok (column c.source_message_id) _ h5 in
      let (j, e6, h6) =
        >>=-eq-ok (or_fail (lock_reply_for_commit source_id space_id d) stale_reply_claim) _ hs in
      commit_locked-Forward clock ids machine_id c.fence j candidate digest d h6

  Turn-Forward : {d e : Chat} → Turn sha256 spell d e → Alternates d → Forward d e
  Turn-Forward (sends now new_id message_id c m h) v =
      send_conversation_message-Forward sha256 spell now new_id message_id c _ h
  Turn-Forward (claims now assigned_at locked machine c h) v =
      claim_conversation_reply-Forward now assigned_at locked machine _ v h
  Turn-Forward (renews now c lease h) v = renew_conversation_reply-Forward now c _ h
  Turn-Forward (commits clock ids c r h) v = commit_conversation_reply-Forward clock ids c _ h
  Turn-Forward (elsewhere db e) v = subst (Forward _) (sym e) (change_db-Forward _ db)

  pub Talk-Forward : {d e : Chat} → Talk sha256 spell d e → Alternates d → Forward d e
  Talk-Forward {d} here v = Forward-refl d
  Talk-Forward (next p t) v =
      Forward-trans (Talk-Forward p v) (Turn-Forward t (Talk-Alternates sha256 spell p v))
