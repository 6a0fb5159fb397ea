-- ===== src/Conversation/Replied.antt =====
-- What CommitConversationReply of internal/postgres/conversation_reply.go writes for a reply that
-- nobody committed.
use carry.Prelude.{
  ℕ, ◌+◌, false, not, ◌∷◌, Option, none, some, ◌≡◌, inl, inr, refl, subst, sym, arith, ◌==◌, find,
  update, count, any, Option-cases,
}
use carry.Result.{
  ok, or_fail, fail_if, >>=-eq-ok, database, or_fail-some, fail_if-passed, stale_reply_claim,
}
use carry.Text.{Text}
use carry.Store.Works.{insert_work}
use carry.Execution.Retry.{uuid, principal}
use carry.Conversation.Tables.{Chat, Conversation, conversation_with, post_with}
use carry.Conversation.Posts.{advance_message_head, at_seq}
use carry.Conversation.Claims.{
  Joined, is_held, create_carry_reply, carry_reply, complete_reply, completed,
}
use carry.Conversation.Commit.{
  CommitReplyResult, NewIds, CommitClock, create_delegated_work, delegate, write_reply,
}
use carry.Works.Create.{create_digest}
use carry.Conversation.Numbered.{bump}
use carry.Conversation.Alternates.{Alternates}
use carry.Conversation.Turns.{carry_speaks}
use carry.Conversation.Sending.{advance_message_head_inv}
use carry.Conversation.Joins.{Stands}

create_carry_reply_inv :
    (now message_id id seq : ℕ) (text : Text) (source_id : ℕ) (d : Chat) {d' : Chat}
    → create_carry_reply now message_id id seq text source_id d ≡ ok d'
    → (any (post_with message_id) d.posts ≡ false)
      × (any (at_seq id seq) d.posts ≡ false)
      × (d' ≡ record d { posts = carry_reply now message_id id seq text source_id ∷ d.posts })
unfolding create_carry_reply
create_carry_reply_inv now message_id id seq text source_id d h =
    (ground arith, ground arith, ground arith)

-- What a commit wrote: the reply after its source, and the end of its claim.
pub record Replied (clock : CommitClock) (ids : NewIds) (machine_id fence : ℕ) (j : Joined)
    (text digest : Text) (work_id : Option ℕ) (d : Chat) (r : CommitReplyResult) (d' : Chat)
    : Type 0 where
  pub conversation : Conversation
  pub found : find (conversation_with j.reply.conversation_id) d.conversations ≡ some conversation
  pub newest : conversation.message_head_seq ≡ j.source.message_seq
  pub fresh : any (post_with ids.reply_id) d.posts ≡ false
  pub free :
      any (at_seq j.reply.conversation_id (conversation.message_head_seq + 1)) d.posts ≡ false
  pub held : count (is_held clock.finished j.reply.source_message_id machine_id fence) d.replies ≡ 1
  pub told : r ≡ record { reply_message_id = ids.reply_id; created_work_id = work_id }
  pub after : d' ≡ record d {
    conversations = bump j.reply.conversation_id d.conversations;
    posts =
        carry_reply clock.began ids.reply_id j.reply.conversation_id
          (conversation.message_head_seq + 1)
          text
          j.reply.source_message_id
        ∷ d.posts;
    replies =
        update
          (is_held clock.finished j.reply.source_message_id machine_id fence)
          (completed digest ids.reply_id work_id)
          d.replies;
  }

module _ (sha256 : Text → Text) (spell : ℕ → Text) where
  pub write_reply_inv :
      (clock : CommitClock) (ids : NewIds) (machine_id fence : ℕ) (j : Joined) (text digest : Text)
      (work_id : Option ℕ) (d : Chat) {r : CommitReplyResult} {d' : Chat}
      → write_reply sha256 spell clock ids machine_id fence j text digest work_id d ≡ ok (r, d')
      → Replied clock ids machine_id fence j text digest work_id d r d'
  unfolding write_reply complete_reply
  write_reply_inv clock ids machine_id fence j text digest work_id d {r} {d'} h =
      let id = j.reply.conversation_id in
      let source_id = j.reply.source_message_id in
      let ((seq, d1), e1, h1) = >>=-eq-ok (or_fail (advance_message_head id d) database) _ h in
      let (k, hk, next, i1) =
        advance_message_head_inv id d (or_fail-some (advance_message_head id d) database e1) in
      let (u, e2, h2) =
        >>=-eq-ok (fail_if (not (seq == j.source.message_seq + 1)) stale_reply_claim) _ h1 in
      let (d2, e3, h3) =
        >>=-eq-ok (create_carry_reply clock.began ids.reply_id id seq text source_id d1) _ h2 in
      let (fresh, free, i3) =
        create_carry_reply_inv clock.began ids.reply_id id seq text source_id d1 e3 in
      let passed = fail_if-passed (not (seq == j.source.message_seq + 1)) stale_reply_claim e2 in
      record {
        conversation = k;
        found = hk;
        newest = ground arith;
        fresh = ground arith;
        free = ground arith;
        held = ground arith;
        told = ground arith;
        after = ground arith;
      }

  pub write_reply-Alternates :
      (clock : CommitClock) (ids : NewIds) (machine_id fence : ℕ) (j : Joined) (text digest : Text)
      (work_id : Option ℕ) (d : Chat) {r : CommitReplyResult} {d' : Chat}
      → write_reply sha256 spell clock ids machine_id fence j text digest work_id d ≡ ok (r, d')
      → Stands j.reply.source_message_id d j
      → j.reply.committed_reply_message_id ≡ none
      → Alternates d
      → Alternates d'
  write_reply-Alternates clock ids machine_id fence j text digest work_id d h s still v =
      let a = write_reply_inv clock ids machine_id fence j text digest work_id d h in
      let source_id = j.reply.source_message_id in
      subst Alternates (sym a.after) (
        carry_speaks d v a.conversation
          (carry_reply clock.began ids.reply_id j.reply.conversation_id
            (a.conversation.message_head_seq + 1) text source_id)
          a.found refl a.fresh a.free (is_held clock.finished source_id machine_id fence)
          (completed digest ids.reply_id work_id) j.reply refl refl s.of_reply refl
          (ground (arith, still)) (λ x e. ground arith) (λ x. refl) (λ x. refl) (λ x. refl) a.held)

  -- The Work of a delegation leaves the conversation as it is.
  pub delegate_inv :
      (clock : CommitClock) (ids : NewIds) (j : Joined) (goal : Option Text) (d : Chat)
      {o : Option ℕ} {d' : Chat}
      → delegate sha256 spell clock ids j goal d ≡ ok (o, d')
      → d' ≡ record d { db = d'.db }
  unfolding delegate create_delegated_work
  delegate_inv clock ids j none d h = ground arith
  delegate_inv clock ids j (some goal) d h =
      let ((row, db'), e1, h1) =
        >>=-eq-ok
          (insert_work clock.began ids.work_id j.conversation.space_id goal
            j.conversation.member_user_id ids.work_key
            (create_digest sha256 spell (uuid j.conversation.space_id)
              (principal j.conversation.member_user_id) goal)
            d.db)
          _ h in
      elim (Option-cases row) [ inl n ↦ absurd (ground arith) | inr (w, n) ↦ ground arith ]
