-- ===== src/Conversation/Talk.antt =====
-- The histories of the private conversations: the transactions of internal/postgres/conversation.go
-- and conversation_reply.go that succeed, and those of other components, which change no row of a
-- conversation.
use carry.Prelude.{
  ℕ, ◌%◌, ◌≤◌, Bool, true, none, some, ◌≡◌, ◌==◌, subst, sym, arith, [], count, find, false, any,
  ap, ◌∙◌, find-mem, find_sound, mem-same, mem-count, ==-true, ==_refl,
}
use carry.Result.{ok}
use carry.Text.{Text}
use carry.Store.Tables.{Db}
use carry.Execution.Retry.{Principal}
use carry.Conversation.Tables.{
  Chat, Conversation, Post, ReplyRow, by_member, unresolved, conversation_with, post_with,
  reply_with,
}
use carry.Conversation.Claims.{replies_to}
use carry.Conversation.Posts.{in_conversation, at_seq}
use carry.Conversation.Send.{SendCommand, Message, send_conversation_message}
use carry.Conversation.Reply.{
  ReplyClaim, RenewReplyCommand, claim_conversation_reply, renew_conversation_reply,
}
use carry.Conversation.Commit.{
  CommitReplyCommand, CommitReplyResult, NewIds, CommitClock, commit_conversation_reply,
}
use carry.Conversation.Alternates.{Alternates, empty-Alternates, change_db}
use carry.Conversation.Sending.{send_conversation_message-Alternates}
use carry.Conversation.Replying.{
  claim_conversation_reply-Alternates, renew_conversation_reply-Alternates,
}
use carry.Conversation.Committing.{commit_conversation_reply-Alternates}

module _ (sha256 : Text → Text) (spell : ℕ → Text) where
  pub data Turn (d e : Chat) : Type 0 where
    sends :
        (now new_id message_id : ℕ) (c : SendCommand) (m : Message)
        → send_conversation_message sha256 spell now new_id message_id c d ≡ ok (m, e)
        → Turn d e
    claims :
        (now assigned_at : ℕ) (locked : ℕ → Bool) (machine : Principal) (c : ReplyClaim)
        → claim_conversation_reply now assigned_at locked machine d ≡ ok (c, e)
        → Turn d e
    renews :
        (now : ℕ) (c : RenewReplyCommand) (lease : ℕ)
        → renew_conversation_reply now c d ≡ ok (lease, e)
        → Turn d e
    commits :
        (clock : CommitClock) (ids : NewIds) (c : CommitReplyCommand) (r : CommitReplyResult)
        → commit_conversation_reply sha256 spell clock ids c d ≡ ok (r, e)
        → Turn d e
    elsewhere : (db : Db) → e ≡ record d { db = db } → Turn d e

  -- A history from one state of the tables to another.
  pub data Talk (d : Chat) : Chat → Type 0 where
    here : Talk d d
    next : {e f : Chat} → Talk d e → Turn e f → Talk d f

  pub Turn-Alternates : {d e : Chat} → Turn d e → Alternates d → Alternates e
  Turn-Alternates (sends now new_id message_id c m h) v =
      send_conversation_message-Alternates sha256 spell now new_id message_id c _ h v
  Turn-Alternates (claims now assigned_at locked machine c h) v =
      claim_conversation_reply-Alternates now assigned_at locked machine _ h v
  Turn-Alternates (renews now c lease h) v = renew_conversation_reply-Alternates now c _ h v
  Turn-Alternates (commits clock ids c r h) v =
      commit_conversation_reply-Alternates sha256 spell clock ids c _ h v
  Turn-Alternates (elsewhere db e) v = subst Alternates (sym e) (change_db _ v db)

  pub Talk-Alternates : {d e : Chat} → Talk d e → Alternates d → Alternates e
  Talk-Alternates here v = v
  Talk-Alternates (next p t) v = Turn-Alternates t (Talk-Alternates p v)

  -- In every state that a history reaches from tables without a conversation, the messages of a
  -- conversation are numbered from 1 to its head, one message for each number; the member has written
  -- the odd ones and Carry the even ones; and a reply is open if and only if the member has written the
  -- newest message, one reply only.
  pub Talk-takes_turns :
      (db : Db) {e : Chat}
      → Talk (record { db = db; conversations = []; posts = []; replies = [] }) e
      → (id post_id : ℕ) {k : Conversation} {p : Post}
      → find (conversation_with id) e.conversations ≡ some k
      → find (post_with post_id) e.posts ≡ some p
      → p.conversation_id ≡ id
      → (count (in_conversation id) e.posts ≡ k.message_head_seq)
        × (count (unresolved id) e.replies ≡ k.message_head_seq % 2)
        × (1 ≤ p.message_seq)
        × (p.message_seq ≤ k.message_head_seq)
        × (count (at_seq id p.message_seq) e.posts ≡ 1)
        × (by_member p.author ≡ (p.message_seq % 2 == 1))
  Talk-takes_turns db {e} t id post_id {k} {p} hk hp same =
      let v = Talk-Alternates t (empty-Alternates db) in
      let m = find-mem (conversation_with id) e.conversations hk in
      let here = find-mem (post_with post_id) e.posts hp in
      let known = find_sound (conversation_with id) e.conversations hk in
      let key : k.conversation_id ≡ id = ==-true k.conversation_id id known in
      let a = v.numbers.placed p here in
      let one =
        mem-same (conversation_with id) e.conversations (v.numbers.conversations_once id) a.present
          m (ground (arith, a.same, same)) known in
      (
        subst (λ i. count (in_conversation i) e.posts ≡ k.message_head_seq) key
            (v.numbers.full k m),
        subst (λ i. count (unresolved i) e.replies ≡ k.message_head_seq % 2) key (v.waiting k m),
        a.positive,
        omega (arith, a.reached, ap (λ (z : Conversation). z.message_head_seq) one),
        omega (
          arith,
          v.numbers.seqs_once id p.message_seq,
          mem-count (at_seq id p.message_seq) e.posts here
              (ground (arith, same, ==_refl id, ==_refl p.message_seq)),
        ),
        a.turn,
      )

  -- In every such state a reply that nobody has committed is asked for by the newest message of its
  -- conversation, which the member has written and which no message replies to.
  pub Talk-waits :
      (db : Db) {e : Chat}
      → Talk (record { db = db; conversations = []; posts = []; replies = [] }) e
      → (source_id : ℕ) {c : ReplyRow} {k : Conversation} {p : Post}
      → find (reply_with source_id) e.replies ≡ some c
      → c.committed_reply_message_id ≡ none
      → find (conversation_with c.conversation_id) e.conversations ≡ some k
      → find (post_with source_id) e.posts ≡ some p
      → (by_member p.author ≡ true)
        × (p.conversation_id ≡ c.conversation_id)
        × (p.message_seq ≡ k.message_head_seq)
        × (any (replies_to source_id) e.posts ≡ false)
  Talk-waits db {e} t source_id {c} {k} {p} hc still hk hp =
      let v = Talk-Alternates t (empty-Alternates db) in
      let a = v.asked c (find-mem (reply_with source_id) e.replies hc) in
      let known = find_sound (conversation_with c.conversation_id) e.conversations hk in
      let key : c.source_message_id ≡ source_id =
        ==-true c.source_message_id source_id (find_sound (reply_with source_id) e.replies hc) in
      let one : a.source ≡ p =
        mem-same (post_with source_id) e.posts (v.numbers.posts_once source_id) a.present
          (find-mem (post_with source_id) e.posts hp) (ground (arith, a.id, key))
          (find_sound (post_with source_id) e.posts hp) in
      (
        ap (λ (z : Post). by_member z.author) (sym one) ∙ a.from_member,
        ap (λ (z : Post). z.conversation_id) (sym one) ∙ a.same,
        ap (λ (z : Post). z.message_seq) (sym one)
            ∙ sym (
                a.newest k (find-mem (conversation_with c.conversation_id) e.conversations hk)
                  (==-true k.conversation_id c.conversation_id known) (ground (arith, still))),
        subst (λ i. any (replies_to i) e.posts ≡ false) key (a.unanswered (ground (arith, still))),
      )
