-- ===== src/Conversation/Sending.antt =====
-- SendConversationMessage of internal/postgres/conversation.go keeps a conversation in turn.
use carry.Prelude.{
  ℕ, ◌+◌, false, ◌∷◌, none, some, ◌≡◌, inl, inr, refl, subst, sym, arith, find, any, Bool-cases,
  Option-cases,
}
use carry.Result.{ok, or_fail, >>=-eq-ok, database, or_fail-some}
use carry.Text.{Text}
use carry.Work.{normalize_idempotency_key}
use carry.Conversation.Context.{author_member}
use carry.Conversation.Message.{normalize_text}
use carry.Conversation.Tables.{
  Chat, Conversation, Post, conversation_with, post_with, reply_with, unresolved,
}
use carry.Conversation.Posts.{
  find_conversation, ensure_conversation, lock_conversation, find_member_request,
  has_unresolved_reply, advance_message_head, create_member_message, create_reply_claim, new_reply,
  at_seq, requested,
}
use carry.Conversation.Send.{
  SendCommand, Message, identity, valid_space, admit_message, send_locked,
  send_conversation_message, private_digest, restore_message,
}
use carry.Execution.Retry.{column, require_membership}
use carry.Conversation.Numbered.{bump}
use carry.Conversation.Alternates.{Alternates, add_conversation}
use carry.Conversation.Asking.{member_speaks}

pub ensure_conversation-Alternates :
    (conversation_id space_id user_id : ℕ) (d : Chat) {k : Conversation} {d' : Chat}
    → ensure_conversation conversation_id space_id user_id d ≡ ok (k, d')
    → Alternates d
    → Alternates d'
unfolding ensure_conversation
ensure_conversation-Alternates conversation_id space_id user_id d h v =
    elim (Option-cases (find_conversation space_id user_id d)) [
      | inr (old, e) ↦ subst Alternates (ground arith) v
      | inl e ↦ subst Alternates (ground arith) (
          add_conversation d v
            (record {
              conversation_id = conversation_id;
              space_id = space_id;
              member_user_id = user_id;
              message_head_seq = 0;
            })
            (ground arith) refl)
    ]

pub advance_message_head_inv :
    (id : ℕ) (d : Chat) {seq : ℕ} {d' : Chat}
    → advance_message_head id d ≡ some (seq, d')
    → (k : Conversation) × (find (conversation_with id) d.conversations ≡ some k)
      × (seq ≡ k.message_head_seq + 1)
      × (d' ≡ record d { conversations = bump id d.conversations })
unfolding advance_message_head
advance_message_head_inv id d h =
    elim (Option-cases (find (conversation_with id) d.conversations)) [
      | inl n ↦ absurd (ground arith)
      | inr (k, n) ↦ (k, n, ground arith, ground arith)
    ]

-- The row that CreateConversationMemberMessage inserts.
abbrev pub member_post : ℕ → ℕ → ℕ → ℕ → ℕ → Text → Text → Text → Post
member_post now message_id id seq user_id text key digest = record {
  message_id = message_id;
  conversation_id = id;
  message_seq = seq;
  author = author_member;
  author_user_id = some user_id;
  text = text;
  member_request_id = some key;
  request_digest = some digest;
  reply_to_member_message_id = none;
  created_at = now;
}

create_member_message_inv :
    (now message_id id seq user_id : ℕ) (text key digest : Text) (d : Chat) {p : Post} {d' : Chat}
    → create_member_message now message_id id seq user_id text key digest d ≡ ok (p, d')
    → (any (post_with message_id) d.posts ≡ false)
      × (any (at_seq id seq) d.posts ≡ false)
      × (any (requested id key) d.posts ≡ false)
      × (p ≡ member_post now message_id id seq user_id text key digest)
      × (d' ≡ record d {
        posts = member_post now message_id id seq user_id text key digest ∷ d.posts;
      })
unfolding create_member_message
create_member_message_inv now message_id id seq user_id text key digest d h =
    (ground arith, ground arith, ground arith, ground arith, ground arith)

create_reply_claim_inv :
    (source_message_id id : ℕ) (d : Chat) {d' : Chat}
    → create_reply_claim source_message_id id d ≡ ok d'
    → (any (reply_with source_message_id) d.replies ≡ false)
      × (any (unresolved id) d.replies ≡ false)
      × (d' ≡ record d { replies = new_reply source_message_id id ∷ d.replies })
unfolding create_reply_claim
create_reply_claim_inv source_message_id id d h = (ground arith, ground arith, ground arith)

-- A message that was admitted: what was there, and what was written.
pub record Admitted (now message_id id user_id : ℕ) (text key digest : Text) (d : Chat)
    (m : Message) (d' : Chat) : Type 0 where
  pub conversation : Conversation
  pub found : find (conversation_with id) d.conversations ≡ some conversation
  pub fresh : any (post_with message_id) d.posts ≡ false
  pub free : any (at_seq id (conversation.message_head_seq + 1)) d.posts ≡ false
  pub unsent : any (requested id key) d.posts ≡ false
  pub unclaimed : any (reply_with message_id) d.replies ≡ false
  pub quiet : any (unresolved id) d.replies ≡ false
  pub told :
      m
      ≡ restore_message (
        member_post now message_id id (conversation.message_head_seq + 1) user_id text key digest,
        none,
      )
  pub after : d' ≡ record d {
    conversations = bump id d.conversations;
    posts =
        member_post now message_id id (conversation.message_head_seq + 1) user_id text key digest
        ∷ d.posts;
    replies = new_reply message_id id ∷ d.replies;
  }

-- What a new message writes.
pub admit_message_inv :
    (now message_id id user_id : ℕ) (text key digest : Text) (d : Chat) {m : Message} {d' : Chat}
    → admit_message now message_id id user_id text key digest d ≡ ok (m, d')
    → Admitted now message_id id user_id text key digest d m d'
unfolding admit_message
admit_message_inv now message_id id user_id text key digest d {m} {d'} h =
    let ((seq, d1), e1, h1) = >>=-eq-ok (or_fail (advance_message_head id d) database) _ h in
    let (k, hk, next, i1) =
      advance_message_head_inv id d (or_fail-some (advance_message_head id d) database e1) in
    let ((p, d2), e2, h2) =
      >>=-eq-ok (create_member_message now message_id id seq user_id text key digest d1) _ h1 in
    let (fresh, free, unsent, ip, i2) =
      create_member_message_inv now message_id id seq user_id text key digest d1 e2 in
    let (d3, e3, h3) = >>=-eq-ok (create_reply_claim p.message_id id d2) _ h2 in
    let (unclaimed, quiet, i3) = create_reply_claim_inv p.message_id id d2 e3 in
    record {
      conversation = k;
      found = hk;
      fresh = ground arith;
      free = ground arith;
      unsent = ground arith;
      unclaimed = ground arith;
      quiet = ground arith;
      told = ground arith;
      after = ground arith;
    }

admit_message-Alternates :
    (now message_id id user_id : ℕ) (text key digest : Text) (d : Chat) {m : Message} {d' : Chat}
    → admit_message now message_id id user_id text key digest d ≡ ok (m, d')
    → Alternates d
    → Alternates d'
admit_message-Alternates now message_id id user_id text key digest d h v =
    let a = admit_message_inv now message_id id user_id text key digest d h in
    subst Alternates (sym a.after) (
      member_speaks d v a.conversation
        (member_post now message_id id (a.conversation.message_head_seq + 1) user_id text key
          digest)
        a.found refl a.fresh a.free refl refl a.quiet a.unclaimed)

send_locked-Alternates :
    (now message_id id user_id : ℕ) (text key digest : Text) (d : Chat) {m : Message} {d' : Chat}
    → send_locked now message_id id user_id text key digest d ≡ ok (m, d')
    → Alternates d
    → Alternates d'
unfolding send_locked
send_locked-Alternates now message_id id user_id text key digest d {m} h v =
    elim (Option-cases (find_member_request id key d)) [
      | inr (p, e) ↦ subst Alternates (ground arith) v
      | inl e ↦ elim (Bool-cases (has_unresolved_reply id d)) [
        | inl b ↦ absurd (ground arith)
        | inr b ↦
            admit_message-Alternates now message_id id user_id text key digest d {m = m}
              (ground arith) v
      ]
    ]

module _ (sha256 : Text → Text) (spell : ℕ → Text) where
  pub send_conversation_message-Alternates :
      (now new_id message_id : ℕ) (c : SendCommand) (d : Chat) {m : Message} {d' : Chat}
      → send_conversation_message sha256 spell now new_id message_id c d ≡ ok (m, d')
      → Alternates d
      → Alternates d'
  unfolding send_conversation_message
  send_conversation_message-Alternates now new_id message_id c d h v =
      let (u1, e1, h1) = >>=-eq-ok (valid_space c.space_id) _ h in
      let (user_id, e2, h2) = >>=-eq-ok (identity c.member_user_id) _ h1 in
      let (text, e3, h3) = >>=-eq-ok (normalize_text c.text) _ h2 in
      let (key, e4, h4) = >>=-eq-ok (normalize_idempotency_key c.idempotency_key) _ h3 in
      let (space_id, es, hs) = >>=-eq-ok (column c.space_id) _ h4 in
      let (u, e5, h5) = >>=-eq-ok (require_membership space_id user_id d.db) _ hs in
      let ((k, d1), e6, h6) = >>=-eq-ok (ensure_conversation new_id space_id user_id d) _ h5 in
      let (l, e7, h7) =
        >>=-eq-ok (or_fail (lock_conversation k.conversation_id d1) database) _ h6 in
      send_locked-Alternates now message_id k.conversation_id user_id text key
        (private_digest sha256 spell c.space_id c.member_user_id text) d1 h7
        (ensure_conversation-Alternates new_id space_id user_id d e6 v)
