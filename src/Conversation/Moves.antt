-- ===== src/Conversation/Moves.antt =====
-- SendConversationMessage, ClaimConversationReply and RenewConversationReply of
-- internal/postgres/conversation.go and conversation_reply.go move a private conversation forward.
use carry.Prelude.{
  ℕ, ◌+◌, Bool, true, false, some, ◌≡◌, inl, inr, refl, subst, sym, ◌∙◌, arith, ◌==◌, any,
  Bool-cases, Option-cases,
}
use carry.Result.{
  ok, or_fail, fail_if, >>=-eq-ok, database, or_fail-some, stale_reply_claim, no_reply_available,
}
use carry.Text.{Text, text_eq_iff}
use carry.Work.{normalize_idempotency_key}
use carry.Store.Tables.{Db, lease_interval}
use carry.Execution.Retry.{column, Principal, require_membership}
use carry.Conversation.Message.{normalize_text}
use carry.Conversation.Tables.{Chat, Conversation, ReplyRow}
use carry.Conversation.Posts.{
  requested, find_conversation, ensure_conversation, lock_conversation, find_member_request,
  has_unresolved_reply,
}
use carry.Conversation.Claims.{
  lock_reply_for_claim, lock_reply_for_renew, extend_reply_lease, is_held,
}
use carry.Conversation.Send.{
  SendCommand, Message, identity, valid_space, admit_message, send_locked,
  send_conversation_message, private_digest,
}
use carry.Conversation.Reply.{
  ReplyClaim, RenewReplyCommand, machine_identity, exact, valid_source, lock_active_reply_machine,
  claim_conversation_reply, renew_conversation_reply,
}
use carry.Conversation.Alternates.{Alternates}
use carry.Conversation.Sending.{admit_message_inv, member_post}
use carry.Conversation.Joins.{lock_reply_for_claim_inv}
use carry.Conversation.Progress.{claim_locked-Forward}
use carry.Conversation.Forward.{Onward, Onward-refl, Forward, Forward-refl, Forward-trans}
use carry.Conversation.Changes.{replies-Forward, conversation-Forward, message-Forward}

pub change_db-Forward : (d : Chat) (db : Db) → Forward d (record d { db = db })
change_db-Forward d db = record {
  reply_kept = λ id c h. (c, h, Onward-refl c);
  head_kept = λ id k h. (k, h, omega arith);
  context_kept = λ id first last k h l. refl;
  member_kept = λ s u k h. (k, h, refl);
  request_kept = λ id key p h. h;
}

-- A reply that is held is not committed, so that anything but its key may change with it.
pub held-Onward :
    (now source_id machine_id fence : ℕ) (c e : ReplyRow)
    → is_held now source_id machine_id fence c ≡ true
    → e.source_message_id ≡ c.source_message_id
    → e.conversation_id ≡ c.conversation_id
    → e.current_fence ≡ c.current_fence
    → e.context_start_seq ≡ c.context_start_seq
    → e.context_end_seq ≡ c.context_end_seq
    → Onward c e
held-Onward now source_id machine_id fence c e held source conversation fence_same start end =
    record {
      source = source;
      conversation = conversation;
      fence = omega arith;
      final = λ h. absurd (ground arith);
      start = λ n h. start ∙ h;
      end = λ n h. end ∙ h;
    }

extend_reply_lease-Forward :
    (now source_id machine_id fence : ℕ) (d : Chat) {lease : ℕ} {d' : Chat}
    → extend_reply_lease now source_id machine_id fence d ≡ some (lease, d')
    → Forward d d'
unfolding extend_reply_lease
extend_reply_lease-Forward now source_id machine_id fence d h = subst (Forward d) (ground arith) (
    replies-Forward d (is_held now source_id machine_id fence)
      (λ c. record c { lease_expires_at = some (now + lease_interval) }) (λ c. refl)
      (λ c e found. held-Onward now source_id machine_id fence c _ e refl refl refl refl refl))

pub claim_conversation_reply-Forward :
    (now assigned_at : ℕ) (locked : ℕ → Bool) (machine : Principal) (d : Chat) {c : ReplyClaim}
    {d' : Chat}
    → Alternates d
    → claim_conversation_reply now assigned_at locked machine d ≡ ok (c, d')
    → Forward d d'
unfolding claim_conversation_reply
claim_conversation_reply-Forward now assigned_at locked machine d v h =
    let (machine_id, e1, h1) = >>=-eq-ok (machine_identity machine) _ h in
    let (space_id, e2, h2) = >>=-eq-ok (lock_active_reply_machine machine_id d) _ h1 in
    let (j, e3, h3) =
      >>=-eq-ok (or_fail (lock_reply_for_claim now locked space_id d) no_reply_available) _ h2 in
    claim_locked-Forward assigned_at machine_id j d h3
      (lock_reply_for_claim_inv now locked space_id d v
        (or_fail-some (lock_reply_for_claim now locked space_id d) no_reply_available e3)).0

pub renew_conversation_reply-Forward :
    (now : ℕ) (c : RenewReplyCommand) (d : Chat) {lease : ℕ} {d' : Chat}
    → renew_conversation_reply now c d ≡ ok (lease, d')
    → Forward d d'
unfolding renew_conversation_reply
renew_conversation_reply-Forward now c d h =
    let (machine_id, e1, h1) = >>=-eq-ok (exact c.machine_id) _ h in
    let (u2, e2, h2) = >>=-eq-ok (valid_source c.source_message_id) _ h1 in
    let (u, e3, h3) = >>=-eq-ok (fail_if (c.fence == 0) stale_reply_claim) _ h2 in
    let (space_id, e4, h4) = >>=-eq-ok (lock_active_reply_machine machine_id d) _ h3 in
    let (source_id, es, hs) = >>=-eq-ok (column c.source_message_id) _ h4 in
    let (id, e5, h5) =
      >>=-eq-ok
        (or_fail (lock_reply_for_renew now source_id space_id machine_id c.fence d)
          stale_reply_claim)
        _ hs in
    extend_reply_lease-Forward now source_id machine_id c.fence d
      (or_fail-some (extend_reply_lease now source_id machine_id c.fence d) stale_reply_claim h5)

ensure_conversation-Forward :
    (conversation_id space_id user_id : ℕ) (d : Chat) {k : Conversation} {d' : Chat}
    → ensure_conversation conversation_id space_id user_id d ≡ ok (k, d')
    → Forward d d'
unfolding ensure_conversation find_conversation
ensure_conversation-Forward conversation_id space_id user_id d h =
    elim (Option-cases (find_conversation space_id user_id d)) [
      | inr (old, e) ↦ subst (Forward d) (ground arith) (Forward-refl d)
      | inl e ↦ subst (Forward d) (ground arith) (
          conversation-Forward d
            (record {
              conversation_id = conversation_id;
              space_id = space_id;
              member_user_id = user_id;
              message_head_seq = 0;
            })
            (ground arith) e)
    ]

admit_message-Forward :
    (now message_id id user_id : ℕ) (text key digest : Text) (d : Chat) {m : Message} {d' : Chat}
    → admit_message now message_id id user_id text key digest d ≡ ok (m, d')
    → Forward d d'
admit_message-Forward now message_id id user_id text key digest d h =
    let a = admit_message_inv now message_id id user_id text key digest d h in
    subst (Forward d) (sym a.after) (
      message-Forward d a.conversation
        (member_post now message_id id (a.conversation.message_head_seq + 1) user_id text key
          digest)
        a.found refl
        (λ i t e.
          let same : key ≡ t = (text_eq_iff key t).0 (ground arith) in
          let there : id ≡ i = ground arith in
          subst (λ z. any (requested i z) d.posts ≡ false) same
            (subst (λ z. any (requested z key) d.posts ≡ false) there a.unsent))
        a.unclaimed)

send_locked-Forward :
    (now message_id id user_id : ℕ) (text key digest : Text) (d : Chat) {m : Message} {d' : Chat}
    → send_locked now message_id id user_id text key digest d ≡ ok (m, d')
    → Forward d d'
unfolding send_locked
send_locked-Forward now message_id id user_id text key digest d {m} h =
    elim (Option-cases (find_member_request id key d)) [
      | inr (p, e) ↦ subst (Forward d) (ground arith) (Forward-refl d)
      | inl e ↦ elim (Bool-cases (has_unresolved_reply id d)) [
        | inl b ↦ absurd (ground arith)
        | inr b ↦
            admit_message-Forward now message_id id user_id text key digest d {m = m} (ground arith)
      ]
    ]

module _ (sha256 : Text → Text) (spell : ℕ → Text) where
  pub send_conversation_message-Forward :
      (now new_id message_id : ℕ) (c : SendCommand) (d : Chat) {m : Message} {d' : Chat}
      → send_conversation_message sha256 spell now new_id message_id c d ≡ ok (m, d')
      → Forward d d'
  unfolding send_conversation_message
  send_conversation_message-Forward now new_id message_id c d h =
      let (u1, e1, h1) = >>=-eq-ok (valid_space c.space_id) _ h in
      let (user_id, e2, h2) = >>=-eq-ok (identity c.member_user_id) _ h1 in
      let (text, e3, h3) = >>=-eq-ok (normalize_text c.text) _ h2 in
      let (key, e4, h4) = >>=-eq-ok (normalize_idempotency_key c.idempotency_key) _ h3 in
      let (space_id, es, hs) = >>=-eq-ok (column c.space_id) _ h4 in
      let (u, e5, h5) = >>=-eq-ok (require_membership space_id user_id d.db) _ hs in
      let ((k, d1), e6, h6) = >>=-eq-ok (ensure_conversation new_id space_id user_id d) _ h5 in
      let (l, e7, h7) =
        >>=-eq-ok (or_fail (lock_conversation k.conversation_id d1) database) _ h6 in
      Forward-trans (ensure_conversation-Forward new_id space_id user_id d e6) (
        send_locked-Forward now message_id k.conversation_id user_id text key
          (private_digest sha256 spell c.space_id c.member_user_id text) d1 h7)
