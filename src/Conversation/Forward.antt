-- ===== src/Conversation/Forward.antt =====
-- What the transactions of internal/postgres/conversation.go and conversation_reply.go keep: a
-- reply under its key, with a fence that never falls, the context that its first claim recorded and
-- a result that stays, the heads, and the messages up to a head.
use carry.Prelude.{ℕ, ◌≤◌, false, some, ◌≡◌, refl, subst, sym, ◌∙◌, arith, find, select}
use carry.Text.{Text}
use carry.Store.Tables.{is_null}
use carry.Conversation.Tables.{Chat, Conversation, Post, ReplyRow, conversation_with, reply_with}
use carry.Conversation.Posts.{of_member, requested}
use carry.Conversation.Claims.{in_context}

-- One reply, before and after.
pub record Onward (c e : ReplyRow) : Type 0 where
  pub source : e.source_message_id ≡ c.source_message_id
  pub conversation : e.conversation_id ≡ c.conversation_id
  pub fence : c.current_fence ≤ e.current_fence
  pub final : is_null c.committed_reply_message_id ≡ false → e ≡ c
  pub start : (n : ℕ) → c.context_start_seq ≡ some n → e.context_start_seq ≡ some n
  pub end : (n : ℕ) → c.context_end_seq ≡ some n → e.context_end_seq ≡ some n

pub Onward-refl : (c : ReplyRow) → Onward c c
Onward-refl c = record {
  source = refl;
  conversation = refl;
  fence = omega arith;
  final = λ h. refl;
  start = λ n h. h;
  end = λ n h. h;
}

pub Onward-trans : {c e f : ReplyRow} → Onward c e → Onward e f → Onward c f
Onward-trans {c} {e} {f} u v = record {
  source = v.source ∙ u.source;
  conversation = v.conversation ∙ u.conversation;
  fence = omega (arith, u.fence, v.fence);
  final = λ h.
      let same = u.final h in
      v.final (subst (λ (x : ReplyRow). is_null x.committed_reply_message_id ≡ false) (sym same) h)
      ∙ same;
  start = λ n h. v.start n (u.start n h);
  end = λ n h. v.end n (u.end n h);
}

pub record Forward (d e : Chat) : Type 0 where
  pub reply_kept :
      (id : ℕ) (c : ReplyRow)
      → find (reply_with id) d.replies ≡ some c
      → (x : ReplyRow) × (find (reply_with id) e.replies ≡ some x) × Onward c x
  pub head_kept :
      (id : ℕ) (k : Conversation)
      → find (conversation_with id) d.conversations ≡ some k
      → (x : Conversation) × (find (conversation_with id) e.conversations ≡ some x)
        × (k.message_head_seq ≤ x.message_head_seq)
  pub context_kept :
      (id first last : ℕ) (k : Conversation)
      → find (conversation_with id) d.conversations ≡ some k
      → last ≤ k.message_head_seq
      → select (in_context id first last) e.posts ≡ select (in_context id first last) d.posts
  pub member_kept :
      (space_id user_id : ℕ) (k : Conversation)
      → find (of_member space_id user_id) d.conversations ≡ some k
      → (x : Conversation) × (find (of_member space_id user_id) e.conversations ≡ some x)
        × (x.conversation_id ≡ k.conversation_id)
  pub request_kept :
      (id : ℕ) (key : Text) (p : Post)
      → find (requested id key) d.posts ≡ some p
      → find (requested id key) e.posts ≡ some p

pub Forward-refl : (d : Chat) → Forward d d
Forward-refl d = record {
  reply_kept = λ id c h. (c, h, Onward-refl c);
  head_kept = λ id k h. (k, h, omega arith);
  context_kept = λ id first last k h l. refl;
  member_kept = λ s u k h. (k, h, refl);
  request_kept = λ id key p h. h;
}

pub Forward-trans : {d e f : Chat} → Forward d e → Forward e f → Forward d f
Forward-trans {d} {e} {f} u v = record {
  reply_kept = λ id c h.
      let (x, hx, a) = u.reply_kept id c h in
      let (y, hy, b) = v.reply_kept id x hx in (y, hy, Onward-trans a b);
  head_kept = λ id k h.
      let (x, hx, a) = u.head_kept id k h in
      let (y, hy, b) = v.head_kept id x hx in (y, hy, omega arith);
  context_kept = λ id first last k h l.
      let (x, hx, a) = u.head_kept id k h in
      v.context_kept id first last x hx (omega arith) ∙ u.context_kept id first last k h l;
  member_kept = λ s w k h.
      let (x, hx, a) = u.member_kept s w k h in
      let (y, hy, b) = v.member_kept s w x hx in (y, hy, b ∙ a);
  request_kept = λ id key p h. v.request_kept id key p (u.request_kept id key p h);
}
