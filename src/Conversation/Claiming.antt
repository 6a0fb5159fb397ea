-- ===== src/Conversation/Claiming.antt =====
-- What ClaimConversationReply of internal/postgres/conversation_reply.go leaves in the tables, and
-- what every later claim of the same reply gets.
use carry.Prelude.{
  ℕ, ◌+◌, ◌≤◌, Bool, true, List, some, ◌≡◌, inl, inr, refl, ap, subst, sym, ◌∙◌, arith, find, map,
  find-update, find_sound, find-mem, any-find, if◌then◌else◌, mem-same, update, ==-true,
}
use carry.Result.{Result, ok, err, or_fail, >>=-eq-ok, or_fail-some, no_reply_available}
use carry.Store.Tables.{is_null}
use carry.Execution.Retry.{Principal}
use carry.Conversation.Context.{ContextMessage, fixed_context_suffix}
use carry.Conversation.Tables.{
  Chat, Conversation, Post, ReplyRow, conversation_with, reply_with, post_with, by_member,
}
use carry.Conversation.Claims.{
  Joined, lock_reply_for_claim, assign_reply, assignable, assigned, list_fixed_context,
}
use carry.Conversation.Reply.{
  ReplyClaim, machine_identity, lock_active_reply_machine, load_fixed_reply_context, claim_locked,
  claim_conversation_reply, context_message, whole,
}
use carry.Conversation.Alternates.{Alternates}
use carry.Conversation.Joins.{Stands, lock_reply_for_claim_inv}
use carry.Conversation.Progress.{fixed_reply_context_range_inv, claim_locked_inv}

whole_inv :
    (ms : List ContextMessage) (r : Result (List ContextMessage)) {out : List ContextMessage}
    → whole ms r ≡ ok out
    → out ≡ ms
whole_inv ms (err e) h = cc
whole_inv ms (ok fixed) h = ground arith

load_fixed_reply_context_inv :
    (id first last : ℕ) (d : Chat) {ms : List ContextMessage}
    → load_fixed_reply_context id first last d ≡ ok ms
    → ms ≡ map context_message (list_fixed_context id first last d)
unfolding load_fixed_reply_context
load_fixed_reply_context_inv id first last d h =
    let messages = map context_message (list_fixed_context id first last d) in
    whole_inv messages (fixed_context_suffix messages) h

-- The source of a joined reply: a message of the member, which its conversation has reached, and
-- the newest one while the reply is open.
pub record Sourced (j : Joined) : Type 0 where
  pub same : j.source.conversation_id ≡ j.reply.conversation_id
  pub from_member : by_member j.source.author ≡ true
  pub reached : j.source.message_seq ≤ j.conversation.message_head_seq
  pub newest :
      is_null j.reply.committed_reply_message_id ≡ true
      → j.conversation.message_head_seq ≡ j.source.message_seq

pub Stands-Sourced :
    (source_id : ℕ) (d : Chat) (j : Joined) → Alternates d → Stands source_id d j → Sourced j
Stands-Sourced source_id d j v s =
    let id = j.reply.conversation_id in
    let key = j.reply.source_message_id in
    let here = find-mem (post_with key) d.posts s.of_source in
    let placed = v.numbers.placed j.source here in
    let a = v.asked j.reply (find-mem (reply_with source_id) d.replies s.of_reply) in
    let one : a.source ≡ j.source =
      mem-same (post_with key) d.posts (v.numbers.posts_once key) a.present here
        (ground (arith, a.id)) (find_sound (post_with key) d.posts s.of_source) in
    let same : j.source.conversation_id ≡ id =
      ap (λ (p : Post). p.conversation_id) (sym one) ∙ a.same in
    let there = find-mem (conversation_with id) d.conversations s.of_conversation in
    let known = find_sound (conversation_with id) d.conversations s.of_conversation in
    let two : placed.conversation ≡ j.conversation =
      mem-same (conversation_with id) d.conversations (v.numbers.conversations_once id)
        placed.present there (ground (arith, placed.same, same)) known in
    record {
      same = same;
      from_member = ap (λ (p : Post). by_member p.author) (sym one) ∙ a.from_member;
      reached = omega (arith, placed.reached, ap (λ (k : Conversation). k.message_head_seq) two);
      newest = λ h.
          a.newest j.conversation there (==-true j.conversation.conversation_id id known) h
          ∙ ap (λ (p : Post). p.message_seq) one;
    }

-- What a claim leaves: the reply under the fence of the claim, with the range of its context.
pub record Claimed (d : Chat) (c : ReplyClaim) (d1 : Chat) : Type 0 where
  pub before : ReplyRow
  pub was : find (reply_with c.source_message_id) d.replies ≡ some before
  pub row : ReplyRow
  pub found : find (reply_with c.source_message_id) d1.replies ≡ some row
  pub fence : row.current_fence ≡ c.fence
  pub higher : c.fence ≡ before.current_fence + 1
  pub first : ℕ
  pub last : ℕ
  pub start : row.context_start_seq ≡ some first
  pub end : row.context_end_seq ≡ some last
  pub kept :
      (n m : ℕ)
      → before.context_start_seq ≡ some n
      → before.context_end_seq ≡ some m
      → (first ≡ n) × (last ≡ m)
  pub conversation : Conversation
  pub present : find (conversation_with row.conversation_id) d1.conversations ≡ some conversation
  pub same : row.conversation_id ≡ before.conversation_id
  pub reached : last ≤ conversation.message_head_seq
  pub posts : d1.posts ≡ d.posts
  pub told : c.messages ≡ map context_message (list_fixed_context row.conversation_id first last d1)

if_true : {A : Type 0} (x y : A) {b : Bool} → b ≡ true → (if b then x else y) ≡ x
if_true x y h = rw h refl

claim_locked-Claimed :
    (now machine_id : ℕ) (j : Joined) (d : Chat) {c : ReplyClaim} {d1 : Chat}
    → Alternates d
    → Stands j.reply.source_message_id d j
    → claim_locked now machine_id j d ≡ ok (c, d1)
    → Claimed d c d1
unfolding assign_reply
claim_locked-Claimed now machine_id j d {c} {d1} v s h =
    let g = claim_locked_inv now machine_id j d h in
    let key = j.reply.source_message_id in
    let q = assignable now key j.reply.current_fence in
    let f = assigned now machine_id g.first g.last in
    let (last, recorded) = fixed_reply_context_range_inv j d g.range in
    let assigns = g.assigns in
    let moved = find-update (reply_with key) q f (λ x. refl) d.replies s.of_reply in
    let (x, hx, qx) =
      any-find (reply_with key) q (λ y e. ground arith) d.replies (v.replies_once key)
        (ground arith) in
    let one : some j.reply ≡ some x = sym s.of_reply ∙ hx in
    let same : x ≡ j.reply = ground arith in
    let hit : q j.reply ≡ true = subst (λ (o : ReplyRow). q o ≡ true) same qx in
    let after : d1 ≡ record d { replies = update q f d.replies } = ground arith in
    record {
      before = j.reply;
      was = subst (λ i. find (reply_with i) d.replies ≡ some j.reply) (sym g.source) s.of_reply;
      row = f j.reply;
      found =
          subst (λ i. find (reply_with i) d1.replies ≡ some (f j.reply)) (sym g.source)
            (subst (λ (x : Chat). find (reply_with key) x.replies ≡ some (f j.reply)) (sym after)
              (moved ∙ ap some (if_true (f j.reply) j.reply hit)));
      fence = ground arith;
      higher = ground arith;
      first = g.first;
      last = g.last;
      start = refl;
      end = refl;
      kept = λ n m a b. elim recorded [
        | inl (x, y) ↦ absurd (cc)
        | inr (x, y) ↦ (ground arith, ground arith)
      ];
      conversation = j.conversation;
      present =
          subst
            (λ (x : Chat).
              find (conversation_with j.reply.conversation_id) x.conversations
              ≡ some j.conversation)
            (sym after) s.of_conversation;
      same = refl;
      reached = let r = (Stands-Sourced key d j v s).reached in ground arith;
      posts = ap (λ (x : Chat). x.posts) after;
      told = load_fixed_reply_context_inv j.reply.conversation_id g.first g.last d1 g.loads;
    }

pub claim_conversation_reply-Claimed :
    (now assigned_at : ℕ) (locked : ℕ → Bool) (machine : Principal) (d : Chat) {c : ReplyClaim}
    {d1 : Chat}
    → Alternates d
    → claim_conversation_reply now assigned_at locked machine d ≡ ok (c, d1)
    → Claimed d c d1
unfolding claim_conversation_reply
claim_conversation_reply-Claimed now assigned_at locked machine d v h =
    let (machine_id, e1, h1) = >>=-eq-ok (machine_identity machine) _ h in
    let (space_id, e2, h2) = >>=-eq-ok (lock_active_reply_machine machine_id d) _ h1 in
    let lock = lock_reply_for_claim now locked space_id d in
    let (j, e3, h3) = >>=-eq-ok (or_fail lock no_reply_available) _ h2 in
    let (s, free, unlocked, joined) =
      lock_reply_for_claim_inv now locked space_id d v (or_fail-some lock no_reply_available e3) in
    claim_locked-Claimed assigned_at machine_id j d v s h3
