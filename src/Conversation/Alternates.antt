-- ===== src/Conversation/Alternates.antt =====
-- The turns of a private conversation: the claims of replies beside the numbers of the messages,
-- under the changes that internal/postgres/dbsqlc/conversation.sql.go makes.
use carry.Prelude.{
  ℕ, ◌%◌, ◌≤◌, Bool, true, false, List, ◌∷◌, [], some, ◌≡◌, inl, inr, ap, subst, sym, arith, update,
  count, any, count-any, count-update-le, mem-cases, mem-update, mem-any, count-stay, count-none,
  Memᴰ,
}
use carry.Store.Tables.{Db, is_null}
use carry.Conversation.Tables.{
  Chat, Conversation, Post, ReplyRow, conversation_with, post_with, reply_with, by_member,
  unresolved,
}
use carry.Conversation.Posts.{in_conversation}
use carry.Conversation.Claims.{replies_to}
use carry.Conversation.Numbered.{Numbered}

-- A reply is asked for by a message of the member; one that nobody committed is asked for by the
-- newest message of its conversation.
pub record Asked (ks : List Conversation) (ps : List Post) (c : ReplyRow) : Type 0 where
  pub source : Post
  pub present : Memᴰ source ps
  pub id : source.message_id ≡ c.source_message_id
  pub same : source.conversation_id ≡ c.conversation_id
  pub from_member : by_member source.author ≡ true
  pub newest :
      (k : Conversation)
      → Memᴰ k ks
      → k.conversation_id ≡ c.conversation_id
      → is_null c.committed_reply_message_id ≡ true
      → k.message_head_seq ≡ source.message_seq
  pub unanswered :
      is_null c.committed_reply_message_id ≡ true → any (replies_to c.source_message_id) ps ≡ false

pub record Alternates (d : Chat) : Type 0 where
  pub numbers : Numbered d.conversations d.posts
  pub replies_once : (id : ℕ) → count (reply_with id) d.replies ≤ 1
  pub waiting :
      (k : Conversation)
      → Memᴰ k d.conversations
      → count (unresolved k.conversation_id) d.replies ≡ k.message_head_seq % 2
  pub targets :
      (p : Post)
      → Memᴰ p d.posts
      → (id : ℕ) → p.reply_to_member_message_id ≡ some id
      → any (post_with id) d.posts ≡ true
  pub asked : (c : ReplyRow) → Memᴰ c d.replies → Asked d.conversations d.posts c

-- Tables without a conversation are in turn.
pub empty-Alternates :
    (db : Db) → Alternates (record { db = db; conversations = []; posts = []; replies = [] })
empty-Alternates db = record {
  numbers = record {
    conversations_once = λ id. omega arith;
    posts_once = λ id. omega arith;
    seqs_once = λ id seq. omega arith;
    full = λ k m. elim m [ ];
    placed = λ p m. elim m [ ];
  };
  replies_once = λ id. omega arith;
  waiting = λ k m. elim m [ ];
  targets = λ p m. elim m [ ];
  asked = λ c m. elim m [ ];
}

module _ (d : Chat) (v : Alternates d) where
  -- The tables of Work execution do not matter.
  pub change_db : (db : Db) → Alternates (record d { db = db })
  change_db db = record {
    numbers = v.numbers;
    replies_once = v.replies_once;
    waiting = v.waiting;
    targets = v.targets;
    asked = v.asked;
  }

  -- A claim of a reply, which keeps its source and is not committed.
  pub keep_replies :
      (q : ReplyRow → Bool) (f : ReplyRow → ReplyRow)
      → ((c : ReplyRow) → (f c).source_message_id ≡ c.source_message_id)
      → ((c : ReplyRow) → (f c).conversation_id ≡ c.conversation_id)
      → ((c : ReplyRow) → (f c).committed_reply_message_id ≡ c.committed_reply_message_id)
      → Alternates (record d { replies = update q f d.replies })
  keep_replies q f source conversation committed = record {
    numbers = v.numbers;
    replies_once = λ id. omega (
      arith,
      v.replies_once id,
      count-update-le (reply_with id) q f (λ c e h. ground (arith, source c)) d.replies,
    );
    waiting = λ k m. omega (
      arith,
      v.waiting k m,
      count-stay (unresolved k.conversation_id) q f d.replies
          (λ c n e. ground (arith, conversation c, committed c)),
    );
    targets = v.targets;
    asked = λ c m.
        let (x, n, e) = mem-update q f d.replies m in
        let a = v.asked x n in
        subst (Asked d.conversations d.posts) (sym e) (record {
          source = a.source;
          present = a.present;
          id = ground (arith, a.id, source x);
          same = ground (arith, a.same, conversation x);
          from_member = a.from_member;
          newest = λ k h i o.
              a.newest k h (ground (arith, conversation x)) (ground (arith, committed x));
          unanswered = λ o. ground (arith, a.unanswered, source x, committed x);
        });
  }

  unasked :
      (id : ℕ)
      → any (conversation_with id) d.conversations ≡ false
      → (c : ReplyRow) → Memᴰ c d.replies
      → unresolved id c ≡ false
  unasked id fresh c m =
      let a = v.asked c m in
      let p = v.numbers.placed a.source a.present in
      let there = mem-any (conversation_with id) d.conversations p.present in
      ground (arith, there, a.same, p.same)

  unposted :
      (id : ℕ)
      → any (conversation_with id) d.conversations ≡ false
      → (p : Post) → Memᴰ p d.posts
      → in_conversation id p ≡ false
  unposted id fresh p m =
      let a = v.numbers.placed p m in
      let there = mem-any (conversation_with id) d.conversations a.present in
      ground (arith, there, a.same)

  numbers_added :
      (k : Conversation)
      → any (conversation_with k.conversation_id) d.conversations ≡ false
      → k.message_head_seq ≡ 0
      → Numbered (k ∷ d.conversations) d.posts
  numbers_added k fresh start = record {
    conversations_once = λ id. ground (
      arith,
      v.numbers.conversations_once id,
      ap (λ i. count (conversation_with i) d.conversations) {x = k.conversation_id} {y = id},
      count-any (conversation_with k.conversation_id) d.conversations fresh,
    );
    posts_once = v.numbers.posts_once;
    seqs_once = v.numbers.seqs_once;
    full = λ x m. elim (mem-cases m) [
      | inl e ↦
          subst
            (λ (z : Conversation).
              count (in_conversation z.conversation_id) d.posts ≡ z.message_head_seq)
            (sym e)
            (omega (
              arith,
              start,
              count-none (in_conversation k.conversation_id) d.posts
                  (unposted k.conversation_id fresh),
            ))
      | inr n ↦ v.numbers.full x n
    ];
    placed = λ p m.
        let a = v.numbers.placed p m in
        record {
          conversation = a.conversation;
          present = Memᴰ.tail a.present;
          same = a.same;
          positive = a.positive;
          reached = a.reached;
          turn = a.turn;
        };
  }

  -- A new conversation, under a new uuid.
  pub add_conversation :
      (k : Conversation)
      → any (conversation_with k.conversation_id) d.conversations ≡ false
      → k.message_head_seq ≡ 0
      → Alternates (record d { conversations = k ∷ d.conversations })
  add_conversation k fresh start = record {
    numbers = numbers_added k fresh start;
    replies_once = v.replies_once;
    waiting = λ x m. elim (mem-cases m) [
      | inl e ↦
          subst
            (λ (z : Conversation).
              count (unresolved z.conversation_id) d.replies ≡ z.message_head_seq % 2)
            (sym e)
            (omega (
              arith,
              start,
              count-none (unresolved k.conversation_id) d.replies (unasked k.conversation_id fresh),
            ))
      | inr n ↦ v.waiting x n
    ];
    targets = v.targets;
    asked = λ c m.
        let a = v.asked c m in
        let open_reply = unasked k.conversation_id fresh c m in
        record {
          source = a.source;
          present = a.present;
          id = a.id;
          same = a.same;
          from_member = a.from_member;
          newest = λ x h i o. elim (mem-cases h) [
            | inl e ↦ absurd (ground (arith, ap (λ (z : Conversation). z.conversation_id) e))
            | inr n ↦ a.newest x n i o
          ];
          unanswered = a.unanswered;
        };
  }
