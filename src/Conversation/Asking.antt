-- ===== src/Conversation/Asking.antt =====
-- A message of the member with the reply that it asks for, as SendConversationMessage of
-- internal/postgres/conversation.go adds them.
use carry.Prelude.{
  ◌+◌, ◌%◌, true, false, ◌∷◌, none, some, ◌≡◌, inl, inr, refl, ap, subst, sym, arith, find, count,
  any, count-any, mem-cases, mem-update, mem-any, any-mem, Option-cases, Bool-cases, Memᴰ,
}
use carry.Conversation.Tables.{
  Chat, Conversation, Post, ReplyRow, conversation_with, post_with, reply_with, by_member,
  unresolved,
}
use carry.Conversation.Posts.{at_seq, new_reply}
use carry.Conversation.Claims.{replies_to}
use carry.Conversation.Numbered.{bumped, bump, Numbered-speak}
use carry.Conversation.Alternates.{Alternates, Asked}
use carry.Conversation.Bumps.{before_bump, waiting_at, bumped_waiting}

module _ (d : Chat) (v : Alternates d) (k : Conversation) (p : Post)
    (hk : find (conversation_with p.conversation_id) d.conversations ≡ some k)
    (next : p.message_seq ≡ k.message_head_seq + 1)
    (fresh : any (post_with p.message_id) d.posts ≡ false)
    (free : any (at_seq p.conversation_id p.message_seq) d.posts ≡ false)
    (member : by_member p.author ≡ true) (alone : p.reply_to_member_message_id ≡ none)
    (quiet : any (unresolved p.conversation_id) d.replies ≡ false)
    (unclaimed : any (reply_with p.message_id) d.replies ≡ false) where
  -- No message replies to one that is not there.
  untargeted : any (replies_to p.message_id) d.posts ≡ false
  untargeted = elim (Bool-cases (any (replies_to p.message_id) d.posts)) [
    | inr e ↦ e
    | inl e ↦
        let (y, m, h) = any-mem (replies_to p.message_id) d.posts e in
        absurd (elim (Option-cases y.reply_to_member_message_id) [
          | inl n ↦ ground arith
          | inr (i, n) ↦
              let there = v.targets y m i n in
              let move = ap (λ i. any (post_with i) d.posts) {x = i} {y = p.message_id} in
              ground arith
        ])
  ]

  even : k.message_head_seq % 2 ≡ 0
  even = omega (
    arith,
    waiting_at d v k p.conversation_id hk,
    count-any (unresolved p.conversation_id) d.replies quiet,
  )

  -- What the new reply asks about, and what the others ask about as before.
  asks :
      Asked
        (bump p.conversation_id d.conversations)
        (p ∷ d.posts)
        (new_reply p.message_id p.conversation_id)
  asks = record {
    source = p;
    present = Memᴰ.head refl;
    id = refl;
    same = refl;
    from_member = member;
    newest = λ y h i o.
        let (x, n, e) = mem-update (conversation_with p.conversation_id) bumped d.conversations h in
        let same =
          before_bump p.conversation_id d.conversations k x
            (v.numbers.conversations_once p.conversation_id) hk n in
        let head = ap (λ (z : Conversation). z.message_head_seq) {x = x} {y = k} in
        ground (arith, same, head);
    unanswered = λ o. let none_yet = untargeted in ground arith;
  }

  still_asks :
      (c : ReplyRow)
      → Memᴰ c d.replies
      → Asked (bump p.conversation_id d.conversations) (p ∷ d.posts) c
  still_asks c n =
      let a = v.asked c n in
      record {
        source = a.source;
        present = Memᴰ.tail a.present;
        id = a.id;
        same = a.same;
        from_member = a.from_member;
        newest = λ y h i o.
            let (x, l, e) =
              mem-update (conversation_with p.conversation_id) bumped d.conversations h in
            let old = a.newest x l in
            let shut = mem-any (unresolved p.conversation_id) d.replies n in
            ground (arith, old, shut);
        unanswered = λ o. let old = a.unanswered o in ground arith;
      }

  -- The member speaks while no reply is open.
  pub member_speaks : Alternates (record d {
    conversations = bump p.conversation_id d.conversations;
    posts = p ∷ d.posts;
    replies = new_reply p.message_id p.conversation_id ∷ d.replies;
  })
  member_speaks = record {
    numbers =
        Numbered-speak d.conversations d.posts k p v.numbers hk next (ground (arith, even, member))
          fresh free;
    replies_once = λ i. ground (
      arith,
      v.replies_once i,
      ap (λ n. count (reply_with n) d.replies) {x = p.message_id} {y = i},
      count-any (reply_with p.message_id) d.replies unclaimed,
    );
    waiting =
        let closed = count-any (unresolved p.conversation_id) d.replies quiet in
        let parity = even in
        bumped_waiting d v k p.conversation_id
          (new_reply p.message_id p.conversation_id ∷ d.replies) hk (ground arith)
          (λ i other. ground arith);
    targets = λ y m i h. elim (mem-cases m) [
      | inl e ↦ absurd (ground (arith, ap (λ (z : Post). z.reply_to_member_message_id) e))
      | inr n ↦ let old = v.targets y n i h in ground arith
    ];
    asked = λ c m. elim (mem-cases m) [
      | inl e ↦ subst (Asked (bump p.conversation_id d.conversations) (p ∷ d.posts)) (sym e) asks
      | inr n ↦ still_asks c n
    ];
  }
