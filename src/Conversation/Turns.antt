-- ===== src/Conversation/Turns.antt =====
-- A reply with the end of its claim, as CommitConversationReply of internal/postgres/conversation_reply.go
-- writes them: Carry speaks, and the one open reply of the conversation is closed with it.
use carry.Prelude.{
  ℕ, ◌+◌, ◌%◌, Bool, true, false, ◌∷◌, some, ◌≡◌, inl, inr, ap, subst, sym, arith, ◌==◌, find,
  update, count, any, amend, count-any, count-update-le, mem-cases, mem-update, find-mem, mem-count,
  mem-same, mem-any, any-mem, count-stay, count-leave, find-count, Bool-cases, Memᴰ,
}
use carry.Store.Tables.{is_null}
use carry.Conversation.Tables.{
  Chat, Conversation, Post, ReplyRow, conversation_with, post_with, reply_with, by_member,
  unresolved,
}
use carry.Conversation.Posts.{at_seq}
use carry.Conversation.Claims.{replies_to}
use carry.Conversation.Numbered.{bumped, bump, Numbered-speak}
use carry.Conversation.Alternates.{Alternates}
use carry.Conversation.Bumps.{waiting_at, bumped_waiting}

module _ (d : Chat) (v : Alternates d) (k : Conversation) (p : Post)
    (hk : find (conversation_with p.conversation_id) d.conversations ≡ some k)
    (next : p.message_seq ≡ k.message_head_seq + 1)
    (fresh : any (post_with p.message_id) d.posts ≡ false)
    (free : any (at_seq p.conversation_id p.message_seq) d.posts ≡ false) (q : ReplyRow → Bool)
    (f : ReplyRow → ReplyRow) (c : ReplyRow) (author : by_member p.author ≡ false)
    (target : p.reply_to_member_message_id ≡ some c.source_message_id)
    (found : find (reply_with c.source_message_id) d.replies ≡ some c)
    (of_it : c.conversation_id ≡ p.conversation_id)
    (still : is_null c.committed_reply_message_id ≡ true)
    (only : (x : ReplyRow) → q x ≡ true → x.source_message_id ≡ c.source_message_id)
    (source : (x : ReplyRow) → (f x).source_message_id ≡ x.source_message_id)
    (conversation : (x : ReplyRow) → (f x).conversation_id ≡ x.conversation_id)
    (closed : (x : ReplyRow) → is_null (f x).committed_reply_message_id ≡ false)
    (one : count q d.replies ≡ 1) where
  the_one : (x : ReplyRow) → Memᴰ x d.replies → q x ≡ true → x ≡ c
  the_one x m e =
      mem-same (reply_with c.source_message_id) d.replies (v.replies_once c.source_message_id) m
        (find-mem (reply_with c.source_message_id) d.replies found) (ground (arith, only x e))
        (ground arith)

  -- The head was odd, with one open reply.
  odd : (k.message_head_seq % 2 ≡ 1) × (count (unresolved p.conversation_id) d.replies ≡ 1)
  odd =
      let some_open =
        find-count (unresolved p.conversation_id) (reply_with c.source_message_id) d.replies found
          (ground arith) in
      let number = waiting_at d v k p.conversation_id hk in (omega arith, omega arith)

  -- The reply that is closed is the one that changes.
  hit : q c ≡ true
  hit = elim (Bool-cases (any q d.replies)) [
    | inr e ↦ absurd (omega (arith, one, count-any q d.replies e))
    | inl e ↦
        let (x, m, h) = any-mem q d.replies e in
        subst (λ (z : ReplyRow). q z ≡ true) (the_one x m h) h
  ]

  still_unanswered :
      (x : ReplyRow)
      → Memᴰ x d.replies
      → is_null (amend q f x).committed_reply_message_id ≡ true
      → any (replies_to x.source_message_id) (p ∷ d.posts) ≡ false
  still_unanswered x m o =
      let a = v.asked x m in
      let old = a.unanswered in
      let changed = hit in
      let over = closed x in
      elim (Bool-cases (x.source_message_id == c.source_message_id)) [
        | inl e ↦
            let same =
              mem-same (reply_with c.source_message_id) d.replies
                (v.replies_once c.source_message_id) m
                (find-mem (reply_with c.source_message_id) d.replies found) e (ground arith) in
            absurd (ground (arith, subst (λ (z : ReplyRow). q z ≡ true) (sym same) hit))
        | inr e ↦ ground arith
      ]

  none_left : count (unresolved p.conversation_id) (update q f d.replies) ≡ 0
  none_left = omega (
    arith,
    one,
    odd.1,
    count-leave (unresolved p.conversation_id) q f d.replies
        (λ x m e.
          subst (λ (z : ReplyRow). unresolved p.conversation_id z ≡ true) (sym (the_one x m e))
            (ground arith))
        (λ x m e. ground (arith, closed x)),
  )

  elsewhere :
      (i : ℕ)
      → (i == p.conversation_id) ≡ false
      → count (unresolved i) (update q f d.replies) ≡ count (unresolved i) d.replies
  elsewhere i other = count-stay (unresolved i) q f d.replies (λ x m e.
      let same = ap (λ (z : ReplyRow). z.conversation_id) (the_one x m e) in
      let moved = conversation x in ground arith)

  pub carry_speaks : Alternates (record d {
    conversations = bump p.conversation_id d.conversations;
    posts = p ∷ d.posts;
    replies = update q f d.replies;
  })
  carry_speaks = record {
    numbers =
        Numbered-speak d.conversations d.posts k p v.numbers hk next
          (let parity = odd.0 in ground (arith, author)) fresh free;
    replies_once = λ i. omega (
      arith,
      v.replies_once i,
      count-update-le (reply_with i) q f (λ x e h. ground (arith, source x)) d.replies,
    );
    waiting =
        let parity = odd.0 in
        let left = none_left in
        bumped_waiting d v k p.conversation_id (update q f d.replies) hk (ground arith) elsewhere;
    targets = λ y m i h. elim (mem-cases m) [
      | inl e ↦
          let a = v.asked c (find-mem (reply_with c.source_message_id) d.replies found) in
          let there = mem-any (post_with i) d.posts a.present in
          ground (arith, there, a.id, ap (λ (z : Post). z.reply_to_member_message_id) e)
      | inr n ↦ let old = v.targets y n i h in ground arith
    ];
    asked = λ y m.
        let (x, n, e) = mem-update q f d.replies m in
        let a = v.asked x n in
        let left = none_left in
        let shut = mem-count (unresolved p.conversation_id) (update q f d.replies) m in
        record {
          source = a.source;
          present = Memᴰ.tail a.present;
          id = ground (arith, a.id, source x);
          same = ground (arith, a.same, conversation x);
          from_member = a.from_member;
          newest = λ z h i o.
              let (w, l, g) =
                mem-update (conversation_with p.conversation_id) bumped d.conversations h in
              let old = a.newest w l in ground (arith, old, shut, left, closed x, conversation x);
          unanswered = λ o. let rest = still_unanswered x n in let key = source x in ground arith;
        };
  }
