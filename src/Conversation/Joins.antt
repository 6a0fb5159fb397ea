-- ===== src/Conversation/Joins.antt =====
-- The replies that the statements of internal/postgres/dbsqlc/conversation.sql.go lock, with the rows
-- that they join.
use carry.Prelude.{
  ℕ, Bool, true, false, ◌&&◌, not, some, ◌≡◌, inl, inr, ap, subst, sym, ◌∙◌, arith, ◌==◌, find,
  Option-cases, find_sound, ==-true, select, select_map, select-mem, select_map-mem, mem-find,
  first_by-mem,
}
use carry.Conversation.Tables.{Chat, ReplyRow, conversation_with, post_with, reply_with}
use carry.Conversation.Claims.{
  asked_before, is_free, stays, Joined, join_reply, lock_reply_for_claim, lock_reply_for_commit,
}
use carry.Conversation.Alternates.{Alternates}

-- A reply that was joined stands in its tables.
pub record Stands (source_id : ℕ) (d : Chat) (j : Joined) : Type 0 where
  pub of_reply : find (reply_with source_id) d.replies ≡ some j.reply
  pub of_conversation :
      find (conversation_with j.reply.conversation_id) d.conversations ≡ some j.conversation
  pub of_source : find (post_with j.reply.source_message_id) d.posts ≡ some j.source

pub join_reply_inv :
    (space_id : ℕ) (d : Chat) (c : ReplyRow) {j : Joined}
    → join_reply space_id d c ≡ some j
    → (j.reply ≡ c)
      × (find (conversation_with c.conversation_id) d.conversations ≡ some j.conversation)
      × (find (post_with c.source_message_id) d.posts ≡ some j.source)
      × ((j.conversation.space_id == space_id && stays d.db j.conversation) ≡ true)
unfolding join_reply
join_reply_inv space_id d c {j} h =
    elim (Option-cases (find (conversation_with c.conversation_id) d.conversations)) [
      | inl o ↦ absurd (ground arith)
      | inr (k, o) ↦ elim (Option-cases (find (post_with c.source_message_id) d.posts)) [
        | inl q ↦ absurd (ground arith)
        | inr (p, q) ↦ (ground arith, ground arith, ground arith, ground arith)
      ]
    ]

join_reply-Stands :
    (space_id source_id : ℕ) (d : Chat) (c : ReplyRow) {j : Joined}
    → find (reply_with source_id) d.replies ≡ some c
    → join_reply space_id d c ≡ some j
    → Stands source_id d j
join_reply-Stands space_id source_id d c {j} n h =
    let (same, o, q, r) = join_reply_inv space_id d c h in
    record {
      of_reply = n ∙ ap some (sym same);
      of_conversation =
          subst
            (λ (x : ReplyRow).
              find (conversation_with x.conversation_id) d.conversations ≡ some j.conversation)
            (sym same) o;
      of_source =
          subst (λ (x : ReplyRow). find (post_with x.source_message_id) d.posts ≡ some j.source)
            (sym same) q;
    }

pub lock_reply_for_commit_inv :
    (source_id space_id : ℕ) (d : Chat) {j : Joined}
    → lock_reply_for_commit source_id space_id d ≡ some j
    → Stands source_id d j
unfolding lock_reply_for_commit
lock_reply_for_commit_inv source_id space_id d {j} h =
    elim (Option-cases (find (reply_with source_id) d.replies)) [
      | inl n ↦ absurd (ground arith)
      | inr (c, n) ↦ join_reply-Stands space_id source_id d c n (rw (n, lock_reply_for_commit) at h)
    ]

-- The key of a joined reply is the one that it was looked up by.
pub Stands-key :
    (source_id : ℕ) (d : Chat) (j : Joined)
    → Stands source_id d j
    → Stands j.reply.source_message_id d j
Stands-key source_id d j v =
    subst (λ i. Stands i d j)
      (sym (
        ==-true j.reply.source_message_id source_id
          (find_sound (reply_with source_id) d.replies v.of_reply)))
      v

-- What a claim locks: a free reply, which no other transaction holds, before which no other such
-- reply was asked for.
pub lock_reply_for_claim_inv :
    (now : ℕ) (locked : ℕ → Bool) (space_id : ℕ) (d : Chat) {j : Joined}
    → Alternates d
    → lock_reply_for_claim now locked space_id d ≡ some j
    → Stands j.reply.source_message_id d j
      × (is_free now j.reply ≡ true)
      × (locked j.reply.source_message_id ≡ false)
      × (join_reply space_id d j.reply ≡ some j)
unfolding lock_reply_for_claim
lock_reply_for_claim_inv now locked space_id d {j} v h =
    let free = λ (i : Joined). is_free now i.reply && not (locked i.reply.source_message_id) in
    let (m, e) =
      select-mem free (select_map (join_reply space_id d) d.replies) (
        first_by-mem asked_before (select free (select_map (join_reply space_id d) d.replies)) h) in
    let (c, n, joined) = select_map-mem (join_reply space_id d) d.replies m in
    let same = (join_reply_inv space_id d c joined).0 in
    let found =
      mem-find (reply_with c.source_message_id) d.replies (v.replies_once c.source_message_id)
        (ground arith) n in
    (
      join_reply-Stands space_id j.reply.source_message_id d c
          (subst (λ (x : ReplyRow). find (reply_with x.source_message_id) d.replies ≡ some c)
            (sym same) found)
          joined,
      ground arith,
      ground arith,
      subst (λ x. join_reply space_id d x ≡ some j) (sym same) joined,
    )
