-- ===== src/Conversation/Bumps.antt =====
-- The conversations after a head has moved on, as AdvanceConversationMessageHead moves it
-- (internal/postgres/dbsqlc/conversation.sql.go).
use carry.Prelude.{
  ℕ, ◌+◌, ◌%◌, ◌≤◌, false, List, some, ◌≡◌, inl, inr, ap, subst, sym, arith, ◌==◌, find, count,
  mem-update, find-mem, find_sound, mem-same, Bool-cases, Memᴰ,
}
use carry.Conversation.Tables.{Chat, Conversation, ReplyRow, conversation_with, unresolved}
use carry.Conversation.Numbered.{bumped, bump}
use carry.Conversation.Alternates.{Alternates}

-- The conversation that a row of a moved table comes from.
pub before_bump :
    (id : ℕ) (ks : List Conversation) (k x : Conversation)
    → count (conversation_with id) ks ≤ 1
    → find (conversation_with id) ks ≡ some k
    → Memᴰ x ks
    → x.conversation_id ≡ id
    → x ≡ k
before_bump id ks k x one hk m e =
    mem-same (conversation_with id) ks one m (find-mem (conversation_with id) ks hk)
      (ground (arith, e)) (find_sound (conversation_with id) ks hk)

-- What the conversation with a uuid waits for.
pub waiting_at :
    (d : Chat) (v : Alternates d) (k : Conversation) (id : ℕ)
    → find (conversation_with id) d.conversations ≡ some k
    → count (unresolved id) d.replies ≡ k.message_head_seq % 2
waiting_at d v k id hk =
    let key : k.conversation_id ≡ id =
      ground (arith, find_sound (conversation_with id) d.conversations hk) in
    subst (λ i. count (unresolved i) d.replies ≡ k.message_head_seq % 2) key
      (v.waiting k (find-mem (conversation_with id) d.conversations hk))

-- Every conversation still waits for a reply while its number is odd, if the moved one does and the
-- others wait as before.
pub bumped_waiting :
    (d : Chat) (v : Alternates d) (k : Conversation) (id : ℕ) (rs : List ReplyRow)
    → find (conversation_with id) d.conversations ≡ some k
    → count (unresolved id) rs ≡ (k.message_head_seq + 1) % 2
    → ((i : ℕ) → (i == id) ≡ false → count (unresolved i) rs ≡ count (unresolved i) d.replies)
    → (y : Conversation) → Memᴰ y (bump id d.conversations)
    → count (unresolved y.conversation_id) rs ≡ y.message_head_seq % 2
bumped_waiting d v k id rs hk here elsewhere y m =
    let (x, n, e) = mem-update (conversation_with id) bumped d.conversations m in
    let old = v.waiting x n in
    subst (λ (z : Conversation). count (unresolved z.conversation_id) rs ≡ z.message_head_seq % 2)
      (sym e)
      (elim (Bool-cases (conversation_with id x)) [
        | inl i ↦
            let same =
              ap (λ (z : Conversation). z.message_head_seq)
                (before_bump id d.conversations k x (v.numbers.conversations_once id) hk n
                  (ground arith)) in
            let move = ap (λ i. count (unresolved i) rs) {x = x.conversation_id} {y = id} in
            ground arith
        | inr i ↦ let stay = elsewhere x.conversation_id i in ground arith
      ])
