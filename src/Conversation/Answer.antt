-- ===== src/Conversation/Answer.antt =====
-- A machine that holds a reply commits it (internal/postgres/conversation_reply.go): what is written.
use carry.Prelude.{
  ℕ, ◌+◌, ◌≤◌, List, true, false, not, ◌∷◌, Option, none, some, ◌≡◌, inl, inr, refl, ap, sym, subst,
  ◌∙◌, arith, ◌==◌, find, update, count, any, any-mem, one_row, mem-same, find-mem, find_sound,
  Bool-cases, Option-cases, ==-true, ==_refl,
}
use carry.Result.{ok, or_fail, fail_if, >>=-ok, stale_reply_claim, database}
use carry.Text.{Text}
use carry.Execution.Retry.{uuid, principal, column, text_of}
use carry.Conversation.Message.{ReplyCandidate, normalize_reply_candidate}
use carry.Conversation.Tables.{
  Chat, Conversation, Post, conversation_with, post_with, reply_with, is_some,
}
use carry.Conversation.Posts.{at_seq, advance_message_head}
use carry.Conversation.Claims.{
  Joined, lock_reply_for_commit, is_held, completed, reply_lease_is_current, carry_reply,
  create_carry_reply, complete_reply, replies_to,
}
use carry.Conversation.Reply.{exact, valid_source, lock_active_reply_machine}
use carry.Conversation.Commit.{
  CommitReplyCommand, NewIds, CommitClock, delegate, write_reply, commit_new, commit_locked,
  commit_conversation_reply,
}
use carry.Conversation.Numbered.{Numbered, bump}
use carry.Conversation.Alternates.{Alternates, change_db}
use carry.Conversation.Joins.{Stands, Stands-key, lock_reply_for_commit_inv}
use carry.Conversation.Replied.{delegate_inv}
use carry.Conversation.Claiming.{Stands-Sourced}
use carry.Conversation.Entered.{Entered, commit_conversation_reply-commit_locked}

-- The number after the head is free.
pub next_free :
    (id : ℕ) (ks : List Conversation) (ps : List Post) (k : Conversation)
    → Numbered ks ps
    → find (conversation_with id) ks ≡ some k
    → any (at_seq id (k.message_head_seq + 1)) ps ≡ false
next_free id ks ps k v hk = elim (Bool-cases (any (at_seq id (k.message_head_seq + 1)) ps)) [
  | inr e ↦ e
  | inl e ↦
      let (p, m, h) = any-mem (at_seq id (k.message_head_seq + 1)) ps e in
      let a = v.placed p m in
      let same =
        mem-same (conversation_with id) ks (v.conversations_once id) a.present
          (find-mem (conversation_with id) ks hk) (ground (arith, a.same))
          (find_sound (conversation_with id) ks hk) in
      let head = ap (λ (z : Conversation). z.message_head_seq) same in
      let reached = a.reached in absurd (ground arith)
]

advance_ok :
    (id n : ℕ) (d : Chat) (k : Conversation)
    → find (conversation_with id) d.conversations ≡ some k
    → k.message_head_seq ≡ n
    → or_fail (advance_message_head id d) database
      ≡ ok (n + 1, record d { conversations = bump id d.conversations })
unfolding advance_message_head
advance_ok id n d k found same = ground arith

-- The tables after the reply.
abbrev pub answered : CommitClock → NewIds → ℕ → ℕ → Joined → Text → Text → Option ℕ → Chat → Chat
answered clock ids machine_id fence j text digest work_id d =
    let id = j.reply.conversation_id in
    let source_id = j.reply.source_message_id in
    record d {
      conversations = bump id d.conversations;
      posts =
          carry_reply clock.began ids.reply_id id (j.source.message_seq + 1) text source_id
          ∷ d.posts;
      replies =
          update (is_held clock.finished source_id machine_id fence)
            (completed digest ids.reply_id work_id) d.replies;
    }

module _ (sha256 : Text → Text) (spell : ℕ → Text) where
  write_reply_held :
      (clock : CommitClock) (ids : NewIds) (machine_id fence : ℕ) (j : Joined) (text digest : Text)
      (work_id : Option ℕ) (d : Chat)
      → Alternates d
      → Stands j.reply.source_message_id d j
      → is_held clock.finished j.reply.source_message_id machine_id fence j.reply ≡ true
      → any (post_with ids.reply_id) d.posts ≡ false
      → write_reply sha256 spell clock ids machine_id fence j text digest work_id d
        ≡ ok (
          record { reply_message_id = ids.reply_id; created_work_id = work_id },
          answered clock ids machine_id fence j text digest work_id d,
        )
  unfolding write_reply advance_message_head create_carry_reply complete_reply
  write_reply_held clock ids machine_id fence j text digest work_id d v s held fresh =
      let id = j.reply.conversation_id in
      let key = j.reply.source_message_id in
      let newest : j.conversation.message_head_seq ≡ j.source.message_seq =
        (Stands-Sourced key d j v s).newest (ground arith) in
      let free = next_free id d.conversations d.posts j.conversation v.numbers s.of_conversation in
      let quiet : any (replies_to key) d.posts ≡ false =
        (v.asked j.reply (find-mem (reply_with key) d.replies s.of_reply)).unanswered
          (ground arith) in
      let one : count (is_held clock.finished key machine_id fence) d.replies ≡ 1 =
        one_row (reply_with key) (is_held clock.finished key machine_id fence) (λ x e. ground arith)
          d.replies (v.replies_once key) s.of_reply held in
      let found = s.of_conversation in
      let free2 : any (at_seq id (j.source.message_seq + 1)) d.posts ≡ false =
        subst (λ n. any (at_seq id (n + 1)) d.posts ≡ false) newest free in
      let move = advance_ok id j.source.message_seq d j.conversation s.of_conversation newest in
      >>=-ok (or_fail (advance_message_head id d) database) _ move (
        >>=-ok
          (fail_if (not (j.source.message_seq + 1 == j.source.message_seq + 1)) stale_reply_claim) _
          {v = tt} (ground (arith, ==_refl (j.source.message_seq + 1)))
          (>>=-ok
            (create_carry_reply clock.began ids.reply_id id (j.source.message_seq + 1) text key
              (record d { conversations = bump id d.conversations }))
            _
            {v = record d {
              conversations = bump id d.conversations;
              posts =
                  carry_reply clock.began ids.reply_id id (j.source.message_seq + 1) text key
                  ∷ d.posts;
            }}
            (rw (fresh, free2, quiet) refl) (rw one refl)))

  -- A lease that has not run out at the end of a commit was current before it.
  lease_current :
      (checked finished machine_id fence : ℕ) (d : Chat) (j : Joined)
      → checked ≤ finished
      → Stands j.reply.source_message_id d j
      → is_held finished j.reply.source_message_id machine_id fence j.reply ≡ true
      → reply_lease_is_current checked j.reply.source_message_id d ≡ some true
  unfolding reply_lease_is_current
  lease_current checked finished machine_id fence d j order s held =
      let found = s.of_reply in
      elim (Option-cases j.reply.lease_expires_at) [
        | inl n ↦ absurd (ground arith)
        | inr (t, n) ↦ ground arith
      ]

  commit_new_held :
      (clock : CommitClock) (ids : NewIds) (machine_id fence : ℕ) (j : Joined)
      (candidate : ReplyCandidate) (digest : Text) (work_id : Option ℕ) (d : Chat) {d1 : Chat}
      → Alternates d
      → Stands j.reply.source_message_id d j
      → clock.checked ≤ clock.finished
      → is_held clock.finished j.reply.source_message_id machine_id fence j.reply ≡ true
      → delegate sha256 spell clock ids j candidate.delegation_goal d ≡ ok (work_id, d1)
      → any (post_with ids.reply_id) d.posts ≡ false
      → commit_new sha256 spell clock ids machine_id fence j candidate digest d
        ≡ ok (
          record { reply_message_id = ids.reply_id; created_work_id = work_id },
          answered clock ids machine_id fence j candidate.reply digest work_id d1,
        )
  unfolding commit_new
  commit_new_held clock ids machine_id fence j candidate digest work_id d {d1} v s order held made
        fresh =
      let key = j.reply.source_message_id in
      let newest = (Stands-Sourced key d j v s).newest (ground arith) in
      let same : d1 ≡ record d { db = d1.db } =
        delegate_inv sha256 spell clock ids j candidate.delegation_goal d made in
      let rest =
        write_reply_held clock ids machine_id fence j candidate.reply digest work_id
          (record d { db = d1.db }) (change_db d v d1.db)
          (record {
            of_reply = s.of_reply;
            of_conversation = s.of_conversation;
            of_source = s.of_source;
          })
          held fresh in
      >>=-ok
        (fail_if (not (j.conversation.message_head_seq == j.source.message_seq)) stale_reply_claim)
        _ {v = tt} (ground arith)
        (>>=-ok (or_fail (reply_lease_is_current clock.checked key d) stale_reply_claim) _
          {v = true}
          (ground
            (arith, lease_current clock.checked clock.finished machine_id fence d j order s held))
          ((>>=-ok (delegate sha256 spell clock ids j candidate.delegation_goal d)
            (λ (w, x).
              write_reply sha256 spell clock ids machine_id fence j candidate.reply digest w x)
            made
            (subst
              (λ (x : Chat).
                write_reply sha256 spell clock ids machine_id fence j candidate.reply digest work_id
                  x
                ≡ ok (
                  record { reply_message_id = ids.reply_id; created_work_id = work_id },
                  answered clock ids machine_id fence j candidate.reply digest work_id x,
                ))
              (sym same) rest))))

  commit_locked_held :
      (clock : CommitClock) (ids : NewIds) (machine_id fence : ℕ) (j : Joined)
      (candidate : ReplyCandidate) (digest : Text) (d : Chat)
      → is_held clock.finished j.reply.source_message_id machine_id fence j.reply ≡ true
      → commit_locked sha256 spell clock ids machine_id fence j candidate digest d
        ≡ commit_new sha256 spell clock ids machine_id fence j candidate digest d
  unfolding commit_locked commit_new delegate write_reply
  commit_locked_held clock ids machine_id fence j candidate digest d held =
      let open_reply : j.reply.committed_reply_message_id ≡ none = ground arith in
      let mine : is_some machine_id j.reply.current_machine_id ≡ true = ground arith in
      let same : (j.reply.current_fence == fence) ≡ true = ground arith in
      rw (mine, same, open_reply) refl

  -- A machine that holds a reply, under its fence and with a lease that has not run out at the end of
  -- the commit, can commit it: the reply of the candidate is written under the number after its source,
  -- and the claim ends with it. The machine is not revoked, the member is in the space, the candidate
  -- is in order, its Work can be inserted, and the uuid of the reply is new.
  pub commit_conversation_reply_held :
      (clock : CommitClock) (ids : NewIds) (c : CommitReplyCommand)
      (machine_id source_id space_id : ℕ) (j : Joined) (candidate : ReplyCandidate) (digest : Text)
      (work_id : Option ℕ) {d d1 : Chat}
      → Alternates d
      → c.machine_id ≡ principal machine_id
      → c.source_message_id ≡ uuid source_id
      → (c.fence == 0) ≡ false
      → normalize_reply_candidate sha256 (spell source_id) c.candidate ≡ ok (candidate, digest)
      → lock_active_reply_machine machine_id d ≡ ok space_id
      → lock_reply_for_commit source_id space_id d ≡ some j
      → clock.checked ≤ clock.finished
      → is_held clock.finished source_id machine_id c.fence j.reply ≡ true
      → delegate sha256 spell clock ids j candidate.delegation_goal d ≡ ok (work_id, d1)
      → any (post_with ids.reply_id) d.posts ≡ false
      → commit_conversation_reply sha256 spell clock ids c d
        ≡ ok (
          record { reply_message_id = ids.reply_id; created_work_id = work_id },
          answered clock ids machine_id c.fence j candidate.reply digest work_id d1,
        )
  commit_conversation_reply_held clock ids c machine_id source_id space_id j candidate digest
        work_id {d} {d1} v is_machine is_source positive normal active locks order held made fresh =
      let s = lock_reply_for_commit_inv source_id space_id d locks in
      let key : j.reply.source_message_id ≡ source_id =
        ==-true j.reply.source_message_id source_id
          (find_sound (reply_with source_id) d.replies s.of_reply) in
      let mine =
        subst (λ i. is_held clock.finished i machine_id c.fence j.reply ≡ true) (sym key) held in
      let x : Entered sha256 spell c d = record {
        machine_id = machine_id;
        is_machine = ap exact is_machine;
        source_id = source_id;
        valid = ap valid_source is_source;
        is_source = ap column is_source;
        positive = positive;
        candidate = candidate;
        digest = digest;
        normal =
            ap (λ i. normalize_reply_candidate sha256 (text_of spell i) c.candidate) is_source
            ∙ normal;
        space_id = space_id;
        active = active;
        joined = j;
        locks = locks;
      } in
      commit_conversation_reply-commit_locked sha256 spell clock ids c d x
      ∙ (commit_locked_held clock ids machine_id c.fence j candidate digest d mine
          ∙ commit_new_held clock ids machine_id c.fence j candidate digest work_id d v
              (Stands-key source_id d j s) order mine made fresh)
