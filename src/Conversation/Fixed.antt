-- ===== src/Conversation/Fixed.antt =====
-- A reply that is claimed again, as internal/postgres/conversation_reply.go has it after a lease that
-- ran out: another machine gets the same messages, and the one before it is refused.
use carry.Prelude.{
  ℕ, ◌≤◌, ◌<◌, Bool, some, ◌≡◌, ap, subst, sym, ◌∙◌, arith, find, map, sort_by, select,
}
use carry.Result.{Result, ok}
use carry.Text.{Text}
use carry.Execution.Retry.{Principal}
use carry.Conversation.Tables.{Chat, Conversation, ReplyRow, conversation_with, reply_with}
use carry.Conversation.Posts.{post_seq}
use carry.Conversation.Claims.{list_fixed_context, in_context}
use carry.Conversation.Reply.{ReplyClaim, claim_conversation_reply, context_message}
use carry.Conversation.Alternates.{Alternates}
use carry.Conversation.Forward.{Forward}
use carry.Conversation.Talk.{Talk, Talk-Alternates, Turn-Alternates, claims}
use carry.Conversation.Histories.{Talk-Forward}
use carry.Conversation.Claiming.{Claimed, claim_conversation_reply-Claimed}

-- The messages of a context that has been fixed.
same_context :
    (id first last : ℕ) (d e : Chat) (k : Conversation)
    → Forward d e
    → find (conversation_with id) d.conversations ≡ some k
    → last ≤ k.message_head_seq
    → list_fixed_context id first last e ≡ list_fixed_context id first last d
unfolding list_fixed_context
same_context id first last d e k f hk l =
    ap (sort_by post_seq) (f.context_kept id first last k hk l)

fixed_posts :
    (id first last : ℕ) (d e : Chat)
    → e.posts ≡ d.posts
    → list_fixed_context id first last e ≡ list_fixed_context id first last d
unfolding list_fixed_context
fixed_posts id first last d e h =
    ap (λ ps. sort_by post_seq (select (in_context id first last) ps)) h

again :
    {d d1 e e1 : Chat} {c k : ReplyClaim}
    → Forward d1 e
    → Claimed d c d1
    → Claimed e k e1
    → k.source_message_id ≡ c.source_message_id
    → (k.messages ≡ c.messages) × (c.fence < k.fence)
again {d} {d1} {e} {e1} {c} {k} f a b same =
    let (x, hx, o) = f.reply_kept c.source_message_id a.row a.found in
    let one : some b.before ≡ some x =
      sym (subst (λ i. find (reply_with i) e.replies ≡ some b.before) same b.was) ∙ hx in
    let it : x ≡ b.before = ground arith in
    let start =
      subst (λ (y : ReplyRow). y.context_start_seq ≡ some a.first) it (o.start a.first a.start) in
    let end = subst (λ (y : ReplyRow). y.context_end_seq ≡ some a.last) it (o.end a.last a.end) in
    let (first, last) = b.kept a.first a.last start end in
    let id : b.row.conversation_id ≡ a.row.conversation_id =
      b.same ∙ (ap (λ (y : ReplyRow). y.conversation_id) (sym it) ∙ o.conversation) in
    let range : list_fixed_context b.row.conversation_id b.first b.last e1
        ≡ list_fixed_context a.row.conversation_id a.first a.last e1 =
      ap (λ i. list_fixed_context i b.first b.last e1) id
      ∙ (ap (λ i. list_fixed_context a.row.conversation_id i b.last e1) first
          ∙ ap (λ i. list_fixed_context a.row.conversation_id a.first i e1) last) in
    (
      b.told
          ∙ (ap (map context_message) (
                range
                ∙ (fixed_posts a.row.conversation_id a.first a.last e e1 b.posts
                    ∙ same_context a.row.conversation_id a.first a.last d1 e a.conversation f
                        a.present a.reached))
              ∙ sym a.told),
      omega (arith, o.fence, a.fence, b.higher, ap (λ (y : ReplyRow). y.current_fence) it),
    )

-- The reply is in the table, under no smaller fence.
abbrev Overtaken : ℕ → ℕ → Chat → Type 0
Overtaken source_id fence e =
    (x : ReplyRow) × (find (reply_with source_id) e.replies ≡ some x) × (fence < x.current_fence)

module _ (sha256 : Text → Text) (spell : ℕ → Text) where
  -- Whoever claims a reply that was claimed before gets the same messages, whatever was written since,
  -- under a greater fence. The conversations are in turn before the first claim.
  pub claim_conversation_reply_fixed :
      (now assigned_at : ℕ) (locked : ℕ → Bool) (machine : Principal) {c : ReplyClaim}
      {d d1 e e1 : Chat}
      → Alternates d
      → claim_conversation_reply now assigned_at locked machine d ≡ ok (c, d1)
      → Talk sha256 spell d1 e
      → (now2 assigned_at2 : ℕ) (locked2 : ℕ → Bool) (machine2 : Principal) {k : ReplyClaim}
      → claim_conversation_reply now2 assigned_at2 locked2 machine2 e ≡ ok (k, e1)
      → k.source_message_id ≡ c.source_message_id
      → (k.messages ≡ c.messages) × (c.fence < k.fence)
  claim_conversation_reply_fixed now assigned_at locked machine {c} {d} {d1} {e} v h p now2
        assigned_at2 locked2 machine2 h2 same =
      let w = Turn-Alternates sha256 spell (claims now assigned_at locked machine c h) v in
      again (Talk-Forward sha256 spell p w)
        (claim_conversation_reply-Claimed now assigned_at locked machine d v h)
        (claim_conversation_reply-Claimed now2 assigned_at2 locked2 machine2 e
          (Talk-Alternates sha256 spell p w) h2)
        same
