-- ===== src/Conversation/Progress.antt =====
-- Each transaction of internal/postgres/conversation.go and conversation_reply.go moves a private
-- conversation forward.
use carry.Prelude.{
  ℕ, ◌-◌, true, Option, none, some, ◌≡◌, inl, inr, ◌⊎◌, refl, subst, sym, ◌∙◌, arith, find, map,
  drop, length,
}
use carry.Result.{ok, or_fail, >>=-eq-ok, or_fail-some, no_reply_available}
use carry.Conversation.Context.{fixed_context_suffix}
use carry.Conversation.Tables.{Chat, ReplyRow, reply_with}
use carry.Conversation.Claims.{Joined, assign_reply, assignable, assigned, list_context_candidates}
use carry.Conversation.Reply.{
  ReplyClaim, fixed_reply_context_range, load_fixed_reply_context, claim_locked, recorded_or_new,
  context_message, first_seq,
}
use carry.Conversation.Joins.{Stands}
use carry.Conversation.Forward.{Onward, Forward}
use carry.Conversation.Changes.{replies-Forward}

-- A range of messages ends at the source, and is the one of the first claim.
recorded_or_new_inv :
    (j : Joined) (d : Chat) (a b : Option ℕ) {first last : ℕ}
    → recorded_or_new j d a b ≡ ok (first, last)
    → (last ≡ j.source.message_seq) × ((a ≡ none) × (b ≡ none) ⊎ (a ≡ some first) × (b ≡ some last))
recorded_or_new_inv j d none none {first} {last} h =
    let rows = list_context_candidates j.reply.conversation_id j.source.message_seq d in
    let (fixed, e1, h1) = >>=-eq-ok (fixed_context_suffix (map context_message rows)) _ h in
    let (s, e2, h2) = >>=-eq-ok (first_seq (drop (length rows - length fixed) rows)) _ h1 in
    (ground arith, inl (refl, refl))
recorded_or_new_inv j d (some s) (some e) {first} {last} h =
    (ground arith, inr (ground arith, ground arith))
recorded_or_new_inv j d none (some e) h = cc
recorded_or_new_inv j d (some s) none h = cc

pub fixed_reply_context_range_inv :
    (j : Joined) (d : Chat) {first last : ℕ}
    → fixed_reply_context_range j d ≡ ok (first, last)
    → (last ≡ j.source.message_seq)
      × ((j.reply.context_start_seq ≡ none) × (j.reply.context_end_seq ≡ none)
          ⊎ (j.reply.context_start_seq ≡ some first) × (j.reply.context_end_seq ≡ some last))
unfolding fixed_reply_context_range
fixed_reply_context_range_inv j d h =
    recorded_or_new_inv j d j.reply.context_start_seq j.reply.context_end_seq h

-- A claim keeps a context that was recorded.
assigned-Onward :
    (now machine_id first last source_id fence : ℕ) (c : ReplyRow)
    → ((c.context_start_seq ≡ none) × (c.context_end_seq ≡ none)
        ⊎ (c.context_start_seq ≡ some first) × (c.context_end_seq ≡ some last))
    → assignable now source_id fence c ≡ true
    → Onward c (assigned now machine_id first last c)
assigned-Onward now machine_id first last source_id fence c recorded e = record {
  source = refl;
  conversation = refl;
  fence = omega arith;
  final = λ h. absurd (ground arith);
  start = λ n h. elim recorded [ inl (a, b) ↦ absurd (cc) | inr (a, b) ↦ sym a ∙ h ];
  end = λ n h. elim recorded [ inl (a, b) ↦ absurd (cc) | inr (a, b) ↦ sym b ∙ h ];
}

-- What a claim does, once a reply is locked.
pub record Granted (now machine_id : ℕ) (j : Joined) (d : Chat) (c : ReplyClaim) (d' : Chat)
    : Type 0 where
  pub first : ℕ
  pub last : ℕ
  pub range : fixed_reply_context_range j d ≡ ok (first, last)
  pub assigns :
      assign_reply now machine_id first last j.reply.source_message_id j.reply.current_fence d
      ≡ some (c.fence, c.lease_expires_at, d')
  pub loads : load_fixed_reply_context j.reply.conversation_id first last d' ≡ ok c.messages
  pub source : c.source_message_id ≡ j.reply.source_message_id

pub claim_locked_inv :
    (now machine_id : ℕ) (j : Joined) (d : Chat) {c : ReplyClaim} {d' : Chat}
    → claim_locked now machine_id j d ≡ ok (c, d')
    → Granted now machine_id j d c d'
unfolding claim_locked
claim_locked_inv now machine_id j d {c} {d'} h =
    let ((first, last), e1, h1) = >>=-eq-ok (fixed_reply_context_range j d) _ h in
    let assign =
      assign_reply now machine_id first last j.reply.source_message_id j.reply.current_fence d in
    let ((fence, lease, d1), e2, h2) = >>=-eq-ok (or_fail assign no_reply_available) _ h1 in
    let found = or_fail-some assign no_reply_available e2 in
    let (messages, e3, h3) =
      >>=-eq-ok (load_fixed_reply_context j.reply.conversation_id first last d1) _ h2 in
    let is_fence : fence ≡ c.fence = ground arith in
    let is_lease : lease ≡ c.lease_expires_at = ground arith in
    let is_db : d1 ≡ d' = ground arith in
    let is_text : messages ≡ c.messages = ground arith in
    record {
      first = first;
      last = last;
      range = e1;
      assigns = cc;
      loads = cc;
      source = ground arith;
    }

pub claim_locked-Forward :
    (now machine_id : ℕ) (j : Joined) (d : Chat) {c : ReplyClaim} {d' : Chat}
    → claim_locked now machine_id j d ≡ ok (c, d')
    → Stands j.reply.source_message_id d j
    → Forward d d'
unfolding assign_reply
claim_locked-Forward now machine_id j d h s =
    let g = claim_locked_inv now machine_id j d h in
    let source_id = j.reply.source_message_id in
    let q = assignable now source_id j.reply.current_fence in
    let f = assigned now machine_id g.first g.last in
    let assigns = g.assigns in
    subst (Forward d) (ground arith) (
      replies-Forward d q f (λ c. refl)
        (λ c e found.
          let key : c.source_message_id ≡ source_id = ground arith in
          let one : some j.reply ≡ some c =
            sym s.of_reply ∙ subst (λ i. find (reply_with i) d.replies ≡ some c) key found in
          let same : j.reply ≡ c = ground arith in
          assigned-Onward now machine_id g.first g.last source_id j.reply.current_fence c
            (subst
              (λ (x : ReplyRow).
                (x.context_start_seq ≡ none) × (x.context_end_seq ≡ none)
                ⊎ (x.context_start_seq ≡ some g.first) × (x.context_end_seq ≡ some g.last))
              same (fixed_reply_context_range_inv j d g.range).1)
            e))
