-- ===== src/Conversation/Changes.antt =====
-- The changes of the tables that internal/postgres/conversation.go and conversation_reply.go make, as
-- steps that keep what was told.
use carry.Prelude.{
  ℕ, ◌+◌, ◌≤◌, Bool, true, false, ◌∷◌, none, some, ◌≡◌, inl, inr, refl, ap, subst, sym, ◌∙◌, arith,
  ◌==◌, find, update, any, amend, select, find-update, find-any, find_sound, Bool-cases,
}
use carry.Text.{Text}
use carry.Conversation.Tables.{Chat, Conversation, Post, ReplyRow, conversation_with, reply_with}
use carry.Conversation.Posts.{of_member, requested, new_reply}
use carry.Conversation.Claims.{in_context}
use carry.Conversation.Numbered.{bumped, bump}
use carry.Conversation.Forward.{Onward, Onward-refl, Forward}

-- The three changes of the tables.
module _ (d : Chat) where
  updated_reply :
      (q : ReplyRow → Bool) (f : ReplyRow → ReplyRow)
      → ((c : ReplyRow) → (f c).source_message_id ≡ c.source_message_id)
      → ((c : ReplyRow)
          → q c ≡ true
          → find (reply_with c.source_message_id) d.replies ≡ some c
          → Onward c (f c))
      → (id : ℕ) (c : ReplyRow) → find (reply_with id) d.replies ≡ some c
      → (x : ReplyRow) × (find (reply_with id) (update q f d.replies) ≡ some x) × Onward c x
  updated_reply q f key step id c h =
      let at_key = find_sound (reply_with id) d.replies h in
      let moved = find-update (reply_with id) q f (λ x. ap (λ i. i == id) (key x)) d.replies h in
      elim (Bool-cases (q c)) [
        | inr e ↦ (c, ground arith, Onward-refl c)
        | inl e ↦ (
          f c,
          ground arith,
          step c e (subst (λ i. find (reply_with i) d.replies ≡ some c) (ground arith) h),
        )
      ]

  -- The replies change.
  pub replies-Forward :
      (q : ReplyRow → Bool) (f : ReplyRow → ReplyRow)
      → ((c : ReplyRow) → (f c).source_message_id ≡ c.source_message_id)
      → ((c : ReplyRow)
          → q c ≡ true
          → find (reply_with c.source_message_id) d.replies ≡ some c
          → Onward c (f c))
      → Forward d (record d { replies = update q f d.replies })
  replies-Forward q f key step = record {
    reply_kept = updated_reply q f key step;
    head_kept = λ id k h. (k, h, omega arith);
    context_kept = λ id first last k h l. refl;
    member_kept = λ s u k h. (k, h, refl);
    request_kept = λ id key p h. h;
  }

  -- A conversation is added under a new uuid.
  pub conversation-Forward :
      (k : Conversation)
      → any (conversation_with k.conversation_id) d.conversations ≡ false
      → find (of_member k.space_id k.member_user_id) d.conversations ≡ none
      → Forward d (record d { conversations = k ∷ d.conversations })
  conversation-Forward k fresh alone = record {
    reply_kept = λ id c h. (c, h, Onward-refl c);
    head_kept = λ id x h.
        let there = find-any (conversation_with id) d.conversations h in
        let move =
          ap (λ i. any (conversation_with i) d.conversations) {x = k.conversation_id} {y = id} in
        (x, ground arith, omega arith);
    context_kept = λ id first last k h l. refl;
    member_kept = λ s u x h.
        let by_space =
          ap (λ i. find (of_member i k.member_user_id) d.conversations) {x = k.space_id} {y = s} in
        let by_user =
          ap (λ i. find (of_member s i) d.conversations) {x = k.member_user_id} {y = u} in
        (x, ground arith, refl);
    request_kept = λ id key p h. h;
  }

  -- A head that moves on leaves the conversation to its member.
  bumped_member :
      (i s u : ℕ) (k : Conversation)
      → find (of_member s u) d.conversations ≡ some k
      → (x : Conversation) × (find (of_member s u) (bump i d.conversations) ≡ some x)
        × (x.conversation_id ≡ k.conversation_id)
  bumped_member i s u k h = (
    amend (conversation_with i) bumped k,
    find-update (of_member s u) (conversation_with i) bumped (λ x. refl) d.conversations h,
    ground arith,
  )

  -- A new message takes no key that was taken.
  speak_request :
      (p : Post)
      → ((id : ℕ) (key : Text) → requested id key p ≡ true → any (requested id key) d.posts ≡ false)
      → (id : ℕ) (key : Text) (q : Post) → find (requested id key) d.posts ≡ some q
      → find (requested id key) (p ∷ d.posts) ≡ some q
  speak_request p unheard id key q h =
      let there = find-any (requested id key) d.posts h in
      elim (Bool-cases (requested id key p)) [
        | inr e ↦ rw e h
        | inl e ↦ absurd (let none_yet = unheard id key e in ground arith)
      ]

  bumped_head :
      (i id : ℕ) (k : Conversation)
      → find (conversation_with id) d.conversations ≡ some k
      → (x : Conversation) × (find (conversation_with id) (bump i d.conversations) ≡ some x)
        × (k.message_head_seq ≤ x.message_head_seq)
  bumped_head i id k h = (
    amend (conversation_with i) bumped k,
    find-update (conversation_with id) (conversation_with i) bumped (λ x. refl) d.conversations h,
    ground arith,
  )

  -- A message is added after the head.
  speak_context :
      (k : Conversation) (p : Post)
      → find (conversation_with p.conversation_id) d.conversations ≡ some k
      → p.message_seq ≡ k.message_head_seq + 1
      → (id first last : ℕ) (x : Conversation)
      → find (conversation_with id) d.conversations ≡ some x
      → last ≤ x.message_head_seq
      → select (in_context id first last) (p ∷ d.posts) ≡ select (in_context id first last) d.posts
  speak_context k p hk next id first last x hx l =
      let move =
        ap (λ i. find (conversation_with i) d.conversations) {x = p.conversation_id} {y = id} in
      elim (Bool-cases (p.conversation_id == id)) [
        | inr e ↦ ground arith
        | inl e ↦
            let one : some k ≡ some x = sym hk ∙ (move (ground arith) ∙ hx) in
            let same : k.message_head_seq ≡ x.message_head_seq = ground arith in ground arith
      ]

  pub reply-Forward :
      (k : Conversation) (p : Post) (q : ReplyRow → Bool) (f : ReplyRow → ReplyRow)
      → find (conversation_with p.conversation_id) d.conversations ≡ some k
      → p.message_seq ≡ k.message_head_seq + 1
      → ((id : ℕ) (key : Text) → requested id key p ≡ true → any (requested id key) d.posts ≡ false)
      → ((c : ReplyRow) → (f c).source_message_id ≡ c.source_message_id)
      → ((c : ReplyRow)
          → q c ≡ true
          → find (reply_with c.source_message_id) d.replies ≡ some c
          → Onward c (f c))
      → Forward d (record d {
        conversations = bump p.conversation_id d.conversations;
        posts = p ∷ d.posts;
        replies = update q f d.replies;
      })
  reply-Forward k p q f hk next unheard key step = record {
    reply_kept = updated_reply q f key step;
    head_kept = bumped_head p.conversation_id;
    context_kept = speak_context k p hk next;
    member_kept = bumped_member p.conversation_id;
    request_kept = speak_request p unheard;
  }

  pub message-Forward :
      (k : Conversation) (p : Post)
      → find (conversation_with p.conversation_id) d.conversations ≡ some k
      → p.message_seq ≡ k.message_head_seq + 1
      → ((id : ℕ) (key : Text) → requested id key p ≡ true → any (requested id key) d.posts ≡ false)
      → any (reply_with p.message_id) d.replies ≡ false
      → Forward d (record d {
        conversations = bump p.conversation_id d.conversations;
        posts = p ∷ d.posts;
        replies = new_reply p.message_id p.conversation_id ∷ d.replies;
      })
  message-Forward k p hk next unheard fresh = record {
    reply_kept = λ id c h.
        let there = find-any (reply_with id) d.replies h in
        let move = ap (λ i. any (reply_with i) d.replies) {x = p.message_id} {y = id} in
        (c, ground arith, Onward-refl c);
    head_kept = bumped_head p.conversation_id;
    context_kept = speak_context k p hk next;
    member_kept = bumped_member p.conversation_id;
    request_kept = speak_request p unheard;
  }
