-- ===== src/Conversation/Sent.antt =====
-- A message that is sent again (internal/postgres/conversation.go): it is told again.
use carry.Prelude.{
  ℕ, ◌+◌, true, none, some, ◌≡◌, inl, inr, refl, ap, sym, subst, ◌∙◌, arith, find, find-update,
  mem-find, find-mem, amend, Bool-cases, Option-cases, ==_refl,
}
use carry.Result.{ok, or_fail, >>=-eq-ok, >>=-ok, database}
use carry.Text.{Text, text_eq, text_eq_iff}
use carry.Work.{normalize_idempotency_key}
use carry.Execution.Claim.{text_value}
use carry.Execution.Retry.{require_membership, principal, column}
use carry.Conversation.Message.{normalize_text}
use carry.Conversation.Tables.{Chat, Conversation, Post, conversation_with}
use carry.Conversation.Posts.{
  find_conversation, ensure_conversation, lock_conversation, find_member_request,
  has_unresolved_reply, of_member, requested,
}
use carry.Conversation.Send.{
  SendCommand, Message, identity, valid_space, admit_message, send_locked,
  send_conversation_message, private_digest, restore_message,
}
use carry.Conversation.Numbered.{bumped}
use carry.Conversation.Alternates.{Alternates}
use carry.Conversation.Sending.{admit_message_inv, member_post}
use carry.Conversation.Forward.{Forward}
use carry.Conversation.Talk.{Talk, Talk-Alternates, Turn-Alternates, sends}
use carry.Conversation.Histories.{Talk-Forward}

ensure_conversation_found :
    (conversation_id space_id user_id : ℕ) (d : Chat) {k : Conversation} {d' : Chat}
    → ensure_conversation conversation_id space_id user_id d ≡ ok (k, d')
    → find (of_member space_id user_id) d'.conversations ≡ some k
unfolding ensure_conversation find_conversation
ensure_conversation_found conversation_id space_id user_id d h =
    elim (Option-cases (find (of_member space_id user_id) d.conversations)) [
      | inr (old, e) ↦ ground arith
      | inl e ↦ ground (arith, ==_refl space_id, ==_refl user_id)
    ]

ensure_conversation_again :
    (conversation_id space_id user_id : ℕ) (d : Chat) (k : Conversation)
    → find (of_member space_id user_id) d.conversations ≡ some k
    → ensure_conversation conversation_id space_id user_id d ≡ ok (k, d)
unfolding ensure_conversation find_conversation
ensure_conversation_again conversation_id space_id user_id d k h = ground arith

-- A message that is in the conversation of its member, with the digest of its text.
record Kept (space_id user_id : ℕ) (key digest : Text) (m : Message) (d : Chat) : Type 0 where
  conversation : Conversation
  of_it : find (of_member space_id user_id) d.conversations ≡ some conversation
  post : Post
  request : find (requested conversation.conversation_id key) d.posts ≡ some post
  same : text_eq (text_value post.request_digest) digest ≡ true
  told : m ≡ restore_message (post, none)

Kept-Forward :
    (space_id user_id : ℕ) (key digest : Text) (m : Message) (d e : Chat)
    → Forward d e
    → Kept space_id user_id key digest m d
    → Kept space_id user_id key digest m e
Kept-Forward space_id user_id key digest m d e f a =
    let (x, hx, i) = f.member_kept space_id user_id a.conversation a.of_it in
    record {
      conversation = x;
      of_it = hx;
      post = a.post;
      request =
          subst (λ n. find (requested n key) e.posts ≡ some a.post) (sym i)
            (f.request_kept a.conversation.conversation_id key a.post a.request);
      same = a.same;
      told = a.told;
    }

admit_message-Kept :
    (now message_id space_id user_id : ℕ) (k : Conversation) (text key digest : Text) (d : Chat)
    {m : Message} {d' : Chat}
    → find (of_member space_id user_id) d.conversations ≡ some k
    → admit_message now message_id k.conversation_id user_id text key digest d ≡ ok (m, d')
    → Kept space_id user_id key digest m d'
admit_message-Kept now message_id space_id user_id k text key digest d {m} {d'} found h =
    let id = k.conversation_id in
    let a = admit_message_inv now message_id id user_id text key digest d h in
    let p =
      member_post now message_id id (a.conversation.message_head_seq + 1) user_id text key digest in
    let mine : requested id key p ≡ true =
      ground (arith, ==_refl id, (text_eq_iff key key).1 refl) in
    subst (Kept space_id user_id key digest m) (sym a.after) (record {
      conversation = amend (conversation_with id) bumped k;
      of_it =
          find-update (of_member space_id user_id) (conversation_with id) bumped (λ x. refl)
            d.conversations found;
      post = p;
      request = ground (arith, mine);
      same = (text_eq_iff digest digest).1 refl;
      told = a.told;
    })

send_locked-Kept :
    (now message_id space_id user_id : ℕ) (k : Conversation) (text key digest : Text) (d : Chat)
    {m : Message} {d' : Chat}
    → find (of_member space_id user_id) d.conversations ≡ some k
    → send_locked now message_id k.conversation_id user_id text key digest d ≡ ok (m, d')
    → Kept space_id user_id key digest m d'
unfolding send_locked find_member_request
send_locked-Kept now message_id space_id user_id k text key digest d {m} {d'} found h =
    elim (Option-cases (find (requested k.conversation_id key) d.posts)) [
      | inl e ↦ elim (Bool-cases (has_unresolved_reply k.conversation_id d)) [
        | inl b ↦ absurd (ground arith)
        | inr b ↦
            admit_message-Kept now message_id space_id user_id k text key digest d {m = m} found
              (ground arith)
      ]
      | inr (p, e) ↦ elim (Bool-cases (text_eq (text_value p.request_digest) digest)) [
        | inr b ↦ absurd (ground arith)
        | inl b ↦
            let told : restore_message (p, none) ≡ m = ground arith in
            let it : d ≡ d' = ground arith in
            subst (Kept space_id user_id key digest m) it (record {
              conversation = k;
              of_it = found;
              post = p;
              request = e;
              same = b;
              told = sym told;
            })
      ]
    ]

send_locked_again :
    (now message_id id user_id : ℕ) (text key digest : Text) (d : Chat) (p : Post)
    → find (requested id key) d.posts ≡ some p
    → text_eq (text_value p.request_digest) digest ≡ true
    → send_locked now message_id id user_id text key digest d ≡ ok (restore_message (p, none), d)
unfolding send_locked find_member_request
send_locked_again now message_id id user_id text key digest d p h same = ground arith

module _ (sha256 : Text → Text) (spell : ℕ → Text) where
  -- What is told again, and that nothing changes.
  send_again :
      (now new_id message_id space_id user_id : ℕ) (text key : Text) (c : SendCommand) (m : Message)
      (d : Chat)
      → Alternates d
      → valid_space c.space_id ≡ ok tt
      → column c.space_id ≡ ok space_id
      → identity c.member_user_id ≡ ok user_id
      → normalize_text c.text ≡ ok text
      → normalize_idempotency_key c.idempotency_key ≡ ok key
      → require_membership space_id user_id d.db ≡ ok tt
      → Kept space_id user_id key (private_digest sha256 spell c.space_id c.member_user_id text) m d
      → send_conversation_message sha256 spell now new_id message_id c d ≡ ok (m, d)
  unfolding send_conversation_message lock_conversation
  send_again now new_id message_id space_id user_id text key c m d v valid is_space is_user is_text
        is_key member a =
      let k = a.conversation in
      let there : find (conversation_with k.conversation_id) d.conversations ≡ some k =
        mem-find (conversation_with k.conversation_id) d.conversations
          (v.numbers.conversations_once k.conversation_id) (==_refl k.conversation_id)
          (find-mem (of_member space_id user_id) d.conversations a.of_it) in
      >>=-ok (valid_space c.space_id) _ valid (
        >>=-ok (identity c.member_user_id) _ is_user (
          >>=-ok (normalize_text c.text) _ is_text (
            >>=-ok (normalize_idempotency_key c.idempotency_key) _ is_key (
              >>=-ok (column c.space_id) _ is_space (
                >>=-ok (require_membership space_id user_id d.db) _ member (
                  >>=-ok (ensure_conversation new_id space_id user_id d) _
                    (ensure_conversation_again new_id space_id user_id d k a.of_it)
                    (>>=-ok (or_fail (lock_conversation k.conversation_id d) database) _ {v = k}
                      (ground (arith, there))
                      (send_locked_again now message_id k.conversation_id user_id text key
                          (private_digest sha256 spell c.space_id c.member_user_id text) d a.post
                          a.request a.same
                        ∙ ap (λ x. ok (x, d)) (sym a.told)))))))))

  -- A message that was sent gives the same message when its command is sent again after any further
  -- history, and changes nothing: there is one message and one reply. The member is in the space by
  -- then; the conversations are in turn before the first.
  pub send_conversation_message_once :
      (now new_id message_id : ℕ) (c : SendCommand) {m : Message} {d d1 e : Chat}
      → Alternates d
      → send_conversation_message sha256 spell now new_id message_id c d ≡ ok (m, d1)
      → Talk sha256 spell d1 e
      → (space_id user_id : ℕ) → column c.space_id ≡ ok space_id
      → c.member_user_id ≡ principal user_id
      → require_membership space_id user_id e.db ≡ ok tt
      → (later other_id other_message : ℕ)
      → send_conversation_message sha256 spell later other_id other_message c e ≡ ok (m, e)
  unfolding send_conversation_message
  send_conversation_message_once now new_id message_id c {m} {d} {d1} {e} v h p space_id user_id
        is_space is_user member later other_id other_message =
      let w = Turn-Alternates sha256 spell (sends now new_id message_id c m h) v in
      let (u1, e1, h1) = >>=-eq-ok (valid_space c.space_id) _ h in
      let (user, e2, h2) = >>=-eq-ok (identity c.member_user_id) _ h1 in
      let (text, e3, h3) = >>=-eq-ok (normalize_text c.text) _ h2 in
      let (key, e4, h4) = >>=-eq-ok (normalize_idempotency_key c.idempotency_key) _ h3 in
      let (space, es, hs) = >>=-eq-ok (column c.space_id) _ h4 in
      let (u, e5, h5) = >>=-eq-ok (require_membership space user d.db) _ hs in
      let ((k, d0), e6, h6) = >>=-eq-ok (ensure_conversation new_id space user d) _ h5 in
      let (l, e7, h7) =
        >>=-eq-ok (or_fail (lock_conversation k.conversation_id d0) database) _ h6 in
      let kept =
        send_locked-Kept now message_id space user k text key
          (private_digest sha256 spell c.space_id c.member_user_id text) d0
          (ensure_conversation_found new_id space user d e6) h7 in
      let same_space : space_id ≡ space = ground arith in
      let same_user : user_id ≡ user = ground arith in
      send_again later other_id other_message space user text key c m e
        (Talk-Alternates sha256 spell p w) e1 es e2 e3 e4
        (subst (λ i. require_membership i user e.db ≡ ok tt) same_space
          (subst (λ i. require_membership space_id i e.db ≡ ok tt) same_user member))
        (Kept-Forward space user key (private_digest sha256 spell c.space_id c.member_user_id text)
          m d1 e (Talk-Forward sha256 spell p w) kept)
