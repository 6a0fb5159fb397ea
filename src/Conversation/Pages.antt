-- ===== src/Conversation/Pages.antt =====
-- The pages of ListConversationMessages of internal/postgres/conversation.go.
use carry.Prelude.{
  ℕ, ◌<◌, true, ◌&&◌, ◌==◌, List, [], ◌∷◌, Option, none, ◌≡◌, ◌⊎◌, refl, ◌∙◌, subst, sym, ap, inl,
  inr, arith, ltb, map, take, select, sort_by, Option-cases, Bool-cases, Memᴰ, find, find_sound,
  find-mem,
}
use carry.Result.{ok, >>=-eq-ok}
use carry.Execution.Retry.{Identifier, principal, column, is_blank, require_membership}
use carry.Conversation.Tables.{Chat, Conversation, Post}
use carry.Conversation.Posts.{
  find_conversation, cursor_sequence, in_conversation, post_seq, with_work, last_page, of_member,
  list_newest_messages, list_messages_before, list_messages_after,
}
use carry.Conversation.Send.{
  ListCommand, identity, valid_space, check_cursors, cursor_of, list_page, Message, restore_message,
  list_message_rows, list_conversation_messages,
}
use carry.Conversation.Shown.{Page, Older, Newer, last_page-Page, opening-Page}

-- The cursor names a message of the conversation, with this number.
abbrev pub Names : Identifier → Conversation → Chat → ℕ → Type 0
Names cursor k d n =
    (message_id : ℕ) × (m : Post) × (column cursor ≡ ok message_id)
    × Memᴰ m d.posts
    × (m.message_id ≡ message_id)
    × (m.conversation_id ≡ k.conversation_id)
    × (m.message_seq ≡ n)

-- What a list with the given cursors shows of a conversation: the newest messages, those before the
-- message of the one cursor, or those after that of the other.
abbrev pub Listed : Identifier → Identifier → Conversation → Chat → List Post → Type 0
Listed before after k d ps =
    ((is_blank before ≡ true)
      × (is_blank after ≡ true)
      × Page (λ p. p.conversation_id ≡ k.conversation_id) Older d ps)
    ⊎ (((n : ℕ) × Names before k d n
          × Page (λ p. (p.conversation_id ≡ k.conversation_id) × (p.message_seq < n)) Older d ps)
        ⊎ ((n : ℕ) × (is_blank before ≡ true)
            × Names after k d n
            × Page (λ p. (p.conversation_id ≡ k.conversation_id) × (n < p.message_seq)) Newer d ps))

cursor_of-Names :
    (cursor : Identifier) (k : Conversation) (d : Chat) {n : ℕ}
    → cursor_of k.conversation_id cursor d ≡ ok n
    → Names cursor k d n
unfolding cursor_sequence
cursor_of-Names cursor k d {n} h =
    let (id, e, h1) = >>=-eq-ok (column cursor) _ h in
    let p = λ (x : Post). x.conversation_id == k.conversation_id && x.message_id == id in
    elim (Option-cases (find p d.posts)) [
      | inl s ↦ absurd (ground arith)
      | inr (m, s) ↦
          let hit = find_sound p d.posts s in
          (id, m, e, find-mem p d.posts s, ground arith, ground arith, ground arith)
    ]

list_page-cases :
    (id : ℕ) (before after : Identifier) (d : Chat) {rs : List (Post × Option ℕ)}
    → list_page id before after d ≡ ok rs
    → ((is_blank before ≡ true) × (is_blank after ≡ true) × (list_newest_messages id d ≡ rs))
      ⊎ (((n : ℕ) × (cursor_of id before d ≡ ok n) × (list_messages_before id n d ≡ rs))
          ⊎ ((n : ℕ) × (is_blank before ≡ true)
              × (cursor_of id after d ≡ ok n)
              × (list_messages_after id n d ≡ rs)))
unfolding list_page
list_page-cases id before after d {rs} h = elim (Bool-cases (is_blank before)) [
  | inr b ↦
      let (n, e, h1) =
        >>=-eq-ok (cursor_of id before d) (λ n. ok (list_messages_before id n d)) {w = rs}
          (rw (b, list_page) at h) in
      inr (inl (n, e, ground arith))
  | inl b ↦ elim (Bool-cases (is_blank after)) [
    | inr a ↦
        let (n, e, h1) =
          >>=-eq-ok (cursor_of id after d) (λ n. ok (list_messages_after id n d)) {w = rs}
            (rw (b, a, list_page) at h) in
        inr (inr (n, b, e, ground arith))
    | inl a ↦ inl (b, a, ground arith)
  ]
]

list_page-Listed :
    (before after : Identifier) (k : Conversation) (d : Chat) {rs : List (Post × Option ℕ)}
    → list_page k.conversation_id before after d ≡ ok rs
    → (ps : List Post) × (rs ≡ map (with_work d) ps) × Listed before after k d ps
unfolding list_newest_messages list_messages_before list_messages_after
list_page-Listed before after k d {rs} h =
    let id = k.conversation_id in
    elim (list_page-cases id before after d h) [
      | inl (b, a, e) ↦ (
        last_page (select (in_conversation id) d.posts),
        sym e,
        inl (
          b,
          a,
          last_page-Page (in_conversation id) (λ x. x.conversation_id ≡ id) (λ x t. ground arith)
              (λ x w. ground (arith, w)) d,
        ),
      )
      | inr (inl (n, c, e)) ↦ (
        last_page (select (λ x. in_conversation id x && ltb x.message_seq n) d.posts),
        sym e,
        inr (
            inl (
              n,
              cursor_of-Names before k d c,
              last_page-Page (λ x. in_conversation id x && ltb x.message_seq n)
                  (λ x. (x.conversation_id ≡ id) × (x.message_seq < n))
                  (λ x t. (ground arith, ground arith)) (λ x w. ground (arith, w.0, w.1)) d,
            )),
      )
      | inr (inr (n, b, c, e)) ↦ (
        take 50
            (sort_by post_seq (select (λ x. in_conversation id x && ltb n x.message_seq) d.posts)),
        sym e,
        inr (
            inr (
              n,
              b,
              cursor_of-Names after k d c,
              opening-Page (λ x. in_conversation id x && ltb n x.message_seq)
                  (λ x. (x.conversation_id ≡ id) × (n < x.message_seq))
                  (λ x t. (ground arith, ground arith)) (λ x w. ground (arith, w.0, w.1)) d,
            )),
      )
    ]

-- The messages that a member is shown: none without a conversation, or those of the conversation.
abbrev pub Told : ListCommand → Chat → ℕ → ℕ → List Message → Type 0
Told c d space_id user_id ms =
    ((find (λ (k : Conversation). k.space_id == space_id && k.member_user_id == user_id)
          d.conversations
        ≡ none)
      × (ms ≡ []))
    ⊎ ((k : Conversation) × Memᴰ k d.conversations
        × (k.space_id ≡ space_id)
        × (k.member_user_id ≡ user_id)
        × ((ps : List Post) × (ms ≡ map (λ p. restore_message (with_work d p)) ps)
            × Listed c.before c.after k d ps))

map-map :
    {A B C : Type 0} (f : A → B) (g : B → C) (xs : List A)
    → map g (map f xs) ≡ map (λ x. g (f x)) xs
map-map f g [] = refl
map-map f g (x ∷ xs) = ap (λ ys. g (f x) ∷ ys) (map-map f g xs)

-- A member is shown messages of their own conversation in the space, out of the table, none more often
-- than it is there, by ascending number and at most 50: those before the message of the one cursor, after that of the other, or all
-- without a cursor. A message that is left out is older than all that are shown, or newer if they come
-- after a cursor, and then there are 50. A member without a conversation is shown none.
pub list_conversation_messages-Page :
    (c : ListCommand) (d : Chat) (space_id user_id : ℕ) {ms : List Message}
    → column c.space_id ≡ ok space_id
    → c.member_user_id ≡ principal user_id
    → list_conversation_messages c d ≡ ok ms
    → Told c d space_id user_id ms
unfolding list_conversation_messages list_message_rows find_conversation
list_conversation_messages-Page c d space_id user_id {ms} is_space is_user h =
    let (rs, e, h0) = >>=-eq-ok (list_message_rows c d) _ h in
    let (t, e1, h1) = >>=-eq-ok (valid_space c.space_id) _ e in
    let (u, e2, h2) = >>=-eq-ok (identity c.member_user_id) _ h1 in
    let (x, e3, h3) = >>=-eq-ok (check_cursors c.before c.after) _ h2 in
    let (s, e4, h4) = >>=-eq-ok (column c.space_id) _ h3 in
    let (y, e5, h5) = >>=-eq-ok (require_membership s u d.db) _ h4 in
    let same_space : s ≡ space_id = ground arith in
    let same_user : u ≡ user_id = ground arith in
    subst (λ i. Told c d i user_id ms) same_space
      (subst (λ i. Told c d s i ms) same_user
        (elim (Option-cases (find (of_member s u) d.conversations)) [
          | inl n ↦ inl (n, ground arith)
          | inr (k, n) ↦
              let hit = find_sound (of_member s u) d.conversations n in
              let (ps, same, listed) =
                list_page-Listed c.before c.after k d {rs = rs} (ground arith) in
              inr (
                k,
                find-mem (of_member s u) d.conversations n,
                ground arith,
                ground arith,
                (
                  ps,
                  (ground arith ∙ ap (map restore_message) same)
                      ∙ map-map (with_work d) restore_message ps,
                  listed,
                ),
              )
        ]))
