-- ===== src/Conversation/Posts.antt =====
-- internal/postgres/dbsqlc/conversation.sql.go: the statements of SendConversationMessage and
-- ListConversationMessages.
use carry.Prelude.{
  ℕ, ◌+◌, Bool, false, ◌&&◌, ◌||◌, List, ◌∷◌, Option, none, some, ltb, ◌==◌, if◌then◌else◌, find,
  update, any, select, sort_by, map, take, reverse,
}
use carry.Result.{Result, ok, err, database}
use carry.Text.{Text, text_eq}
use carry.Conversation.Context.{author_member}
use carry.Conversation.Tables.{
  Chat, Conversation, Post, ReplyRow, conversation_with, post_with, reply_with, by_member, is_some,
  unresolved,
}

abbrev pub of_member : ℕ → ℕ → Conversation → Bool
of_member space_id user_id k = k.space_id == space_id && k.member_user_id == user_id

-- FindConversation.
unfoldable pub find_conversation : ℕ → ℕ → Chat → Option Conversation
find_conversation space_id user_id d = find (of_member space_id user_id) d.conversations

-- EnsureConversation: the conversation of the member, a new one if there is none; an error if the
-- uuid is taken.
unfoldable pub ensure_conversation : ℕ → ℕ → ℕ → Chat → Result (Conversation × Chat)
unfolding find_conversation
ensure_conversation conversation_id space_id user_id d =
    let k : Conversation = record {
      conversation_id = conversation_id;
      space_id = space_id;
      member_user_id = user_id;
      message_head_seq = 0;
    } in
    elim (find_conversation space_id user_id d) [
      | some old ↦ ok (old, d)
      | none ↦
          if any (conversation_with conversation_id) d.conversations
          then err database
          else ok (k, record d { conversations = k ∷ d.conversations })
    ]

-- LockConversation.
unfoldable pub lock_conversation : ℕ → Chat → Option Conversation
lock_conversation id d = find (conversation_with id) d.conversations

abbrev pub same_text : Text → Option Text → Bool
same_text t none = false
same_text t (some s) = text_eq s t

abbrev pub requested : ℕ → Text → Post → Bool
requested id key p =
    p.conversation_id == id && by_member p.author && same_text key p.member_request_id

-- FindConversationMemberRequest.
unfoldable pub find_member_request : ℕ → Text → Chat → Option Post
find_member_request id key d = find (requested id key) d.posts

-- ConversationHasUnresolvedReply.
unfoldable pub has_unresolved_reply : ℕ → Chat → Bool
has_unresolved_reply id d = any (unresolved id) d.replies

-- AdvanceConversationMessageHead.
unfoldable pub advance_message_head : ℕ → Chat → Option (ℕ × Chat)
advance_message_head id d = elim (find (conversation_with id) d.conversations) [
  | none ↦ none
  | some k ↦ some (
    k.message_head_seq + 1,
    record d {
      conversations =
          update (conversation_with id)
            (λ c. record c { message_head_seq = c.message_head_seq + 1 }) d.conversations;
    },
  )
]

abbrev pub at_seq : ℕ → ℕ → Post → Bool
at_seq id seq p = p.conversation_id == id && p.message_seq == seq

-- CreateConversationMemberMessage. A taken uuid, number or key is an error.
unfoldable pub create_member_message :
    ℕ → ℕ → ℕ → ℕ → ℕ → Text → Text → Text → Chat → Result (Post × Chat)
create_member_message now message_id id seq user_id text key digest d =
    let p : Post = record {
      message_id = message_id;
      conversation_id = id;
      message_seq = seq;
      author = author_member;
      author_user_id = some user_id;
      text = text;
      member_request_id = some key;
      request_digest = some digest;
      reply_to_member_message_id = none;
      created_at = now;
    } in
    if any (post_with message_id) d.posts
      || any (at_seq id seq) d.posts
      || any (requested id key) d.posts
    then err database
    else ok (p, record d { posts = p ∷ d.posts })

-- The row that CreateConversationReplyClaim inserts.
abbrev pub new_reply : ℕ → ℕ → ReplyRow
new_reply source_message_id conversation_id = record {
  source_message_id = source_message_id;
  conversation_id = conversation_id;
  current_machine_id = none;
  current_fence = 0;
  lease_expires_at = none;
  context_start_seq = none;
  context_end_seq = none;
  output_digest = none;
  committed_reply_message_id = none;
  created_work_id = none;
}

-- CreateConversationReplyClaim. A taken key or another unresolved reply is an error.
unfoldable pub create_reply_claim : ℕ → ℕ → Chat → Result Chat
create_reply_claim source_message_id conversation_id d =
    if any (reply_with source_message_id) d.replies || any (unresolved conversation_id) d.replies
    then err database
    else ok (record d { replies = new_reply source_message_id conversation_id ∷ d.replies })

-- ConversationCursorSequence.
unfoldable pub cursor_sequence : ℕ → ℕ → Chat → Option ℕ
cursor_sequence id message_id d =
    elim (find (λ p. p.conversation_id == id && p.message_id == message_id) d.posts) [
      | none ↦ none
      | some p ↦ some p.message_seq
    ]

abbrev pub post_seq : Post → ℕ
post_seq p = p.message_seq

abbrev pub in_conversation : ℕ → Post → Bool
in_conversation id p = p.conversation_id == id

-- The `LEFT JOIN` on the committed reply.
abbrev pub with_work : Chat → Post → Post × Option ℕ
with_work d p = (
  p,
  elim (find (λ c. is_some p.message_id c.committed_reply_message_id) d.replies) [
    | none ↦ none
    | some c ↦ c.created_work_id
  ],
)

-- `ORDER BY message_seq DESC LIMIT 50`, put back in ascending order.
abbrev pub last_page : List Post → List Post
last_page ps = reverse (take 50 (reverse (sort_by post_seq ps)))

-- ListNewestConversationMessages.
unfoldable pub list_newest_messages : ℕ → Chat → List (Post × Option ℕ)
list_newest_messages id d = map (with_work d) (last_page (select (in_conversation id) d.posts))

-- ListConversationMessagesBefore.
unfoldable pub list_messages_before : ℕ → ℕ → Chat → List (Post × Option ℕ)
list_messages_before id cursor d =
    map (with_work d)
      (last_page (select (λ p. in_conversation id p && ltb p.message_seq cursor) d.posts))

-- ListConversationMessagesAfter.
unfoldable pub list_messages_after : ℕ → ℕ → Chat → List (Post × Option ℕ)
list_messages_after id cursor d = map (with_work d) (
    take 50
      (sort_by post_seq (select (λ p. in_conversation id p && ltb cursor p.message_seq) d.posts)))
