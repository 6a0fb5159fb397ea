-- ===== src/Conversation/Claims.antt =====
-- internal/postgres/dbsqlc/conversation.sql.go: the statements of ClaimConversationReply,
-- RenewConversationReply and CommitConversationReply. `SKIP LOCKED` leaves out the rows that other
-- transactions hold: which they are is an argument.
use carry.Prelude.{
  ℕ, ◌+◌, Bool, false, ◌&&◌, ◌||◌, not, List, ◌∷◌, Option, none, some, ltb, leb, ◌==◌,
  if◌then◌else◌, find, update, count, any, select, select_map, sort_by, first_by, take, reverse,
}
use carry.Result.{Result, ok, err, database}
use carry.Text.{Text}
use carry.Store.Tables.{Db, Membership, is_null, lease_interval}
use carry.Conversation.Context.{author_carry}
use carry.Conversation.Tables.{
  Chat, Conversation, Post, ReplyRow, conversation_with, post_with, reply_with, is_some,
}
use carry.Conversation.Posts.{at_seq, in_conversation, post_seq}

-- A reply with its conversation and its source, while the member is in the space.
pub record Joined : Type 0 where
  pub reply : ReplyRow
  pub conversation : Conversation
  pub source : Post

abbrev pub is_member : ℕ → ℕ → Membership → Bool
is_member space_id user_id m = m.space_id == space_id && m.user_id == user_id

-- The membership of the join is not revoked.
abbrev pub stays : Db → Conversation → Bool
stays db k = elim (find (is_member k.space_id k.member_user_id) db.memberships) [
  | none ↦ false
  | some m ↦ is_null m.revoked_at
]

-- The join of LockConversationReplyForClaim and LockConversationReplyForCommit.
unfoldable pub join_reply : ℕ → Chat → ReplyRow → Option Joined
join_reply space_id d c = elim (find (conversation_with c.conversation_id) d.conversations) [
  | none ↦ none
  | some k ↦ elim (find (post_with c.source_message_id) d.posts) [
    | none ↦ none
    | some p ↦
        if k.space_id == space_id && stays d.db k
        then some (record { reply = c; conversation = k; source = p })
        else none
  ]
]

-- `lease_expires_at <= clock_timestamp()`, which does not hold of a missing time.
abbrev pub ran_out : ℕ → Option ℕ → Bool
ran_out now none = false
ran_out now (some t) = leb t now

-- `lease_expires_at > clock_timestamp()`.
abbrev pub runs_on : ℕ → Option ℕ → Bool
runs_on now none = false
runs_on now (some t) = ltb now t

-- Nobody has committed the reply, and nobody holds it or the lease has run out.
abbrev pub is_free : ℕ → ReplyRow → Bool
is_free now c =
    is_null c.committed_reply_message_id
    && (is_null c.current_machine_id || ran_out now c.lease_expires_at)

-- `ORDER BY source.created_at, source.message_id`.
abbrev pub asked_before : Joined → Joined → Bool
asked_before a b =
    ltb a.source.created_at b.source.created_at
    || (a.source.created_at == b.source.created_at && ltb a.source.message_id b.source.message_id)

-- LockConversationReplyForClaim.
unfoldable pub lock_reply_for_claim : ℕ → (ℕ → Bool) → ℕ → Chat → Option Joined
lock_reply_for_claim now locked space_id d = first_by asked_before (
    select (λ j. is_free now j.reply && not (locked j.reply.source_message_id))
      (select_map (join_reply space_id d) d.replies))

-- ListConversationContextCandidates.
unfoldable pub list_context_candidates : ℕ → ℕ → Chat → List Post
list_context_candidates id end_seq d = reverse (
    take 32 (
      reverse (
        sort_by post_seq
          (select (λ p. in_conversation id p && leb p.message_seq end_seq) d.posts))))

abbrev pub assignable : ℕ → ℕ → ℕ → ReplyRow → Bool
assignable now source_message_id fence c =
    c.source_message_id == source_message_id && c.current_fence == fence && is_free now c

abbrev pub assigned : ℕ → ℕ → ℕ → ℕ → ReplyRow → ReplyRow
assigned now machine_id start_seq end_seq c = record c {
  current_machine_id = some machine_id;
  current_fence = c.current_fence + 1;
  lease_expires_at = some (now + lease_interval);
  context_start_seq = some start_seq;
  context_end_seq = some end_seq;
}

-- AssignConversationReply: the new fence and the end of the lease.
unfoldable pub assign_reply : ℕ → ℕ → ℕ → ℕ → ℕ → ℕ → Chat → Option (ℕ × ℕ × Chat)
assign_reply now machine_id start_seq end_seq source_message_id fence d =
    if any (assignable now source_message_id fence) d.replies
    then some (
      fence + 1,
      now + lease_interval,
      record d {
        replies =
            update (assignable now source_message_id fence)
              (assigned now machine_id start_seq end_seq) d.replies;
      },
    )
    else none

abbrev pub in_context : ℕ → ℕ → ℕ → Post → Bool
in_context id start_seq end_seq p =
    in_conversation id p && leb start_seq p.message_seq && leb p.message_seq end_seq

-- ListFixedConversationReplyContext.
unfoldable pub list_fixed_context : ℕ → ℕ → ℕ → Chat → List Post
list_fixed_context id start_seq end_seq d =
    sort_by post_seq (select (in_context id start_seq end_seq) d.posts)

-- The reply is held by the machine under the fence, with a lease that has not run out.
abbrev pub is_held : ℕ → ℕ → ℕ → ℕ → ReplyRow → Bool
is_held now source_message_id machine_id fence c =
    c.source_message_id == source_message_id
    && is_some machine_id c.current_machine_id
    && c.current_fence == fence
    && runs_on now c.lease_expires_at
    && is_null c.committed_reply_message_id

-- LockConversationReplyForRenew, whose join needs no source.
unfoldable pub lock_reply_for_renew : ℕ → ℕ → ℕ → ℕ → ℕ → Chat → Option ℕ
lock_reply_for_renew now source_message_id space_id machine_id fence d =
    elim (find (reply_with source_message_id) d.replies) [
      | none ↦ none
      | some c ↦ elim (find (conversation_with c.conversation_id) d.conversations) [
        | none ↦ none
        | some k ↦
            if k.space_id == space_id
              && stays d.db k
              && is_held now source_message_id machine_id fence c
            then some c.source_message_id
            else none
      ]
    ]

-- ExtendConversationReplyLease.
unfoldable pub extend_reply_lease : ℕ → ℕ → ℕ → ℕ → Chat → Option (ℕ × Chat)
extend_reply_lease now source_message_id machine_id fence d =
    if any (is_held now source_message_id machine_id fence) d.replies
    then some (
      now + lease_interval,
      record d {
        replies =
            update (is_held now source_message_id machine_id fence)
              (λ c. record c { lease_expires_at = some (now + lease_interval) }) d.replies;
      },
    )
    else none

-- LockConversationReplyForCommit.
unfoldable pub lock_reply_for_commit : ℕ → ℕ → Chat → Option Joined
lock_reply_for_commit source_message_id space_id d =
    elim (find (reply_with source_message_id) d.replies) [
      | none ↦ none
      | some c ↦ join_reply space_id d c
    ]

-- ConversationReplyLeaseIsCurrent.
unfoldable pub reply_lease_is_current : ℕ → ℕ → Chat → Option Bool
reply_lease_is_current now source_message_id d =
    elim (find (reply_with source_message_id) d.replies) [
      | none ↦ none
      | some c ↦ elim c.lease_expires_at [ none ↦ none | some t ↦ some (ltb now t) ]
    ]

abbrev pub replies_to : ℕ → Post → Bool
replies_to id p = is_some id p.reply_to_member_message_id

-- The row that CreateConversationCarryReply inserts.
abbrev pub carry_reply : ℕ → ℕ → ℕ → ℕ → Text → ℕ → Post
carry_reply now message_id id seq text source_message_id = record {
  message_id = message_id;
  conversation_id = id;
  message_seq = seq;
  author = author_carry;
  author_user_id = none;
  text = text;
  member_request_id = none;
  request_digest = none;
  reply_to_member_message_id = some source_message_id;
  created_at = now;
}

-- CreateConversationCarryReply. A taken uuid or number or another reply to the source is an error.
unfoldable pub create_carry_reply : ℕ → ℕ → ℕ → ℕ → Text → ℕ → Chat → Result Chat
create_carry_reply now message_id id seq text source_message_id d =
    if any (post_with message_id) d.posts
      || any (at_seq id seq) d.posts
      || any (replies_to source_message_id) d.posts
    then err database
    else ok
        (record d { posts = carry_reply now message_id id seq text source_message_id ∷ d.posts })

abbrev pub completed : Text → ℕ → Option ℕ → ReplyRow → ReplyRow
completed digest reply_id work_id c = record c {
  output_digest = some digest;
  committed_reply_message_id = some reply_id;
  created_work_id = work_id;
}

-- CompleteConversationReply, with the number of rows.
unfoldable pub complete_reply : ℕ → Text → ℕ → Option ℕ → ℕ → ℕ → ℕ → Chat → ℕ × Chat
complete_reply now digest reply_id work_id source_message_id machine_id fence d = (
  count (is_held now source_message_id machine_id fence) d.replies,
  record d {
    replies =
        update (is_held now source_message_id machine_id fence) (completed digest reply_id work_id)
          d.replies;
  },
)
