-- ===== src/Examples/Chats.antt =====
-- A private conversation: a message, two claims of its reply, and the commit of the second.
use carry.Prelude.{ℕ, ◌+◌, Bool, [], ◌∷◌, none, some, false, ◌≡◌, refl}
use carry.Result.{ok}
use carry.Text.{Text, codes, trim_space, valid_text}
use carry.Digest.{encode_fields}
use carry.Work.{normalize_goal, normalize_idempotency_key}
use carry.Store.Tables.{Db, lease_interval}
use carry.Store.Claims.{lock_claiming_machine}
use carry.Store.Works.{insert_work, new_work}
use carry.Store.Retries.{lock_active_work_membership}
use carry.Works.Create.{create_digest}
use carry.Execution.Retry.{principal, uuid, require_membership}
use carry.Conversation.Context.{author_member, take_newest, fixed_context_suffix}
use carry.Conversation.Message.{reply_fields, normalize_text, normalize_reply_candidate}
use carry.Conversation.Tables.{Chat, Conversation, Post}
use carry.Conversation.Posts.{
  find_conversation, ensure_conversation, lock_conversation, find_member_request,
  has_unresolved_reply, advance_message_head, create_member_message, create_reply_claim, new_reply,
}
use carry.Conversation.Claims.{
  Joined, join_reply, lock_reply_for_claim, list_context_candidates, assign_reply, assigned,
  list_fixed_context, lock_reply_for_commit, reply_lease_is_current, create_carry_reply,
  complete_reply,
}
use carry.Conversation.Send.{
  SendCommand, private_digest, admit_message, send_locked, send_conversation_message,
  restore_message,
}
use carry.Conversation.Reply.{
  ReplyClaim, lock_active_reply_machine, fixed_reply_context_range, load_fixed_reply_context,
  claim_locked, claim_conversation_reply,
}
use carry.Conversation.Commit.{
  CommitReplyCommand, CommitReplyResult, NewIds, CommitClock, create_delegated_work, delegate,
  write_reply, commit_new, commit_locked, commit_conversation_reply,
}
use carry.Conversation.Sending.{member_post}
use carry.Conversation.Answer.{answered}
use carry.Examples.Scene.{hash, spell, empty_db, late}
use carry.Examples.Conversations.{candidate, tidy}

abbrev pub no_chat : Chat
no_chat = record { db = empty_db; conversations = []; posts = []; replies = [] }

abbrev pub send_command : SendCommand
send_command = record {
  space_id = uuid 1;
  member_user_id = principal 3;
  text = codes " hello";
  idempotency_key = codes "q1";
}

abbrev pub private_one : Conversation
private_one = record {
  conversation_id = 20;
  space_id = 1;
  member_user_id = 3;
  message_head_seq = 1;
}

abbrev pub hello : Post
hello =
    member_post 10 21 20 1 3 (codes "hello") (codes "q1")
      (private_digest hash spell (uuid 1) (principal 3) (codes "hello"))

abbrev pub sent_chat : Chat
sent_chat = record {
  db = empty_db;
  conversations = private_one ∷ [];
  posts = hello ∷ [];
  replies = new_reply 21 20 ∷ [];
}

pub sent :
    send_conversation_message hash spell 10 20 21 send_command no_chat
    ≡ ok (restore_message (hello, none), sent_chat)
unfolding send_conversation_message normalize_text normalize_goal trim_space valid_text
    normalize_idempotency_key require_membership lock_active_work_membership ensure_conversation
    find_conversation lock_conversation send_locked find_member_request has_unresolved_reply
    admit_message advance_message_head create_member_message create_reply_claim
sent = refl

abbrev pub none_locked : ℕ → Bool
none_locked n = false

abbrev pub claim_of : ℕ → ℕ → ReplyClaim
claim_of fence now = record {
  source_message_id = 21;
  fence = fence;
  lease_expires_at = now + lease_interval;
  messages = record { author = author_member; text = codes "hello" } ∷ [];
}

abbrev pub held_chat : Chat
held_chat = record sent_chat { replies = assigned 20 7 1 1 (new_reply 21 20) ∷ [] }

pub held :
    claim_conversation_reply 20 20 none_locked (principal 7) sent_chat
    ≡ ok (claim_of 1 20, held_chat)
unfolding claim_conversation_reply lock_active_reply_machine lock_claiming_machine
    lock_reply_for_claim join_reply claim_locked fixed_reply_context_range list_context_candidates
    fixed_context_suffix take_newest valid_text assign_reply load_fixed_reply_context
    list_fixed_context
held = refl

-- Six minutes later the machine claims it again.
abbrev pub again_chat : Chat
again_chat = record sent_chat {
  replies = assigned late 7 1 1 (assigned 20 7 1 1 (new_reply 21 20)) ∷ [];
}

pub held_again :
    claim_conversation_reply late late none_locked (principal 7) held_chat
    ≡ ok (claim_of 2 late, again_chat)
unfolding claim_conversation_reply lock_active_reply_machine lock_claiming_machine
    lock_reply_for_claim join_reply claim_locked fixed_reply_context_range list_context_candidates
    fixed_context_suffix take_newest valid_text assign_reply load_fixed_reply_context
    list_fixed_context
held_again = refl

abbrev pub reply_command : CommitReplyCommand
reply_command = record {
  machine_id = principal 7;
  source_message_id = uuid 21;
  fence = 2;
  candidate = candidate;
}

abbrev pub new_ids : NewIds
new_ids = record { work_id = 50; work_key = codes "w1"; reply_id = 22 }

abbrev pub reply_clock : CommitClock
reply_clock = record { began = late + 5; checked = late + 6; finished = late + 7 }

abbrev pub reply_digest : Text
reply_digest = hash (encode_fields (reply_fields (spell 21) tidy))

abbrev pub joined : Joined
joined = record {
  reply = assigned late 7 1 1 (assigned 20 7 1 1 (new_reply 21 20));
  conversation = private_one;
  source = hello;
}

abbrev pub worked_db : Db
worked_db = record empty_db {
  works =
      new_work (late + 5) 50 1 (codes "ship it") 3 (codes "w1")
        (create_digest hash spell (uuid 1) (principal 3) (codes "ship it"))
      ∷ [];
}

abbrev pub answered_chat : Chat
answered_chat =
    answered reply_clock new_ids 7 2 joined (codes "on it") reply_digest (some 50)
      (record again_chat { db = worked_db })

abbrev pub reply_result : CommitReplyResult
reply_result = record { reply_message_id = 22; created_work_id = some 50 }

pub replied :
    commit_conversation_reply hash spell reply_clock new_ids reply_command again_chat
    ≡ ok (reply_result, answered_chat)
unfolding commit_conversation_reply normalize_reply_candidate normalize_text normalize_goal
    trim_space valid_text lock_active_reply_machine lock_claiming_machine lock_reply_for_commit
    join_reply commit_locked commit_new reply_lease_is_current delegate create_delegated_work
    insert_work write_reply advance_message_head create_carry_reply complete_reply
replied = refl
