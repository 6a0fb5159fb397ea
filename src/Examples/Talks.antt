-- ===== src/Examples/Talks.antt =====
-- The theorems on private conversations at the conversation of Chats.
use carry.Prelude.{
  ◌+◌, ◌%◌, ◌≤◌, ◌<◌, [], ◌∷◌, none, some, true, false, any, count, ◌≡◌, ◌==◌, refl, arith,
}
use carry.Result.{ok}
use carry.Store.Claims.{lock_claiming_machine}
use carry.Store.Works.{insert_work}
use carry.Store.Retries.{lock_active_work_membership}
use carry.Execution.Retry.{uuid, principal, blank, require_membership}
use carry.Text.{trim_space, valid_text}
use carry.Work.{normalize_goal}
use carry.Conversation.Message.{normalize_text, normalize_reply_candidate}
use carry.Conversation.Tables.{by_member, unresolved}
use carry.Conversation.Posts.{in_conversation, at_seq, find_conversation, list_newest_messages}
use carry.Conversation.Claims.{Joined, lock_reply_for_commit, join_reply, replies_to}
use carry.Conversation.Send.{
  ListCommand, check_cursors, list_page, list_message_rows, list_conversation_messages,
  send_conversation_message, restore_message,
}
use carry.Conversation.Reply.{lock_active_reply_machine}
use carry.Conversation.Commit.{create_delegated_work, delegate, commit_conversation_reply}
use carry.Conversation.Alternates.{Alternates, empty-Alternates}
use carry.Conversation.Talk.{
  Talk, here, next, sends, claims, commits, Talk-Alternates, Talk-takes_turns, Talk-waits,
}
use carry.Conversation.Fixed.{claim_conversation_reply_fixed}
use carry.Conversation.Once.{commit_conversation_reply_once}
use carry.Conversation.Answer.{commit_conversation_reply_held}
use carry.Conversation.Sent.{send_conversation_message_once}
use carry.Conversation.Pages.{Told, list_conversation_messages-Page}
use carry.Examples.Scene.{hash, spell, empty_db, late}
use carry.Examples.Conversations.{candidate, tidy}
use carry.Examples.Chats.{
  no_chat, send_command, private_one, hello, sent_chat, sent, none_locked, claim_of, held,
  again_chat, held_again, reply_command, new_ids, reply_clock, reply_digest, joined, worked_db,
  answered_chat, reply_result, replied,
}

said : Talk hash spell no_chat sent_chat
said = next here (sends 10 20 21 send_command (restore_message (hello, none)) sent)

sent_chat-Alternates : Alternates sent_chat
sent_chat-Alternates = Talk-Alternates hash spell said (empty-Alternates empty_db)

answering : Talk hash spell sent_chat answered_chat
answering =
    next
      (next (next here (claims 20 20 none_locked (principal 7) (claim_of 1 20) held))
        (claims late late none_locked (principal 7) (claim_of 2 late) held_again))
      (commits reply_clock new_ids reply_command reply_result replied)

taken : Talk hash spell no_chat again_chat
taken =
    next (next said (claims 20 20 none_locked (principal 7) (claim_of 1 20) held))
      (claims late late none_locked (principal 7) (claim_of 2 late) held_again)

again_chat-Alternates : Alternates again_chat
again_chat-Alternates = Talk-Alternates hash spell taken (empty-Alternates empty_db)

Talk-takes_turns_example :
    (count (in_conversation 20) again_chat.posts ≡ 1)
    × (count (unresolved 20) again_chat.replies ≡ 1 % 2)
    × (1 ≤ 1)
    × (1 ≤ 1)
    × (count (at_seq 20 1) again_chat.posts ≡ 1)
    × (by_member hello.author ≡ (1 % 2 == 1))
Talk-takes_turns_example =
    Talk-takes_turns hash spell empty_db taken 20 21 {k = private_one} {p = hello} refl refl refl

Talk-waits_example :
    (by_member hello.author ≡ true)
    × (hello.conversation_id ≡ 20)
    × (hello.message_seq ≡ private_one.message_head_seq)
    × (any (replies_to 21) again_chat.posts ≡ false)
Talk-waits_example =
    Talk-waits hash spell empty_db taken 21 {c = joined.reply} {k = private_one} {p = hello} refl
      refl refl refl

claim_conversation_reply_fixed_example :
    ((claim_of 2 late).messages ≡ (claim_of 1 20).messages) × (1 < 2)
claim_conversation_reply_fixed_example =
    claim_conversation_reply_fixed hash spell 20 20 none_locked (principal 7) sent_chat-Alternates
      held here late late none_locked (principal 7) held_again refl

active_7 : lock_active_reply_machine 7 answered_chat ≡ ok 1
unfolding lock_active_reply_machine lock_claiming_machine
active_7 = refl

active_before : lock_active_reply_machine 7 again_chat ≡ ok 1
unfolding lock_active_reply_machine lock_claiming_machine
active_before = refl

abbrev joined_after : Joined
joined_after = record {
  reply = record joined.reply {
    output_digest = some reply_digest;
    committed_reply_message_id = some 22;
    created_work_id = some 50;
  };
  conversation = record private_one { message_head_seq = 2 };
  source = hello;
}

locks_after : lock_reply_for_commit 21 1 answered_chat ≡ some joined_after
unfolding lock_reply_for_commit join_reply
locks_after = refl

locks_before : lock_reply_for_commit 21 1 again_chat ≡ some joined
unfolding lock_reply_for_commit join_reply
locks_before = refl

delegates :
    delegate hash spell reply_clock new_ids joined tidy.delegation_goal again_chat
    ≡ ok (some 50, record again_chat { db = worked_db })
unfolding delegate create_delegated_work insert_work
delegates = refl

commit_conversation_reply_once_example :
    commit_conversation_reply hash spell
      (record { began = late + 9; checked = late + 9; finished = late + 9 })
      (record new_ids { reply_id = 99; work_id = 98 })
      reply_command
      answered_chat
    ≡ ok (reply_result, answered_chat)
commit_conversation_reply_once_example =
    commit_conversation_reply_once hash spell reply_clock new_ids reply_command
      again_chat-Alternates replied here 7 21 1 joined_after refl refl active_7 locks_after
      (record { began = late + 9; checked = late + 9; finished = late + 9 })
      (record new_ids { reply_id = 99; work_id = 98 })

in_order : normalize_reply_candidate hash (spell 21) candidate ≡ ok (tidy, reply_digest)
unfolding normalize_reply_candidate normalize_text normalize_goal trim_space valid_text
in_order = refl

commit_conversation_reply_held_example :
    commit_conversation_reply hash spell reply_clock new_ids reply_command again_chat
    ≡ ok (reply_result, answered_chat)
commit_conversation_reply_held_example =
    commit_conversation_reply_held hash spell reply_clock new_ids reply_command 7 21 1 joined tidy
      reply_digest (some 50) again_chat-Alternates refl refl refl in_order active_before
      locks_before (omega arith) refl delegates refl

in_space : require_membership 1 3 answered_chat.db ≡ ok tt
unfolding require_membership lock_active_work_membership
in_space = refl

send_conversation_message_once_example :
    send_conversation_message hash spell (late + 20) 80 81 send_command answered_chat
    ≡ ok (restore_message (hello, none), answered_chat)
send_conversation_message_once_example =
    send_conversation_message_once hash spell 10 20 21 send_command (empty-Alternates empty_db) sent
      answering 1 3 refl refl in_space (late + 20) 80 81

abbrev list_command : ListCommand
list_command = record {
  space_id = uuid 1;
  member_user_id = principal 3;
  before = blank;
  after = blank;
}

listed : list_conversation_messages list_command sent_chat ≡ ok (restore_message (hello, none) ∷ [])
unfolding list_conversation_messages list_message_rows check_cursors require_membership
    lock_active_work_membership find_conversation list_page list_newest_messages
listed = refl

list_conversation_messages-Page_example :
    Told list_command sent_chat 1 3 (restore_message (hello, none) ∷ [])
list_conversation_messages-Page_example =
    list_conversation_messages-Page list_command sent_chat 1 3 refl refl listed
