-- ===== src/Conversation/Entered.antt =====
-- What CommitConversationReply of internal/postgres/conversation_reply.go finds before it looks at the
-- claim: a command with uuids and a fence, a candidate in normal form, a machine that is not revoked
-- and a reply of a member who is in the space.
use carry.Execution.Retry.{column, text_of}
use carry.Prelude.{ℕ, false, some, ◌≡◌, refl, arith, ◌==◌}
use carry.Result.{
  ok, or_fail, fail_if, >>=-eq-ok, >>=-ok, or_fail-some, fail_if-passed, stale_reply_claim,
}
use carry.Text.{Text}
use carry.Conversation.Message.{ReplyCandidate, normalize_reply_candidate}
use carry.Conversation.Tables.{Chat}
use carry.Conversation.Claims.{Joined, lock_reply_for_commit}
use carry.Conversation.Reply.{exact, valid_source, lock_active_reply_machine}
use carry.Conversation.Commit.{
  CommitReplyCommand, CommitReplyResult, NewIds, CommitClock, commit_locked,
  commit_conversation_reply,
}

pub record Entered (sha256 : Text → Text) (spell : ℕ → Text) (c : CommitReplyCommand) (d : Chat)
    : Type 0 where
  pub machine_id : ℕ
  pub is_machine : exact c.machine_id ≡ ok machine_id
  pub source_id : ℕ
  pub valid : valid_source c.source_message_id ≡ ok tt
  pub is_source : column c.source_message_id ≡ ok source_id
  pub positive : (c.fence == 0) ≡ false
  pub candidate : ReplyCandidate
  pub digest : Text
  pub normal :
      normalize_reply_candidate sha256 (text_of spell c.source_message_id) c.candidate
      ≡ ok (candidate, digest)
  pub space_id : ℕ
  pub active : lock_active_reply_machine machine_id d ≡ ok space_id
  pub joined : Joined
  pub locks : lock_reply_for_commit source_id space_id d ≡ some joined

module _ (sha256 : Text → Text) (spell : ℕ → Text) where
  -- The commit goes on with the reply.
  pub commit_conversation_reply-commit_locked :
      (clock : CommitClock) (ids : NewIds) (c : CommitReplyCommand) (d : Chat)
      (x : Entered sha256 spell c d)
      → commit_conversation_reply sha256 spell clock ids c d
        ≡ commit_locked sha256 spell clock ids x.machine_id c.fence x.joined x.candidate x.digest d
  unfolding commit_conversation_reply
  commit_conversation_reply-commit_locked clock ids c d x =
      >>=-ok (exact c.machine_id) _ x.is_machine (
        >>=-ok (valid_source c.source_message_id) _ x.valid (
          >>=-ok (fail_if (c.fence == 0) stale_reply_claim) _ {v = tt} (ground (arith, x.positive))
            (>>=-ok
              (normalize_reply_candidate sha256 (text_of spell c.source_message_id) c.candidate) _
              x.normal
              (>>=-ok (lock_active_reply_machine x.machine_id d) _ x.active (
                >>=-ok (column c.source_message_id) _ x.is_source (
                  >>=-ok
                    (or_fail (lock_reply_for_commit x.source_id x.space_id d) stale_reply_claim) _
                    {v = x.joined} (ground (arith, x.locks)) refl))))))

  pub commit_conversation_reply-Entered :
      (clock : CommitClock) (ids : NewIds) (c : CommitReplyCommand) (d : Chat)
      {r : CommitReplyResult} {d' : Chat}
      → commit_conversation_reply sha256 spell clock ids c d ≡ ok (r, d')
      → Entered sha256 spell c d
  unfolding commit_conversation_reply
  commit_conversation_reply-Entered clock ids c d h =
      let (machine_id, e1, h1) = >>=-eq-ok (exact c.machine_id) _ h in
      let (u2, e2, h2) = >>=-eq-ok (valid_source c.source_message_id) _ h1 in
      let (u, e3, h3) = >>=-eq-ok (fail_if (c.fence == 0) stale_reply_claim) _ h2 in
      let ((candidate, digest), e4, h4) =
        >>=-eq-ok (normalize_reply_candidate sha256 (text_of spell c.source_message_id) c.candidate)
          _ h3 in
      let (space_id, e5, h5) = >>=-eq-ok (lock_active_reply_machine machine_id d) _ h4 in
      let (source_id, es, hs) = >>=-eq-ok (column c.source_message_id) _ h5 in
      let lock = lock_reply_for_commit source_id space_id d in
      let (j, e6, h6) = >>=-eq-ok (or_fail lock stale_reply_claim) _ hs in
      record {
        machine_id = machine_id;
        is_machine = e1;
        source_id = source_id;
        valid = e2;
        is_source = es;
        positive = fail_if-passed (c.fence == 0) stale_reply_claim e3;
        candidate = candidate;
        digest = digest;
        normal = e4;
        space_id = space_id;
        active = e5;
        joined = j;
        locks = or_fail-some lock stale_reply_claim e6;
      }
