-- ===== src/Conversation/Once.antt =====
-- A commit that is sent again (internal/postgres/conversation_reply.go): the first result stands.
use carry.Prelude.{
  ℕ, Bool, true, false, ◌||◌, not, some, ◌≡◌, inl, inr, refl, ap, sym, subst, ◌∙◌, arith, ◌==◌,
  find, update, count, any, List, ◌≤◌, find_sound, ==-true, any-find, count-any, find-update,
  Bool-cases, Option-cases,
}
use carry.Result.{ok, or_fail, fail_if, >>=-eq-ok, stale_reply_claim}
use carry.Text.{Text, text_eq, text_eq_iff}
use carry.Store.Tables.{is_null}
use carry.Execution.Claim.{text_value}
use carry.Execution.Retry.{column, principal}
use carry.Conversation.Message.{ReplyCandidate}
use carry.Conversation.Tables.{Chat, ReplyRow, reply_with, is_some}
use carry.Conversation.Claims.{
  Joined, lock_reply_for_commit, is_held, completed, reply_lease_is_current,
}
use carry.Conversation.Reply.{lock_active_reply_machine}
use carry.Conversation.Commit.{
  CommitReplyCommand, CommitReplyResult, NewIds, CommitClock, delegate, commit_new, commit_locked,
  commit_conversation_reply,
}
use carry.Conversation.Alternates.{Alternates}
use carry.Conversation.Joins.{Stands, Stands-key, lock_reply_for_commit_inv}
use carry.Conversation.Replied.{delegate_inv, write_reply_inv}
use carry.Conversation.Forward.{Forward}
use carry.Conversation.Talk.{Talk, Turn-Alternates, commits}
use carry.Conversation.Histories.{Talk-Forward}
use carry.Conversation.Entered.{
  Entered, commit_conversation_reply-Entered, commit_conversation_reply-commit_locked,
}

-- What a commit leaves: the reply with its result, under the machine and the fence of the commit.
pub record Final (source_id machine_id fence : ℕ) (digest : Text) (r : CommitReplyResult) (d : Chat)
    : Type 0 where
  pub row : ReplyRow
  pub found : find (reply_with source_id) d.replies ≡ some row
  pub machine : is_some machine_id row.current_machine_id ≡ true
  pub fenced : (row.current_fence == fence) ≡ true
  pub same : text_eq (text_value row.output_digest) digest ≡ true
  pub committed : row.committed_reply_message_id ≡ some r.reply_message_id
  pub created : row.created_work_id ≡ r.created_work_id

-- The reply that an update of the held ones changes.
held_row :
    (q : ReplyRow → Bool) (f : ReplyRow → ReplyRow) (source_id : ℕ) (rs : List ReplyRow)
    (c : ReplyRow)
    → count (reply_with source_id) rs ≤ 1
    → find (reply_with source_id) rs ≡ some c
    → ((x : ReplyRow) → q x ≡ true → reply_with source_id x ≡ true)
    → ((x : ReplyRow) → reply_with source_id (f x) ≡ reply_with source_id x)
    → count q rs ≡ 1
    → (q c ≡ true) × (find (reply_with source_id) (update q f rs) ≡ some (f c))
held_row q f source_id rs c once found narrow key one = elim (Bool-cases (any q rs)) [
  | inr e ↦ absurd (omega (arith, one, count-any q rs e))
  | inl e ↦
      let (x, hx, qx) = any-find (reply_with source_id) q narrow rs once e in
      let two : some x ≡ some c = sym hx ∙ found in
      let same : x ≡ c = ground arith in
      let hit : q c ≡ true = subst (λ (z : ReplyRow). q z ≡ true) same qx in
      (hit, find-update (reply_with source_id) q f key rs found ∙ ap some (rw hit refl))
]

module _ (sha256 : Text → Text) (spell : ℕ → Text) where
  commit_new-Final :
      (clock : CommitClock) (ids : NewIds) (machine_id fence : ℕ) (j : Joined)
      (candidate : ReplyCandidate) (digest : Text) (d : Chat) {r : CommitReplyResult} {d' : Chat}
      → commit_new sha256 spell clock ids machine_id fence j candidate digest d ≡ ok (r, d')
      → Stands j.reply.source_message_id d j
      → Alternates d
      → Final j.reply.source_message_id machine_id fence digest r d'
  unfolding commit_new
  commit_new-Final clock ids machine_id fence j candidate digest d {r} {d'} h s v =
      let newest = j.conversation.message_head_seq == j.source.message_seq in
      let (u, e1, h1) = >>=-eq-ok (fail_if (not newest) stale_reply_claim) _ h in
      let key = j.reply.source_message_id in
      let current = reply_lease_is_current clock.checked key d in
      let (b, e2, h2) = >>=-eq-ok (or_fail current stale_reply_claim) _ h1 in
      let (w, e3, h3) = >>=-eq-ok (fail_if (not b) stale_reply_claim) _ h2 in
      let ((work_id, d1), e4, h4) =
        >>=-eq-ok (delegate sha256 spell clock ids j candidate.delegation_goal d) _ h3 in
      let same =
        ap (λ (x : Chat). x.replies)
          (delegate_inv sha256 spell clock ids j candidate.delegation_goal d e4) in
      let a =
        write_reply_inv sha256 spell clock ids machine_id fence j candidate.reply digest work_id d1
          h4 in
      let q = is_held clock.finished key machine_id fence in
      let f = completed digest ids.reply_id work_id in
      let (hit, found) =
        held_row q f key d1.replies j.reply
          (subst (λ rs. count (reply_with key) rs ≤ 1) (sym same) (v.replies_once key))
          (subst (λ rs. find (reply_with key) rs ≡ some j.reply) (sym same) s.of_reply)
          (λ x e. ground arith) (λ x. refl) a.held in
      record {
        row = f j.reply;
        found =
            subst (λ (x : Chat). find (reply_with key) x.replies ≡ some (f j.reply)) (sym a.after)
              found;
        machine = ground arith;
        fenced = ground arith;
        same = (text_eq_iff digest digest).1 refl;
        committed = ap (λ (x : CommitReplyResult). some x.reply_message_id) (sym a.told);
        created = ap (λ (x : CommitReplyResult). x.created_work_id) (sym a.told);
      }

  commit_locked-Final :
      (clock : CommitClock) (ids : NewIds) (machine_id fence : ℕ) (j : Joined)
      (candidate : ReplyCandidate) (digest : Text) (d : Chat) {r : CommitReplyResult} {d' : Chat}
      → commit_locked sha256 spell clock ids machine_id fence j candidate digest d ≡ ok (r, d')
      → Stands j.reply.source_message_id d j
      → Alternates d
      → Final j.reply.source_message_id machine_id fence digest r d'
  unfolding commit_locked
  commit_locked-Final clock ids machine_id fence j candidate digest d {r} {d'} h s v =
      let other =
        not (is_some machine_id j.reply.current_machine_id)
        || not (j.reply.current_fence == fence) in
      let (u, e1, h1) = >>=-eq-ok (fail_if other stale_reply_claim) _ h in
      elim (Option-cases j.reply.committed_reply_message_id) [
        | inl n ↦ commit_new-Final clock ids machine_id fence j candidate digest d (rw n at h1) s v
        | inr (reply_id, n) ↦
            elim (Bool-cases (text_eq (text_value j.reply.output_digest) digest)) [
              | inr e ↦ absurd (ground arith)
              | inl e ↦
                  let it : d ≡ d' = ground arith in
                  record {
                    row = j.reply;
                    found =
                        subst
                          (λ (x : Chat).
                            find (reply_with j.reply.source_message_id) x.replies ≡ some j.reply)
                          it s.of_reply;
                    machine = ground arith;
                    fenced = ground arith;
                    same = e;
                    committed = ground arith;
                    created = ground arith;
                  }
            ]
      ]

  -- A reply that is final is told again.
  commit_locked-told :
      (clock : CommitClock) (ids : NewIds) (machine_id fence : ℕ) (j : Joined)
      (candidate : ReplyCandidate) (digest : Text) (d : Chat) (r : CommitReplyResult) (k : ReplyRow)
      → j.reply ≡ k
      → is_some machine_id k.current_machine_id ≡ true
      → (k.current_fence == fence) ≡ true
      → text_eq (text_value k.output_digest) digest ≡ true
      → k.committed_reply_message_id ≡ some r.reply_message_id
      → k.created_work_id ≡ r.created_work_id
      → commit_locked sha256 spell clock ids machine_id fence j candidate digest d ≡ ok (r, d)
  unfolding commit_locked
  commit_locked-told clock ids machine_id fence j candidate digest d r k e machine fenced same
        committed created =
      ground arith

  told_again :
      (c : CommitReplyCommand) (r : CommitReplyResult) (d1 e : Chat) (y : Entered sha256 spell c e)
      (source_id machine_id : ℕ) (digest : Text)
      → Final source_id machine_id c.fence digest r d1
      → Forward d1 e
      → y.source_id ≡ source_id
      → y.machine_id ≡ machine_id
      → y.digest ≡ digest
      → (later : CommitClock) (others : NewIds)
      → commit_conversation_reply sha256 spell later others c e ≡ ok (r, e)
  told_again c r d1 e y source_id machine_id digest a f is_source is_machine is_digest later
        others =
      let t = lock_reply_for_commit_inv y.source_id y.space_id e y.locks in
      let (z, hz, o) = f.reply_kept source_id a.row a.found in
      let committed = a.committed in
      let over : is_null a.row.committed_reply_message_id ≡ false = ground arith in
      let one : some y.joined.reply ≡ some z =
        sym t.of_reply ∙ subst (λ i. find (reply_with i) e.replies ≡ some z) (sym is_source) hz in
      let same : y.joined.reply ≡ z = ground arith in
      commit_conversation_reply-commit_locked sha256 spell later others c e y
      ∙ commit_locked-told later others y.machine_id c.fence y.joined y.candidate y.digest e r a.row
          (same ∙ o.final over)
          (subst (λ i. is_some i a.row.current_machine_id ≡ true) (sym is_machine) a.machine)
          a.fenced
          (subst (λ i. text_eq (text_value a.row.output_digest) i ≡ true) (sym is_digest) a.same)
          a.committed a.created

  -- A commit that succeeded gives the same result when it is sent again after any further history, at
  -- any time and with other new uuids, and changes nothing: there is one reply and at most one Work.
  -- The machine is not revoked and the member is in the space by then; the conversations are in turn
  -- before the first commit.
  pub commit_conversation_reply_once :
      (clock : CommitClock) (ids : NewIds) (c : CommitReplyCommand) {r : CommitReplyResult}
      {d d1 e : Chat}
      → Alternates d
      → commit_conversation_reply sha256 spell clock ids c d ≡ ok (r, d1)
      → Talk sha256 spell d1 e
      → (machine_id source_id space_id : ℕ) (j : Joined) → c.machine_id ≡ principal machine_id
      → column c.source_message_id ≡ ok source_id
      → lock_active_reply_machine machine_id e ≡ ok space_id
      → lock_reply_for_commit source_id space_id e ≡ some j
      → (later : CommitClock) (others : NewIds)
      → commit_conversation_reply sha256 spell later others c e ≡ ok (r, e)
  commit_conversation_reply_once clock ids c {r} {d} {d1} {e} v h p machine_id source_id space_id j
        is_machine is_source active locks later others =
      let y = commit_conversation_reply-Entered sha256 spell clock ids c d h in
      let s = lock_reply_for_commit_inv y.source_id y.space_id d y.locks in
      let a =
        commit_locked-Final clock ids y.machine_id c.fence y.joined y.candidate y.digest d
          (sym (commit_conversation_reply-commit_locked sha256 spell clock ids c d y) ∙ h)
          (Stands-key y.source_id d y.joined s) v in
      let w = Turn-Alternates sha256 spell (commits clock ids c r h) v in
      let here = y.is_machine in
      let there = y.is_source in
      let same_machine : machine_id ≡ y.machine_id = ground arith in
      let same_source : source_id ≡ y.source_id = ground arith in
      let x : Entered sha256 spell c e = record {
        machine_id = y.machine_id;
        is_machine = y.is_machine;
        source_id = y.source_id;
        valid = y.valid;
        is_source = y.is_source;
        positive = y.positive;
        candidate = y.candidate;
        digest = y.digest;
        normal = y.normal;
        space_id = space_id;
        active = subst (λ i. lock_active_reply_machine i e ≡ ok space_id) same_machine active;
        joined = j;
        locks = subst (λ i. lock_reply_for_commit i space_id e ≡ some j) same_source locks;
      } in
      told_again c r d1 e x y.joined.reply.source_message_id y.machine_id y.digest a
        (Talk-Forward sha256 spell p w)
        (sym (
          ==-true y.joined.reply.source_message_id y.source_id
            (find_sound (reply_with y.source_id) d.replies s.of_reply)))
        refl refl later others
