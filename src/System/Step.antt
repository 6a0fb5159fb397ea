-- ===== src/System/Step.antt =====
-- One step: a transaction of internal/postgres/run.go or work.go that succeeds (one that fails is
-- rolled back), or one of another component. Those write machines, memberships and the owners of
-- Works (internal/postgres/machine.go, membership.go), and `createDelegatedWork` of
-- internal/postgres/conversation_reply.go inserts a Work.
use carry.Prelude.{ℕ, List, ◌≡◌, update, Bool, Option}
use carry.Result.{ok}
use carry.Text.{Text}
use carry.Store.Tables.{Db, Work, Machine, Membership, WorkMessage}
use carry.Execution.Claim.{Claim, Clock, Locks, claim_run}
use carry.Execution.Attempt.{
  CommitCommand, FinishCommand, renew_run_attempt, commit_work_understanding,
  finish_unresolved_attempt,
}
use carry.Execution.Retry.{RetryCommand, request_work_retry}
use carry.Store.Works.{insert_work}
use carry.Works.Create.{CreateCommand, WorkView, create_work}
use carry.Works.Append.{AppendMessageCommand, append_work_message}
use carry.Works.Accept.{AcceptReviewCommand, accept_work_review}

-- `TransferRemovedMemberOpenWorks`: the Works that a condition selects get another owner.
abbrev pub transfer : (Work → Bool) → ℕ → List Work → List Work
transfer q user_id = update q (λ w. record w { owner_user_id = user_id })

module _ (sha256 : Text → Text) (spell : ℕ → Text) where
  pub data Step (d e : Db) : Type 0 where
    claims :
        (clock : Clock) (locks : Locks) (run_id attempt_id machine_id : ℕ) (c : Claim)
        → claim_run clock locks run_id attempt_id machine_id d ≡ ok (c, e)
        → Step d e
    renews :
        (now machine_id run_id attempt_id fence lease : ℕ)
        → renew_run_attempt now machine_id run_id attempt_id fence d ≡ ok (lease, e)
        → Step d e
    commits :
        (now review_id : ℕ) (c : CommitCommand)
        → commit_work_understanding sha256 now review_id c d ≡ ok e
        → Step d e
    finishes : (now : ℕ) (c : FinishCommand) → finish_unresolved_attempt now c d ≡ ok e → Step d e
    retries : (now : ℕ) (c : RetryCommand) → request_work_retry now c d ≡ ok e → Step d e
    creates :
        (now work_id : ℕ) (c : CreateCommand) (w : WorkView)
        → create_work sha256 spell now work_id c d ≡ ok (w, e)
        → Step d e
    appends :
        (now message_id : ℕ) (c : AppendMessageCommand) (m : WorkMessage)
        → append_work_message sha256 spell now message_id c d ≡ ok (m, e)
        → Step d e
    accepts :
        (now : ℕ) (c : AcceptReviewCommand)
        → accept_work_review sha256 spell now c d ≡ ok e
        → Step d e
    delegates :
        (now work_id space_id user_id : ℕ) (goal key digest : Text) (row : Option Work)
        → insert_work now work_id space_id goal user_id key digest d ≡ ok (row, e)
        → Step d e
    elsewhere :
        (machines : List Machine) (memberships : List Membership) (moved : Work → Bool) (owner : ℕ)
        → e ≡ record d {
          machines = machines;
          memberships = memberships;
          works = transfer moved owner d.works;
        }
        → Step d e

  -- A history from one state of the tables to another.
  pub data Reach (d : Db) : Db → Type 0 where
    here : Reach d d
    next : {e f : Db} → Reach d e → Step e f → Reach d f
