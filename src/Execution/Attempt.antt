-- ===== src/Execution/Attempt.antt =====
-- RenewRunAttempt, CommitWorkUnderstanding and FinishUnresolvedAttempt of
-- internal/postgres/run.go.
use carry.Prelude.{ℕ, ◌+◌, ◌-◌, Bool, ◌&&◌, ◌||◌, not, [], ◌∷◌, ltb, ◌==◌, if◌then◌else◌}
use carry.Result.{Result, ok, err, ◌>>=◌, ◌>>◌, fail_if, or_fail, stale_attempt, invalid_outcome}
use carry.Text.{Text}
use carry.Digest.{encode_fields}
use carry.Work.{validate_understanding_update}
use carry.Store.Tables.{Db, Work, Run, RunState, AttemptState, is_open}
use carry.Store.Attempts.{
  lock_attempt_for_renew, lock_attempt_for_commit, lock_attempt_for_finish,
  extend_run_attempt_lease, run_attempt_lease_is_current, commit_current_understanding,
  create_work_result_check, end_run_attempt, end_run,
}

-- `run.CommitCommand`.
pub record CommitCommand : Type 0 where
  pub machine_id : ℕ
  pub run_id : ℕ
  pub attempt_id : ℕ
  pub fence : ℕ
  pub base_understanding_version : ℕ
  pub input_end_seq : ℕ
  pub understanding : Text
  pub next_step : Text
  pub review_required : Bool

-- `run.FinishCommand`.
pub record FinishCommand : Type 0 where
  pub machine_id : ℕ
  pub run_id : ℕ
  pub attempt_id : ℕ
  pub fence : ℕ
  pub outcome : RunState

-- RenewRunAttempt: the new end of the lease.
unfoldable pub renew_run_attempt : ℕ → ℕ → ℕ → ℕ → ℕ → Db → Result (ℕ × Db)
renew_run_attempt now machine_id run_id attempt_id fence db = do
  id ← or_fail (lock_attempt_for_renew run_id attempt_id machine_id fence db) stale_attempt
  or_fail (extend_run_attempt_lease now attempt_id run_id fence machine_id db) stale_attempt

-- The comparison of the locked rows with the command; `InputStartSeq-1` is an int64, and no Work
-- has applied input -1.
abbrev pub is_stale : CommitCommand → Run → Work → Bool
is_stale c r w =
    not (r.base_understanding_version == c.base_understanding_version)
    || not (r.input_end_seq == c.input_end_seq)
    || not (w.understanding_version == r.base_understanding_version)
    || not (w.applied_input_seq + 1 == r.input_start_seq)
    || ltb w.input_head_seq r.input_end_seq
    || not (is_open w.lifecycle)

-- A review has to be inserted: `rows != 1` is stale.
abbrev pub inserted : ℕ × Db → Result Db
inserted (rows, db) = if rows == 1 then ok db else err stale_attempt

-- The review that a commit asks for, if it leaves no input unapplied.
unfoldable pub request_review :
    (Text → Text) → ℕ → Bool → Run → Work → Text → Text → ℕ → Db → Result Db
request_review sha256 review_id required r w understanding next_step version db =
    let content_digest = sha256 (encode_fields (understanding ∷ next_step ∷ [])) in
    if required && r.input_end_seq == w.input_head_seq
    then ◌>>=◌ (create_work_result_check review_id w.work_id version content_digest db) inserted
    else ok db

-- The attempt and its run end together, or not at all.
unfoldable pub end_both : ℕ → AttemptState → RunState → ℕ → ℕ → Db → Result Db
end_both now attempt_state run_state attempt_id run_id db =
    let (attempts, db') = end_run_attempt now attempt_state attempt_id db in
    let (runs, db'') = end_run now run_state run_id db' in
    do fail_if (not (attempts == 1) || not (runs == 1)) stale_attempt; ok db''

-- CommitWorkUnderstanding.
unfoldable pub commit_work_understanding : (Text → Text) → ℕ → ℕ → CommitCommand → Db → Result Db
commit_work_understanding sha256 now review_id c db = do
  (understanding, next_step) ← validate_understanding_update c.understanding c.next_step
  (r, w) ←
      or_fail (lock_attempt_for_commit c.run_id c.attempt_id c.machine_id c.fence db) stale_attempt
  current ← run_attempt_lease_is_current now c.attempt_id db
  fail_if (not current) stale_attempt
  fail_if (is_stale c r w) stale_attempt
  (version, db') ←
      or_fail
        (commit_current_understanding understanding next_step r.input_end_seq r.work_id
          (r.input_start_seq - 1) r.base_understanding_version db)
        stale_attempt
  db'' ← request_review sha256 review_id c.review_required r w understanding next_step version db'
  end_both now AttemptState.succeeded RunState.succeeded c.attempt_id c.run_id db''

-- `ValidateUnresolvedOutcome`, with the state of the attempt that an outcome stands for.
unfoldable pub validate_unresolved_outcome : RunState → Result AttemptState
validate_unresolved_outcome RunState.failed = ok AttemptState.failed
validate_unresolved_outcome RunState.unknown = ok AttemptState.unknown
validate_unresolved_outcome _ = err invalid_outcome

-- FinishUnresolvedAttempt.
unfoldable pub finish_unresolved_attempt : ℕ → FinishCommand → Db → Result Db
finish_unresolved_attempt now c db = do
  state ← validate_unresolved_outcome c.outcome
  id ← or_fail (lock_attempt_for_finish c.run_id c.attempt_id c.machine_id c.fence db) stale_attempt
  current ← run_attempt_lease_is_current now c.attempt_id db
  fail_if (not current) stale_attempt
  end_both now state c.outcome c.attempt_id c.run_id db
