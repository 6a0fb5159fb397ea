-- ===== src/Execution/Steps.antt =====
-- FinishUnresolvedAttempt and RequestWorkRetry of internal/postgres/run.go, and the consistency of
-- the tables.
use carry.Prelude.{ℕ, not, ◌||◌, ◌≡◌, inl, inr, subst, arith, Option-cases}
use carry.Result.{ok, or_fail, fail_if, >>=-eq-ok, stale_attempt, identity_required}
use carry.Text.{Text}
use carry.Work.{normalize_idempotency_key}
use carry.Store.Tables.{Db, is_open}
use carry.Store.Attempts.{lock_attempt_for_finish, run_attempt_lease_is_current}
use carry.Store.Retries.{lock_work, find_run_retry_by_idempotency, lock_retryable_run}
use carry.Execution.Attempt.{FinishCommand, finish_unresolved_attempt, validate_unresolved_outcome}
use carry.Execution.Retry.{
  RetryCommand, is_blank, is_nobody, column, acting, require_membership, retry_locked,
  request_work_retry,
}
use carry.Execution.Consistent.{Consistent}
use carry.Execution.Invariant.{end_both-Consistent, request_run_retry-Consistent}

pub finish_unresolved_attempt-Consistent :
    (now : ℕ) (c : FinishCommand) (d : Db) {d' : Db}
    → finish_unresolved_attempt now c d ≡ ok d'
    → Consistent d
    → Consistent d'
unfolding finish_unresolved_attempt
finish_unresolved_attempt-Consistent now c d h v =
    let (s, es, h1) = >>=-eq-ok (validate_unresolved_outcome c.outcome) _ h in
    let lock = lock_attempt_for_finish c.run_id c.attempt_id c.machine_id c.fence d in
    let (i, ei, h2) = >>=-eq-ok (or_fail lock stale_attempt) _ h1 in
    let (b, eb, h3) = >>=-eq-ok (run_attempt_lease_is_current now c.attempt_id d) _ h2 in
    let (u, eu, h4) = >>=-eq-ok (fail_if (not b) stale_attempt) _ h3 in
    end_both-Consistent now s c.outcome c.attempt_id c.run_id d h4 v

retry_locked-Consistent :
    (now work_id user_id : ℕ) (key : Text) (d : Db) {d' : Db}
    → retry_locked now work_id user_id key d ≡ ok d'
    → Consistent d
    → Consistent d'
unfolding retry_locked
retry_locked-Consistent now work_id user_id key d {d'} h v =
    elim (Option-cases (find_run_retry_by_idempotency work_id key d)) [
      | inr (q, e) ↦ subst Consistent (ground arith) v
      | inl e ↦ elim (Option-cases (lock_retryable_run work_id d)) [
        | inl n ↦ cc (rw (e, n, retry_locked) at h)
        | inr (id, s) ↦
            subst Consistent (ground arith) (request_run_retry-Consistent now user_id key id d v)
      ]
    ]

-- A retry that is granted was decided with the Work locked.
pub request_work_retry-locked :
    (now : ℕ) (c : RetryCommand) (d : Db) {d' : Db}
    → request_work_retry now c d ≡ ok d'
    → (work_id user_id : ℕ) × (key : Text) × (retry_locked now work_id user_id key d ≡ ok d')
unfolding request_work_retry
request_work_retry-locked now c d h =
    let required = is_blank c.work_id || is_blank c.space_id || is_nobody c.requested_by in
    let (u0, e0, h0) = >>=-eq-ok (fail_if required identity_required) _ h in
    let (key, e1, h1) = >>=-eq-ok (normalize_idempotency_key c.idempotency_key) _ h0 in
    let (space_id, e2, h2) = >>=-eq-ok (column c.space_id) _ h1 in
    let (user_id, e3, h3) = >>=-eq-ok (acting c.requested_by) _ h2 in
    let (u4, e4, h4) = >>=-eq-ok (require_membership space_id user_id d) _ h3 in
    let (work_id, e5, h5) = >>=-eq-ok (column c.work_id) _ h4 in
    let (w, e6, h6) = >>=-eq-ok (or_fail (lock_work space_id work_id d) _) _ h5 in
    let (u7, e7, h7) = >>=-eq-ok (fail_if (not (is_open w.lifecycle)) _) _ h6 in
    (work_id, user_id, key, h7)

pub request_work_retry-Consistent :
    (now : ℕ) (c : RetryCommand) (d : Db) {d' : Db}
    → request_work_retry now c d ≡ ok d'
    → Consistent d
    → Consistent d'
request_work_retry-Consistent now c d h v =
    let (work_id, user_id, key, e) = request_work_retry-locked now c d h in
    retry_locked-Consistent now work_id user_id key d e v
