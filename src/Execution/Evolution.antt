-- ===== src/Execution/Evolution.antt =====
-- The transactions of internal/postgres/run.go, and the later states of a run.
use carry.Prelude.{
  ℕ, ◌+◌, Bool, false, ◌∷◌, some, ◌≡◌, inl, inr, refl, sym, subst, ◌∙◌, arith, update, any, not,
  ◌-◌, ◌||◌, Option-cases,
}
use carry.Result.{ok, or_fail, fail_if, >>=-eq-ok, or_fail-some, identity_required}
use carry.Text.{Text}
use carry.Store.Tables.{Db, Work, Run, RunState, AttemptState, run_with, is_null, is_open}
use carry.Store.Claims.{
  Candidate, lock_claiming_machine, lock_expired_run_for_claim, lock_work_for_run_claim,
  expire_run_attempt, rotate_run_fence, new_run, select_run_input_end, create_run,
  create_run_attempt, rotatable,
}
use carry.Store.Attempts.{
  extend_run_attempt_lease, commit_current_understanding, create_work_result_check, end_run_attempt,
  end_run, active_run, lock_attempt_for_finish, lock_attempt_for_commit,
  run_attempt_lease_is_current,
}
use carry.Store.Retries.{
  request_run_retry, unresolved_run, find_run_retry_by_idempotency, lock_retryable_run, lock_work,
}
use carry.Execution.Claim.{
  Claim, Clock, Locks, Draft, recover_run, start_run, draft_run, grant_attempt, claim_run,
}
use carry.Execution.Attempt.{
  CommitCommand, FinishCommand, renew_run_attempt, commit_work_understanding,
  finish_unresolved_attempt, request_review, end_both, validate_unresolved_outcome, is_stale,
}
use carry.Execution.Retry.{
  RetryCommand, retry_locked, request_work_retry, column, is_blank, is_nobody, acting,
  require_membership,
}
use carry.Work.{validate_understanding_update, normalize_idempotency_key}
use carry.Execution.History.{Evolves, Evolves-eq, update-Evolves, cons-Evolves}

abbrev bump : Run → Run
bump r = record r { current_fence = r.current_fence + 1 }

recover_run-runs :
    (now : ℕ) (c : Candidate) (db : Db) {d : Draft} {db' : Db}
    → recover_run now c db ≡ ok (d, db')
    → db'.runs ≡ update (rotatable c.run.run_id c.run.current_fence) bump db.runs
unfolding recover_run expire_run_attempt rotate_run_fence
recover_run-runs now c db h = ground arith

recover_run-Evolves :
    (now : ℕ) (c : Candidate) (db : Db) {d : Draft} {db' : Db}
    → recover_run now c db ≡ ok (d, db')
    → Evolves db.runs db'.runs
recover_run-Evolves now c db h = subst (Evolves db.runs) (sym (recover_run-runs now c db h)) (
    update-Evolves (rotatable c.run.run_id c.run.current_fence) bump db.runs (λ r. refl)
      (λ r e. ground arith))

create_run-runs :
    (now run_id work_id start_seq end_seq version : ℕ) (db : Db) {db' : Db}
    → create_run now run_id work_id start_seq end_seq version db ≡ ok db'
    → (any (run_with run_id) db.runs ≡ false)
      × (db'.runs ≡ new_run now run_id work_id start_seq end_seq version ∷ db.runs)
unfolding create_run
create_run-runs now run_id work_id start_seq end_seq version db h = ground arith

start_run-Evolves :
    (now run_id : ℕ) (w : Work) (db : Db) {d : Draft} {db' : Db}
    → start_run now run_id w db ≡ ok (d, db')
    → Evolves db.runs db'.runs
unfolding start_run
start_run-Evolves now run_id w db {d} {db'} h =
    let start_seq = w.applied_input_seq + 1 in
    let end_seq = select_run_input_end start_seq w.work_id w.input_head_seq db in
    let created = create_run now run_id w.work_id start_seq end_seq w.understanding_version db in
    let (db1, e, f) = >>=-eq-ok created _ h in
    let (fresh, runs) = create_run-runs now run_id w.work_id start_seq end_seq _ db e in
    subst (Evolves db.runs) (sym runs ∙ ground arith) (cons-Evolves _ db.runs fresh)

grant_attempt-Evolves :
    (now attempt_id machine_id : ℕ) (d : Draft) (db : Db) {c : Claim} {db' : Db}
    → grant_attempt now attempt_id machine_id d db ≡ ok (c, db')
    → db'.runs ≡ db.runs
unfolding grant_attempt create_run_attempt
grant_attempt-Evolves now attempt_id machine_id d db h = ground arith

draft_run-Evolves :
    (clock : Clock) (locks : Locks) (run_id space_id : ℕ) (db : Db) {d : Draft} {db' : Db}
    → draft_run clock locks run_id space_id db ≡ ok (d, db')
    → Evolves db.runs db'.runs
unfolding draft_run
draft_run-Evolves clock locks run_id space_id db h =
    elim (Option-cases (lock_expired_run_for_claim clock.searched locks.run space_id db)) [
      | inr (c, e) ↦ recover_run-Evolves clock.expired c db (rw (e, draft_run) at h)
      | inl e ↦ elim (Option-cases (lock_work_for_run_claim locks.work space_id db)) [
        | inl n ↦ cc (rw (e, n, draft_run) at h)
        | inr (w, s) ↦ start_run-Evolves clock.began run_id w db (rw (e, s, draft_run) at h)
      ]
    ]

pub claim_run-Evolves :
    (clock : Clock) (locks : Locks) (run_id attempt_id machine_id : ℕ) (db : Db) {c : Claim}
    {db' : Db}
    → claim_run clock locks run_id attempt_id machine_id db ≡ ok (c, db')
    → Evolves db.runs db'.runs
unfolding claim_run
claim_run-Evolves clock locks run_id attempt_id machine_id db h =
    let (m, em, h1) = >>=-eq-ok (or_fail (lock_claiming_machine machine_id db) _) _ h in
    let (u, eu, h2) = >>=-eq-ok (fail_if (not (is_null m.revoked_at)) _) _ h1 in
    let ((d, db1), ed, h3) = >>=-eq-ok (draft_run clock locks run_id m.space_id db) _ h2 in
    subst (Evolves db.runs)
      (sym (grant_attempt-Evolves clock.leased attempt_id machine_id d db1 h3))
      (draft_run-Evolves clock locks run_id m.space_id db ed)

pub renew_run_attempt-runs :
    (now machine_id run_id attempt_id fence : ℕ) (db : Db) {lease : ℕ} {db' : Db}
    → renew_run_attempt now machine_id run_id attempt_id fence db ≡ ok (lease, db')
    → db'.runs ≡ db.runs
unfolding renew_run_attempt extend_run_attempt_lease
renew_run_attempt-runs now machine_id run_id attempt_id fence db h = ground arith

abbrev ended : ℕ → RunState → Run → Run
ended now state r = record r { state = state; completed_at = some now }

end_both-runs :
    (now : ℕ) (a : AttemptState) (s : RunState) (attempt_id run_id : ℕ) (db : Db) {db' : Db}
    → end_both now a s attempt_id run_id db ≡ ok db'
    → db'.runs ≡ update (active_run run_id) (ended now s) db.runs
unfolding end_both end_run_attempt end_run
end_both-runs now a s attempt_id run_id db h = ground arith

pub end_both-Evolves :
    (now : ℕ) (a : AttemptState) (s : RunState) (attempt_id run_id : ℕ) (db : Db) {db' : Db}
    → end_both now a s attempt_id run_id db ≡ ok db'
    → Evolves db.runs db'.runs
end_both-Evolves now a s attempt_id run_id db h =
    subst (Evolves db.runs) (sym (end_both-runs now a s attempt_id run_id db h))
      (update-Evolves (active_run run_id) (ended now s) db.runs (λ r. refl) (λ r e. ground arith))

request_review-runs :
    (sha256 : Text → Text) (review_id : ℕ) (required : Bool) (r : Run) (w : Work) (u n : Text)
    (version : ℕ) (db : Db) {db' : Db}
    → request_review sha256 review_id required r w u n version db ≡ ok db'
    → db'.runs ≡ db.runs
unfolding request_review create_work_result_check
request_review-runs sha256 review_id required r w u n version db h = ground arith

commit_current_understanding-runs :
    (u n : Text) (applied work_id expected version : ℕ) (db : Db) {v : ℕ} {db' : Db}
    → commit_current_understanding u n applied work_id expected version db ≡ some (v, db')
    → db'.runs ≡ db.runs
unfolding commit_current_understanding
commit_current_understanding-runs u n applied work_id expected version db h = ground arith

pub finish_unresolved_attempt-Evolves :
    (now : ℕ) (c : FinishCommand) (db : Db) {db' : Db}
    → finish_unresolved_attempt now c db ≡ ok db'
    → Evolves db.runs db'.runs
unfolding finish_unresolved_attempt
finish_unresolved_attempt-Evolves now c db h =
    let (s, es, h1) = >>=-eq-ok (validate_unresolved_outcome c.outcome) _ h in
    let (i, ei, h2) =
      >>=-eq-ok (or_fail (lock_attempt_for_finish c.run_id c.attempt_id c.machine_id c.fence db) _)
        _ h1 in
    let (b, eb, h3) = >>=-eq-ok (run_attempt_lease_is_current now c.attempt_id db) _ h2 in
    let (u, eu, h4) = >>=-eq-ok (fail_if (not b) _) _ h3 in
    end_both-Evolves now s c.outcome c.attempt_id c.run_id db h4

pub commit_work_understanding-Evolves :
    (sha256 : Text → Text) (now review_id : ℕ) (c : CommitCommand) (db : Db) {db' : Db}
    → commit_work_understanding sha256 now review_id c db ≡ ok db'
    → Evolves db.runs db'.runs
unfolding commit_work_understanding
commit_work_understanding-Evolves sha256 now review_id c db {db'} h =
    let ((u, n), e1, h1) =
      >>=-eq-ok (validate_understanding_update c.understanding c.next_step) _ h in
    let ((r, w), e2, h2) =
      >>=-eq-ok (or_fail (lock_attempt_for_commit c.run_id c.attempt_id c.machine_id c.fence db) _)
        _ h1 in
    let (b, e3, h3) = >>=-eq-ok (run_attempt_lease_is_current now c.attempt_id db) _ h2 in
    let (u1, e4, h4) = >>=-eq-ok (fail_if (not b) _) _ h3 in
    let (u2, e5, h5) = >>=-eq-ok (fail_if (is_stale c r w) _) _ h4 in
    let written =
      commit_current_understanding u n r.input_end_seq r.work_id (r.input_start_seq - 1)
        r.base_understanding_version db in
    let ((v, db1), e6, h6) = >>=-eq-ok (or_fail written _) _ h5 in
    let (db2, e7, h7) =
      >>=-eq-ok (request_review sha256 review_id c.review_required r w u n v db1) _ h6 in
    subst (λ rs. Evolves rs db'.runs)
      (request_review-runs sha256 review_id c.review_required r w u n v db1 e7
        ∙ commit_current_understanding-runs u n r.input_end_seq r.work_id _ _ db
            (or_fail-some written _ e6))
      (end_both-Evolves now AttemptState.succeeded RunState.succeeded c.attempt_id c.run_id db2 h7)

request_run_retry-Evolves :
    (now user_id : ℕ) (key : Text) (run_id : ℕ) (db : Db)
    → Evolves db.runs (request_run_retry now user_id key run_id db).1.runs
unfolding request_run_retry
request_run_retry-Evolves now user_id key run_id db =
    update-Evolves (unresolved_run run_id) _ db.runs (λ r. refl) (λ r e. ground arith)

retry_locked-Evolves :
    (now work_id user_id : ℕ) (key : Text) (db : Db) {db' : Db}
    → retry_locked now work_id user_id key db ≡ ok db'
    → Evolves db.runs db'.runs
unfolding retry_locked
retry_locked-Evolves now work_id user_id key db {db'} h =
    elim (Option-cases (find_run_retry_by_idempotency work_id key db)) [
      | inr (q, e) ↦ Evolves-eq (ground arith)
      | inl e ↦ elim (Option-cases (lock_retryable_run work_id db)) [
        | inl n ↦ cc (rw (e, n, retry_locked) at h)
        | inr (id, s) ↦
            subst (Evolves db.runs) (ground arith) (request_run_retry-Evolves now user_id key id db)
      ]
    ]

pub request_work_retry-Evolves :
    (now : ℕ) (c : RetryCommand) (db : Db) {db' : Db}
    → request_work_retry now c db ≡ ok db'
    → Evolves db.runs db'.runs
unfolding request_work_retry
request_work_retry-Evolves now c db h =
    let required = is_blank c.work_id || is_blank c.space_id || is_nobody c.requested_by in
    let (u0, e0, h0) = >>=-eq-ok (fail_if required identity_required) _ h in
    let (key, e1, h1) = >>=-eq-ok (normalize_idempotency_key c.idempotency_key) _ h0 in
    let (space_id, e2, h2) = >>=-eq-ok (column c.space_id) _ h1 in
    let (user_id, e3, h3) = >>=-eq-ok (acting c.requested_by) _ h2 in
    let (u4, e4, h4) = >>=-eq-ok (require_membership space_id user_id db) _ h3 in
    let (work_id, e5, h5) = >>=-eq-ok (column c.work_id) _ h4 in
    let (w, e6, h6) = >>=-eq-ok (or_fail (lock_work space_id work_id db) _) _ h5 in
    let (u7, e7, h7) = >>=-eq-ok (fail_if (not (is_open w.lifecycle)) _) _ h6 in
    retry_locked-Evolves now work_id user_id key db h7
