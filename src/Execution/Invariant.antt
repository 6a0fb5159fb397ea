-- ===== src/Execution/Invariant.antt =====
-- The transactions of internal/postgres/run.go, and the consistency of the tables.
use carry.Prelude.{
  ℕ, ◌+◌, Bool, not, none, some, ◌≡◌, inl, inr, refl, subst, arith, find, Option-cases, mem-find,
  first_by-mem, select-mem, ==_refl, ◌<◌,
}
use carry.Result.{ok, or_fail, fail_if, >>=-eq-ok}
use carry.Text.{Text}
use carry.Store.Tables.{
  Db, Work, RunState, AttemptState, work_with, is_null, run_active, lease_interval,
}
use carry.Store.Claims.{
  Candidate, expire_run_attempt, rotate_run_fence, create_run, create_run_attempt, rotatable,
  expirable, new_run, lock_expired_run_for_claim, lock_work_for_run_claim, lock_claiming_machine,
  select_run_input_end, created_before,
}
use carry.Store.Attempts.{
  end_run_attempt, end_run, active_run, active_attempt, extendable, extend_run_attempt_lease,
}
use carry.Store.Retries.{request_run_retry, unresolved_run}
use carry.Execution.Claim.{
  Draft, recover_run, start_run, draft_run, grant_attempt, claim_run, Claim, Clock, Locks,
}
use carry.Execution.Attempt.{renew_run_attempt, end_both}
use carry.Execution.Input.{select_run_input_end_range}
use carry.Execution.Consistent.{Consistent}
use carry.Execution.Preservation.{update_runs, update_attempts, add_attempt, add_run}

expire-Consistent :
    (now attempt_id run_id fence : ℕ) (d : Db)
    → Consistent d
    → Consistent (expire_run_attempt now attempt_id run_id fence d).1
unfolding expire_run_attempt
expire-Consistent now attempt_id run_id fence d v =
    update_attempts d v (expirable now attempt_id run_id fence) _ (λ a. refl)

rotate-Consistent :
    (run_id fence : ℕ) (d : Db) {f : ℕ} {d' : Db}
    → rotate_run_fence run_id fence d ≡ some (f, d')
    → Consistent d
    → Consistent d'
unfolding rotate_run_fence
rotate-Consistent run_id fence d h v = subst Consistent (ground arith) (
    update_runs d v (rotatable run_id fence) (λ r. record r { current_fence = r.current_fence + 1 })
      (λ r. refl) (λ r e. ground arith) (λ id r e g. g))

recover_run-Consistent :
    (now : ℕ) (c : Candidate) (d : Db) {x : Draft} {d' : Db}
    → recover_run now c d ≡ ok (x, d')
    → Consistent d
    → Consistent d'
unfolding recover_run
recover_run-Consistent now c d {x} {d'} h v =
    let expired = expire_run_attempt now c.attempt.attempt_id c.run.run_id c.run.current_fence d in
    elim (Option-cases (rotate_run_fence c.run.run_id c.run.current_fence expired.1)) [
      | inl e ↦ absurd (ground arith)
      | inr ((f, d1), e) ↦ subst Consistent (ground arith) (
          rotate-Consistent c.run.run_id c.run.current_fence expired.1 e
            (expire-Consistent now c.attempt.attempt_id c.run.run_id c.run.current_fence d v))
    ]

grant_attempt-Consistent :
    (now attempt_id machine_id : ℕ) (x : Draft) (d : Db) {c : Claim} {d' : Db}
    → grant_attempt now attempt_id machine_id x d ≡ ok (c, d')
    → Consistent d
    → Consistent d'
unfolding grant_attempt create_run_attempt
grant_attempt-Consistent now attempt_id machine_id x d h v = subst Consistent (ground arith) (
    add_attempt d v
      (record {
        attempt_id = attempt_id;
        run_id = x.claim.run_id;
        machine_id = machine_id;
        fence = x.claim.fence;
        state = AttemptState.active;
        lease_expires_at = now + lease_interval;
        completed_at = none;
      })
      (ground arith))

pub renew_run_attempt-Consistent :
    (now machine_id run_id attempt_id fence : ℕ) (d : Db) {lease : ℕ} {d' : Db}
    → renew_run_attempt now machine_id run_id attempt_id fence d ≡ ok (lease, d')
    → Consistent d
    → Consistent d'
unfolding renew_run_attempt extend_run_attempt_lease
renew_run_attempt-Consistent now machine_id run_id attempt_id fence d h v =
    subst Consistent (ground arith) (
      update_attempts d v (extendable now attempt_id run_id fence machine_id)
        (λ a. record a { lease_expires_at = now + lease_interval }) (λ a. refl))

abbrev over : RunState → Bool
over s = not (run_active s)

pub end_both-Consistent :
    (now : ℕ) (a : AttemptState) (s : RunState) (attempt_id run_id : ℕ) (d : Db) {d' : Db}
    → end_both now a s attempt_id run_id d ≡ ok d'
    → Consistent d
    → Consistent d'
unfolding end_both end_run_attempt end_run
end_both-Consistent now a s attempt_id run_id d h v = subst Consistent (ground arith) (
    update_runs _
      (update_attempts d v (active_attempt attempt_id)
        (λ b. record b { state = a; completed_at = some now }) (λ b. refl))
      (active_run run_id) (λ r. record r { state = s; completed_at = some now }) (λ r. refl)
      (λ r e. ground arith) (λ id r e g. ground arith))

pub request_run_retry-Consistent :
    (now user_id : ℕ) (key : Text) (run_id : ℕ) (d : Db)
    → Consistent d
    → Consistent (request_run_retry now user_id key run_id d).1
unfolding request_run_retry
request_run_retry-Consistent now user_id key run_id d v =
    update_runs d v (unresolved_run run_id) _ (λ r. refl) (λ r e. ground arith)
      (λ id r e g. ground arith)

start_run-Consistent :
    (now run_id : ℕ) (w : Work) (d : Db) {x : Draft} {d' : Db}
    → find (work_with w.work_id) d.works ≡ some w
    → w.applied_input_seq < w.input_head_seq
    → start_run now run_id w d ≡ ok (x, d')
    → Consistent d
    → Consistent d'
unfolding start_run create_run
start_run-Consistent now run_id w d {x} {d'} hw more h v =
    let start_seq = w.applied_input_seq + 1 in
    let end_seq = select_run_input_end start_seq w.work_id w.input_head_seq d in
    let (low, high) =
      select_run_input_end_range start_seq w.work_id w.input_head_seq d (omega arith) in
    subst Consistent (ground arith) (
      add_run d v (new_run now run_id w.work_id start_seq end_seq w.understanding_version) w
        (ground arith) (ground arith) hw
        (record { starts_next = refl; from_current = refl; not_empty = low; exists = high }))

-- The Work that a claim finds is in the table, and has input to apply.
lock_work_for_run_claim_sound :
    (locked : ℕ → Bool) (space_id : ℕ) (d : Db) (w : Work)
    → Consistent d
    → lock_work_for_run_claim locked space_id d ≡ some w
    → (find (work_with w.work_id) d.works ≡ some w) × (w.applied_input_seq < w.input_head_seq)
unfolding lock_work_for_run_claim
lock_work_for_run_claim_sound locked space_id d w v h =
    let (m, e) = select-mem _ d.works (first_by-mem created_before _ h) in
    (
      mem-find (work_with w.work_id) d.works (v.works_once w.work_id) (==_refl w.work_id) m,
      ground arith,
    )

draft_run-Consistent :
    (clock : Clock) (locks : Locks) (run_id space_id : ℕ) (d : Db) {x : Draft} {d' : Db}
    → draft_run clock locks run_id space_id d ≡ ok (x, d')
    → Consistent d
    → Consistent d'
unfolding draft_run
draft_run-Consistent clock locks run_id space_id d h v =
    elim (Option-cases (lock_expired_run_for_claim clock.searched locks.run space_id d)) [
      | inr (c, e) ↦ recover_run-Consistent clock.expired c d (rw (e, draft_run) at h) v
      | inl e ↦ elim (Option-cases (lock_work_for_run_claim locks.work space_id d)) [
        | inl n ↦ cc (rw (e, n, draft_run) at h)
        | inr (w, s) ↦
            let (hw, more) = lock_work_for_run_claim_sound locks.work space_id d w v s in
            start_run-Consistent clock.began run_id w d hw more (rw (e, s, draft_run) at h) v
      ]
    ]

pub claim_run-Consistent :
    (clock : Clock) (locks : Locks) (run_id attempt_id machine_id : ℕ) (d : Db) {c : Claim}
    {d' : Db}
    → claim_run clock locks run_id attempt_id machine_id d ≡ ok (c, d')
    → Consistent d
    → Consistent d'
unfolding claim_run
claim_run-Consistent clock locks run_id attempt_id machine_id d h v =
    let (m, em, h1) = >>=-eq-ok (or_fail (lock_claiming_machine machine_id d) _) _ h in
    let (u, eu, h2) = >>=-eq-ok (fail_if (not (is_null m.revoked_at)) _) _ h1 in
    let ((x, d1), ed, h3) = >>=-eq-ok (draft_run clock locks run_id m.space_id d) _ h2 in
    grant_attempt-Consistent clock.leased attempt_id machine_id x d1 h3
      (draft_run-Consistent clock locks run_id m.space_id d ed v)
