-- ===== src/Execution/Replay.antt =====
-- RequestWorkRetry under a key that was used before.
use carry.Prelude.{
  ℕ, true, not, ◌&&◌, ◌||◌, none, some, ◌≡◌, inl, inr, arith, ==_refl, find, any, update, select,
  first_by, Option-cases, find_sound, sym, subst, ap, find-updated, mem-any, select-mem,
  first_by-mem,
}
use carry.Result.{ok, or_fail, fail_if, >>=-eq-ok, >>=-ok, identity_required, not_found, not_open}
use carry.Text.{Text, text_eq_refl}
use carry.Work.{normalize_idempotency_key}
use carry.Store.Tables.{Db, Run, is_open}
use carry.Store.Retries.{
  lock_active_work_membership, lock_work, find_run_retry_by_idempotency, retried_by,
  lock_retryable_run, is_retryable, completed_after, request_run_retry, unresolved_run,
}
use carry.Execution.Retry.{
  RetryCommand, is_blank, is_nobody, column, acting, require_membership, retry_locked,
  request_work_retry,
}

abbrev marked : ℕ → ℕ → Text → Run → Run
marked now user_id key r = record r {
  retry =
      some (record { requested_at = now; requested_by_user_id = user_id; idempotency_key = key });
}

-- Marking the retryable run leaves a run that was retried under the key.
lock_retryable_run-marked :
    (now user_id work_id : ℕ) (key : Text) (d : Db) {id : ℕ}
    → lock_retryable_run work_id d ≡ some id
    → any (λ r. unresolved_run id r && retried_by work_id key (marked now user_id key r)) d.runs
      ≡ true
unfolding lock_retryable_run
lock_retryable_run-marked now user_id work_id key d {id} h =
    elim (Option-cases (first_by completed_after (select (is_retryable work_id) d.runs))) [
      | inl e ↦ cc (rw (e, lock_retryable_run) at h)
      | inr (r, e) ↦
          let (m, t) =
            select-mem (is_retryable work_id) d.runs (first_by-mem completed_after _ e) in
          mem-any (λ r. unresolved_run id r && retried_by work_id key (marked now user_id key r))
            d.runs m (ground (arith, ==_refl r.run_id, text_eq_refl key))
    ]

unretried :
    (work_id : ℕ) (key : Text) (d : Db)
    → find_run_retry_by_idempotency work_id key d ≡ none
    → find (retried_by work_id key) d.runs ≡ none
unfolding find_run_retry_by_idempotency
unretried work_id key d h = elim (Option-cases (find (retried_by work_id key) d.runs)) [
  | inl e ↦ e
  | inr (r, e) ↦ elim (Option-cases r.retry) [
    | inl n ↦ absurd (ground (arith, find_sound (retried_by work_id key) d.runs {x = r}))
    | inr (t, s) ↦ absurd (ground arith)
  ]
]

retried :
    (now user_id work_id id : ℕ) (key : Text) (d : Db)
    → find_run_retry_by_idempotency work_id key d ≡ none
    → lock_retryable_run work_id d ≡ some id
    → find_run_retry_by_idempotency work_id key
        (record d { runs = update (unresolved_run id) (marked now user_id key) d.runs })
      ≡ some user_id
unfolding find_run_retry_by_idempotency
retried now user_id work_id id key d h e =
    let (y, hy, qy) =
      find-updated (retried_by work_id key) (unresolved_run id) (marked now user_id key) d.runs
        (unretried work_id key d h) (lock_retryable_run-marked now user_id work_id key d e) in
    ground (arith, hy)

retry_locked_again :
    (now later work_id user_id : ℕ) (key : Text) (d : Db) {d' : Db}
    → retry_locked now work_id user_id key d ≡ ok d'
    → (retry_locked later work_id user_id key d' ≡ ok d') × (d' ≡ record d { runs = d'.runs })
unfolding retry_locked request_run_retry
retry_locked_again now later work_id user_id key d {d'} h =
    elim (Option-cases (find_run_retry_by_idempotency work_id key d)) [
      | inr (q, e) ↦ ground arith
      | inl e ↦ elim (Option-cases (lock_retryable_run work_id d)) [
        | inl n ↦ cc (rw (e, n, retry_locked) at h)
        | inr (id, s) ↦
            let found = retried now user_id work_id id key d e s in
            let e' : d'
                ≡ record d { runs = update (unresolved_run id) (marked now user_id key) d.runs } =
              ground arith in
            let found' : find_run_retry_by_idempotency work_id key d' ≡ some user_id =
              subst (λ x. find_run_retry_by_idempotency work_id key x ≡ some user_id) (sym e')
                found in
            (ground (arith, ==_refl user_id), ground arith)
      ]
    ]

-- A retry that was granted is granted again to the same member under the same key, at any later
-- time, and changes nothing more.
pub request_work_retry_again :
    (now later : ℕ) (c : RetryCommand) (d : Db) {d' : Db}
    → request_work_retry now c d ≡ ok d'
    → request_work_retry later c d' ≡ ok d'
unfolding request_work_retry require_membership lock_active_work_membership lock_work
request_work_retry_again now later c d {d'} h =
    let required = is_blank c.work_id || is_blank c.space_id || is_nobody c.requested_by in
    let (u0, e0, h0) = >>=-eq-ok (fail_if required identity_required) _ h in
    let (key, e1, h1) = >>=-eq-ok (normalize_idempotency_key c.idempotency_key) _ h0 in
    let (space_id, e2, h2) = >>=-eq-ok (column c.space_id) _ h1 in
    let (user_id, e3, h3) = >>=-eq-ok (acting c.requested_by) _ h2 in
    let (u4, e4, h4) = >>=-eq-ok (require_membership space_id user_id d) _ h3 in
    let (work_id, e5, h5) = >>=-eq-ok (column c.work_id) _ h4 in
    let (w, e6, h6) = >>=-eq-ok (or_fail (lock_work space_id work_id d) _) _ h5 in
    let (u7, e7, h7) = >>=-eq-ok (fail_if (not (is_open w.lifecycle)) _) _ h6 in
    let (again, same) = retry_locked_again now later work_id user_id key d h7 in
    let same_members : d'.memberships ≡ d.memberships = ap (λ x. x.memberships) same in
    let same_works : d'.works ≡ d.works = ap (λ x. x.works) same in
    let member : require_membership space_id user_id d' ≡ ok u4 = ground arith in
    let work : or_fail (lock_work space_id work_id d') not_found ≡ ok w = ground arith in
    >>=-ok (fail_if required identity_required) _ e0 (
      >>=-ok (normalize_idempotency_key c.idempotency_key) _ e1 (
        >>=-ok (column c.space_id) _ e2 (
          >>=-ok (acting c.requested_by) _ e3 (
            >>=-ok (require_membership space_id user_id d') _ member (
              >>=-ok (column c.work_id) _ e5 (
                >>=-ok (or_fail (lock_work space_id work_id d') not_found) _ work
                  (>>=-ok (fail_if (not (is_open w.lifecycle)) not_open) _ e7 again)))))))
