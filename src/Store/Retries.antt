-- ===== src/Store/Retries.antt =====
-- internal/postgres/dbsqlc/run.sql.go and work.sql.go: the statements of RequestWorkRetry.
use carry.Prelude.{
  ℕ, Bool, true, false, ◌&&◌, ◌||◌, Option, none, some, ltb, ◌==◌, find, update, count, first_by,
  select,
}
use carry.Text.{Text, text_eq}
use carry.Store.Tables.{Db, Work, Run, Retry, Membership, is_null, run_unresolved}

-- LockActiveWorkMembership.
unfoldable pub lock_active_work_membership : ℕ → ℕ → Db → Option Membership
lock_active_work_membership space_id user_id db =
    find (λ m. m.space_id == space_id && m.user_id == user_id && is_null m.revoked_at)
      db.memberships

-- LockWork and LockWorkForRetry.
unfoldable pub lock_work : ℕ → ℕ → Db → Option Work
lock_work space_id work_id db = find (λ w. w.space_id == space_id && w.work_id == work_id) db.works

abbrev pub retried_by : ℕ → Text → Run → Bool
retried_by work_id key r = r.work_id == work_id && has_key r.retry
  where
    has_key : Option Retry → Bool
    has_key none = false
    has_key (some t) = text_eq t.idempotency_key key

-- FindRunRetryByIdempotency: the member who asked under this key.
unfoldable pub find_run_retry_by_idempotency : ℕ → Text → Db → Option ℕ
find_run_retry_by_idempotency work_id key db = elim (find (retried_by work_id key) db.runs) [
  | none ↦ none
  | some r ↦ elim r.retry [ none ↦ none | some t ↦ some t.requested_by_user_id ]
]

abbrev pub is_retryable : ℕ → Run → Bool
is_retryable work_id r = r.work_id == work_id && run_unresolved r.state && is_null r.retry

-- `ORDER BY completed_at DESC, run_id DESC`, where a missing time comes first.
abbrev pub completed_after : Run → Run → Bool
completed_after r s = later r.completed_at s.completed_at
  where
    later : Option ℕ → Option ℕ → Bool
    later none none = ltb s.run_id r.run_id
    later none (some d) = true
    later (some c) none = false
    later (some c) (some d) = ltb d c || (c == d && ltb s.run_id r.run_id)

-- LockRetryableRun.
unfoldable pub lock_retryable_run : ℕ → Db → Option ℕ
lock_retryable_run work_id db =
    elim (first_by completed_after (select (is_retryable work_id) db.runs)) [
      | none ↦ none
      | some r ↦ some r.run_id
    ]

abbrev pub unresolved_run : ℕ → Run → Bool
unresolved_run run_id r = r.run_id == run_id && run_unresolved r.state && is_null r.retry

-- RequestRunRetry, with the number of rows.
unfoldable pub request_run_retry : ℕ → ℕ → Text → ℕ → Db → ℕ × Db
request_run_retry now user_id key run_id db = (
  count (unresolved_run run_id) db.runs,
  record db {
    runs =
        update (unresolved_run run_id)
          (λ r. record r {
            retry = some (record {
              requested_at = now;
              requested_by_user_id = user_id;
              idempotency_key = key;
            });
          })
          db.runs;
  },
)
