-- ===== src/Execution/Retry.antt =====
-- RequestWorkRetry of internal/postgres/run.go.
use carry.Prelude.{ℕ, Bool, true, false, ◌||◌, not, [], none, some, ◌==◌, if◌then◌else◌}
use carry.Result.{
  Result, ok, err, ◌>>=◌, ◌>>◌, fail_if, or_fail, forbidden, not_found, not_open, retry_not_needed,
  idempotency_conflict, identity_required, database,
}
use carry.Text.{Text}
use carry.Work.{normalize_idempotency_key}
use carry.Store.Tables.{Db, is_open}
use carry.Store.Retries.{
  lock_active_work_membership, lock_work, find_run_retry_by_idempotency, lock_retryable_run,
  request_run_retry,
}

-- An identifier of a command, as a request spells it: blank, another text that is no uuid, a uuid in its
-- canonical spelling, one in another spelling that PostgreSQL reads too (capitals, braces, no hyphens),
-- or a urn, which `uuid.Validate` and `uuid.Parse` read and PostgreSQL does not. A text of spaces is
-- blank where the code trims it, and malformed elsewhere.
pub data Identifier : Type 0 where
  blank malformed : Identifier
  uuid : ℕ → Identifier
  respelled urn : ℕ → Text → Identifier

abbrev pub is_blank : Identifier → Bool
is_blank blank = true
is_blank _ = false

-- `uuid.Validate`, which `pathUUID` applies before a command is made.
abbrev pub is_valid : Identifier → Bool
is_valid blank = false
is_valid malformed = false
is_valid _ = true

-- An identifier as a parameter of a statement, which PostgreSQL reads as a uuid.
abbrev pub column : Identifier → Result ℕ
column (uuid n) = ok n
column (respelled n t) = ok n
column _ = err database

-- The text itself, which a digest is made of; one that is no uuid goes no further.
abbrev pub text_of : (ℕ → Text) → Identifier → Text
text_of spell (uuid n) = spell n
text_of spell (respelled n t) = t
text_of spell (urn n t) = t
text_of spell _ = []

-- Whether it is the same text as a uuid that was read from a column.
abbrev pub is_text_of : ℕ → Identifier → Bool
is_text_of n (uuid m) = m == n
is_text_of n _ = false

-- Who sends a command: nobody, or the user of a session or the machine of a certificate, whose uuid the
-- server takes from their row, so that it is in its canonical spelling.
pub data Principal : Type 0 where
  nobody : Principal
  principal : ℕ → Principal

abbrev pub is_nobody : Principal → Bool
is_nobody nobody = true
is_nobody (principal n) = false

abbrev pub acting : Principal → Result ℕ
acting nobody = err database
acting (principal n) = ok n

abbrev pub name_of : (ℕ → Text) → Principal → Text
name_of spell nobody = []
name_of spell (principal n) = spell n

-- `work.RetryCommand`.
pub record RetryCommand : Type 0 where
  pub work_id : Identifier
  pub space_id : Identifier
  pub requested_by : Principal
  pub idempotency_key : Text

-- `lockActiveWorkMembership`.
unfoldable pub require_membership : ℕ → ℕ → Db → Result (Unit {0})
require_membership space_id user_id db =
    or_fail (lock_active_work_membership space_id user_id db) forbidden >>= λ m. ok tt

-- The rest of the transaction, once the Work is locked and the key is known.
unfoldable pub retry_locked : ℕ → ℕ → ℕ → Text → Db → Result Db
retry_locked now work_id user_id key db = elim (find_run_retry_by_idempotency work_id key db) [
  | some requester ↦ if requester == user_id then ok db else err idempotency_conflict
  | none ↦ elim (lock_retryable_run work_id db) [
    | none ↦ err retry_not_needed
    | some run_id ↦
        let (rows, db') = request_run_retry now user_id key run_id db in
        if rows == 1 then ok db' else err retry_not_needed
  ]
]

-- RequestWorkRetry.
unfoldable pub request_work_retry : ℕ → RetryCommand → Db → Result Db
request_work_retry now c db = do
  fail_if (is_blank c.work_id || is_blank c.space_id || is_nobody c.requested_by) identity_required
  key ← normalize_idempotency_key c.idempotency_key
  space_id ← column c.space_id
  user_id ← acting c.requested_by
  require_membership space_id user_id db
  work_id ← column c.work_id
  w ← or_fail (lock_work space_id work_id db) not_found
  fail_if (not (is_open w.lifecycle)) not_open
  retry_locked now work_id user_id key db
