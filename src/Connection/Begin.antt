-- ===== src/Connection/Begin.antt =====
-- BeginMachineConnection, LookupMachineConnection, DecideMachineConnection and
-- CancelMachineConnection of internal/postgres/machine.go.
use carry.Prelude.{
  ℕ, ◌+◌, ◌*◌, Bool, ◌&&◌, ◌||◌, not, ◌∷◌, none, some, ltb, leb, ◌==◌, if◌then◌else◌, count,
}
use carry.Result.{
  Result, ok, err, ◌>>=◌, ◌>>◌, fail_if, or_fail, connection_unavailable, connection_conflict,
  connection_rate_limited, connection_cancelled, connection_expired, connection_already_decided,
  machine_unavailable, machine_authority, database,
}
use carry.Text.{Text, text_eq}
use carry.Store.Tables.{is_null}
use carry.Execution.Retry.{Identifier, column}
use carry.Conversation.Tables.{is_some}
use carry.Conversation.Posts.{same_text}
use carry.Connection.Tables.{
  Network, Request, LookupFailure, Decision, approved, denied, same_decision, minute,
}
use carry.Connection.Requests.{
  lock_request, undecided, count_live_for_source, count_live, new_request, create_request,
  find_live_by_code, Verdict, decide_request, cancel_request,
}
use carry.Connection.Machines.{lock_browser_session, lock_space, lock_enrollment_membership}

-- `BeginConnectionCommand`.
pub record BeginConnectionCommand : Type 0 where
  pub request_id : ℕ
  pub idempotency_key : Text
  pub display_name : Text
  pub public_key_der : Text
  pub key_proof : Text
  pub request_digest : Text
  pub source_digest : Text
  pub code_digest : Text
  pub poll_digest : Text

-- A new request, unless too many are live.
unfoldable pub begin_new : ℕ → BeginConnectionCommand → Network → Result (Request × Network)
begin_new now c n = do
  fail_if (leb 5 (count_live_for_source now c.source_digest n) || leb 1000 (count_live now n))
      connection_rate_limited
  create_request
      (new_request now c.request_id c.idempotency_key c.request_digest c.source_digest c.code_digest
        c.poll_digest c.display_name c.public_key_der c.key_proof)
      n

-- BeginMachineConnection; the result is the row, of which machineConnectionRequest shows a part.
unfoldable pub begin_machine_connection :
    ℕ → BeginConnectionCommand → Network → Result (Request × Network)
begin_machine_connection now c n = elim (lock_request c.request_id n) [
  | some r ↦
      if text_eq r.begin_idempotency_key c.idempotency_key
        && text_eq r.begin_request_digest c.request_digest
      then ok (r, n)
      else err connection_conflict
  | none ↦ begin_new now c n
]

-- `LookupConnectionCommand`.
pub record LookupConnectionCommand : Type 0 where
  pub browser_session_id : ℕ
  pub code_digest : Text
  pub source_digest : Text

abbrev pub failed_in_session : ℕ → ℕ → LookupFailure → Bool
failed_in_session now id f = f.browser_session_id == id && ltb now (f.created_at + 10 * minute)

abbrev pub failed_from : ℕ → Text → LookupFailure → Bool
failed_from now source f = text_eq source f.source_digest && ltb now (f.created_at + 10 * minute)

-- CountRecentMachineConnectionLookupFailuresForSession and ForSource: a failure counts for ten
-- minutes.
unfoldable pub too_many_failures : ℕ → LookupConnectionCommand → Network → Bool
too_many_failures now c n =
    leb 10 (count (failed_in_session now c.browser_session_id) n.failures)
    || leb 50 (count (failed_from now c.source_digest) n.failures)

-- RecordMachineConnectionLookupFailure.
abbrev pub record_failure : ℕ → ℕ → LookupConnectionCommand → Network → Network
record_failure now failure_id c n =
    let f : LookupFailure = record {
      failure_id = failure_id;
      browser_session_id = c.browser_session_id;
      source_digest = c.source_digest;
      created_at = now;
    } in
    record n { failures = f ∷ n.failures }

-- LookupMachineConnection. A code that is not found is recorded: that transaction is committed
-- although its result is an error.
unfoldable pub lookup_machine_connection :
    ℕ → ℕ → LookupConnectionCommand → Network → Result Request × Network
lookup_machine_connection now failure_id c n =
    elim (lock_browser_session now c.browser_session_id n) [
      | none ↦ (err machine_unavailable, n)
      | some user_id ↦
          let found =
            elim (find_live_by_code now c.code_digest n) as (λ x. Result Request × Network) [
              | some r ↦ (ok r, n)
              | none ↦ (err connection_unavailable, record_failure now failure_id c n)
            ] in
          if too_many_failures now c n then (err connection_rate_limited, n) else found
    ]

-- `DecideConnectionCommand`, with the uuid that was made for the machine.
pub record DecideConnectionCommand : Type 0 where
  pub browser_session_id : ℕ
  pub request_id : ℕ
  pub space_id : Identifier
  pub decision : Decision
  pub idempotency_key : Text
  pub prepared_machine_id : ℕ
  pub code_digest : Text
  pub request_digest : Text

-- The right to approve for a space, and what an approval and a denial write.
unfoldable pub authorize : ℕ → DecideConnectionCommand → Network → Result Verdict
authorize user_id c n = elim c.decision [
  | denied ↦ ok (record {
    decision = denied;
    user_id = user_id;
    space_id = none;
    key = c.idempotency_key;
    digest = c.request_digest;
    prepared_machine_id = none;
  })
  | approved ↦ column c.space_id >>= λ space_id.
      or_fail (lock_space space_id n) machine_authority >>= λ locked.
      or_fail (lock_enrollment_membership space_id user_id n) machine_authority >>= λ can_enroll.
      fail_if (not can_enroll) machine_authority
      >> ok (record {
        decision = approved;
        user_id = user_id;
        space_id = some space_id;
        key = c.idempotency_key;
        digest = c.request_digest;
        prepared_machine_id = some c.prepared_machine_id;
      })
]

-- A decision that was made is told again to the user who made it.
abbrev pub is_same_decision : ℕ → DecideConnectionCommand → Decision → Request → Bool
is_same_decision user_id c made r =
    same_decision made c.decision
    && is_some user_id r.decided_by_user_id
    && same_text c.idempotency_key r.decision_idempotency_key
    && same_text c.request_digest r.decision_request_digest

-- The decision of a request that is not decided.
unfoldable pub decide_new :
    ℕ → DecideConnectionCommand → Verdict → Request → Network → Result (Request × Network)
decide_new now c x r n = do
  fail_if (not (is_null r.cancelled_at)) connection_cancelled
  fail_if (leb r.expires_at now) connection_expired
  updated ← decide_request now x c.request_id n
  or_fail updated connection_already_decided

-- The rest of a decision, once the request is locked.
unfoldable pub decide_locked :
    ℕ → ℕ → DecideConnectionCommand → Verdict → Request → Network → Result (Request × Network)
decide_locked now user_id c x r n = elim r.decision [
  | some made ↦
      if is_same_decision user_id c made r then ok (r, n) else err connection_already_decided
  | none ↦ decide_new now c x r n
]

-- DecideMachineConnection.
unfoldable pub decide_machine_connection :
    ℕ → DecideConnectionCommand → Network → Result (Request × Network)
decide_machine_connection now c n = do
  user_id ← or_fail (lock_browser_session now c.browser_session_id n) machine_unavailable
  x ← authorize user_id c n
  r ← or_fail (lock_request c.request_id n) connection_unavailable
  fail_if (not (text_eq r.user_code_digest c.code_digest)) connection_unavailable
  decide_locked now user_id c x r n

-- The cancellation of a request that is not cancelled.
unfoldable pub cancel_open : ℕ → ℕ → Request → Network → Result Network
cancel_open now id r n = do
  fail_if (not (undecided r.decision)) connection_already_decided
  fail_if (leb r.expires_at now) connection_expired
  or_fail (cancel_request now id n) database

-- CancelMachineConnection.
unfoldable pub cancel_machine_connection : ℕ → ℕ → Text → Network → Result Network
cancel_machine_connection now id poll_digest n = do
  r ← or_fail (lock_request id n) connection_unavailable
  fail_if (not (text_eq r.poll_secret_digest poll_digest)) machine_unavailable
  if is_null r.cancelled_at then cancel_open now id r n else ok n
