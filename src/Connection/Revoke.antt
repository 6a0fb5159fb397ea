-- ===== src/Connection/Revoke.antt =====
-- RevokeMachineFromBrowser and RevokeMachineFromHost of internal/postgres/machine.go.
use carry.Prelude.{ℕ, Bool, true, ◌&&◌, not, Option, none, some, if◌then◌else◌}
use carry.Result.{
  Result, ok, ◌>>=◌, ◌>>◌, fail_if, or_fail, connection_conflict, machine_unavailable,
  machine_authority,
}
use carry.Text.{Text, text_eq}
use carry.Store.Tables.{is_null}
use carry.Conversation.Tables.{is_some}
use carry.Conversation.Posts.{same_text}
use carry.Connection.Tables.{Network, Enrolled, Actor, by_user, by_machine, same_actor}
use carry.Connection.Machines.{
  lock_browser_session, lock_space, lock_enrollment_membership, load_machine,
  lock_machine_for_revocation, revoke_machine, remove_active_agents,
}

-- `RevokeMachineCommand`.
pub record RevokeMachineCommand : Type 0 where
  pub browser_session_id : ℕ
  pub space_id : ℕ
  pub machine_id : ℕ
  pub idempotency_key : Text
  pub request_digest : Text

-- `SelfRevokeMachineCommand`.
pub record SelfRevokeMachineCommand : Type 0 where
  pub machine_id : ℕ
  pub certificate_serial : Text
  pub idempotency_key : Text
  pub request_digest : Text

-- A revocation by the machine compares no user.
abbrev pub by_same : Option ℕ → Option ℕ → Bool
by_same none _ = true
by_same (some user_id) o = is_some user_id o

-- The actor has used the key for another request.
abbrev pub is_conflict : Actor → Option ℕ → Text → Text → Enrolled → Bool
is_conflict actor user key digest m =
    same_actor actor m.revocation_actor_kind
    && by_same user m.revoked_by_user_id
    && same_text key m.revocation_idempotency_key
    && not (same_text digest m.revocation_request_digest)

-- Phase 2 of both: a machine that was revoked stays so, another one is revoked and loses its agents.
unfoldable pub revoke_locked :
    ℕ → Actor → Option ℕ → Text → Text → Enrolled → Network → Result (Enrolled × Network)
revoke_locked now actor user_id key digest m n =
    if is_null m.revoked_at
    then (revoke_machine now actor user_id key digest m.machine_id n >>= λ (x, n1).
        ok (x, remove_active_agents now m.machine_id n1))
    else (fail_if (is_conflict actor user_id key digest m) connection_conflict >> ok (m, n))

-- RevokeMachineFromBrowser; the result is the row, of which storedMachineRecord shows a part.
unfoldable pub revoke_machine_from_browser :
    ℕ → RevokeMachineCommand → Network → Result (Enrolled × Network)
revoke_machine_from_browser now c n = do
  user_id ← or_fail (lock_browser_session now c.browser_session_id n) machine_unavailable
  s ← or_fail (lock_space c.space_id n) machine_unavailable
  can_enroll ← or_fail (lock_enrollment_membership c.space_id user_id n) machine_authority
  fail_if (not can_enroll) machine_authority
  m ← or_fail (lock_machine_for_revocation c.machine_id c.space_id n) machine_unavailable
  revoke_locked now by_user (some user_id) c.idempotency_key c.request_digest m n

-- RevokeMachineFromHost.
unfoldable pub revoke_machine_from_host :
    ℕ → SelfRevokeMachineCommand → Network → Result (Enrolled × Network)
revoke_machine_from_host now c n = do
  m ← or_fail (load_machine c.machine_id n) machine_unavailable
  fail_if (not (text_eq m.certificate_serial c.certificate_serial)) machine_unavailable
  revoke_locked now by_machine none c.idempotency_key c.request_digest m n
