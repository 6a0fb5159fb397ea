-- ===== src/Connection/Tables.antt =====
-- The rows of internal/postgres/migrations/0015_machine_connection.sql, and those of the sessions,
-- members, machines and agents that internal/postgres/machine.go reads and writes. Display names of
-- users and spaces are left out, and so are the columns of agent reports.
use carry.Prelude.{ℕ, ◌*◌, Bool, true, false, List, Option, some, ◌==◌}
use carry.Text.{Text}

-- The two values of `decision`.
pub data Decision : Type 0 where
  approved denied : Decision

abbrev pub same_decision : Decision → Decision → Bool
same_decision approved approved = true
same_decision denied denied = true
same_decision _ _ = false

-- A row of `machine_connection_requests`.
pub record Request : Type 0 where
  pub request_id : ℕ
  pub begin_idempotency_key : Text
  pub begin_request_digest : Text
  pub source_digest : Text
  pub user_code_digest : Text
  pub poll_secret_digest : Text
  pub display_name : Text
  pub public_key_der : Text
  pub key_proof : Text
  pub created_at : ℕ
  pub expires_at : ℕ
  pub last_polled_at : Option ℕ
  pub poll_interval_seconds : ℕ
  pub decision : Option Decision
  pub decided_at : Option ℕ
  pub decided_by_user_id : Option ℕ
  pub decided_space_id : Option ℕ
  pub decision_idempotency_key : Option Text
  pub decision_request_digest : Option Text
  pub prepared_machine_id : Option ℕ
  pub cancelled_at : Option ℕ
  pub resulting_machine_id : Option ℕ
  pub redeemed_at : Option ℕ
  pub replay_until : Option ℕ

-- `revocation_actor_kind`.
pub data Actor : Type 0 where
  not_recorded by_user by_machine : Actor

abbrev pub same_actor : Actor → Option Actor → Bool
same_actor by_user (some by_user) = true
same_actor by_machine (some by_machine) = true
same_actor _ _ = false

-- A row of `machines`.
pub record Enrolled : Type 0 where
  pub machine_id : ℕ
  pub space_id : ℕ
  pub display_name : Text
  pub public_key_der : Text
  pub certificate_pem : Text
  pub certificate_serial : Text
  pub enrolled_by_user_id : ℕ
  pub enrolled_at : ℕ
  pub revoked_at : Option ℕ
  pub revocation_actor_kind : Option Actor
  pub revoked_by_user_id : Option ℕ
  pub revocation_idempotency_key : Option Text
  pub revocation_request_digest : Option Text

-- A row of `machine_connection_lookup_failures`.
pub record LookupFailure : Type 0 where
  pub failure_id : ℕ
  pub browser_session_id : ℕ
  pub source_digest : Text
  pub created_at : ℕ

-- A row of `browser_sessions`.
pub record Session : Type 0 where
  pub session_id : ℕ
  pub user_id : ℕ
  pub expires_at : ℕ
  pub revoked_at : Option ℕ

-- A row of `space_memberships`.
pub record Member : Type 0 where
  pub space_id : ℕ
  pub user_id : ℕ
  pub can_enroll_machines : Bool
  pub revoked_at : Option ℕ

-- A row of `agents`, with the `present` of its row of `agent_presence`.
pub record AgentRow : Type 0 where
  pub agent_id : ℕ
  pub machine_id : ℕ
  pub removed_at : Option ℕ
  pub present : Bool

pub record Network : Type 0 where
  pub requests : List Request
  pub machines : List Enrolled
  pub failures : List LookupFailure
  pub sessions : List Session
  pub spaces : List ℕ
  pub members : List Member
  pub agents : List AgentRow

-- The rows with a given primary key.
abbrev pub request_with : ℕ → Request → Bool
request_with id r = r.request_id == id

abbrev pub enrolled_with : ℕ → Enrolled → Bool
enrolled_with id m = m.machine_id == id

abbrev pub second : ℕ
second = 1000000

abbrev pub minute : ℕ
minute = 60 * second
