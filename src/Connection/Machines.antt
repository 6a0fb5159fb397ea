-- ===== src/Connection/Machines.antt =====
-- internal/postgres/dbsqlc/machine.sql.go and agent.sql.go: the statements on sessions, members,
-- machines and their agents.
use carry.Prelude.{
  ℕ, Bool, false, ◌&&◌, ◌||◌, ◌∷◌, Option, none, some, ltb, ◌==◌, if◌then◌else◌, find, update, any,
}
use carry.Result.{Result, ok, err, database, connection_conflict}
use carry.Text.{Text, text_eq}
use carry.Store.Tables.{is_null}
use carry.Conversation.Tables.{is_some}
use carry.Conversation.Posts.{same_text}
use carry.Connection.Tables.{
  Network, Enrolled, Session, Member, AgentRow, Actor, by_user, same_actor, enrolled_with,
}

abbrev pub current_session : ℕ → ℕ → Session → Bool
current_session now id s = s.session_id == id && is_null s.revoked_at && ltb now s.expires_at

-- LockBrowserSessionForMachineConnection: the user of a session that holds.
unfoldable pub lock_browser_session : ℕ → ℕ → Network → Option ℕ
lock_browser_session now id n = elim (find (current_session now id) n.sessions) [
  | none ↦ none
  | some s ↦ some s.user_id
]

-- LockSpaceForMachineConnection.
unfoldable pub lock_space : ℕ → Network → Option ℕ
lock_space id n = find (λ s. s == id) n.spaces

abbrev pub current_member : ℕ → ℕ → Member → Bool
current_member space_id user_id m =
    m.space_id == space_id && m.user_id == user_id && is_null m.revoked_at

-- LockMachineEnrollmentMembership: whether the member may enroll machines.
unfoldable pub lock_enrollment_membership : ℕ → ℕ → Network → Option Bool
lock_enrollment_membership space_id user_id n =
    elim (find (current_member space_id user_id) n.members) [
      | none ↦ none
      | some m ↦ some m.can_enroll_machines
    ]

-- LoadMachine and LockMachineByIDForSelfRevocation.
unfoldable pub load_machine : ℕ → Network → Option Enrolled
load_machine id n = find (enrolled_with id) n.machines

-- LockMachineForRevocation.
unfoldable pub lock_machine_for_revocation : ℕ → ℕ → Network → Option Enrolled
lock_machine_for_revocation machine_id space_id n =
    find (λ m. m.machine_id == machine_id && m.space_id == space_id) n.machines

-- The row that CreateConnectedMachine inserts.
abbrev pub new_machine : ℕ → ℕ → ℕ → Text → Text → Text → Text → ℕ → Enrolled
new_machine now id space_id name public_key pem serial user_id = record {
  machine_id = id;
  space_id = space_id;
  display_name = name;
  public_key_der = public_key;
  certificate_pem = pem;
  certificate_serial = serial;
  enrolled_by_user_id = user_id;
  enrolled_at = now;
  revoked_at = none;
  revocation_actor_kind = none;
  revoked_by_user_id = none;
  revocation_idempotency_key = none;
  revocation_request_digest = none;
}

-- CreateConnectedMachine. A taken uuid or serial is an error.
unfoldable pub create_connected_machine : Enrolled → Network → Result (Enrolled × Network)
create_connected_machine m n =
    if any (enrolled_with m.machine_id) n.machines
      || any (λ x. text_eq m.certificate_serial x.certificate_serial) n.machines
    then err database
    else ok (m, record n { machines = m ∷ n.machines })

abbrev pub active_machine : ℕ → Enrolled → Bool
active_machine id m = m.machine_id == id && is_null m.revoked_at

abbrev pub revoked : ℕ → Actor → Option ℕ → Text → Text → Enrolled → Enrolled
revoked now actor user_id key digest m = record m {
  revoked_at = some now;
  revocation_actor_kind = some actor;
  revoked_by_user_id = user_id;
  revocation_idempotency_key = some key;
  revocation_request_digest = some digest;
}

-- The index on the user and the key of a revocation by a user.
abbrev pub revoked_under : ℕ → Text → Enrolled → Bool
revoked_under user_id key m =
    same_actor by_user m.revocation_actor_kind
    && is_some user_id m.revoked_by_user_id
    && same_text key m.revocation_idempotency_key

abbrev pub key_taken : Option ℕ → Text → Network → Bool
key_taken none key n = false
key_taken (some user_id) key n = any (revoked_under user_id key) n.machines

-- RevokeMachineByUser, with a user, and RevokeMachineBySelf, without one. No row is an error, and so
-- is a key that the user has used.
unfoldable pub revoke_machine :
    ℕ → Actor → Option ℕ → Text → Text → ℕ → Network → Result (Enrolled × Network)
revoke_machine now actor user_id key digest id n = elim (find (active_machine id) n.machines) [
  | none ↦ err database
  | some m ↦
      if key_taken user_id key n
      then err connection_conflict
      else ok (
        revoked now actor user_id key digest m,
        record n {
          machines = update (active_machine id) (revoked now actor user_id key digest) n.machines;
        },
      )
]

abbrev pub active_agent : ℕ → AgentRow → Bool
active_agent machine_id a = a.machine_id == machine_id && is_null a.removed_at

-- RemoveActiveAgentsForMachine.
unfoldable pub remove_active_agents : ℕ → ℕ → Network → Network
remove_active_agents now machine_id n = record n {
  agents =
      update (active_agent machine_id) (λ a. record a { removed_at = some now; present = false })
        n.agents;
}
