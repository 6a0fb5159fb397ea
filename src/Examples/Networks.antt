-- ===== src/Examples/Networks.antt =====
-- A machine that is connected and revoked, and the theorems on connections applied to it.
use carry.Prelude.{ℕ, ◌*◌, true, false, [], ◌∷◌, none, some, ◌≡◌, refl, find, count}
use carry.Result.{Result, ok}
use carry.Text.{Text, codes, text_eq}
use carry.Store.Tables.{is_null}
use carry.Execution.Retry.{uuid}
use carry.Connection.Tables.{
  Network, Request, Enrolled, approved, by_user, request_with, enrolled_with, second, minute,
}
use carry.Connection.Requests.{
  lock_request, count_live_for_source, count_live, new_request, create_request, Verdict, decided,
  decide_request, polled, redeemed, redeem_request,
}
use carry.Connection.Machines.{
  lock_browser_session, lock_space, lock_enrollment_membership, lock_machine_for_revocation,
  new_machine, create_connected_machine, revoke_machine, revoked, remove_active_agents,
  active_agent,
}
use carry.Connection.Begin.{
  BeginConnectionCommand, begin_new, begin_machine_connection, DecideConnectionCommand, authorize,
  decide_new, decide_locked, decide_machine_connection,
}
use carry.Connection.Poll.{
  IssuedCertificate, ConnectedMachine, connected_machine, redeem, poll_open, poll_locked,
  poll_machine_connection,
}
use carry.Connection.Revoke.{RevokeMachineCommand, revoke_locked, revoke_machine_from_browser}
use carry.Connection.Honest.{Honest}
use carry.Connection.Steps.{Reach, here, next, begins, decides, polls, Reach-Sound}
use carry.Connection.Enrollment.{empty-Honest, Reach-made, Reach-final}
use carry.Connection.Again.{poll_machine_connection_again}
use carry.Connection.Ended.{revoke_machine_from_browser-ends}

abbrev pub issuer : ℕ → Text → ℕ → Result IssuedCertificate
issuer id key at = ok (record { certificate_pem = key; serial = id ∷ [] })

-- Space 1 with member 3, whose session is 5, and an agent of a machine to come.
abbrev idle : Network
idle = record {
  requests = [];
  machines = [];
  failures = [];
  sessions =
      record { session_id = 5; user_id = 3; expires_at = 1000 * minute; revoked_at = none } ∷ [];
  spaces = 1 ∷ [];
  members =
      record { space_id = 1; user_id = 3; can_enroll_machines = true; revoked_at = none } ∷ [];
  agents = record { agent_id = 90; machine_id = 70; removed_at = none; present = true } ∷ [];
}

pub idle-Honest : Honest idle
idle-Honest = empty-Honest idle refl refl

abbrev pub begin_command : BeginConnectionCommand
begin_command = record {
  request_id = 30;
  idempotency_key = codes "b1";
  display_name = codes "desk";
  public_key_der = codes "key";
  key_proof = codes "proof";
  request_digest = codes "rd";
  source_digest = codes "src";
  code_digest = codes "code";
  poll_digest = codes "poll";
}

abbrev asked : Request
asked =
    new_request second 30 (codes "b1") (codes "rd") (codes "src") (codes "code") (codes "poll")
      (codes "desk") (codes "key") (codes "proof")

abbrev begun : Network
begun = record idle { requests = asked ∷ [] }

begins_well : begin_machine_connection second begin_command idle ≡ ok (asked, begun)
unfolding begin_machine_connection lock_request begin_new count_live_for_source count_live
    create_request text_eq
begins_well = refl

abbrev pub decide_command : DecideConnectionCommand
decide_command = record {
  browser_session_id = 5;
  request_id = 30;
  space_id = uuid 1;
  decision = approved;
  idempotency_key = codes "d1";
  prepared_machine_id = 70;
  code_digest = codes "code";
  request_digest = codes "dd";
}

abbrev pub verdict : Verdict
verdict = record {
  decision = approved;
  user_id = 3;
  space_id = some 1;
  key = codes "d1";
  digest = codes "dd";
  prepared_machine_id = some 70;
}

abbrev agreed : Request
agreed = decided (2 * second) verdict asked

abbrev agreed_net : Network
agreed_net = record idle { requests = agreed ∷ [] }

decides_well : decide_machine_connection (2 * second) decide_command begun ≡ ok (agreed, agreed_net)
unfolding decide_machine_connection lock_browser_session authorize lock_space
    lock_enrollment_membership lock_request decide_locked decide_new decide_request text_eq
decides_well = refl

abbrev pub desk : Enrolled
desk = new_machine (7 * second) 70 1 (codes "desk") (codes "key") (codes "key") (70 ∷ []) 3

abbrev pub granted : Request
granted = redeemed (7 * second) 70 (polled (7 * second) agreed)

abbrev pub connected : Network
connected = record idle { requests = granted ∷ []; machines = desk ∷ [] }

abbrev answer : ConnectedMachine
answer = connected_machine granted desk

polls_well :
    poll_machine_connection issuer (7 * second) 30 (codes "poll") agreed_net
    ≡ (ok answer, connected)
unfolding poll_machine_connection lock_request poll_locked poll_open redeem create_connected_machine
    redeem_request text_eq
polls_well = refl

pub history : Reach issuer idle connected
history =
    next
      (next (next here (begins second begin_command asked begins_well))
        (decides (2 * second) decide_command agreed decides_well))
      (polls (7 * second) 30 (codes "poll") (ok answer) polls_well)

agreed_net-Honest : Honest agreed_net
agreed_net-Honest =
    (Reach-Sound issuer
      (next (next here (begins second begin_command asked begins_well))
        (decides (2 * second) decide_command agreed decides_well))
      idle-Honest).0

connected-Honest : Honest connected
connected-Honest = (Reach-Sound issuer history idle-Honest).0

Reach-made_example :
    (r : Request) × (find (request_with r.request_id) connected.requests ≡ some r)
    × (r.decision ≡ some approved)
    × (is_null r.cancelled_at ≡ true)
    × (r.prepared_machine_id ≡ some 70)
    × (r.decided_space_id ≡ some desk.space_id)
    × (r.decided_by_user_id ≡ some desk.enrolled_by_user_id)
    × (r.public_key_der ≡ desk.public_key_der)
    × (r.display_name ≡ desk.display_name)
Reach-made_example = Reach-made issuer idle refl refl history 70 {m = desk} refl

Reach-final_example :
    (s : Request) × (find (request_with 30) connected.requests ≡ some s)
    × (s.decision ≡ some approved)
    × (s.decided_space_id ≡ agreed.decided_space_id)
    × (s.decided_by_user_id ≡ agreed.decided_by_user_id)
    × (s.prepared_machine_id ≡ agreed.prepared_machine_id)
    × (is_null s.cancelled_at ≡ true)
Reach-final_example =
    Reach-final issuer agreed_net-Honest
      (next here (polls (7 * second) 30 (codes "poll") (ok answer) polls_well)) 30 {r = agreed} refl
      approved refl

poll_machine_connection_again_example :
    poll_machine_connection issuer (10 * minute) 30 (codes "poll") connected
    ≡ (ok answer, connected)
poll_machine_connection_again_example =
    poll_machine_connection_again issuer (7 * second) 30 (codes "poll") {m = desk} agreed_net-Honest
      polls_well here (10 * minute) refl refl refl

abbrev pub revoke_command : RevokeMachineCommand
revoke_command = record {
  browser_session_id = 5;
  space_id = 1;
  machine_id = 70;
  idempotency_key = codes "r1";
  request_digest = codes "rr";
}

abbrev pub gone : Enrolled
gone = revoked minute by_user (some 3) (codes "r1") (codes "rr") desk

abbrev pub ended : Network
ended = record connected {
  machines = gone ∷ [];
  agents =
      record { agent_id = 90; machine_id = 70; removed_at = some minute; present = false } ∷ [];
}

pub revokes_well : revoke_machine_from_browser minute revoke_command connected ≡ ok (gone, ended)
unfolding revoke_machine_from_browser lock_browser_session lock_space lock_enrollment_membership
    lock_machine_for_revocation revoke_locked revoke_machine remove_active_agents text_eq
revokes_well = refl

found_desk : lock_machine_for_revocation 70 1 connected ≡ some desk
unfolding lock_machine_for_revocation
found_desk = refl

revoke_machine_from_browser-ends_example :
    (find (enrolled_with 70) ended.machines ≡ some gone)
    × (gone.revoked_at ≡ some minute)
    × (count (active_agent 70) ended.agents ≡ 0)
revoke_machine_from_browser-ends_example =
    revoke_machine_from_browser-ends issuer minute revoke_command connected-Honest found_desk refl
      revokes_well here
