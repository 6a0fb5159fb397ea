-- ===== src/Examples/Second.antt =====
-- A second machine that is connected after the first one was revoked, and the theorems on
-- polls and on the list of the machines.
use carry.Prelude.{ℕ, ◌*◌, ◌≤◌, ◌≢◌, true, false, [], ◌∷◌, some, ◌≡◌, refl, arith, count}
use carry.Execution.Retry.{blank}
use carry.Result.{ok}
use carry.Text.{codes, text_eq}
use carry.Connection.Tables.{Network, Request, Enrolled, enrolled_with, minute}
use carry.Connection.Requests.{
  lock_request, count_live_for_source, count_live, new_request, create_request, decided,
  decide_request, polled, redeemed, redeem_request,
}
use carry.Connection.Machines.{
  lock_browser_session, lock_space, lock_enrollment_membership, new_machine,
  create_connected_machine,
}
use carry.Connection.Begin.{
  BeginConnectionCommand, begin_new, begin_machine_connection, DecideConnectionCommand, authorize,
  decide_new, decide_locked, decide_machine_connection,
}
use carry.Connection.Poll.{
  connected_machine, redeem, poll_open, poll_locked, poll_machine_connection,
}
use carry.Connection.Inventory.{load_list_membership}
use carry.Connection.Walk.{walk, list_machines-walk}
use carry.Connection.Honest.{Honest}
use carry.Connection.Steps.{here, next, begins, decides, browser_revokes, Reach-Sound}
use carry.Connection.Ended.{poll_machine_connection-refused}
use carry.Examples.Networks.{
  issuer, idle-Honest, begin_command, decide_command, verdict, granted, history, revoke_command,
  gone, ended, revokes_well,
}

-- After the revocation another machine is connected.
abbrev second_command : BeginConnectionCommand
second_command = record begin_command {
  request_id = 31;
  idempotency_key = codes "b2";
  code_digest = codes "code2";
  poll_digest = codes "poll2";
}

abbrev asked_again : Request
asked_again =
    new_request (2 * minute) 31 (codes "b2") (codes "rd") (codes "src") (codes "code2")
      (codes "poll2") (codes "desk") (codes "key") (codes "proof")

abbrev begun_again : Network
begun_again = record ended { requests = asked_again ∷ granted ∷ [] }

begins_again :
    begin_machine_connection (2 * minute) second_command ended ≡ ok (asked_again, begun_again)
unfolding begin_machine_connection lock_request begin_new count_live_for_source count_live
    create_request text_eq
begins_again = refl

abbrev second_decision : DecideConnectionCommand
second_decision = record decide_command {
  request_id = 31;
  idempotency_key = codes "d2";
  prepared_machine_id = 71;
  code_digest = codes "code2";
}

abbrev agreed_again : Request
agreed_again =
    decided (3 * minute) (record verdict { key = codes "d2"; prepared_machine_id = some 71 })
      asked_again

abbrev agreed_again_net : Network
agreed_again_net = record ended { requests = agreed_again ∷ granted ∷ [] }

decides_again :
    decide_machine_connection (3 * minute) second_decision begun_again
    ≡ ok (agreed_again, agreed_again_net)
unfolding decide_machine_connection lock_browser_session authorize lock_space
    lock_enrollment_membership lock_request decide_locked decide_new decide_request text_eq
decides_again = refl

abbrev lamp : Enrolled
lamp = new_machine (4 * minute) 71 1 (codes "desk") (codes "key") (codes "key") (71 ∷ []) 3

abbrev granted_again : Request
granted_again = redeemed (4 * minute) 71 (polled (4 * minute) agreed_again)

polls_again : poll_machine_connection issuer (4 * minute) 31 (codes "poll2") agreed_again_net ≡ (
  ok (connected_machine granted_again lamp),
  record ended { requests = granted_again ∷ granted ∷ []; machines = lamp ∷ gone ∷ [] },
)
unfolding poll_machine_connection lock_request poll_locked poll_open redeem create_connected_machine
    redeem_request text_eq
polls_again = refl

ended-Honest : Honest ended
ended-Honest =
    (Reach-Sound issuer (next history (browser_revokes minute revoke_command gone revokes_well))
      idle-Honest).0

poll_machine_connection-refused_example : lamp.machine_id ≢ gone.machine_id
poll_machine_connection-refused_example =
    poll_machine_connection-refused issuer {m = gone} ended-Honest refl refl
      (next (next here (begins (2 * minute) second_command asked_again begins_again))
        (decides (3 * minute) second_decision agreed_again decides_again))
      (4 * minute) 31 (codes "poll2") polls_again

abbrev both : Network
both = record ended { requests = granted_again ∷ granted ∷ []; machines = lamp ∷ gone ∷ [] }

may_list : load_list_membership (5 * minute) 5 1 both ≡ some true
unfolding load_list_membership lock_browser_session lock_enrollment_membership
may_list = refl

both_once : (id : ℕ) → count (enrolled_with id) both.machines ≤ 1
both_once id = ground arith

list_machines-walk_example :
    walk 3 (5 * minute) 5 1 blank both
    ≡ ok (
        record { machine = gone; is_active = false; can_revoke = true }
        ∷ record { machine = lamp; is_active = true; can_revoke = true }
        ∷ [])
list_machines-walk_example = list_machines-walk (5 * minute) 5 1 both true may_list both_once
