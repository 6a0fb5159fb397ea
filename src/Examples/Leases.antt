-- ===== src/Examples/Leases.antt =====
-- The theorems on claims and leases, and on what a message and an acceptance change, at the scene.
use carry.Prelude.{◌+◌, none, some, ◌≡◌, ◌↔◌, refl, arith, update}
use carry.Result.{ok, err, no_run_available}
use carry.Store.Tables.{RunState, AttemptState, lease_interval}
use carry.Store.Claims.{lock_claiming_machine}
use carry.Store.Attempts.{extendable, active_attempt, active_run, lock_attempt}
use carry.Execution.Claim.{claim_run}
use carry.Execution.Granting.{Granted, claim_run-grants, NothingToRun, claim_run-none}
use carry.Execution.Attempt.{
  FinishCommand, renew_run_attempt, finish_unresolved_attempt, validate_unresolved_outcome,
}
use carry.Execution.Lease.{renew_run_attempt-lem, finish_unresolved_attempt-completes}
use carry.Works.Effects.{AnswerTo, append_work_message-Answered}
use carry.Works.Reviewing.{AcceptanceOf, accept_work_review-Accepted}
use carry.Examples.Scene.{
  hash, spell, empty_db, created_db, at, unlocked, first_run, attempt_of, claimed_db, claim_of,
  late, reclaimed_db, reclaimed,
}
use carry.Examples.Runs.{reclaimed_db-Consistent}
use carry.Examples.Again.{
  append_command, second_input, appended_db, appended, accept_command, reviewed_db, accepted_db,
  accepted,
}

claim_run-grants_example :
    Granted (at late) unlocked 63 62 7 claimed_db (claim_of 62 2 late) reclaimed_db
claim_run-grants_example = claim_run-grants (at late) unlocked 63 62 7 claimed_db reclaimed

lock_machine :
    lock_claiming_machine 7 empty_db
    ≡ some (record { machine_id = 7; space_id = 1; revoked_at = none })
unfolding lock_claiming_machine
lock_machine = refl

claim_run-none_example :
    NothingToRun (at 200) unlocked 1 empty_db
    ↔ (claim_run (at 200) unlocked 60 61 7 empty_db ≡ err no_run_available)
claim_run-none_example =
    claim_run-none (at 200) unlocked 60 61 7 empty_db
      (record { machine_id = 7; space_id = 1; revoked_at = none }) lock_machine refl

held :
    lock_attempt 60 62 7 2 reclaimed_db
    ≡ some (record first_run { current_fence = 2 }, attempt_of 62 2 late)
unfolding lock_attempt
held = refl

renew_run_attempt-lem_example :
    renew_run_attempt (late + 1) 7 60 62 2 reclaimed_db
    ≡ ok (
      late + 1 + lease_interval,
      record reclaimed_db {
        attempts =
            update
              (extendable (late + 1) 62 60 2 7)
              (λ b. record b { lease_expires_at = late + 1 + lease_interval })
              reclaimed_db.attempts;
      },
    )
renew_run_attempt-lem_example =
    renew_run_attempt-lem (late + 1) 60 62 7 2 reclaimed_db (record first_run { current_fence = 2 })
      (attempt_of 62 2 late) reclaimed_db-Consistent held

abbrev lost : FinishCommand
lost = record {
  machine_id = 7;
  run_id = 60;
  attempt_id = 62;
  fence = 2;
  outcome = RunState.unknown;
}

lost_state : validate_unresolved_outcome RunState.unknown ≡ ok AttemptState.unknown
unfolding validate_unresolved_outcome
lost_state = refl

finish_unresolved_attempt-completes_example :
    finish_unresolved_attempt (late + 1) lost reclaimed_db
    ≡ ok (record reclaimed_db {
      attempts =
          update
            (active_attempt 62)
            (λ b. record b { state = AttemptState.unknown; completed_at = some (late + 1) })
            reclaimed_db.attempts;
      runs =
          update
            (active_run 60)
            (λ x. record x { state = RunState.unknown; completed_at = some (late + 1) })
            reclaimed_db.runs;
    })
finish_unresolved_attempt-completes_example =
    finish_unresolved_attempt-completes (late + 1) lost reclaimed_db
      (record first_run { current_fence = 2 }) (attempt_of 62 2 late) AttemptState.unknown
      reclaimed_db-Consistent held (omega arith) lost_state

append_work_message-Answered_example :
    AnswerTo hash spell 150 80 append_command created_db second_input appended_db
append_work_message-Answered_example =
    append_work_message-Answered hash spell 150 80 append_command created_db appended

accept_work_review-Accepted_example :
    AcceptanceOf hash spell 500 accept_command reviewed_db accepted_db
accept_work_review-Accepted_example =
    accept_work_review-Accepted hash spell 500 accept_command reviewed_db accepted
