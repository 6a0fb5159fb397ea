-- ===== src/Examples/Again.antt =====
-- Commands that are sent twice, at the scene.
use carry.Prelude.{[], ◌∷◌, none, some, ◌≡◌, refl}
use carry.Result.{err, idempotency_conflict, ok}
use carry.Text.{codes, trim_space, valid_text, text_eq}
use carry.Digest.{encode_fields}
use carry.Work.{normalize_idempotency_key, validate_message}
use carry.Store.Tables.{Db, WorkMessage, Run, RunState, ResultCheck}
use carry.Store.Retries.{
  lock_active_work_membership, lock_work, find_run_retry_by_idempotency, lock_retryable_run,
  request_run_retry,
}
use carry.Store.Works.{
  find_work_message_by_idempotency, advance_work_input_head, create_work_message,
  find_work_review_acceptance, lock_work_result_check, accept_work_result_check,
}
use carry.Execution.Retry.{
  respelled, principal, RetryCommand, uuid, require_membership, retry_locked, request_work_retry,
}
use carry.Execution.Replay.{request_work_retry_again}
use carry.Works.Create.{create_work, work_from_idempotency_row}
use carry.Works.Append.{
  AppendMessageCommand, append_new, append_locked, append_work_message, message_digest,
}
use carry.Works.Accept.{
  AcceptReviewCommand, accept_work_review, accept_review, accept_locked, accept_checked,
  acceptance_digest,
}
use carry.Works.Replay.{create_work_again, append_work_message_again}
use carry.Works.AcceptAgain.{accept_work_review_again}
use carry.Examples.Scene.{
  hash, spell, empty_db, create_command, first_work, created_db, created, first_run,
}

create_work_again_example :
    create_work hash spell 900 51 create_command created_db
    ≡ ok (work_from_idempotency_row first_work created_db, created_db)
create_work_again_example =
    create_work_again hash spell 100 900 50 51 create_command empty_db created

abbrev pub append_command : AppendMessageCommand
append_command = record {
  work_id = uuid 50;
  space_id = uuid 1;
  author_user_id = principal 3;
  text = codes "and test it";
  idempotency_key = codes "k2";
}

abbrev pub second_input : WorkMessage
second_input = record {
  message_id = 80;
  work_id = 50;
  author_user_id = 3;
  text = codes "and test it";
  input_seq = 2;
  idempotency_key = codes "k2";
  request_digest = message_digest hash spell (uuid 50) (principal 3) (codes "and test it");
  created_at = 150;
}

abbrev pub appended_db : Db
appended_db = record created_db {
  works = record first_work { input_head_seq = 2 } ∷ [];
  messages = second_input ∷ [];
}

pub appended :
    append_work_message hash spell 150 80 append_command created_db ≡ ok (second_input, appended_db)
unfolding append_work_message append_locked append_new validate_message normalize_idempotency_key
    trim_space valid_text require_membership lock_active_work_membership lock_work
    find_work_message_by_idempotency advance_work_input_head create_work_message
appended = refl

append_work_message_again_example :
    append_work_message hash spell 900 81 append_command appended_db
    ≡ ok (second_input, appended_db)
append_work_message_again_example =
    append_work_message_again hash spell 150 900 80 81 append_command created_db appended

abbrev retry_command : RetryCommand
retry_command = record {
  work_id = uuid 50;
  space_id = uuid 1;
  requested_by = principal 3;
  idempotency_key = codes "k3";
}

abbrev failed_run : Run
failed_run = record first_run { state = RunState.failed; completed_at = some 300 }

abbrev failed_db : Db
failed_db = record created_db { runs = failed_run ∷ [] }

abbrev retried_db : Db
retried_db = record created_db {
  runs =
      record failed_run {
        retry =
            some (record {
              requested_at = 400;
              requested_by_user_id = 3;
              idempotency_key = codes "k3";
            });
      }
      ∷ [];
}

retried : request_work_retry 400 retry_command failed_db ≡ ok retried_db
unfolding request_work_retry retry_locked normalize_idempotency_key trim_space valid_text
    require_membership lock_active_work_membership lock_work find_run_retry_by_idempotency
    lock_retryable_run request_run_retry
retried = refl

request_work_retry_again_example : request_work_retry 900 retry_command retried_db ≡ ok retried_db
request_work_retry_again_example = request_work_retry_again 400 900 retry_command failed_db retried

abbrev pub accept_command : AcceptReviewCommand
accept_command = record {
  work_id = uuid 50;
  space_id = uuid 1;
  review_id = uuid 70;
  accepted_by = principal 3;
  idempotency_key = codes "k4";
}

abbrev open_check : ResultCheck
open_check = record {
  review_id = 70;
  work_id = 50;
  understanding_version = 1;
  content_digest = hash (encode_fields (codes "shipped" ∷ codes "rest" ∷ []));
  acceptance = none;
}

abbrev pub reviewed_db : Db
reviewed_db = record empty_db {
  works =
      record first_work {
        applied_input_seq = 1;
        understanding_version = 1;
        understanding = some (codes "shipped");
        next_step = some (codes "rest");
      }
      ∷ [];
  checks = open_check ∷ [];
}

abbrev pub accepted_db : Db
accepted_db = record reviewed_db {
  checks =
      record open_check {
        acceptance = some (record {
          accepted_by_user_id = 3;
          idempotency_key = codes "k4";
          request_digest = acceptance_digest hash spell (uuid 50) (uuid 70);
          accepted_at = 500;
        });
      }
      ∷ [];
}

pub accepted : accept_work_review hash spell 500 accept_command reviewed_db ≡ ok accepted_db
unfolding accept_work_review accept_checked accept_locked accept_review normalize_idempotency_key
    trim_space valid_text text_eq encode_fields require_membership lock_active_work_membership
    lock_work find_work_review_acceptance lock_work_result_check accept_work_result_check
accepted = refl

accept_work_review_again_example :
    accept_work_review hash spell 900 accept_command accepted_db ≡ ok accepted_db
accept_work_review_again_example =
    accept_work_review_again hash spell 500 900 accept_command reviewed_db 70 refl accepted

-- A review that is named in capitals is accepted, and the same command again is a conflict.
abbrev capitals : AcceptReviewCommand
capitals = record accept_command { review_id = respelled 70 (codes "AB") }

abbrev capitals_db : Db
capitals_db = record reviewed_db {
  checks =
      record open_check {
        acceptance = some (record {
          accepted_by_user_id = 3;
          idempotency_key = codes "k4";
          request_digest = acceptance_digest hash spell (uuid 50) (respelled 70 (codes "AB"));
          accepted_at = 500;
        });
      }
      ∷ [];
}

accepted_capitals : accept_work_review hash spell 500 capitals reviewed_db ≡ ok capitals_db
unfolding accept_work_review accept_checked accept_locked accept_review normalize_idempotency_key
    trim_space valid_text text_eq encode_fields require_membership lock_active_work_membership
    lock_work find_work_review_acceptance lock_work_result_check accept_work_result_check
accepted_capitals = refl

capitals_again : accept_work_review hash spell 900 capitals capitals_db ≡ err idempotency_conflict
unfolding accept_work_review accept_checked accept_locked accept_review normalize_idempotency_key
    trim_space valid_text text_eq encode_fields require_membership lock_active_work_membership
    lock_work find_work_review_acceptance lock_work_result_check accept_work_result_check
capitals_again = refl
