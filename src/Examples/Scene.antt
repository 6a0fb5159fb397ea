-- ===== src/Examples/Scene.antt =====
-- A machine of a space, a member, and the states that a Work goes through.
use carry.Prelude.{ℕ, ◌+◌, [], ◌∷◌, none, some, true, false, ◌≡◌, refl, arith}
use carry.Result.{ok}
use carry.Text.{Text, codes, trim_space, valid_text}
use carry.Work.{normalize_goal, normalize_idempotency_key}
use carry.Store.Tables.{Db, Work, Run, Attempt, AttemptState, lease_interval}
use carry.Execution.Retry.{principal, uuid, require_membership}
use carry.Execution.Claim.{
  Claim, Clock, Locks, claim_run, draft_run, start_run, recover_run, grant_attempt,
}
use carry.Execution.Attempt.{CommitCommand}
use carry.Store.Claims.{
  new_run, lock_claiming_machine, lock_expired_run_for_claim, lock_work_for_run_claim,
  select_run_input_end, bounded_end, create_run, create_run_attempt, list_run_input_messages,
  expire_run_attempt, rotate_run_fence,
}
use carry.Execution.Consistent.{Consistent}
use carry.Works.Create.{
  CreateCommand, create_work, create_checked, create_digest, work_from_create_row,
}
use carry.Store.Works.{insert_work, new_work}
use carry.Store.Retries.{lock_active_work_membership}

abbrev pub hash : Text → Text
hash s = s

abbrev pub spell : ℕ → Text
spell n = n ∷ []

-- Space 1 with machine 7 and member 3, and no Work.
abbrev pub empty_db : Db
empty_db = record {
  machines = record { machine_id = 7; space_id = 1; revoked_at = none } ∷ [];
  memberships = record { space_id = 1; user_id = 3; revoked_at = none } ∷ [];
  works = [];
  messages = [];
  runs = [];
  attempts = [];
  checks = [];
}

pub empty_db-Consistent : Consistent empty_db
empty_db-Consistent = record {
  runs_once = λ id. omega arith;
  works_once = λ id. omega arith;
  attempts_once = λ id. omega arith;
  held_once = λ id. omega arith;
  aligned = λ id r h act. cc;
  reviewed = λ id v h. cc;
}

abbrev pub create_command : CreateCommand
create_command = record {
  space_id = uuid 1;
  creator_user_id = principal 3;
  goal = codes " ship it";
  idempotency_key = codes "k1";
}

abbrev pub first_work : Work
first_work =
    new_work 100 50 1 (codes "ship it") 3 (codes "k1")
      (create_digest hash spell (uuid 1) (principal 3) (codes "ship it"))

abbrev pub created_db : Db
created_db = record empty_db { works = first_work ∷ [] }

pub created :
    create_work hash spell 100 50 create_command empty_db
    ≡ ok (work_from_create_row first_work, created_db)
unfolding create_work normalize_goal trim_space valid_text normalize_idempotency_key create_checked
    require_membership lock_active_work_membership insert_work
created = refl

abbrev pub at : ℕ → Clock
at now = record { began = now; searched = now; expired = now; leased = now }

abbrev pub unlocked : Locks
unlocked = record { run = λ id. false; work = λ id. false }

abbrev pub first_run : Run
first_run = new_run 200 60 50 1 1 0

abbrev pub attempt_of : ℕ → ℕ → ℕ → Attempt
attempt_of attempt_id fence now = record {
  attempt_id = attempt_id;
  run_id = 60;
  machine_id = 7;
  fence = fence;
  state = AttemptState.active;
  lease_expires_at = now + lease_interval;
  completed_at = none;
}

-- The Work is claimed at 200, and nobody renews the lease.
abbrev pub claimed_db : Db
claimed_db = record created_db { runs = first_run ∷ []; attempts = attempt_of 61 1 200 ∷ [] }

abbrev pub claim_of : ℕ → ℕ → ℕ → Claim
claim_of attempt_id fence now = record {
  run_id = 60;
  attempt_id = attempt_id;
  work_id = 50;
  fence = fence;
  lease_expires_at = now + lease_interval;
  goal = codes "ship it";
  current_understanding = [];
  current_next_step = [];
  base_understanding_version = 0;
  input_end_seq = 1;
  messages = [];
}

pub claimed : claim_run (at 200) unlocked 60 61 7 created_db ≡ ok (claim_of 61 1 200, claimed_db)
unfolding claim_run draft_run start_run grant_attempt lock_claiming_machine
    lock_expired_run_for_claim lock_work_for_run_claim select_run_input_end bounded_end create_run
    create_run_attempt list_run_input_messages
claimed = refl

-- Six minutes later the run is claimed again.
abbrev pub late : ℕ
late = 360000000

abbrev pub reclaimed_db : Db
reclaimed_db = record created_db {
  runs = record first_run { current_fence = 2 } ∷ [];
  attempts =
      attempt_of 62 2 late
      ∷ record (attempt_of 61 1 200) { state = AttemptState.expired; completed_at = some late }
      ∷ [];
}

pub reclaimed :
    claim_run (at late) unlocked 63 62 7 claimed_db ≡ ok (claim_of 62 2 late, reclaimed_db)
unfolding claim_run draft_run recover_run grant_attempt lock_claiming_machine
    lock_expired_run_for_claim expire_run_attempt rotate_run_fence create_run_attempt
    list_run_input_messages
reclaimed = refl

abbrev pub commit_command : CommitCommand
commit_command = record {
  machine_id = 7;
  run_id = 60;
  attempt_id = 62;
  fence = 2;
  base_understanding_version = 0;
  input_end_seq = 1;
  understanding = codes "shipped";
  next_step = codes "rest";
  review_required = true;
}
