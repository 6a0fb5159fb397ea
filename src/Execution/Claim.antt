-- ===== src/Execution/Claim.antt =====
-- ClaimRun of internal/postgres/run.go. A transaction is a function of the tables; an error rolls
-- it back. The reading of the clock for each statement, the rows that are locked by others and the
-- new uuids are arguments.
use carry.Prelude.{ℕ, ◌+◌, Bool, not, List, [], Option, none, some, ◌==◌}
use carry.Result.{
  Result, ok, err, ◌>>=◌, ◌>>◌, fail_if, or_fail, machine_not_found, machine_revoked, stale_attempt,
  no_run_available, database,
}
use carry.Text.{Text}
use carry.Store.Tables.{Db, Work, is_null}
use carry.Store.Claims.{
  Candidate, lock_claiming_machine, lock_expired_run_for_claim, expire_run_attempt,
  rotate_run_fence, lock_work_for_run_claim, select_run_input_end, create_run, create_run_attempt,
  list_run_input_messages,
}

-- `run.Claim`.
pub record Claim : Type 0 where
  pub run_id : ℕ
  pub attempt_id : ℕ
  pub work_id : ℕ
  pub fence : ℕ
  pub lease_expires_at : ℕ
  pub goal : Text
  pub current_understanding : Text
  pub current_next_step : Text
  pub base_understanding_version : ℕ
  pub input_end_seq : ℕ
  pub messages : List (ℕ × Text)

-- The readings of the clock in one ClaimRun, in the order of the statements.
pub record Clock : Type 0 where
  pub began : ℕ
  pub searched : ℕ
  pub expired : ℕ
  pub leased : ℕ

pub record Locks : Type 0 where
  pub run : ℕ → Bool
  pub work : ℕ → Bool

-- `textValue`.
abbrev pub text_value : Option Text → Text
text_value none = []
text_value (some t) = t

-- What is known before the attempt is created: the claim without its attempt, and the first input.
pub record Draft : Type 0 where
  pub claim : Claim
  pub input_start_seq : ℕ

-- The case of an expired run: its attempt is expired and its fence is moved on.
unfoldable pub recover_run : ℕ → Candidate → Db → Result (Draft × Db)
recover_run now c db =
    let (rows, db') =
      expire_run_attempt now c.attempt.attempt_id c.run.run_id c.run.current_fence db in
    do
      fail_if (not (rows == 1)) stale_attempt
      (fence, db'') ← or_fail (rotate_run_fence c.run.run_id c.run.current_fence db') database
      ok (
        record {
          claim = record {
            run_id = c.run.run_id;
            attempt_id = 0;
            work_id = c.run.work_id;
            fence = fence;
            lease_expires_at = 0;
            goal = c.work.goal;
            current_understanding = text_value c.work.understanding;
            current_next_step = text_value c.work.next_step;
            base_understanding_version = c.run.base_understanding_version;
            input_end_seq = c.run.input_end_seq;
            messages = [];
          };
          input_start_seq = c.run.input_start_seq;
        },
        db'',
      )

-- The case of a Work with new input and no run that holds it.
unfoldable pub start_run : ℕ → ℕ → Work → Db → Result (Draft × Db)
start_run now run_id w db =
    let start_seq = w.applied_input_seq + 1 in
    let end_seq = select_run_input_end start_seq w.work_id w.input_head_seq db in
    do
      db' ← create_run now run_id w.work_id start_seq end_seq w.understanding_version db
      ok (
        record {
          claim = record {
            run_id = run_id;
            attempt_id = 0;
            work_id = w.work_id;
            fence = 1;
            lease_expires_at = 0;
            goal = w.goal;
            current_understanding = text_value w.understanding;
            current_next_step = text_value w.next_step;
            base_understanding_version = w.understanding_version;
            input_end_seq = end_seq;
            messages = [];
          };
          input_start_seq = start_seq;
        },
        db',
      )

unfoldable pub draft_run : Clock → Locks → ℕ → ℕ → Db → Result (Draft × Db)
draft_run clock locks run_id space_id db =
    elim (lock_expired_run_for_claim clock.searched locks.run space_id db) [
      | some c ↦ recover_run clock.expired c db
      | none ↦ elim (lock_work_for_run_claim locks.work space_id db) [
        | none ↦ err no_run_available
        | some w ↦ start_run clock.began run_id w db
      ]
    ]

-- The attempt of a drafted claim, and the input messages.
unfoldable pub grant_attempt : ℕ → ℕ → ℕ → Draft → Db → Result (Claim × Db)
grant_attempt now attempt_id machine_id draft db = do
  let claim = draft.claim
  (lease, db') ← create_run_attempt now attempt_id claim.run_id machine_id claim.fence db
  ok (
    record claim {
      attempt_id = attempt_id;
      lease_expires_at = lease;
      messages =
          list_run_input_messages claim.work_id draft.input_start_seq claim.input_end_seq db';
    },
    db',
  )

-- ClaimRun.
unfoldable pub claim_run : Clock → Locks → ℕ → ℕ → ℕ → Db → Result (Claim × Db)
claim_run clock locks run_id attempt_id machine_id db = do
  m ← or_fail (lock_claiming_machine machine_id db) machine_not_found
  fail_if (not (is_null m.revoked_at)) machine_revoked
  (draft, db') ← draft_run clock locks run_id m.space_id db
  grant_attempt clock.leased attempt_id machine_id draft db'
