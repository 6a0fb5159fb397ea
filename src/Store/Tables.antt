-- ===== src/Store/Tables.antt =====
-- The rows of internal/postgres/migrations that the statements on Work and Run read and write.
-- A uuid is the number that it spells, a timestamp counts microseconds, a bigint is a number.
-- Columns that no modelled statement reads are left out, and so are the display names, which
-- a foreign key guarantees.
use carry.Prelude.{ℕ, ◌*◌, Bool, true, false, ◌&&◌, ◌||◌, List, Option, none, some, ◌==◌}
use carry.Text.{Text}

-- `LifecycleOpen`, or any other value of the column.
pub data Lifecycle : Type 0 where
  lifecycle_open lifecycle_other : Lifecycle

pub data RunState : Type 0 where
  active succeeded failed unknown : RunState

pub data AttemptState : Type 0 where
  active succeeded failed unknown expired : AttemptState

pub record Machine : Type 0 where
  pub machine_id : ℕ
  pub space_id : ℕ
  pub revoked_at : Option ℕ

pub record Membership : Type 0 where
  pub space_id : ℕ
  pub user_id : ℕ
  pub revoked_at : Option ℕ

pub record Work : Type 0 where
  pub work_id : ℕ
  pub space_id : ℕ
  pub goal : Text
  pub lifecycle : Lifecycle
  pub owner_user_id : ℕ
  pub creator_user_id : ℕ
  pub input_head_seq : ℕ
  pub applied_input_seq : ℕ
  pub understanding_version : ℕ
  pub understanding : Option Text
  pub next_step : Option Text
  pub create_idempotency_key : Text
  pub create_request_digest : Text
  pub created_at : ℕ

pub record WorkMessage : Type 0 where
  pub message_id : ℕ
  pub work_id : ℕ
  pub author_user_id : ℕ
  pub text : Text
  pub input_seq : ℕ
  pub idempotency_key : Text
  pub request_digest : Text
  pub created_at : ℕ

-- The three retry columns, which a constraint sets together.
pub record Retry : Type 0 where
  pub requested_at : ℕ
  pub requested_by_user_id : ℕ
  pub idempotency_key : Text

pub record Run : Type 0 where
  pub run_id : ℕ
  pub work_id : ℕ
  pub input_start_seq : ℕ
  pub input_end_seq : ℕ
  pub base_understanding_version : ℕ
  pub state : RunState
  pub current_fence : ℕ
  pub created_at : ℕ
  pub completed_at : Option ℕ
  pub retry : Option Retry

pub record Attempt : Type 0 where
  pub attempt_id : ℕ
  pub run_id : ℕ
  pub machine_id : ℕ
  pub fence : ℕ
  pub state : AttemptState
  pub lease_expires_at : ℕ
  pub completed_at : Option ℕ

-- The four acceptance columns, which a constraint sets together.
pub record Acceptance : Type 0 where
  pub accepted_by_user_id : ℕ
  pub idempotency_key : Text
  pub request_digest : Text
  pub accepted_at : ℕ

pub record ResultCheck : Type 0 where
  pub review_id : ℕ
  pub work_id : ℕ
  pub understanding_version : ℕ
  pub content_digest : Text
  pub acceptance : Option Acceptance

pub record Db : Type 0 where
  pub machines : List Machine
  pub memberships : List Membership
  pub works : List Work
  pub messages : List WorkMessage
  pub runs : List Run
  pub attempts : List Attempt
  pub checks : List ResultCheck

abbrev pub is_null {ℓ} : {A : Type ℓ} → Option A → Bool
is_null none = true
is_null (some a) = false

abbrev pub is_open : Lifecycle → Bool
is_open lifecycle_open = true
is_open lifecycle_other = false

abbrev pub run_active : RunState → Bool
run_active RunState.active = true
run_active _ = false

-- `state IN ('failed', 'unknown')`.
abbrev pub run_unresolved : RunState → Bool
run_unresolved RunState.failed = true
run_unresolved RunState.unknown = true
run_unresolved _ = false

abbrev pub attempt_active : AttemptState → Bool
attempt_active AttemptState.active = true
attempt_active _ = false

-- The rows with a given primary key.
abbrev pub work_with : ℕ → Work → Bool
work_with id w = w.work_id == id

abbrev pub run_with : ℕ → Run → Bool
run_with id r = r.run_id == id

abbrev pub attempt_with : ℕ → Attempt → Bool
attempt_with id a = a.attempt_id == id

abbrev pub machine_with : ℕ → Machine → Bool
machine_with id m = m.machine_id == id

-- The partial index `runs_unresolved_work_idx`: an active run of a Work, or one that failed or got
-- lost and whose retry nobody has asked for.
abbrev pub holds_work : ℕ → Run → Bool
holds_work id r =
    r.work_id == id && (run_active r.state || (run_unresolved r.state && is_null r.retry))

-- `interval '5 minutes'`.
abbrev pub lease_interval : ℕ
lease_interval = 5 * 60 * 1000000
