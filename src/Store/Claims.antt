-- ===== src/Store/Claims.antt =====
-- internal/postgres/dbsqlc/run.sql.go: the statements of ClaimRun. `SKIP LOCKED` leaves out the
-- rows that other transactions hold: which they are is an argument.
use carry.Prelude.{
  ℕ, ◌+◌, ◌*◌, Bool, ◌&&◌, ◌||◌, not, List, [], ◌∷◌, Option, none, some, ltb, leb, ◌==◌,
  if◌then◌else◌, find, update, count, any, first_by, select, select_map, sort_by, map, take, length,
}
use carry.Result.{Result, ok, err, database, no_run_available}
use carry.Text.{Text}
use carry.Store.Tables.{
  Db, Work, WorkMessage, Run, RunState, Attempt, AttemptState, Machine, is_open, run_active,
  attempt_active, work_with, run_with, attempt_with, machine_with, holds_work, lease_interval,
}

-- LockClaimingMachine.
unfoldable pub lock_claiming_machine : ℕ → Db → Option Machine
lock_claiming_machine machine_id db = find (machine_with machine_id) db.machines

-- A row of the join in LockExpiredRunForClaim.
pub record Candidate : Type 0 where
  pub run : Run
  pub work : Work
  pub attempt : Attempt

abbrev pub is_expired : ℕ → ℕ → Candidate → Bool
is_expired now space_id c =
    c.work.space_id == space_id
    && is_open c.work.lifecycle
    && run_active c.run.state
    && attempt_active c.attempt.state
    && leb c.attempt.lease_expires_at now

-- The run with its Work and the attempt under its current fence.
unfoldable pub join_run : Db → Run → Option Candidate
join_run db r = elim (find (work_with r.work_id) db.works) [
  | none ↦ none
  | some w ↦ elim (find (λ a. a.run_id == r.run_id && a.fence == r.current_fence) db.attempts) [
    | none ↦ none
    | some a ↦ some (record { run = r; work = w; attempt = a })
  ]
]

-- `ORDER BY attempt.lease_expires_at, run.created_at, run.run_id`.
abbrev pub expires_before : Candidate → Candidate → Bool
expires_before c d =
    ltb c.attempt.lease_expires_at d.attempt.lease_expires_at
    || (c.attempt.lease_expires_at == d.attempt.lease_expires_at
        && (ltb c.run.created_at d.run.created_at
            || (c.run.created_at == d.run.created_at && ltb c.run.run_id d.run.run_id)))

-- LockExpiredRunForClaim.
unfoldable pub lock_expired_run_for_claim : ℕ → (ℕ → Bool) → ℕ → Db → Option Candidate
unfolding join_run
lock_expired_run_for_claim now locked space_id db = first_by expires_before (
    select (λ c. is_expired now space_id c && not (locked c.run.run_id))
      (select_map (join_run db) db.runs))

abbrev pub expirable : ℕ → ℕ → ℕ → ℕ → Attempt → Bool
expirable now attempt_id run_id fence a =
    a.attempt_id == attempt_id
    && a.run_id == run_id
    && a.fence == fence
    && attempt_active a.state
    && leb a.lease_expires_at now

-- ExpireRunAttempt, with the number of rows.
unfoldable pub expire_run_attempt : ℕ → ℕ → ℕ → ℕ → Db → ℕ × Db
expire_run_attempt now attempt_id run_id fence db = (
  count (expirable now attempt_id run_id fence) db.attempts,
  record db {
    attempts =
        update (expirable now attempt_id run_id fence)
          (λ a. record a { state = AttemptState.expired; completed_at = some now }) db.attempts;
  },
)

abbrev pub rotatable : ℕ → ℕ → Run → Bool
rotatable run_id fence r = r.run_id == run_id && run_active r.state && r.current_fence == fence

-- RotateRunFence.
unfoldable pub rotate_run_fence : ℕ → ℕ → Db → Option (ℕ × Db)
rotate_run_fence run_id fence db =
    if any (rotatable run_id fence) db.runs
    then some (
      fence + 1,
      record db {
        runs =
            update (rotatable run_id fence) (λ r. record r { current_fence = r.current_fence + 1 })
              db.runs;
      },
    )
    else none

abbrev pub is_claimable : ℕ → Db → Work → Bool
is_claimable space_id db w =
    w.space_id == space_id
    && is_open w.lifecycle
    && ltb w.applied_input_seq w.input_head_seq
    && not (any (holds_work w.work_id) db.runs)

-- `ORDER BY work.created_at, work.work_id`.
abbrev pub created_before : Work → Work → Bool
created_before v w =
    ltb v.created_at w.created_at || (v.created_at == w.created_at && ltb v.work_id w.work_id)

-- LockWorkForRunClaim.
unfoldable pub lock_work_for_run_claim : (ℕ → Bool) → ℕ → Db → Option Work
lock_work_for_run_claim locked space_id db =
    first_by created_before
      (select (λ w. is_claimable space_id db w && not (locked w.work_id)) db.works)

abbrev pub in_range : ℕ → ℕ → ℕ → WorkMessage → Bool
in_range work_id start_seq end_seq m =
    m.work_id == work_id && leb start_seq m.input_seq && leb m.input_seq end_seq

abbrev pub message_seq : WorkMessage → ℕ
message_seq m = m.input_seq

-- The last input whose text ends within the limit, the bytes before it being `used`.
unfoldable pub bounded_end : ℕ → ℕ → List WorkMessage → ℕ
bounded_end used last [] = last
bounded_end used last (m ∷ ms) =
    let total = used + length m.text in
    bounded_end total
      (if leb total (256 * 1024)
        then (if ltb last m.input_seq then m.input_seq else last)
        else last)
      ms

-- SelectRunInputEnd: `max` of the input numbers within 32 messages and 256 KiB, the first one if
-- there are none.
unfoldable pub select_run_input_end : ℕ → ℕ → ℕ → Db → ℕ
select_run_input_end start_seq work_id head_seq db =
    bounded_end 0 start_seq
      (take 32 (sort_by message_seq (select (in_range work_id start_seq head_seq) db.messages)))

-- The row that CreateRun inserts.
abbrev pub new_run : ℕ → ℕ → ℕ → ℕ → ℕ → ℕ → Run
new_run now run_id work_id start_seq end_seq version = record {
  run_id = run_id;
  work_id = work_id;
  input_start_seq = start_seq;
  input_end_seq = end_seq;
  base_understanding_version = version;
  state = RunState.active;
  current_fence = 1;
  created_at = now;
  completed_at = none;
  retry = none;
}

-- CreateRun. A taken key is an error, a Work that another run holds is not available.
unfoldable pub create_run : ℕ → ℕ → ℕ → ℕ → ℕ → ℕ → Db → Result Db
create_run now run_id work_id start_seq end_seq version db =
    if any (run_with run_id) db.runs
    then err database
    else if any (holds_work work_id) db.runs
    then err no_run_available
    else ok (record db { runs = new_run now run_id work_id start_seq end_seq version ∷ db.runs })

-- CreateRunAttempt. A taken key, a taken fence or another active attempt of the run is an error.
unfoldable pub create_run_attempt : ℕ → ℕ → ℕ → ℕ → ℕ → Db → Result (ℕ × Db)
create_run_attempt now attempt_id run_id machine_id fence db =
    if any (attempt_with attempt_id) db.attempts
      || any (λ a. a.run_id == run_id && (a.fence == fence || attempt_active a.state)) db.attempts
    then err database
    else ok (
      now + lease_interval,
      record db {
        attempts =
            record {
              attempt_id = attempt_id;
              run_id = run_id;
              machine_id = machine_id;
              fence = fence;
              state = AttemptState.active;
              lease_expires_at = now + lease_interval;
              completed_at = none;
            }
            ∷ db.attempts;
      },
    )

-- ListRunInputMessages: authors and texts in the order of the input.
unfoldable pub list_run_input_messages : ℕ → ℕ → ℕ → Db → List (ℕ × Text)
list_run_input_messages work_id start_seq end_seq db =
    map (λ m. (m.author_user_id, m.text))
      (sort_by message_seq (select (in_range work_id start_seq end_seq) db.messages))
