-- ===== src/Store/Attempts.antt =====
-- internal/postgres/dbsqlc/run.sql.go: the statements of RenewRunAttempt, CommitWorkUnderstanding
-- and FinishUnresolvedAttempt. A join on a primary key is a lookup of its row; a statement reads
-- the clock once.
use carry.Prelude.{
  ℕ, ◌+◌, Bool, ◌&&◌, ◌∷◌, Option, none, some, ltb, leb, ◌==◌, if◌then◌else◌, find, update, count,
  any,
}
use carry.Result.{Result, ok, err, database}
use carry.Text.{Text}
use carry.Store.Tables.{
  Db, Work, Run, RunState, Attempt, AttemptState, Machine, is_null, is_open, run_active,
  attempt_active, work_with, run_with, attempt_with, machine_with, lease_interval,
}

-- The attempt holds the current fence, it and its run are active, and its machine is not revoked.
abbrev pub holds : ℕ → ℕ → Run → Attempt → Machine → Bool
holds machine_id fence r a m =
    a.run_id == r.run_id
    && a.machine_id == machine_id
    && a.fence == fence
    && r.current_fence == a.fence
    && run_active r.state
    && attempt_active a.state
    && is_null m.revoked_at

abbrev pub Held : Type 0
Held = Run × Attempt

-- The join and the condition of LockAttemptForRenew, LockAttemptForCommit and LockAttemptForFinish.
unfoldable pub lock_attempt : ℕ → ℕ → ℕ → ℕ → Db → Option Held
lock_attempt run_id attempt_id machine_id fence db = elim (find (run_with run_id) db.runs) [
  | none ↦ none
  | some r ↦ elim (find (attempt_with attempt_id) db.attempts) [
    | none ↦ none
    | some a ↦ elim (find (machine_with a.machine_id) db.machines) [
      | none ↦ none
      | some m ↦ if holds machine_id fence r a m then some (r, a) else none
    ]
  ]
]

-- LockAttemptForRenew.
unfoldable pub lock_attempt_for_renew : ℕ → ℕ → ℕ → ℕ → Db → Option ℕ
lock_attempt_for_renew run_id attempt_id machine_id fence db =
    elim (lock_attempt run_id attempt_id machine_id fence db) [
      | none ↦ none
      | some (r, a) ↦ some a.attempt_id
    ]

-- LockAttemptForFinish.
unfoldable pub lock_attempt_for_finish : ℕ → ℕ → ℕ → ℕ → Db → Option ℕ
lock_attempt_for_finish run_id attempt_id machine_id fence db =
    elim (lock_attempt run_id attempt_id machine_id fence db) [
      | none ↦ none
      | some (r, a) ↦ some r.run_id
    ]

-- LockAttemptForCommit: the same with the Work of the run.
unfoldable pub lock_attempt_for_commit : ℕ → ℕ → ℕ → ℕ → Db → Option (Run × Work)
lock_attempt_for_commit run_id attempt_id machine_id fence db =
    elim (lock_attempt run_id attempt_id machine_id fence db) [
      | none ↦ none
      | some (r, a) ↦ elim (find (work_with r.work_id) db.works) [
        | none ↦ none
        | some w ↦ some (r, w)
      ]
    ]

-- The row that ExtendRunAttemptLease updates.
abbrev pub extendable : ℕ → ℕ → ℕ → ℕ → ℕ → Attempt → Bool
extendable now attempt_id run_id fence machine_id a =
    a.attempt_id == attempt_id
    && a.run_id == run_id
    && a.machine_id == machine_id
    && a.fence == fence
    && attempt_active a.state
    && ltb now a.lease_expires_at

-- ExtendRunAttemptLease.
unfoldable pub extend_run_attempt_lease : ℕ → ℕ → ℕ → ℕ → ℕ → Db → Option (ℕ × Db)
extend_run_attempt_lease now attempt_id run_id fence machine_id db =
    let target = extendable now attempt_id run_id fence machine_id in
    if any (λ m. m.machine_id == machine_id && is_null m.revoked_at) db.machines
      && any (λ r. r.run_id == run_id && r.current_fence == fence && run_active r.state) db.runs
      && any target db.attempts
    then some (
      now + lease_interval,
      record db {
        attempts =
            update target (λ a. record a { lease_expires_at = now + lease_interval }) db.attempts;
      },
    )
    else none

-- RunAttemptLeaseIsCurrent.
unfoldable pub run_attempt_lease_is_current : ℕ → ℕ → Db → Result Bool
run_attempt_lease_is_current now attempt_id db = elim (find (attempt_with attempt_id) db.attempts) [
  | none ↦ err database
  | some a ↦ ok (ltb now a.lease_expires_at)
]

-- The row that CommitCurrentUnderstanding updates.
abbrev pub committable : ℕ → ℕ → ℕ → ℕ → Work → Bool
committable work_id applied expected_applied expected_version w =
    w.work_id == work_id
    && is_open w.lifecycle
    && w.applied_input_seq == expected_applied
    && w.understanding_version == expected_version
    && leb applied w.input_head_seq

-- CommitCurrentUnderstanding.
unfoldable pub commit_current_understanding : Text → Text → ℕ → ℕ → ℕ → ℕ → Db → Option (ℕ × Db)
commit_current_understanding understanding next_step applied work_id expected_applied
      expected_version db =
    let target = committable work_id applied expected_applied expected_version in
    elim (find target db.works) [
      | none ↦ none
      | some w ↦ some (
        w.understanding_version + 1,
        record db {
          works =
              update target
                (λ v. record v {
                  understanding = some understanding;
                  next_step = some next_step;
                  applied_input_seq = applied;
                  understanding_version = v.understanding_version + 1;
                })
                db.works;
        },
      )
    ]

-- CreateWorkResultCheck: the number of inserted rows. A key that is taken is an error, a version
-- that has a check already is not.
unfoldable pub create_work_result_check : ℕ → ℕ → ℕ → Text → Db → Result (ℕ × Db)
create_work_result_check review_id work_id version content_digest db =
    if any (λ c. c.work_id == work_id && c.understanding_version == version) db.checks
    then ok (0, db)
    else if any (λ c. c.review_id == review_id) db.checks
    then err database
    else ok (
      1,
      record db {
        checks =
            record {
              review_id = review_id;
              work_id = work_id;
              understanding_version = version;
              content_digest = content_digest;
              acceptance = none;
            }
            ∷ db.checks;
      },
    )

abbrev pub active_attempt : ℕ → Attempt → Bool
active_attempt attempt_id a = a.attempt_id == attempt_id && attempt_active a.state

abbrev pub active_run : ℕ → Run → Bool
active_run run_id r = r.run_id == run_id && run_active r.state

-- SucceedRunAttempt and FinishRunAttempt: the attempt ends in a state.
unfoldable pub end_run_attempt : ℕ → AttemptState → ℕ → Db → ℕ × Db
end_run_attempt now state attempt_id db = (
  count (active_attempt attempt_id) db.attempts,
  record db {
    attempts =
        update (active_attempt attempt_id)
          (λ a. record a { state = state; completed_at = some now }) db.attempts;
  },
)

-- SucceedRun and FinishRun: the run ends in a state.
unfoldable pub end_run : ℕ → RunState → ℕ → Db → ℕ × Db
end_run now state run_id db = (
  count (active_run run_id) db.runs,
  record db {
    runs =
        update (active_run run_id) (λ r. record r { state = state; completed_at = some now })
          db.runs;
  },
)
