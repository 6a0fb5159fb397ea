-- ===== src/Examples/Runs.antt =====
-- The theorems on runs at the scene.
use carry.Prelude.{◌+◌, none, true, ◌≡◌, refl, arith}
use carry.Result.{ok, err, stale_attempt}
use carry.Text.{codes, trim_space, valid_text}
use carry.Work.{validate_understanding_update}
use carry.Store.Tables.{RunState, Db}
use carry.Execution.History.{Evolves}
use carry.Execution.Attempt.{
  FinishCommand, renew_run_attempt, commit_work_understanding, finish_unresolved_attempt,
}
use carry.Execution.Consistent.{Consistent}
use carry.Execution.Invariant.{claim_run-Consistent}
use carry.Execution.Committing.{
  with_review, asked_review, committed, Outcome, commit_work_understanding-Outcome,
}
use carry.Execution.Completion.{Holds, commit_work_understanding-completes}
use carry.Works.Invariant.{Kept-Consistent, create_work-Kept}
use carry.System.Step.{Step, claims, creates, Reach, here, next}
use carry.System.Safety.{Reach-Consistent, Reach-Evolves}
use carry.System.Fencing.{IsError, claim_run-fences_out}
use carry.Works.Create.{work_from_create_row}
use carry.Examples.Scene.{
  hash, spell, empty_db, empty_db-Consistent, create_command, first_work, created_db, created, at,
  unlocked, first_run, attempt_of, claimed_db, claim_of, claimed, late, reclaimed_db, reclaimed,
  commit_command,
}

until_claimed : Reach hash spell empty_db claimed_db
until_claimed =
    next (next here (creates 100 50 create_command (work_from_create_row first_work) created))
      (claims (at 200) unlocked 60 61 7 (claim_of 61 1 200) claimed)

again : Step hash spell claimed_db reclaimed_db
again = claims (at late) unlocked 63 62 7 (claim_of 62 2 late) reclaimed

claimed_db-Consistent : Consistent claimed_db
claimed_db-Consistent = claim_run-Consistent (at 200) unlocked 60 61 7 created_db claimed (
    Kept-Consistent (create_work-Kept hash spell 100 50 create_command empty_db created)
      empty_db-Consistent)

pub reclaimed_db-Consistent : Consistent reclaimed_db
reclaimed_db-Consistent =
    claim_run-Consistent (at late) unlocked 63 62 7 claimed_db reclaimed claimed_db-Consistent

Reach-Consistent_example : Consistent claimed_db
Reach-Consistent_example =
    Reach-Consistent hash spell {d = empty_db} {e = claimed_db} until_claimed empty_db-Consistent

Reach-Evolves_example : Evolves claimed_db.runs reclaimed_db.runs
Reach-Evolves_example =
    Reach-Evolves hash spell {d = claimed_db} {e = reclaimed_db} (next here again)

abbrev old_finish : FinishCommand
old_finish = record {
  machine_id = 7;
  run_id = 60;
  attempt_id = 61;
  fence = 1;
  outcome = RunState.failed;
}

claim_run-fences_out_example :
    (renew_run_attempt (late + 1) 7 60 61 1 reclaimed_db ≡ err stale_attempt)
    × IsError (
        commit_work_understanding hash
          (late + 1)
          70
          (record commit_command { run_id = 60; fence = 1 })
          reclaimed_db)
    × IsError (
        finish_unresolved_attempt
          (late + 1)
          (record old_finish { run_id = 60; fence = 1 })
          reclaimed_db)
claim_run-fences_out_example =
    claim_run-fences_out hash spell (at late) unlocked 63 62 7 {c = claim_of 62 2 late}
      {d = claimed_db} {d1 = reclaimed_db} {e = reclaimed_db} claimed_db-Consistent reclaimed here
      (late + 1) 7 61 1 70 commit_command old_finish (omega arith)

holder :
    Holds (late + 1) commit_command reclaimed_db (record first_run { current_fence = 2 }) first_work
holder = record {
  attempt = attempt_of 62 2 late;
  machine = record { machine_id = 7; space_id = 1; revoked_at = none };
  run_found = refl;
  attempt_found = refl;
  machine_found = refl;
  work_found = refl;
  held = refl;
  unexpired = omega arith;
  work_open = refl;
  base_claimed = refl;
  end_claimed = refl;
}

commit_accepted :
    validate_understanding_update (codes "shipped") (codes "rest")
    ≡ ok (codes "shipped", codes "rest")
unfolding validate_understanding_update trim_space valid_text
commit_accepted = refl

commit_work_understanding-completes_example :
    commit_work_understanding hash (late + 1) 70 commit_command reclaimed_db
    ≡ ok (
        with_review true (asked_review hash 70 (codes "shipped") (codes "rest") first_work) (
          committed
            (codes "shipped")
            (codes "rest")
            (late + 1)
            commit_command
            (record first_run { current_fence = 2 })
            reclaimed_db))
commit_work_understanding-completes_example =
    commit_work_understanding-completes hash (late + 1) 70 commit_command reclaimed_db
      (record first_run { current_fence = 2 }) first_work (codes "shipped") (codes "rest")
      reclaimed_db-Consistent holder commit_accepted refl

abbrev finished_db : Db
finished_db = with_review true (asked_review hash 70 (codes "shipped") (codes "rest") first_work) (
    committed (codes "shipped") (codes "rest") (late + 1) commit_command
      (record first_run { current_fence = 2 }) reclaimed_db)

commit_work_understanding-Outcome_example :
    Outcome hash (late + 1) 70 commit_command reclaimed_db finished_db
commit_work_understanding-Outcome_example =
    commit_work_understanding-Outcome hash (late + 1) 70 commit_command reclaimed_db
      {d' = finished_db}
      (commit_work_understanding-completes hash (late + 1) 70 commit_command reclaimed_db
        (record first_run { current_fence = 2 }) first_work (codes "shipped") (codes "rest")
        reclaimed_db-Consistent holder commit_accepted refl)
