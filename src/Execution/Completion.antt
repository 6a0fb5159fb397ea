-- ===== src/Execution/Completion.antt =====
-- CommitWorkUnderstanding of internal/postgres/run.go, for the attempt that holds its run.
use carry.Prelude.{
  ℕ, ◌+◌, ◌-◌, ◌<◌, Bool, true, false, some, ◌≡◌, inl, inr, refl, arith, ◌==◌, find, update, count,
  any, find_sound, find-narrow, one_row, Bool-cases, sym, subst,
}
use carry.Result.{ok}
use carry.Text.{Text}
use carry.Work.{validate_understanding_update}
use carry.Store.Tables.{
  Db, Work, Run, RunState, Attempt, AttemptState, Machine, run_with, work_with, attempt_with,
  machine_with, is_open,
}
use carry.Store.Attempts.{
  lock_attempt, lock_attempt_for_commit, run_attempt_lease_is_current, commit_current_understanding,
  create_work_result_check, end_run_attempt, end_run, active_run, active_attempt, committable,
  holds,
}
use carry.Execution.Attempt.{
  CommitCommand, commit_work_understanding, request_review, end_both, is_stale,
}
use carry.Execution.Consistent.{Consistent, Fits, check_at}
use carry.Execution.Committing.{understood, committed, is_asked, asked_review, with_review}

-- The attempt holds its run under an unexpired lease, and reports what the run was claimed with.
pub record Holds (now : ℕ) (c : CommitCommand) (d : Db) (r : Run) (w : Work) : Type 0 where
  pub attempt : Attempt
  pub machine : Machine
  pub run_found : find (run_with c.run_id) d.runs ≡ some r
  pub attempt_found : find (attempt_with c.attempt_id) d.attempts ≡ some attempt
  pub machine_found : find (machine_with attempt.machine_id) d.machines ≡ some machine
  pub work_found : find (work_with r.work_id) d.works ≡ some w
  pub held : holds c.machine_id c.fence r attempt machine ≡ true
  pub unexpired : now < attempt.lease_expires_at
  pub work_open : is_open w.lifecycle ≡ true
  pub base_claimed : c.base_understanding_version ≡ r.base_understanding_version
  pub end_claimed : c.input_end_seq ≡ r.input_end_seq

Holds-locks :
    {now : ℕ} {c : CommitCommand} {d : Db} {r : Run} {w : Work}
    → Holds now c d r w
    → lock_attempt_for_commit c.run_id c.attempt_id c.machine_id c.fence d ≡ some (r, w)
unfolding lock_attempt_for_commit lock_attempt
Holds-locks h = ground (arith, h.run_found, h.attempt_found, h.machine_found, h.held, h.work_found)

Holds-leased :
    {now : ℕ} {c : CommitCommand} {d : Db} {r : Run} {w : Work}
    → Holds now c d r w
    → run_attempt_lease_is_current now c.attempt_id d ≡ ok true
unfolding run_attempt_lease_is_current
Holds-leased h = ground (arith, h.unexpired, h.attempt_found)

Holds-agrees :
    {now : ℕ} {c : CommitCommand} {d : Db} {r : Run} {w : Work}
    → Holds now c d r w
    → Fits r w
    → is_stale c r w ≡ false
Holds-agrees h f =
    ground
      (arith, h.work_open, h.base_claimed, h.end_claimed, f.starts_next, f.from_current, f.exists)

-- The one attempt and the one run that end.
pub end_both-completes :
    (now : ℕ) (a : AttemptState) (s : RunState) (attempt_id run_id : ℕ) (d : Db)
    → count (active_attempt attempt_id) d.attempts ≡ 1
    → count (active_run run_id) d.runs ≡ 1
    → end_both now a s attempt_id run_id d
      ≡ ok (record d {
        attempts =
            update
              (active_attempt attempt_id)
              (λ b. record b { state = a; completed_at = some now })
              d.attempts;
        runs =
            update
              (active_run run_id)
              (λ r. record r { state = s; completed_at = some now })
              d.runs;
      })
unfolding end_both end_run_attempt end_run
end_both-completes now a s attempt_id run_id d ha hr = ground arith

commit_current_understanding-completes :
    (u n : Text) (applied work_id expected version : ℕ) (d : Db) (w : Work)
    → find (work_with work_id) d.works ≡ some w
    → committable work_id applied expected version w ≡ true
    → commit_current_understanding u n applied work_id expected version d
      ≡ some (
        w.understanding_version + 1,
        record d {
          works =
              update
                (committable work_id applied expected version)
                (understood u n applied)
                d.works;
        },
      )
unfolding commit_current_understanding
commit_current_understanding-completes u n applied work_id expected version d w h e = ground (
  arith,
  find-narrow (work_with work_id) (committable work_id applied expected version)
      (λ x g. ground arith) d.works {x = w},
)

request_review-completes :
    (sha256 : Text → Text) (review_id : ℕ) (required : Bool) (r : Run) (w : Work) (u n : Text)
    (d : Db)
    → any (check_at w.work_id (w.understanding_version + 1)) d.checks ≡ false
    → any (λ k. k.review_id == review_id) d.checks ≡ false
    → request_review sha256 review_id required r w u n (w.understanding_version + 1) d
      ≡ ok (with_review (is_asked required r w) (asked_review sha256 review_id u n w) d)
unfolding request_review create_work_result_check
request_review-completes sha256 review_id required r w u n d first fresh = ground arith

-- A Work has no review yet of the understanding that follows.
unreviewed :
    (d : Db) (w : Work)
    → Consistent d
    → find (work_with w.work_id) d.works ≡ some w
    → any (check_at w.work_id (w.understanding_version + 1)) d.checks ≡ false
unreviewed d w v h =
    elim (Bool-cases (any (check_at w.work_id (w.understanding_version + 1)) d.checks)) [
      | inr e ↦ e
      | inl e ↦
          let (x, hx, le) = v.reviewed w.work_id (w.understanding_version + 1) e in
          absurd (ground arith)
    ]

Holds-ends :
    {now : ℕ} {c : CommitCommand} {d : Db} {r : Run} {w : Work}
    → Consistent d
    → Holds now c d r w
    → (count (active_attempt c.attempt_id) d.attempts ≡ 1)
      × (count (active_run c.run_id) d.runs ≡ 1)
Holds-ends {c = c} {d = d} {r = r} v h =
    let er = find_sound (run_with c.run_id) d.runs h.run_found in
    let ea = find_sound (attempt_with c.attempt_id) d.attempts h.attempt_found in
    (
      one_row (attempt_with c.attempt_id) (active_attempt c.attempt_id) (λ x e. ground arith)
          d.attempts (v.attempts_once c.attempt_id) h.attempt_found (ground (arith, h.held)),
      one_row (run_with c.run_id) (active_run c.run_id) (λ x e. ground arith) d.runs
          (v.runs_once c.run_id) h.run_found (ground (arith, h.held)),
    )

Holds-Fits :
    {now : ℕ} {c : CommitCommand} {d : Db} {r : Run} {w : Work}
    → Consistent d
    → Holds now c d r w
    → Fits r w
Holds-Fits {c = c} {d = d} {r = r} {w = w} v h =
    let (x, hx, f) = v.aligned c.run_id r h.run_found (ground (arith, h.held)) in
    subst (Fits r) (ground (arith, h.work_found)) f

-- In consistent tables a commit succeeds for the attempt that holds its run, whose lease has not
-- expired, that names the base version and the input end of the run, and whose texts are valid,
-- if its Work is open and the uuid for a review is not taken. It leaves exactly these changes:
-- the Work has the new understanding, the next version and the input end of the run, the attempt
-- and the run have succeeded, and there is a review if it was asked for and no later input exists.
pub commit_work_understanding-completes :
    (sha256 : Text → Text) (now review_id : ℕ) (c : CommitCommand) (d : Db) (r : Run) (w : Work)
    (u n : Text)
    → Consistent d
    → Holds now c d r w
    → validate_understanding_update c.understanding c.next_step ≡ ok (u, n)
    → any (λ k. k.review_id == review_id) d.checks ≡ false
    → commit_work_understanding sha256 now review_id c d
      ≡ ok (
          with_review
            (is_asked c.review_required r w)
            (asked_review sha256 review_id u n w)
            (committed u n now c r d))
unfolding commit_work_understanding
commit_work_understanding-completes sha256 now review_id c d r w u n v h valid fresh =
    let f = Holds-Fits v h in
    let ew = find_sound (work_with r.work_id) d.works h.work_found in
    let same : w.work_id ≡ r.work_id = ground arith in
    let hit : committable r.work_id r.input_end_seq (r.input_start_seq - 1)
          r.base_understanding_version w
        ≡ true =
      ground (arith, f.starts_next, f.from_current, f.exists, h.work_open) in
    let written =
      commit_current_understanding-completes u n r.input_end_seq r.work_id (r.input_start_seq - 1)
        r.base_understanding_version d w h.work_found hit in
    let d1 = record d {
      works =
          update
            (committable r.work_id r.input_end_seq (r.input_start_seq - 1)
              r.base_understanding_version)
            (understood u n r.input_end_seq) d.works;
    } in
    let first =
      unreviewed d w v (subst (λ i. find (work_with i) d.works ≡ some w) (sym same) h.work_found) in
    let reviewed =
      request_review-completes sha256 review_id c.review_required r w u n d1 first fresh in
    let (one_attempt, one_run) = Holds-ends v h in
    let d2 =
      with_review (is_asked c.review_required r w) (asked_review sha256 review_id u n w) d1 in
    let done =
      end_both-completes now AttemptState.succeeded RunState.succeeded c.attempt_id c.run_id d2
        one_attempt one_run in
    rw
      (
        valid,
        commit_work_understanding,
        Holds-locks h,
        Holds-leased h,
        Holds-agrees h f,
        written,
        reviewed,
        done,
      )
      refl
