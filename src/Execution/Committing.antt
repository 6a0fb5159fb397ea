-- ===== src/Execution/Committing.antt =====
-- What a successful CommitWorkUnderstanding of internal/postgres/run.go went through.
use carry.Prelude.{
  ℕ, ◌+◌, ◌-◌, Bool, true, false, not, ◌&&◌, [], ◌∷◌, none, some, ◌≡◌, ◌≤◌, ◌<◌, inl, inr, ◌∙◌, ap,
  subst, if◌then◌else◌, Option-cases, arith, ◌==◌, find, update, find_sound, Bool-cases,
}
use carry.Result.{ok, or_fail, fail_if, >>=-eq-ok, or_fail-some, fail_if-passed, stale_attempt}
use carry.Text.{Text}
use carry.Digest.{encode_fields}
use carry.Work.{validate_understanding_update}
use carry.Store.Tables.{
  Db, Work, Run, RunState, Attempt, AttemptState, Machine, ResultCheck, run_with, work_with,
  run_active, attempt_with, machine_with, attempt_active, is_null, is_open,
}
use carry.Store.Attempts.{
  holds, lock_attempt, lock_attempt_for_commit, run_attempt_lease_is_current,
  commit_current_understanding, create_work_result_check, end_run_attempt, end_run, active_run,
  active_attempt, committable,
}
use carry.Execution.Attempt.{
  CommitCommand, commit_work_understanding, request_review, end_both, is_stale,
}

-- What locking an attempt for its commit tells: the run is active under the fence of the command, the
-- attempt is an active one of this run, under this fence and by the machine of the command, and that
-- machine is not revoked.
pub record Locked (c : CommitCommand) (d : Db) (r : Run) (w : Work) : Type 0 where
  pub found : find (run_with c.run_id) d.runs ≡ some r
  pub same_run : r.run_id ≡ c.run_id
  pub live : run_active r.state ≡ true
  pub fenced : r.current_fence ≡ c.fence
  pub work_found : find (work_with r.work_id) d.works ≡ some w
  pub attempt : Attempt
  pub attempt_found : find (attempt_with c.attempt_id) d.attempts ≡ some attempt
  pub of_run : attempt.run_id ≡ c.run_id
  pub by : attempt.machine_id ≡ c.machine_id
  pub under : attempt.fence ≡ c.fence
  pub attempt_live : attempt_active attempt.state ≡ true
  pub machine : Machine
  pub machine_found : find (machine_with c.machine_id) d.machines ≡ some machine
  pub trusted : is_null machine.revoked_at ≡ true

lock_attempt_for_commit_sound :
    (c : CommitCommand) (d : Db) (r : Run) (w : Work)
    → lock_attempt_for_commit c.run_id c.attempt_id c.machine_id c.fence d ≡ some (r, w)
    → Locked c d r w
unfolding lock_attempt_for_commit lock_attempt
lock_attempt_for_commit_sound c d r w h = elim (Option-cases (find (run_with c.run_id) d.runs)) [
  | inl e ↦ absurd (ground arith)
  | inr (k, ek) ↦ elim (Option-cases (find (attempt_with c.attempt_id) d.attempts)) [
    | inl e ↦ absurd (ground arith)
    | inr (a, ea) ↦ elim (Option-cases (find (machine_with a.machine_id) d.machines)) [
      | inl e ↦ absurd (ground arith)
      | inr (m, em) ↦ elim (Bool-cases (holds c.machine_id c.fence k a m)) [
        | inr e ↦ absurd (ground arith)
        | inl e ↦
            let same : k ≡ r = ground arith in
            let by : a.machine_id ≡ c.machine_id = ground arith in
            record {
              found = ek ∙ ap some same;
              same_run = ground (arith, find_sound (run_with c.run_id) d.runs (ek ∙ ap some same));
              live = ground arith;
              fenced = ground arith;
              work_found = ground arith;
              attempt = a;
              attempt_found = ea;
              of_run = ground (arith, find_sound (run_with c.run_id) d.runs (ek ∙ ap some same));
              by = by;
              under = ground arith;
              attempt_live = ground arith;
              machine = m;
              machine_found = subst (λ i. find (machine_with i) d.machines ≡ some m) by em;
              trusted = ground arith;
            }
      ]
    ]
  ]
]

-- The new state of a Work.
abbrev pub understood : Text → Text → ℕ → Work → Work
understood u n applied w = record w {
  understanding = some u;
  next_step = some n;
  applied_input_seq = applied;
  understanding_version = w.understanding_version + 1;
}

pub commit_current_understanding-db :
    (u n : Text) (applied work_id expected version : ℕ) (d : Db) {v : ℕ} {d' : Db}
    → commit_current_understanding u n applied work_id expected version d ≡ some (v, d')
    → (w : Work) × (find (committable work_id applied expected version) d.works ≡ some w)
      × (v ≡ w.understanding_version + 1)
      × (d' ≡ record d {
        works =
            update (committable work_id applied expected version) (understood u n applied) d.works;
      })
unfolding commit_current_understanding
commit_current_understanding-db u n applied work_id expected version d h = ground arith

-- A review is asked for if the command wants one and no input is left; and the review itself.
abbrev pub is_asked : Bool → Run → Work → Bool
is_asked required r w = required && r.input_end_seq == w.input_head_seq

abbrev pub asked_review : (Text → Text) → ℕ → Text → Text → Work → ResultCheck
asked_review sha256 review_id u n w = record {
  review_id = review_id;
  work_id = w.work_id;
  understanding_version = w.understanding_version + 1;
  content_digest = sha256 (encode_fields (u ∷ n ∷ []));
  acceptance = none;
}

abbrev pub with_review : Bool → ResultCheck → Db → Db
with_review asked k d = record d { checks = if asked then k ∷ d.checks else d.checks }

request_review-db :
    (sha256 : Text → Text) (review_id : ℕ) (required : Bool) (r : Run) (w : Work) (u n : Text)
    (version : ℕ) (d : Db) {d' : Db}
    → request_review sha256 review_id required r w u n version d ≡ ok d'
    → version ≡ w.understanding_version + 1
    → d' ≡ with_review (is_asked required r w) (asked_review sha256 review_id u n w) d
unfolding request_review create_work_result_check
request_review-db sha256 review_id required r w u n version d {d'} h e =
    elim (Bool-cases (is_asked required r w)) [ inr k ↦ ground arith | inl k ↦ ground arith ]

pub end_both-db :
    (now : ℕ) (a : AttemptState) (s : RunState) (attempt_id run_id : ℕ) (d : Db) {d' : Db}
    → end_both now a s attempt_id run_id d ≡ ok d'
    → d' ≡ record d {
      attempts =
          update
            (active_attempt attempt_id)
            (λ b. record b { state = a; completed_at = some now })
            d.attempts;
      runs =
          update (active_run run_id) (λ r. record r { state = s; completed_at = some now }) d.runs;
    }
unfolding end_both end_run_attempt end_run
end_both-db now a s attempt_id run_id d h = ground arith

abbrev pub succeed : ℕ → Run → Run
succeed now r = record r { state = RunState.succeeded; completed_at = some now }

-- The tables after a commit of run `r`, but for the reviews.
abbrev pub committed : Text → Text → ℕ → CommitCommand → Run → Db → Db
committed u n now c r d = record d {
  works =
      update
        (committable r.work_id r.input_end_seq (r.input_start_seq - 1) r.base_understanding_version)
        (understood u n r.input_end_seq) d.works;
  attempts =
      update (active_attempt c.attempt_id)
        (λ b. record b { state = AttemptState.succeeded; completed_at = some now }) d.attempts;
  runs = update (active_run c.run_id) (succeed now) d.runs;
}

-- What a successful commit went through, and the tables that it leaves.
pub record Outcome (sha256 : Text → Text) (now review_id : ℕ) (c : CommitCommand) (d d' : Db)
    : Type 0 where
  pub understanding : Text
  pub next_step : Text
  pub run : Run
  pub work : Work
  pub valid :
      validate_understanding_update c.understanding c.next_step ≡ ok (understanding, next_step)
  pub locked : Locked c d run work
  pub unexpired : now < locked.attempt.lease_expires_at
  pub agrees : is_stale c run work ≡ false
  pub base_claimed : run.base_understanding_version ≡ c.base_understanding_version
  pub end_claimed : run.input_end_seq ≡ c.input_end_seq
  pub on_base : work.understanding_version ≡ c.base_understanding_version
  pub starts_next : work.applied_input_seq + 1 ≡ run.input_start_seq
  pub exists : c.input_end_seq ≤ work.input_head_seq
  pub work_open : is_open work.lifecycle ≡ true
  pub after :
      d'
      ≡ with_review
          (is_asked c.review_required run work)
          (asked_review sha256 review_id understanding next_step work)
          (committed understanding next_step now c run d)

leased_until :
    (now attempt_id : ℕ) (d : Db) (a : Attempt)
    → find (attempt_with attempt_id) d.attempts ≡ some a
    → run_attempt_lease_is_current now attempt_id d ≡ ok true
    → now < a.lease_expires_at
unfolding run_attempt_lease_is_current
leased_until now attempt_id d a h e = ground arith

-- A commit that succeeds had valid texts, held its run under the current fence with a lease that
-- has not expired, named the base version and the input end of the run, and found its Work open,
-- on that version, with the inputs before the run applied. It leaves the Work with the new
-- understanding, the next version and the input end of the run, the attempt and the run
-- succeeded, and, if the command wants a review and no input is left, one new review of the new
-- understanding, which nobody accepted; nothing else changes. The attempt is the one of the command, of
-- its run, under its fence and by its machine, which is not revoked.
pub commit_work_understanding-Outcome :
    (sha256 : Text → Text) (now review_id : ℕ) (c : CommitCommand) (d : Db) {d' : Db}
    → commit_work_understanding sha256 now review_id c d ≡ ok d'
    → Outcome sha256 now review_id c d d'
unfolding commit_work_understanding
commit_work_understanding-Outcome sha256 now review_id c d {d'} h =
    let ((u, n), e1, h1) =
      >>=-eq-ok (validate_understanding_update c.understanding c.next_step) _ h in
    let lock = lock_attempt_for_commit c.run_id c.attempt_id c.machine_id c.fence d in
    let ((r, w), e2, h2) = >>=-eq-ok (or_fail lock stale_attempt) _ h1 in
    let (b, e3, h3) = >>=-eq-ok (run_attempt_lease_is_current now c.attempt_id d) _ h2 in
    let (u1, e4, h4) = >>=-eq-ok (fail_if (not b) stale_attempt) _ h3 in
    let (u2, e5, h5) = >>=-eq-ok (fail_if (is_stale c r w) stale_attempt) _ h4 in
    let written =
      commit_current_understanding u n r.input_end_seq r.work_id (r.input_start_seq - 1)
        r.base_understanding_version d in
    let ((v, d1), e6, h6) = >>=-eq-ok (or_fail written stale_attempt) _ h5 in
    let (d2, e7, h7) =
      >>=-eq-ok (request_review sha256 review_id c.review_required r w u n v d1) _ h6 in
    let (w0, f0, ev, ed1) =
      commit_current_understanding-db u n r.input_end_seq r.work_id (r.input_start_seq - 1)
        r.base_understanding_version d (or_fail-some written stale_attempt e6) in
    let fits =
      find_sound
        (committable r.work_id r.input_end_seq (r.input_start_seq - 1) r.base_understanding_version)
        d.works f0 in
    let fresh = fail_if-passed (is_stale c r w) stale_attempt e5 in
    let locked = lock_attempt_for_commit_sound c d r w (or_fail-some lock stale_attempt e2) in
    let current : run_attempt_lease_is_current now c.attempt_id d ≡ ok true =
      ground (arith, fail_if-passed (not b) stale_attempt e4) in
    let reviewed =
      request_review-db sha256 review_id c.review_required r w u n v d1 e7 (ground arith) in
    let ended =
      end_both-db now AttemptState.succeeded RunState.succeeded c.attempt_id c.run_id d2 h7 in
    record {
      understanding = u;
      next_step = n;
      run = r;
      work = w;
      valid = e1;
      locked = locked;
      unexpired = leased_until now c.attempt_id d locked.attempt locked.attempt_found current;
      agrees = fresh;
      base_claimed = ground arith;
      end_claimed = ground arith;
      on_base = ground arith;
      starts_next = ground arith;
      exists = ground arith;
      work_open = ground arith;
      after = ground arith;
    }
