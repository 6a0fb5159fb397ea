-- ===== src/Execution/Committed.antt =====
-- The tables after CommitWorkUnderstanding of internal/postgres/run.go.
use carry.Prelude.{
  ℕ, ◌-◌, true, false, some, ◌≡◌, inl, inr, refl, sym, ap, subst, ◌∙◌, arith, find, update,
  find-update, find_sound, count-update-le, ◌∷◌, Bool-cases,
}
use carry.Result.{ok}
use carry.Text.{Text}
use carry.Store.Tables.{Db, Work, Run, AttemptState, run_with, work_with, attempt_with, holds_work}
use carry.Store.Attempts.{active_run, active_attempt, committable}
use carry.Execution.Attempt.{CommitCommand, commit_work_understanding, is_stale}
use carry.Execution.Consistent.{
  Consistent, Aligned, commit-Aligned, grow_works-Reviewed, cons_check-Reviewed,
}
use carry.Execution.Committing.{
  Locked, Outcome, is_asked, asked_review, understood, committed, succeed,
  commit_work_understanding-Outcome,
}

committed-Consistent :
    (u n : Text) (now : ℕ) (c : CommitCommand) (d : Db) (r : Run) (w : Work)
    → Locked c d r w
    → Consistent d
    → Consistent (committed u n now c r d)
committed-Consistent u n now c d r w l v =
    let t =
      committable r.work_id r.input_end_seq (r.input_start_seq - 1) r.base_understanding_version in
    let g = understood u n r.input_end_seq in
    record {
      runs_once = λ id. omega (
        arith,
        v.runs_once id,
        count-update-le (run_with id) (active_run c.run_id) (succeed now) (λ x e h. h) d.runs,
      );
      works_once = λ id.
          omega (arith, v.works_once id, count-update-le (work_with id) t g (λ x e h. h) d.works);
      attempts_once = λ id. omega (
        arith,
        v.attempts_once id,
        count-update-le (attempt_with id) (active_attempt c.attempt_id)
            (λ b. record b { state = AttemptState.succeeded; completed_at = some now }) (λ x e h. h)
            d.attempts,
      );
      held_once = λ id. omega (
        arith,
        v.held_once id,
        count-update-le (holds_work id) (active_run c.run_id) (succeed now) (λ x e h. ground arith)
            d.runs,
      );
      aligned =
          subst (λ i. Aligned (update t g d.works) (update (active_run i) (succeed now) d.runs))
            l.same_run
            (commit-Aligned t g (λ x. refl) (succeed now) (λ x. refl) (λ x. refl) d.works d.runs r
              (subst (λ i. find (run_with i) d.runs ≡ some r) (sym l.same_run) l.found) l.live
              (λ x e. ground arith) (v.held_once r.work_id) v.aligned);
      reviewed = grow_works-Reviewed t g (λ x. refl) (λ x. omega arith) d.works d.checks v.reviewed;
    }

-- The Work that was locked is the one that is written.
pub Locked-committable :
    (c : CommitCommand) (d : Db) (r : Run) (w : Work)
    → Locked c d r w
    → is_stale c r w ≡ false
    → (w.work_id ≡ r.work_id)
      × (committable r.work_id r.input_end_seq
            (r.input_start_seq - 1)
            r.base_understanding_version
            w
          ≡ true)
Locked-committable c d r w l s =
    let e = find_sound (work_with r.work_id) d.works l.work_found in (ground arith, ground arith)

-- The Work of a committed run afterwards.
pub committed_work :
    (u n : Text) (now : ℕ) (c : CommitCommand) (d : Db) (r : Run) (w : Work)
    → Locked c d r w
    → is_stale c r w ≡ false
    → find (work_with w.work_id) (committed u n now c r d).works
      ≡ some (understood u n r.input_end_seq w)
committed_work u n now c d r w l s =
    let (same, hit) = Locked-committable c d r w l s in
    let t =
      committable r.work_id r.input_end_seq (r.input_start_seq - 1) r.base_understanding_version in
    find-update (work_with w.work_id) t (understood u n r.input_end_seq) (λ x. refl) d.works
      (subst (λ i. find (work_with i) d.works ≡ some w) (sym same) l.work_found)
    ∙ ap some (rw hit)

unreviewed_after :
    {sha256 : Text → Text} {now review_id : ℕ} {c : CommitCommand} {d d' : Db}
    (o : Outcome sha256 now review_id c d d')
    → is_asked c.review_required o.run o.work ≡ false
    → d' ≡ committed o.understanding o.next_step now c o.run d
unreviewed_after {sha256} {now} {review_id} {c} {d} {d'} o e = ground (arith, o.after)

reviewed_after :
    {sha256 : Text → Text} {now review_id : ℕ} {c : CommitCommand} {d d' : Db}
    (o : Outcome sha256 now review_id c d d')
    → is_asked c.review_required o.run o.work ≡ true
    → d' ≡ record (committed o.understanding o.next_step now c o.run d) {
      checks = asked_review sha256 review_id o.understanding o.next_step o.work ∷ d.checks;
    }
reviewed_after {sha256} {now} {review_id} {c} {d} {d'} o e = ground (arith, o.after)

pub commit_work_understanding-Consistent :
    (sha256 : Text → Text) (now review_id : ℕ) (c : CommitCommand) (d : Db) {d' : Db}
    → commit_work_understanding sha256 now review_id c d ≡ ok d'
    → Consistent d
    → Consistent d'
commit_work_understanding-Consistent sha256 now review_id c d {d'} h v =
    let o = commit_work_understanding-Outcome sha256 now review_id c d h in
    let base = committed-Consistent o.understanding o.next_step now c d o.run o.work o.locked v in
    let k = asked_review sha256 review_id o.understanding o.next_step o.work in
    elim (Bool-cases (is_asked c.review_required o.run o.work)) [
      | inr e ↦ subst Consistent (sym (unreviewed_after o e)) base
      | inl e ↦ subst Consistent (sym (reviewed_after o e)) (record {
        runs_once = base.runs_once;
        works_once = base.works_once;
        attempts_once = base.attempts_once;
        held_once = base.held_once;
        aligned = base.aligned;
        reviewed =
            cons_check-Reviewed k _ d.checks
              (understood o.understanding o.next_step o.run.input_end_seq o.work)
              (committed_work o.understanding o.next_step now c d o.run o.work o.locked o.agrees)
              (omega arith) base.reviewed;
      })
    ]
