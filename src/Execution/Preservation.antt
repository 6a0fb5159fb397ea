-- ===== src/Execution/Preservation.antt =====
-- The consistency of the tables under the changes that the statements of
-- internal/postgres/dbsqlc/run.sql.go make.
use carry.Prelude.{
  ℕ, Bool, true, false, ◌∷◌, some, ◌≡◌, sym, ap, ◌∙◌, arith, ◌==◌, find, update, count, any,
  count-any, count-update-le,
}
use carry.Store.Tables.{Db, Work, Run, Attempt, run_with, work_with, attempt_with, holds_work}
use carry.Execution.History.{Later}
use carry.Execution.Consistent.{Consistent, Fits, update-Aligned, cons-Aligned}

-- One table changes, the others stay.
module _ (d : Db) (v : Consistent d) where
  pub update_runs :
      (q : Run → Bool) (f : Run → Run)
      → ((r : Run) → (f r).run_id ≡ r.run_id)
      → ((r : Run) → q r ≡ true → Later r (f r))
      → ((id : ℕ) (r : Run) → q r ≡ true → holds_work id (f r) ≡ true → holds_work id r ≡ true)
      → Consistent (record d { runs = update q f d.runs })
  update_runs q f keep later holds = record {
    runs_once = λ id. omega (
      arith,
      v.runs_once id,
      count-update-le (run_with id) q f (λ r e h. ap (λ i. i == id) (sym (keep r)) ∙ h) d.runs,
    );
    works_once = v.works_once;
    attempts_once = v.attempts_once;
    held_once =
        λ id. omega (arith, v.held_once id, count-update-le (holds_work id) q f (holds id) d.runs);
    aligned = update-Aligned q f keep later d.works d.runs v.aligned;
    reviewed = v.reviewed;
  }

  pub update_attempts :
      (q : Attempt → Bool) (f : Attempt → Attempt)
      → ((a : Attempt) → (f a).attempt_id ≡ a.attempt_id)
      → Consistent (record d { attempts = update q f d.attempts })
  update_attempts q f keep = record {
    runs_once = v.runs_once;
    works_once = v.works_once;
    attempts_once = λ id. omega (
      arith,
      v.attempts_once id,
      count-update-le (attempt_with id) q f (λ a e h. ap (λ i. i == id) (sym (keep a)) ∙ h)
          d.attempts,
    );
    held_once = v.held_once;
    aligned = v.aligned;
    reviewed = v.reviewed;
  }

  pub add_attempt :
      (a : Attempt)
      → any (attempt_with a.attempt_id) d.attempts ≡ false
      → Consistent (record d { attempts = a ∷ d.attempts })
  add_attempt a fresh = record {
    runs_once = v.runs_once;
    works_once = v.works_once;
    attempts_once = λ id. ground (
      arith,
      v.attempts_once id,
      ap (λ i. count (attempt_with i) d.attempts) {x = a.attempt_id} {y = id},
      count-any (attempt_with a.attempt_id) d.attempts fresh,
    );
    held_once = v.held_once;
    aligned = v.aligned;
    reviewed = v.reviewed;
  }

  pub add_run :
      (s : Run) (w : Work)
      → any (run_with s.run_id) d.runs ≡ false
      → any (holds_work s.work_id) d.runs ≡ false
      → find (work_with s.work_id) d.works ≡ some w
      → Fits s w
      → Consistent (record d { runs = s ∷ d.runs })
  add_run s w fresh free hw fit = record {
    runs_once = λ id. ground (
      arith,
      v.runs_once id,
      ap (λ i. count (run_with i) d.runs) {x = s.run_id} {y = id},
      count-any (run_with s.run_id) d.runs fresh,
    );
    works_once = v.works_once;
    attempts_once = v.attempts_once;
    held_once = λ id. ground (
      arith,
      v.held_once id,
      ap (λ i. count (holds_work i) d.runs) {x = s.work_id} {y = id},
      count-any (holds_work s.work_id) d.runs free,
    );
    aligned = cons-Aligned s d.works d.runs w hw fit v.aligned;
    reviewed = v.reviewed;
  }
