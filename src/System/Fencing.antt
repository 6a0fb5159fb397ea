-- ===== src/System/Fencing.antt =====
-- Attempts under an old fence (internal/postgres/run.go).
use carry.Prelude.{
  ℕ, ◌+◌, ◌<◌, none, some, ◌≡◌, inl, inr, refl, arith, find, any-find, find-update, Option-cases,
  subst, sym, ◌∙◌, not, ==_refl,
}
use carry.Result.{Result, ok, err, stale_attempt, >>=-eq-ok, or_fail, fail_if}
use carry.Text.{Text}
use carry.Store.Tables.{Db, Work, Run, run_with, is_null}
use carry.Store.Attempts.{
  lock_attempt, lock_attempt_for_renew, lock_attempt_for_commit, lock_attempt_for_finish,
}
use carry.Store.Claims.{
  new_run, select_run_input_end, Candidate, lock_claiming_machine, rotate_run_fence,
  expire_run_attempt, rotatable, create_run, create_run_attempt, lock_expired_run_for_claim,
  lock_work_for_run_claim,
}
use carry.Execution.Claim.{
  Claim, Clock, Locks, Draft, claim_run, draft_run, recover_run, start_run, grant_attempt,
}
use carry.Execution.Attempt.{
  CommitCommand, FinishCommand, renew_run_attempt, commit_work_understanding,
  finish_unresolved_attempt,
}
use carry.Execution.Consistent.{Consistent}
use carry.System.Step.{Reach}
use carry.System.Safety.{Reach-Evolves}

abbrev pub IsError {ℓ} : {A : Type ℓ} → Result A → Type 0
IsError (ok a) = ⊥
IsError (err e) = Unit

lock_attempt-stale :
    (run_id attempt_id machine_id fence : ℕ) (d : Db) (r : Run)
    → find (run_with run_id) d.runs ≡ some r
    → fence < r.current_fence
    → lock_attempt run_id attempt_id machine_id fence d ≡ none
unfolding lock_attempt
lock_attempt-stale run_id attempt_id machine_id fence d r h old = ground arith

-- The run of a claim is in the table, under the fence of the claim.
abbrev Carries : ℕ → ℕ → Db → Type 0
Carries run_id fence d =
    (r : Run) × (find (run_with run_id) d.runs ≡ some r) × (r.current_fence ≡ fence)

recover_run-Carries :
    (now : ℕ) (k : Candidate) (d : Db) {x : Draft} {d' : Db}
    → Consistent d
    → recover_run now k d ≡ ok (x, d')
    → Carries x.claim.run_id x.claim.fence d'
unfolding recover_run rotate_run_fence expire_run_attempt
recover_run-Carries now k d {x} {d'} v h =
    let q = rotatable k.run.run_id k.run.current_fence in
    let bump = λ (r : Run). record r { current_fence = r.current_fence + 1 } in
    let (r, hr, e) =
      any-find (run_with k.run.run_id) q (λ r e. ground arith) d.runs (v.runs_once k.run.run_id)
        (ground arith) in
    let moved = find-update (run_with k.run.run_id) q bump (λ r. refl) d.runs hr in
    (bump r, ground arith, ground arith)

start_run-Carries :
    (now run_id : ℕ) (w : Work) (d : Db) {x : Draft} {d' : Db}
    → start_run now run_id w d ≡ ok (x, d')
    → Carries x.claim.run_id x.claim.fence d'
unfolding start_run create_run
start_run-Carries now run_id w d {x} {d'} h =
    let start_seq = w.applied_input_seq + 1 in
    let end_seq = select_run_input_end start_seq w.work_id w.input_head_seq d in
    (
      new_run now run_id w.work_id start_seq end_seq w.understanding_version,
      ground (arith, ==_refl run_id),
      ground arith,
    )

draft_run-Carries :
    (clock : Clock) (locks : Locks) (run_id space_id : ℕ) (d : Db) {x : Draft} {d' : Db}
    → Consistent d
    → draft_run clock locks run_id space_id d ≡ ok (x, d')
    → Carries x.claim.run_id x.claim.fence d'
unfolding draft_run
draft_run-Carries clock locks run_id space_id d v h =
    elim (Option-cases (lock_expired_run_for_claim clock.searched locks.run space_id d)) [
      | inr (c, e) ↦ recover_run-Carries clock.expired c d v (rw (e, draft_run) at h)
      | inl e ↦ elim (Option-cases (lock_work_for_run_claim locks.work space_id d)) [
        | inl n ↦ cc (rw (e, n, draft_run) at h)
        | inr (w, s) ↦ start_run-Carries clock.began run_id w d (rw (e, s, draft_run) at h)
      ]
    ]

grant_attempt-Carries :
    (now attempt_id machine_id : ℕ) (x : Draft) (d : Db) {c : Claim} {d' : Db}
    → grant_attempt now attempt_id machine_id x d ≡ ok (c, d')
    → (d'.runs ≡ d.runs) × (c.run_id ≡ x.claim.run_id) × (c.fence ≡ x.claim.fence)
unfolding grant_attempt create_run_attempt
grant_attempt-Carries now attempt_id machine_id x d h = ground arith

pub claim_run-Carries :
    (clock : Clock) (locks : Locks) (run_id attempt_id machine_id : ℕ) (d : Db) {c : Claim}
    {d' : Db}
    → Consistent d
    → claim_run clock locks run_id attempt_id machine_id d ≡ ok (c, d')
    → Carries c.run_id c.fence d'
unfolding claim_run
claim_run-Carries clock locks run_id attempt_id machine_id d {c} v h =
    let (m, em, h1) = >>=-eq-ok (or_fail (lock_claiming_machine machine_id d) _) _ h in
    let (u, eu, h2) = >>=-eq-ok (fail_if (not (is_null m.revoked_at)) _) _ h1 in
    let ((x, d1), ed, h3) = >>=-eq-ok (draft_run clock locks run_id m.space_id d) _ h2 in
    let (r, hr, er) = draft_run-Carries clock locks run_id m.space_id d v ed in
    let (same, id, fence) = grant_attempt-Carries clock.leased attempt_id machine_id x d1 h3 in
    (
      r,
      subst (λ rs. find (run_with c.run_id) rs ≡ some r) (sym same)
          (subst (λ i. find (run_with i) d1.runs ≡ some r) (sym id) hr),
      er ∙ sym fence,
    )

-- What an attempt under an old fence is told.
renew_run_attempt-stale :
    (now machine_id run_id attempt_id fence : ℕ) (d : Db)
    → lock_attempt run_id attempt_id machine_id fence d ≡ none
    → renew_run_attempt now machine_id run_id attempt_id fence d ≡ err stale_attempt
unfolding renew_run_attempt lock_attempt_for_renew
renew_run_attempt-stale now machine_id run_id attempt_id fence d e = ground arith

commit_work_understanding-stale :
    (sha256 : Text → Text) (now review_id : ℕ) (c : CommitCommand) (d : Db)
    → lock_attempt c.run_id c.attempt_id c.machine_id c.fence d ≡ none
    → IsError (commit_work_understanding sha256 now review_id c d)
unfolding commit_work_understanding lock_attempt_for_commit
commit_work_understanding-stale sha256 now review_id c d e = ground arith

finish_unresolved_attempt-stale :
    (now : ℕ) (c : FinishCommand) (d : Db)
    → lock_attempt c.run_id c.attempt_id c.machine_id c.fence d ≡ none
    → IsError (finish_unresolved_attempt now c d)
unfolding finish_unresolved_attempt lock_attempt_for_finish
finish_unresolved_attempt-stale now c d e = ground arith

module _ (sha256 : Text → Text) (spell : ℕ → Text) where
  overtaken :
      (run_id fence : ℕ) {d e : Db}
      → Carries run_id fence d
      → Reach sha256 spell d e
      → (attempt_id machine_id old : ℕ) → old < fence
      → lock_attempt run_id attempt_id machine_id old e ≡ none
  overtaken run_id fence {d} {e} (r, hr, er) p attempt_id machine_id old less =
      let (s, hs, l) = Reach-Evolves sha256 spell p run_id r hr in
      lock_attempt-stale run_id attempt_id machine_id old e s hs (ground arith)

  -- Once a run has been claimed under a fence, then after any further history every attempt on that
  -- run under a smaller fence is refused: it cannot renew its lease, it cannot commit an
  -- understanding, and it cannot finish the run. The tables are consistent before the claim.
  pub claim_run-fences_out :
      (clock : Clock) (locks : Locks) (run_id attempt_id machine_id : ℕ) {c : Claim} {d d1 e : Db}
      → Consistent d
      → claim_run clock locks run_id attempt_id machine_id d ≡ ok (c, d1)
      → Reach sha256 spell d1 e
      → (now other old_attempt old review_id : ℕ) (k : CommitCommand) (f : FinishCommand)
      → old < c.fence
      → (renew_run_attempt now other c.run_id old_attempt old e ≡ err stale_attempt)
        × IsError (
            commit_work_understanding sha256 now review_id
              (record k { run_id = c.run_id; fence = old })
              e)
        × IsError (finish_unresolved_attempt now (record f { run_id = c.run_id; fence = old }) e)
  claim_run-fences_out clock locks run_id attempt_id machine_id {c} {d} {d1} {e} v h p now other
        old_attempt old review_id k f less =
      let here = claim_run-Carries clock locks run_id attempt_id machine_id d v h in
      let shut = overtaken c.run_id c.fence here p in
      (
        renew_run_attempt-stale now other c.run_id old_attempt old e
            (shut old_attempt other old less),
        commit_work_understanding-stale sha256 now review_id _ e
            (shut k.attempt_id k.machine_id old less),
        finish_unresolved_attempt-stale now _ e (shut f.attempt_id f.machine_id old less),
      )
