-- ===== src/System/Safety.antt =====
-- What holds in every history of the system.
use carry.Prelude.{ℕ, Bool, List, refl, sym, subst, arith, count-update-le}
use carry.Text.{Text}
use carry.Store.Tables.{Db, Work, Machine, Membership, work_with}
use carry.Execution.History.{Evolves, Evolves-refl, Evolves-trans, Evolves-eq}
use carry.Execution.Consistent.{Consistent, update_works-Aligned, grow_works-Reviewed}
use carry.Execution.Evolution.{
  claim_run-Evolves, renew_run_attempt-runs, commit_work_understanding-Evolves,
  finish_unresolved_attempt-Evolves, request_work_retry-Evolves,
}
use carry.Execution.Invariant.{claim_run-Consistent, renew_run_attempt-Consistent}
use carry.Execution.Committed.{commit_work_understanding-Consistent}
use carry.Execution.Steps.{finish_unresolved_attempt-Consistent, request_work_retry-Consistent}
use carry.Works.Invariant.{
  Kept-Consistent, Kept-runs, create_work-Kept, insert_work-Kept, append_work_message-Kept,
}
use carry.Works.Acceptance.{accept_work_review-Kept}
use carry.System.Step.{
  Step, claims, renews, commits, finishes, retries, creates, appends, accepts, delegates, elsewhere,
  Reach, here, next, transfer,
}

elsewhere-Consistent :
    (d : Db) (ms : List Machine) (mb : List Membership) (q : Work → Bool) (owner : ℕ)
    → Consistent d
    → Consistent (record d { machines = ms; memberships = mb; works = transfer q owner d.works })
elsewhere-Consistent d ms mb q owner v =
    let g = λ (w : Work). record w { owner_user_id = owner } in
    record {
      runs_once = v.runs_once;
      works_once = λ id.
          omega (arith, v.works_once id, count-update-le (work_with id) q g (λ x e h. h) d.works);
      attempts_once = v.attempts_once;
      held_once = v.held_once;
      aligned = update_works-Aligned q g (λ w. refl) (λ w e. omega arith) d.works d.runs v.aligned;
      reviewed = grow_works-Reviewed q g (λ w. refl) (λ w. omega arith) d.works d.checks v.reviewed;
    }

module _ (sha256 : Text → Text) (spell : ℕ → Text) where
  pub Step-Consistent : {d e : Db} → Step sha256 spell d e → Consistent d → Consistent e
  Step-Consistent {d} (claims clock locks r a m c h) v =
      claim_run-Consistent clock locks r a m d h v
  Step-Consistent {d} (renews now m r a f l h) v = renew_run_attempt-Consistent now m r a f d h v
  Step-Consistent {d} (commits now i c h) v =
      commit_work_understanding-Consistent sha256 now i c d h v
  Step-Consistent {d} (finishes now c h) v = finish_unresolved_attempt-Consistent now c d h v
  Step-Consistent {d} (retries now c h) v = request_work_retry-Consistent now c d h v
  Step-Consistent {d} (creates now i c w h) v =
      Kept-Consistent (create_work-Kept sha256 spell now i c d h) v
  Step-Consistent {d} (appends now i c m h) v =
      Kept-Consistent (append_work_message-Kept sha256 spell now i c d h) v
  Step-Consistent {d} (accepts now c h) v =
      Kept-Consistent (accept_work_review-Kept sha256 spell now c d h) v
  Step-Consistent {d} (delegates now i s u g k x row h) v =
      Kept-Consistent (insert_work-Kept now i s g u k x d h) v
  Step-Consistent {d} {e} (elsewhere ms mb q o h) v =
      subst Consistent (sym h) (elsewhere-Consistent d ms mb q o v)

  Step-Evolves : {d e : Db} → Step sha256 spell d e → Evolves d.runs e.runs
  Step-Evolves {d} (claims clock locks r a m c h) = claim_run-Evolves clock locks r a m d h
  Step-Evolves {d} (renews now m r a f l h) = Evolves-eq (renew_run_attempt-runs now m r a f d h)
  Step-Evolves {d} (commits now i c h) = commit_work_understanding-Evolves sha256 now i c d h
  Step-Evolves {d} (finishes now c h) = finish_unresolved_attempt-Evolves now c d h
  Step-Evolves {d} (retries now c h) = request_work_retry-Evolves now c d h
  Step-Evolves {d} (creates now i c w h) =
      Evolves-eq (Kept-runs (create_work-Kept sha256 spell now i c d h))
  Step-Evolves {d} (appends now i c m h) =
      Evolves-eq (Kept-runs (append_work_message-Kept sha256 spell now i c d h))
  Step-Evolves {d} (accepts now c h) =
      Evolves-eq (Kept-runs (accept_work_review-Kept sha256 spell now c d h))
  Step-Evolves {d} (delegates now i s u g k x row h) =
      Evolves-eq (Kept-runs (insert_work-Kept now i s g u k x d h))
  Step-Evolves {d} {e} (elsewhere ms mb q o h) = Evolves-eq (ground arith)

  -- The tables stay consistent through every history: a key stands once, a Work is held by at most
  -- one run that is active or waits for a retry, an active run starts at the input after the last
  -- applied one, on the current understanding, and ends at an input that exists, and no review is
  -- of a later understanding than its Work has.
  pub Reach-Consistent : {d e : Db} → Reach sha256 spell d e → Consistent d → Consistent e
  Reach-Consistent here v = v
  Reach-Consistent (next r s) v = Step-Consistent s (Reach-Consistent r v)

  -- Through every history a run keeps its Work, its input range and the understanding that it
  -- started from, its fence does not fall, and once it is not active its state does not change.
  pub Reach-Evolves : {d e : Db} → Reach sha256 spell d e → Evolves d.runs e.runs
  Reach-Evolves {d} here = Evolves-refl d.runs
  Reach-Evolves {d} {e} (next {e = c} r s) =
      Evolves-trans d.runs c.runs e.runs (Reach-Evolves r) (Step-Evolves s)
