-- ===== src/Works/Acceptance.antt =====
-- AcceptWorkReview of internal/postgres/work.go, and the consistency of the tables.
use carry.Prelude.{ℕ, not, ◌||◌, ◌≡◌, inl, inr, refl, subst, arith, ◌==◌, Option-cases}
use carry.Result.{
  ok, or_fail, fail_if, >>=-eq-ok, identity_required, not_open, forbidden, review_not_current,
}
use carry.Text.{Text}
use carry.Work.{normalize_idempotency_key}
use carry.Store.Tables.{Db, Work, is_open}
use carry.Store.Retries.{lock_work}
use carry.Store.Works.{
  find_work_review_acceptance, lock_work_result_check, accept_work_result_check, unaccepted,
}
use carry.Execution.Retry.{Identifier, is_nobody, acting, is_blank, column, require_membership}
use carry.Works.Accept.{
  AcceptReviewCommand, parse_review, accept_review, accept_locked, accept_checked,
  accept_work_review, acceptance_digest,
}
use carry.Works.Invariant.{Kept, kept, Kept-eq, update_checks}

accept_check-Kept :
    (now user_id : ℕ) (key digest : Text) (work_id review_id : ℕ) (d : Db)
    → Kept d (accept_work_result_check now user_id key digest work_id review_id d).1
unfolding accept_work_result_check
accept_check-Kept now user_id key digest work_id review_id d =
    kept (λ v. update_checks d v (unaccepted work_id review_id) _ (λ c. refl) (λ c. refl)) refl

module _ (sha256 : Text → Text) where
  accept_review-Kept :
      (now : ℕ) (w : Work) (work_id review_id user_id : ℕ) (key digest : Text) (d : Db) {d' : Db}
      → accept_review sha256 now w work_id review_id user_id key digest d ≡ ok d'
      → Kept d d'
  unfolding accept_review
  accept_review-Kept now w work_id review_id user_id key digest d {d'} h =
      let accepted = accept_work_result_check now user_id key digest work_id review_id d in
      let lock = lock_work_result_check work_id review_id d in
      let (c, e3, h3) = >>=-eq-ok (or_fail lock review_not_current) _ h in
      elim (Option-cases c.acceptance) [
        | inr (a, e) ↦ Kept-eq (ground arith)
        | inl e ↦
            subst (Kept d) (ground arith)
              (accept_check-Kept now user_id key digest work_id review_id d)
      ]

  accept_locked-Kept :
      (now : ℕ) (w : Work) (work_id : ℕ) (review : Identifier) (user_id : ℕ) (key digest : Text)
      (d : Db) {d' : Db}
      → accept_locked sha256 now w work_id review user_id key digest d ≡ ok d'
      → Kept d d'
  unfolding accept_locked
  accept_locked-Kept now w work_id review user_id key digest d {d'} h =
      let (u1, e1, h1) = >>=-eq-ok (fail_if (not (w.owner_user_id == user_id)) forbidden) _ h in
      let (u2, e2, h2) = >>=-eq-ok (fail_if (not (is_open w.lifecycle)) not_open) _ h1 in
      let (review_id, e3, h3) = >>=-eq-ok (column review) _ h2 in
      accept_review-Kept now w work_id review_id user_id key digest d h3

  accept_checked-Kept :
      (now space_id work_id : ℕ) (review : Identifier) (user_id : ℕ) (key digest : Text) (d : Db)
      {d' : Db}
      → accept_checked sha256 now space_id work_id review user_id key digest d ≡ ok d'
      → Kept d d'
  unfolding accept_checked
  accept_checked-Kept now space_id work_id review user_id key digest d h =
      elim (Option-cases (find_work_review_acceptance work_id space_id user_id key d)) [
        | inr (a, e) ↦ Kept-eq (ground arith)
        | inl e ↦ elim (Option-cases (lock_work space_id work_id d)) [
          | inl n ↦ cc (rw (e, n, accept_checked) at h)
          | inr (w, s) ↦
              accept_locked-Kept now w work_id review user_id key digest d
                (rw (e, s, accept_checked) at h)
        ]
      ]

module _ (sha256 : Text → Text) (spell : ℕ → Text) where
  pub accept_work_review-Kept :
      (now : ℕ) (c : AcceptReviewCommand) (d : Db) {d' : Db}
      → accept_work_review sha256 spell now c d ≡ ok d'
      → Kept d d'
  unfolding accept_work_review
  accept_work_review-Kept now c d h =
      let required =
        is_blank c.work_id
        || is_blank c.space_id
        || is_blank c.review_id
        || is_nobody c.accepted_by in
      let (u0, e0, h0) = >>=-eq-ok (fail_if required identity_required) _ h in
      let (key, e1, h1) = >>=-eq-ok (normalize_idempotency_key c.idempotency_key) _ h0 in
      let (u2, e2, h2) = >>=-eq-ok (parse_review c.review_id) _ h1 in
      let (space_id, e3, h3) = >>=-eq-ok (column c.space_id) _ h2 in
      let (user_id, e4, h4) = >>=-eq-ok (acting c.accepted_by) _ h3 in
      let (u5, e5, h5) = >>=-eq-ok (require_membership space_id user_id d) _ h4 in
      let (work_id, e6, h6) = >>=-eq-ok (column c.work_id) _ h5 in
      accept_checked-Kept sha256 now space_id work_id c.review_id user_id key
        (acceptance_digest sha256 spell c.work_id c.review_id) d h6
