-- ===== src/Works/Reviewing.antt =====
-- Whose acceptance of a review AcceptWorkReview of internal/postgres/work.go takes, and of what.
use carry.Prelude.{ℕ, true, not, ◌==◌, ◌||◌, none, some, ◌≡◌, ◌⊎◌, inl, inr, arith, Option-cases}
use carry.Result.{ok, fail_if, >>=-eq-ok, fail_if-passed, identity_required, forbidden, not_open}
use carry.Text.{Text}
use carry.Work.{normalize_idempotency_key}
use carry.Store.Tables.{Db, Work, ResultCheck, is_open}
use carry.Store.Retries.{lock_work}
use carry.Store.Works.{
  find_work_review_acceptance, lock_work_result_check, accept_work_result_check,
}
use carry.Execution.Retry.{Identifier, is_nobody, acting, is_blank, column, require_membership}
use carry.Works.Accept.{
  AcceptReviewCommand, parse_review, accept_review, accept_locked, accept_checked,
  accept_work_review, acceptance_digest, is_current,
}

module _ (sha256 : Text → Text) where
  -- The owner of an open Work accepts a review of what the Work says now, which nobody accepted.
  pub record Accepted (now space_id work_id review_id user_id : ℕ) (key digest : Text) (d d' : Db)
      : Type 0 where
    pub work : Work
    pub check : ResultCheck
    pub work_found : lock_work space_id work_id d ≡ some work
    pub check_found : lock_work_result_check work_id review_id d ≡ some check
    pub owned : work.owner_user_id ≡ user_id
    pub work_open : is_open work.lifecycle ≡ true
    pub current : is_current sha256 work check ≡ true
    pub unaccepted_before : check.acceptance ≡ none
    pub after : d' ≡ (accept_work_result_check now user_id key digest work_id review_id d).1

  -- An acceptance that is new, of the review that the identifier names.
  abbrev pub AcceptedAs : ℕ → ℕ → ℕ → Identifier → ℕ → Text → Text → Db → Db → Type 0
  AcceptedAs now space_id work_id review user_id key digest d d' =
      (review_id : ℕ) × (column review ≡ ok review_id)
      × Accepted now space_id work_id review_id user_id key digest d d'

  accept_review-Accepted :
      (now space_id : ℕ) (w : Work) (work_id review_id user_id : ℕ) (key digest : Text) (d : Db)
      {d' : Db}
      → lock_work space_id work_id d ≡ some w
      → w.owner_user_id ≡ user_id
      → is_open w.lifecycle ≡ true
      → accept_review sha256 now w work_id review_id user_id key digest d ≡ ok d'
      → (d' ≡ d) ⊎ Accepted now space_id work_id review_id user_id key digest d d'
  unfolding accept_review
  accept_review-Accepted now space_id w work_id review_id user_id key digest d {d'} hw ho hl h =
      elim (Option-cases (lock_work_result_check work_id review_id d)) [
        | inl n ↦ absurd (ground arith)
        | inr (c, e) ↦ elim (Option-cases c.acceptance) [
          | inr (a, s) ↦ inl (ground arith)
          | inl s ↦ inr (record {
            work = w;
            check = c;
            work_found = hw;
            check_found = e;
            owned = ho;
            work_open = hl;
            current = ground arith;
            unaccepted_before = s;
            after = ground arith;
          })
        ]
      ]

  accept_locked-Accepted :
      (now space_id : ℕ) (w : Work) (work_id : ℕ) (review : Identifier) (user_id : ℕ)
      (key digest : Text) (d : Db) {d' : Db}
      → lock_work space_id work_id d ≡ some w
      → accept_locked sha256 now w work_id review user_id key digest d ≡ ok d'
      → (d' ≡ d) ⊎ AcceptedAs now space_id work_id review user_id key digest d d'
  unfolding accept_locked
  accept_locked-Accepted now space_id w work_id review user_id key digest d {d'} hw h =
      let (u0, e0, h0) = >>=-eq-ok (fail_if (not (w.owner_user_id == user_id)) forbidden) _ h in
      let (u1, e1, h1) = >>=-eq-ok (fail_if (not (is_open w.lifecycle)) not_open) _ h0 in
      let (review_id, e2, h2) = >>=-eq-ok (column review) _ h1 in
      elim (accept_review-Accepted now space_id w work_id review_id user_id key digest d hw
        (ground (arith, fail_if-passed (not (w.owner_user_id == user_id)) forbidden e0))
        (ground (arith, fail_if-passed (not (is_open w.lifecycle)) not_open e1)) h2) [
          | inl same ↦ inl same
          | inr a ↦ inr (review_id, e2, a)
        ]

  accept_checked-Accepted :
      (now space_id work_id : ℕ) (review : Identifier) (user_id : ℕ) (key digest : Text) (d : Db)
      {d' : Db}
      → accept_checked sha256 now space_id work_id review user_id key digest d ≡ ok d'
      → (d' ≡ d) ⊎ AcceptedAs now space_id work_id review user_id key digest d d'
  unfolding accept_checked
  accept_checked-Accepted now space_id work_id review user_id key digest d h =
      elim (Option-cases (find_work_review_acceptance work_id space_id user_id key d)) [
        | inr (a, e) ↦ inl (ground arith)
        | inl e ↦ elim (Option-cases (lock_work space_id work_id d)) [
          | inl n ↦ cc (rw (e, n, accept_checked) at h)
          | inr (w, s) ↦
              accept_locked-Accepted now space_id w work_id review user_id key digest d s
                (rw (e, s, accept_checked) at h)
        ]
      ]

module _ (sha256 : Text → Text) (spell : ℕ → Text) where
  -- The acceptance that a command asks for, with the ids and the key that it holds.
  abbrev pub AcceptanceOf : ℕ → AcceptReviewCommand → Db → Db → Type 0
  AcceptanceOf now c d d' =
      (space_id work_id user_id : ℕ) × (key : Text) × (parse_review c.review_id ≡ ok tt)
      × (column c.space_id ≡ ok space_id)
      × (column c.work_id ≡ ok work_id)
      × (acting c.accepted_by ≡ ok user_id)
      × (normalize_idempotency_key c.idempotency_key ≡ ok key)
      × (require_membership space_id user_id d ≡ ok tt)
      × ((d' ≡ d)
          ⊎ AcceptedAs sha256 now space_id work_id c.review_id user_id key
              (acceptance_digest sha256 spell c.work_id c.review_id) d d')

  -- An acceptance that succeeds comes from a member of the space. Either it changes nothing, or the
  -- member owns the Work, the Work is open and has no input that is not applied, the review is of
  -- its understanding and next step as they are now and nobody accepted it before, and only the
  -- acceptance is written.
  pub accept_work_review-Accepted :
      (now : ℕ) (c : AcceptReviewCommand) (d : Db) {d' : Db}
      → accept_work_review sha256 spell now c d ≡ ok d'
      → AcceptanceOf now c d d'
  unfolding accept_work_review
  accept_work_review-Accepted now c d h =
      let required =
        is_blank c.work_id
        || is_blank c.space_id
        || is_blank c.review_id
        || is_nobody c.accepted_by in
      let (u0, e0, h0) = >>=-eq-ok (fail_if required identity_required) _ h in
      let (key, e1, h1) = >>=-eq-ok (normalize_idempotency_key c.idempotency_key) _ h0 in
      let (u2, e2, h2) = >>=-eq-ok (parse_review c.review_id) _ h1 in
      let (space_id, e3, h3) = >>=-eq-ok (column c.space_id) _ h2 in
      let (user_id, e4, h4) = >>=-eq-ok (acting c.accepted_by) _ h3 in
      let (u5, e5, h5) = >>=-eq-ok (require_membership space_id user_id d) _ h4 in
      let (work_id, e6, h6) = >>=-eq-ok (column c.work_id) _ h5 in
      (
        space_id,
        work_id,
        user_id,
        key,
        e2,
        e3,
        e6,
        e4,
        e1,
        e5,
        accept_checked-Accepted sha256 now space_id work_id c.review_id user_id key
            (acceptance_digest sha256 spell c.work_id c.review_id) d h6,
      )
