-- ===== src/Works/AcceptAgain.antt =====
-- AcceptWorkReview under a key that was used before.
use carry.Prelude.{
  ℕ, true, ◌&&◌, ◌||◌, none, some, ◌≡◌, ◌⊎◌, inl, inr, sym, subst, arith, ◌==◌, ==_refl, find_sound,
  any, find-updated, mem-any, find-mem, Option-cases,
}
use carry.Result.{ok, fail_if, >>=-eq-ok, >>=-ok, identity_required}
use carry.Text.{Text, text_eq_refl}
use carry.Work.{normalize_idempotency_key}
use carry.Store.Tables.{Db, Work, ResultCheck}
use carry.Store.Retries.{lock_active_work_membership, lock_work}
use carry.Store.Works.{
  find_work_review_acceptance, accepted_by, lock_work_result_check, accept_work_result_check,
  unaccepted, check_of,
}
use carry.Execution.Retry.{uuid, is_nobody, acting, is_blank, column, require_membership}
use carry.Works.Accept.{
  AcceptReviewCommand, parse_review, accept_review, accept_locked, accept_checked,
  accept_work_review, acceptance_digest,
}

abbrev accepted : ℕ → ℕ → Text → Text → ResultCheck → ResultCheck
accepted now user_id key digest c = record c {
  acceptance = some (record {
    accepted_by_user_id = user_id;
    idempotency_key = key;
    request_digest = digest;
    accepted_at = now;
  });
}

work_in_space :
    (space_id work_id : ℕ) (d : Db) {w : Work}
    → lock_work space_id work_id d ≡ some w
    → any (λ x. x.work_id == work_id && x.space_id == space_id) d.works ≡ true
unfolding lock_work
work_in_space space_id work_id d {w} h =
    let p = λ (x : Work). x.space_id == space_id && x.work_id == work_id in
    mem-any (λ x. x.work_id == work_id && x.space_id == space_id) d.works (find-mem p d.works h)
      (ground (arith, find_sound p d.works h))

-- The row that an acceptance under the key leaves.
recorded :
    (now space_id work_id review_id user_id : ℕ) (key digest : Text) (d : Db) {c : ResultCheck}
    {w : Work}
    → find_work_review_acceptance work_id space_id user_id key d ≡ none
    → lock_work space_id work_id d ≡ some w
    → lock_work_result_check work_id review_id d ≡ some c
    → c.acceptance ≡ none
    → (y : ResultCheck) × (find_work_review_acceptance work_id space_id user_id key
          (accept_work_result_check now user_id key digest work_id review_id d).1
        ≡ some (accepted now user_id key digest y))
      × (y.review_id ≡ review_id)
unfolding find_work_review_acceptance lock_work_result_check accept_work_result_check
recorded now space_id work_id review_id user_id key digest d {c} {w} none_before hw hc ha =
    let here = work_in_space space_id work_id d hw in
    let hit = find_sound (check_of work_id review_id) d.checks hc in
    let first =
      mem-any
        (λ x.
          unaccepted work_id review_id x
          && accepted_by work_id user_id key (accepted now user_id key digest x))
        d.checks (find-mem (check_of work_id review_id) d.checks hc)
        (ground (arith, ==_refl user_id, text_eq_refl key)) in
    let (y, hy, qy) =
      find-updated (accepted_by work_id user_id key) (unaccepted work_id review_id)
        (accepted now user_id key digest) d.checks (ground arith) first in
    (y, ground (arith, hy), ground arith)

module _ (sha256 : Text → Text) where
  -- The three ways in which a locked acceptance goes well: nothing was new, or a check is marked.
  accept_locked-cases :
      (now later : ℕ) (w : Work) (work_id review_id user_id : ℕ) (key digest : Text) (d : Db)
      {d' : Db}
      → accept_locked sha256 now w work_id (uuid review_id) user_id key digest d ≡ ok d'
      → ((d' ≡ d)
          × (accept_locked sha256 later w work_id (uuid review_id) user_id key digest d ≡ ok d))
        ⊎ ((c : ResultCheck) × (lock_work_result_check work_id review_id d ≡ some c)
            × (c.acceptance ≡ none)
            × (d' ≡ (accept_work_result_check now user_id key digest work_id review_id d).1))
  unfolding accept_locked accept_review
  accept_locked-cases now later w work_id review_id user_id key digest d {d'} h =
      elim (Option-cases (lock_work_result_check work_id review_id d)) [
        | inl n ↦ absurd (ground arith)
        | inr (c, e) ↦ elim (Option-cases c.acceptance) [
          | inr (a, s) ↦ inl (ground arith, ground arith)
          | inl s ↦ inr (c, e, s, ground arith)
        ]
      ]

  accept_locked_again :
      (now later space_id : ℕ) (w : Work) (work_id review_id user_id : ℕ) (key digest : Text)
      (d : Db) {d' : Db}
      → find_work_review_acceptance work_id space_id user_id key d ≡ none
      → lock_work space_id work_id d ≡ some w
      → accept_locked sha256 now w work_id (uuid review_id) user_id key digest d ≡ ok d'
      → accept_checked sha256 later space_id work_id (uuid review_id) user_id key digest d' ≡ ok d'
  unfolding accept_checked
  accept_locked_again now later space_id w work_id review_id user_id key digest d {d'} n hw h =
      elim (accept_locked-cases now later w work_id review_id user_id key digest d h) [
        | inl (same, again) ↦
            subst
              (λ x.
                accept_checked sha256 later space_id work_id (uuid review_id) user_id key digest x
                ≡ ok x)
              (sym same) (rw (n, accept_checked, hw) again)
        | inr (c, hc, ha, e) ↦
            let (y, hy, ry) =
              recorded now space_id work_id review_id user_id key digest d n hw hc ha in
            let found : find_work_review_acceptance work_id space_id user_id key d'
                ≡ some (accepted now user_id key digest y) =
              subst
                (λ x.
                  find_work_review_acceptance work_id space_id user_id key x
                  ≡ some (accepted now user_id key digest y))
                (sym e) hy in
            ground (arith, found, ry, ==_refl review_id, text_eq_refl digest)
      ]

  accept_checked_again :
      (now later space_id work_id review_id user_id : ℕ) (key digest : Text) (d : Db) {d' : Db}
      → accept_checked sha256 now space_id work_id (uuid review_id) user_id key digest d ≡ ok d'
      → accept_checked sha256 later space_id work_id (uuid review_id) user_id key digest d' ≡ ok d'
  unfolding accept_checked
  accept_checked_again now later space_id work_id review_id user_id key digest d {d'} h =
      elim (Option-cases (find_work_review_acceptance work_id space_id user_id key d)) [
        | inr (a, e) ↦ ground arith
        | inl e ↦ elim (Option-cases (lock_work space_id work_id d)) [
          | inl n ↦ cc (rw (e, n, accept_checked) at h)
          | inr (w, s) ↦
              accept_locked_again now later space_id w work_id review_id user_id key digest d e s
                (rw (e, s, accept_checked) at h)
        ]
      ]

  accept_checked-members :
      (now space_id work_id review_id user_id : ℕ) (key digest : Text) (d : Db) {d' : Db}
      → accept_checked sha256 now space_id work_id (uuid review_id) user_id key digest d ≡ ok d'
      → d'.memberships ≡ d.memberships
  unfolding accept_checked accept_locked accept_review accept_work_result_check
  accept_checked-members now space_id work_id review_id user_id key digest d h = ground arith

module _ (sha256 : Text → Text) (spell : ℕ → Text) where
  -- A review that was accepted is accepted again for the same command, at any later time, and
  -- nothing more changes, if the command spells the uuid of the review in the canonical way.
  pub accept_work_review_again :
      (now later : ℕ) (c : AcceptReviewCommand) (d : Db) {d' : Db} (review_id : ℕ)
      → c.review_id ≡ uuid review_id
      → accept_work_review sha256 spell now c d ≡ ok d'
      → accept_work_review sha256 spell later c d' ≡ ok d'
  unfolding accept_work_review require_membership lock_active_work_membership
  accept_work_review_again now later c d {d'} review_id spelled h =
      let required =
        is_blank c.work_id
        || is_blank c.space_id
        || is_blank c.review_id
        || is_nobody c.accepted_by in
      let digest = acceptance_digest sha256 spell c.work_id c.review_id in
      let (u0, e0, h0) = >>=-eq-ok (fail_if required identity_required) _ h in
      let (key, e1, h1) = >>=-eq-ok (normalize_idempotency_key c.idempotency_key) _ h0 in
      let (u2, e2, h2) = >>=-eq-ok (parse_review c.review_id) _ h1 in
      let (space_id, e3, h3) = >>=-eq-ok (column c.space_id) _ h2 in
      let (user_id, e4, h4) = >>=-eq-ok (acting c.accepted_by) _ h3 in
      let (u5, e5, h5) = >>=-eq-ok (require_membership space_id user_id d) _ h4 in
      let (work_id, e6, h6) = >>=-eq-ok (column c.work_id) _ h5 in
      let here =
        subst (λ i. accept_checked sha256 now space_id work_id i user_id key digest d ≡ ok d')
          spelled h6 in
      let members =
        accept_checked-members sha256 now space_id work_id review_id user_id key digest d here in
      let again =
        subst (λ i. accept_checked sha256 later space_id work_id i user_id key digest d' ≡ ok d')
          (sym spelled)
          (accept_checked_again sha256 now later space_id work_id review_id user_id key digest d
            here) in
      >>=-ok (fail_if required identity_required) _ e0 (
        >>=-ok (normalize_idempotency_key c.idempotency_key) _ e1 (
          >>=-ok (parse_review c.review_id) _ e2 (
            >>=-ok (column c.space_id) _ e3 (
              >>=-ok (acting c.accepted_by) _ e4 (
                >>=-ok (require_membership space_id user_id d') _ (ground arith)
                  (>>=-ok (column c.work_id) _ e6 again))))))
