-- ===== src/Works/Accept.antt =====
-- AcceptWorkReview of internal/postgres/work.go.
use carry.Prelude.{ℕ, Bool, ◌&&◌, ◌||◌, not, [], ◌∷◌, Option, none, some, ◌==◌, if◌then◌else◌}
use carry.Result.{
  Result, ok, err, ◌>>=◌, ◌>>◌, fail_if, or_fail, identity_required, idempotency_conflict,
  not_found, not_open, forbidden, review_not_current,
}
use carry.Text.{Text, text_eq}
use carry.Digest.{encode_fields}
use carry.Work.{normalize_idempotency_key}
use carry.Store.Tables.{Db, Work, ResultCheck, Acceptance, is_open}
use carry.Store.Retries.{lock_work}
use carry.Store.Works.{
  find_work_review_acceptance, lock_work_result_check, accept_work_result_check,
}
use carry.Execution.Claim.{text_value}
use carry.Execution.Retry.{
  is_valid, Principal, is_nobody, acting, text_of, is_text_of, Identifier, is_blank, column,
  require_membership,
}

-- `work.AcceptReviewCommand`.
pub record AcceptReviewCommand : Type 0 where
  pub work_id : Identifier
  pub space_id : Identifier
  pub review_id : Identifier
  pub accepted_by : Principal
  pub idempotency_key : Text

-- `uuid.Parse(command.ReviewID)`, which only tests the text.
abbrev pub parse_review : Identifier → Result (Unit {0})
parse_review review_id = fail_if (not (is_valid review_id)) review_not_current

-- An acceptance that the same member sent before, under the same key and digest.
abbrev pub is_replay : ℕ → Text → Text → Acceptance → Bool
is_replay user_id key digest a =
    a.accepted_by_user_id == user_id
    && text_eq a.idempotency_key key
    && text_eq a.request_digest digest

-- The digest that a recorded acceptance holds.
abbrev pub accepted_digest : Option Acceptance → Text
accepted_digest none = []
accepted_digest (some a) = a.request_digest

module _ (sha256 : Text → Text) where
  -- The check is about the understanding that the Work has now, and nothing was said since.
  abbrev pub is_current : Work → ResultCheck → Bool
  is_current w c =
      c.understanding_version == w.understanding_version
      && w.applied_input_seq == w.input_head_seq
      && text_eq c.content_digest
          (sha256 (encode_fields (text_value w.understanding ∷ text_value w.next_step ∷ [])))

  -- The acceptance of a review by the owner of its open Work.
  unfoldable pub accept_review : ℕ → Work → ℕ → ℕ → ℕ → Text → Text → Db → Result Db
  accept_review now w work_id review_id user_id key digest db = do
    c ← or_fail (lock_work_result_check work_id review_id db) review_not_current
    let (rows, db') = accept_work_result_check now user_id key digest work_id review_id db
    elim c.acceptance [
      | some a ↦ if is_replay user_id key digest a then ok db else err review_not_current
      | none ↦ if is_current w c && rows == 1 then ok db' else err review_not_current
    ]

  -- The rest of the transaction, once the Work is locked.
  unfoldable pub accept_locked : ℕ → Work → ℕ → Identifier → ℕ → Text → Text → Db → Result Db
  accept_locked now w work_id review user_id key digest db = do
    fail_if (not (w.owner_user_id == user_id)) forbidden
    fail_if (not (is_open w.lifecycle)) not_open
    review_id ← column review
    accept_review now w work_id review_id user_id key digest db

  -- The rest of the transaction, once the member is known. The review that was accepted under the key
  -- is compared with the text of the command.
  unfoldable pub accept_checked : ℕ → ℕ → ℕ → Identifier → ℕ → Text → Text → Db → Result Db
  accept_checked now space_id work_id review user_id key digest db =
      elim (find_work_review_acceptance work_id space_id user_id key db) [
        | some e ↦
            if is_text_of e.review_id review && text_eq (accepted_digest e.acceptance) digest
            then ok db
            else err idempotency_conflict
        | none ↦ elim (lock_work space_id work_id db) [
          | none ↦ err not_found
          | some w ↦ accept_locked now w work_id review user_id key digest db
        ]
      ]

module _ (sha256 : Text → Text) (spell : ℕ → Text) where
  -- `ReviewAcceptanceDigest`, of the identifiers as they are spelled.
  abbrev pub acceptance_digest : Identifier → Identifier → Text
  acceptance_digest work_id review_id =
      sha256 (encode_fields (text_of spell work_id ∷ text_of spell review_id ∷ []))

  -- AcceptWorkReview.
  unfoldable pub accept_work_review : ℕ → AcceptReviewCommand → Db → Result Db
  accept_work_review now c db = do
    fail_if
        (is_blank c.work_id
          || is_blank c.space_id
          || is_blank c.review_id
          || is_nobody c.accepted_by)
        identity_required
    key ← normalize_idempotency_key c.idempotency_key
    parse_review c.review_id
    space_id ← column c.space_id
    user_id ← acting c.accepted_by
    require_membership space_id user_id db
    work_id ← column c.work_id
    accept_checked sha256 now space_id work_id c.review_id user_id key
        (acceptance_digest c.work_id c.review_id) db
